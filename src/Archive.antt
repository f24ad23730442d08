-- ===== src/Archive.antt =====
-- Unzip of lib/ziputil/ziputil.go: the paths that it writes to. The archive is a list of entries;
-- the answers of the operating system are a function of the operations before.
pub mod Paths
pub mod Inside
mod Examples
use popcorn_images.Base.{
  Option, none, some, List, [], ◌∷◌, ◌++◌, Bool, Text, Error, codes, clean, has_prefix, join_path,
  if◌then◌else◌,
}

pub record Entry : Type 0 where
  pub name : Text
  pub is_dir : Bool

-- os.MkdirAll of a path, of the parent of a path, the opening of an entry, and os.OpenFile and
-- io.Copy of a path
pub data FileOp : Type 0 where
  make_dir make_parent open_entry create_file copy_to : Text → FileOp

abbrev pub Ops : Type 0
Ops = List FileOp

unfoldable pub failure : Text → Option Error → Option Error
failure message none = none
failure message (some e) = some (message ++ e)

unfoldable pub acted : (Ops → Option Error × Ops) → Ops → Option Error → Option Error × Ops
acted rest ops none = rest ops
acted rest ops (some e) = (some e, ops)

module _ (answers : Ops → FileOp → Option Error) where
  -- One operation, the newest in front; a failure ends.
  unfoldable pub act : FileOp → Text → (Ops → Option Error × Ops) → Ops → Option Error × Ops
  unfolding failure acted
  act op message rest ops = acted rest (op ∷ ops) (failure message (answers ops op))

  -- The body of the loop for an entry behind the check of its path.
  unfoldable pub extract : Entry → Text → (Ops → Option Error × Ops) → Ops → Option Error × Ops
  extract file dest_path rest =
      if file.is_dir
      then act (make_dir dest_path) (codes "failed to create directory: ") rest
      else act (make_parent dest_path) (codes "failed to create directory path: ") (
          act (open_entry file.name) (codes "failed to open file in zip: ") (
            act (create_file dest_path) (codes "failed to create destination file: ")
              (act (copy_to dest_path) (codes "failed to extract file: ") rest)))

  -- The loop over the entries.
  unfoldable pub extract_all : Text → List Entry → Ops → Option Error × Ops
  extract_all dest_dir [] ops = (none, ops)
  extract_all dest_dir (file ∷ files) ops =
      let rest = extract_all dest_dir files in
      let dest_path = join_path dest_dir file.name in
      if has_prefix dest_path (clean dest_dir ++ codes "/")
      then extract file dest_path rest ops
      else (some (codes "illegal file path: " ++ file.name), ops)

  -- Unzip, of an archive that can be opened or not
  unfoldable pub unzip : Option (List Entry) → Text → Ops → Option Error × Ops
  unzip none dest_dir ops = (some (codes "failed to open zip file"), ops)
  unzip (some files) dest_dir ops =
      act (make_dir dest_dir) (codes "failed to create destination directory: ")
        (extract_all dest_dir files) ops
