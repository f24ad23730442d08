-- ===== src/Archive/Inside.antt =====
-- What Unzip writes stays in the destination directory.
use popcorn_images.Base.{
  ◌≡◌, refl, Option, none, some, List, [], ◌∷◌, ◌++◌, Bool, true, not, ◌&&◌, ◌||◌, Text, Error,
  codes, text_eq, text_eq_refl, has_prefix, clean, join_path, arith, Bool-cases, inl, inr,
}
use popcorn_images.Archive.{
  Entry, FileOp, make_dir, make_parent, open_entry, create_file, copy_to, Ops, acted, act, extract,
  extract_all, unzip,
}
use popcorn_images.Archive.Paths.{goes_up, join_path-down}

-- The directory itself, or a path that starts with it and never goes up.
abbrev pub is_inside : Text → Text → Bool
is_inside dir path =
    text_eq path dir || (has_prefix path (clean dir ++ codes "/") && not (goes_up path))

abbrev pub op_inside : Text → FileOp → Bool
op_inside dir (make_dir path) = is_inside dir path
op_inside dir (make_parent path) = is_inside dir path
op_inside dir (open_entry name) = true
op_inside dir (create_file path) = is_inside dir path
op_inside dir (copy_to path) = is_inside dir path

abbrev pub all_inside : Text → Ops → Bool
all_inside dir [] = true
all_inside dir (op ∷ ops) = op_inside dir op && all_inside dir ops

module _ (answers : Ops → FileOp → Option Error) (dir : Text) where
  acted-inside :
      (rest : Ops → Option Error × Ops) (ops : Ops) (o : Option Error)
      → ((ops' : Ops) → all_inside dir ops' ≡ true → all_inside dir (rest ops').1 ≡ true)
      → all_inside dir ops ≡ true
      → all_inside dir (acted rest ops o).1 ≡ true
  unfolding acted
  acted-inside rest ops none k h = k ops h
  acted-inside rest ops (some e) k h = h

  act-inside :
      (op : FileOp) (message : Text) (rest : Ops → Option Error × Ops) (ops : Ops)
      → op_inside dir op ≡ true
      → ((ops' : Ops) → all_inside dir ops' ≡ true → all_inside dir (rest ops').1 ≡ true)
      → all_inside dir ops ≡ true
      → all_inside dir (act answers op message rest ops).1 ≡ true
  unfolding act
  act-inside op message rest ops i k h = acted-inside rest (op ∷ ops) _ k (rw (i, h) refl)

  extract-inside :
      (file : Entry) (path : Text) (rest : Ops → Option Error × Ops) (ops : Ops)
      → is_inside dir path ≡ true
      → ((ops' : Ops) → all_inside dir ops' ≡ true → all_inside dir (rest ops').1 ≡ true)
      → all_inside dir ops ≡ true
      → all_inside dir (extract answers file path rest ops).1 ≡ true
  unfolding extract
  extract-inside file path rest ops i k h = elim (Bool-cases file.is_dir) [
    | inl d ↦ rw d (act-inside (make_dir path) _ rest ops i k h)
    | inr d ↦ rw d (
        act-inside (make_parent path) _ _ ops i
          (λ ops1 h1.
            act-inside (open_entry file.name) _ _ ops1 refl
              (λ ops2 h2.
                act-inside (create_file path) _ _ ops2 i
                  (λ ops3 h3. act-inside (copy_to path) _ rest ops3 i k h3) h2)
              h1)
          h)
  ]

  module _ (rooted : has_prefix dir (codes "/") ≡ true) where
    checked-inside :
        (name : Text)
        → has_prefix (join_path dir name) (clean dir ++ codes "/") ≡ true
        → is_inside dir (join_path dir name) ≡ true
    checked-inside name p = ground (arith, p, join_path-down dir name rooted)

    extract_all-inside :
        (files : List Entry) (ops : Ops)
        → all_inside dir ops ≡ true
        → all_inside dir (extract_all answers dir files ops).1 ≡ true
    unfolding extract_all
    extract_all-inside [] ops h = h
    extract_all-inside (file ∷ files) ops h =
        elim (Bool-cases (has_prefix (join_path dir file.name) (clean dir ++ codes "/"))) [
          | inl p ↦ rw p (
              extract-inside file (join_path dir file.name) (extract_all answers dir files) ops
                (checked-inside file.name p) (extract_all-inside files) h)
          | inr p ↦ rw p h
        ]

-- Unzip of any archive into a directory with an absolute path, whatever fails on the way: each path
-- that it makes, opens for writing or copies to is the directory itself, or starts with the
-- cleaned directory and a slash and has no element "..".
pub unzip-inside :
    (answers : Ops → FileOp → Option Error) (dir : Text) (archive : Option (List Entry))
    → has_prefix dir (codes "/") ≡ true
    → all_inside dir (unzip answers archive dir []).1 ≡ true
unfolding unzip
unzip-inside answers dir none rooted = refl
unzip-inside answers dir (some files) rooted =
    act-inside answers dir (make_dir dir) _ _ [] (rw (text_eq_refl dir) refl)
      (extract_all-inside answers dir rooted files) refl
