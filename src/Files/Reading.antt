-- ===== src/Files/Reading.antt =====
-- ReadFile, ListFiles and FileInfo of cmd/api/api/fs.go.
use popcorn_images.Base.{
  ℤ, pos, Option, none, some, List, [], ◌∷◌, Bool, Text, codes, is_empty, join_path, base,
  if◌then◌else◌,
}
use popcorn_images.Files.{
  open_file, stat_open, close_file, read_dir, stat, Trace, Info, DirEntry, Os, Reply, done_200,
  bad_request_400, internal_500, Failure, ran, try, missing_or,
}

pub record FileInfo : Type 0 where
  pub name : Text
  pub path : Text
  pub is_dir : Bool
  pub size_bytes : ℤ
  pub mod_time : ℤ
  pub mode : Text

unfoldable pub size_of : Info → ℤ
size_of info = if info.is_dir then pos 0 else info.size

unfoldable pub close_failed : Os → Text → Text → Failure → Trace → Reply ℤ × Trace
close_failed os path message e t = (internal_500 message, ran os (close_file path) t)

-- ReadFile: the reply has the length of its body.
unfoldable pub read_file : Os → Text → Trace → Reply ℤ × Trace
unfolding close_failed
read_file os path t =
    if is_empty path
    then (bad_request_400 (codes "path cannot be empty"), t)
    else try os (open_file path) (missing_or (codes "file not found") (codes "unable to open file"))
        (try os (stat_open path) (close_failed os path (codes "unable to stat file"))
          (λ t'. (done_200 (os.info_of t' path).size, t')))
        t

list_entry : Text → DirEntry → Info → FileInfo
unfolding size_of
list_entry path entry info = record {
  name = entry.name;
  path = join_path path entry.name;
  is_dir = entry.is_dir;
  size_bytes = size_of info;
  mod_time = info.mod_time;
  mode = info.mode;
}

unfoldable pub list_or_fail :
    Text → DirEntry → Option Info → Reply (List FileInfo) → Reply (List FileInfo)
unfolding list_entry
list_or_fail path entry none rest = internal_500 (codes "failed to stat directory entry")
list_or_fail path entry (some info) (done_200 list) = done_200 (list_entry path entry info ∷ list)
list_or_fail path entry (some info) rest = rest

-- The loop over the entries: the first one without an Info ends it.
unfoldable pub list_entries : Text → List DirEntry → Reply (List FileInfo)
unfolding list_or_fail
list_entries path [] = done_200 []
list_entries path (entry ∷ entries) = list_or_fail path entry entry.info (list_entries path entries)

-- ListFiles
unfoldable pub list_files : Os → Text → Trace → Reply (List FileInfo) × Trace
list_files os path t =
    if is_empty path
    then (bad_request_400 (codes "path cannot be empty"), t)
    else try os (read_dir path)
        (missing_or (codes "directory not found") (codes "failed to read directory"))
        (λ t'. (list_entries path (os.entries_of t' path), t')) t

unfoldable pub info_reply : Text → Info → FileInfo
unfolding size_of
info_reply path info = record {
  name = base path;
  path = path;
  is_dir = info.is_dir;
  size_bytes = size_of info;
  mod_time = info.mod_time;
  mode = info.mode;
}

-- FileInfo
unfoldable pub file_info : Os → Text → Trace → Reply FileInfo × Trace
unfolding info_reply
file_info os path t =
    if is_empty path
    then (bad_request_400 (codes "path cannot be empty"), t)
    else try os (stat path) (missing_or (codes "path not found") (codes "failed to stat path"))
        (λ t'. (done_200 (info_reply path (os.info_of t' path)), t')) t
