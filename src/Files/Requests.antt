-- ===== src/Files/Requests.antt =====
-- The file requests with the calls that they make, and the status that they call for.
use popcorn_images.Base.{
  ℕ, Option, none, some, is_some, List, [], ◌∷◌, Bool, true, false, not, ◌&&◌, Text, is_empty,
  if◌then◌else◌,
}
use popcorn_images.Files.{
  Failure, not_exist, other, Call, stat_open, close_file, copy_to, mkdir_all, create_file, chown,
  Trace, DirEntry, Os, Reply, done_200, created_201, bad_request_400, not_found_404, internal_500,
  parse_octal, mode_or,
}
use popcorn_images.Files.Reading.{read_file, list_files, file_info}
use popcorn_images.Files.Changing.{
  ModeRequest, Permissions, Move, write_file, create_directory, delete_file, delete_directory,
  move_path, set_file_permissions,
}

pub data Request : Type 0 where
  reading listing informing : Text → Request
  writing : Text → Option Text → Bool → Request
  creating : Option ModeRequest → Request
  deleting deleting_directory : Option Text → Request
  moving : Option Move → Request
  permitting : Option Permissions → Request

unfoldable pub status : {A : Type 0} → Reply A → ℕ
status (done_200 a) = 200
status (created_201 a) = 201
status (bad_request_400 m) = 400
status (not_found_404 m) = 404
status (internal_500 m) = 500

unfoldable pub with_status : {A : Type 0} → Reply A × Trace → ℕ × Trace
unfolding status
with_status x = (status x.0, x.1)

-- A request, and the status of its reply with the calls that it made
unfoldable pub serve : Os → Request → ℕ × Trace
unfolding with_status
serve os (reading path) = with_status (read_file os path [])
serve os (listing path) = with_status (list_files os path [])
serve os (informing path) = with_status (file_info os path [])
serve os (writing path mode has_body) = with_status (write_file os path mode has_body [])
serve os (creating body) = with_status (create_directory os body [])
serve os (deleting path) = with_status (delete_file os path [])
serve os (deleting_directory path) = with_status (delete_directory os path [])
serve os (moving body) = with_status (move_path os body [])
serve os (permitting body) = with_status (set_file_permissions os body [])

-- A request that has what it needs, with a mode in octal digits
abbrev pub valid : Request → Bool
valid (reading path) = not (is_empty path)
valid (listing path) = not (is_empty path)
valid (informing path) = not (is_empty path)
valid (writing path mode has_body) =
    not (is_empty path) && (has_body && is_some (mode_or 0o644 mode))
valid (creating none) = false
valid (creating (some body)) = not (is_empty body.path) && is_some (mode_or 0o755 body.mode)
valid (deleting none) = false
valid (deleting (some path)) = not (is_empty path)
valid (deleting_directory none) = false
valid (deleting_directory (some path)) = not (is_empty path)
valid (moving none) = false
valid (moving (some body)) = not (is_empty body.src_path) && not (is_empty body.dest_path)
valid (permitting none) = false
valid (permitting (some body)) = not (is_empty body.path) && is_some (parse_octal body.mode)

abbrev pub all_info : List DirEntry → Bool
all_info [] = true
all_info (entry ∷ entries) = is_some entry.info && all_info entries

abbrev pub fulfilled : Os → Request → Trace → ℕ
fulfilled os (listing path) t = if all_info (os.entries_of t path) then 200 else 500
fulfilled os (writing path mode has_body) t = 201
fulfilled os (creating body) t = 201
fulfilled os request t = 200

-- The status for a call with os.ErrNotExist
abbrev pub missing : Call → ℕ
missing (stat_open path) = 500
missing (copy_to path) = 500
missing (mkdir_all path mode) = 500
missing (create_file path mode) = 500
missing call = 404

abbrev pub is_ignored : Call → Bool
is_ignored (close_file path) = true
is_ignored (chown path uid gid) = true
is_ignored call = false

abbrev pub failure_status : Call → Failure → ℕ
failure_status call not_exist = missing call
failure_status call (other e) = 500

-- The failure among the calls that counts, by its status
abbrev pub failure_of : Trace → Option ℕ
failure_of [] = none
failure_of ((call, none) ∷ t) = failure_of t
failure_of ((call, some e) ∷ t) =
    if is_ignored call then failure_of t else some (failure_status call e)

abbrev pub or_status : Option ℕ → ℕ → ℕ
or_status none n = n
or_status (some m) n = m

-- The status that the calls and the request call for
abbrev pub expected : Os → Request → Trace → ℕ
expected os request t =
    or_status (failure_of t) (if valid request then fulfilled os request t else 400)
