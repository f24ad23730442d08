-- ===== src/Files/Changing.antt =====
-- WriteFile, CreateDirectory, DeleteFile, DeleteDirectory, MovePath and SetFilePermissions of
-- cmd/api/api/fs.go.
use popcorn_images.Base.{
  ℕ, ℤ, pos, negsuc, Option, none, some, is_some, Bool, not, ◌&&◌, ◌||◌, Text, codes, is_empty,
  dir_name, atoi, or_else, ◌>>=◌, leb_ℤ, ltb_ℤ, if◌then◌else◌,
}
use popcorn_images.Files.{
  close_file, copy_to, remove, remove_all, mkdir_all, create_file, chmod, rename, chown, Trace, Os,
  Failure, Reply, done_200, created_201, bad_request_400, internal_500, ran, try, failed,
  missing_or, parse_octal, mode_or,
}

pub data Nothing : Type 0 where
  nothing : Nothing

-- The body of CreateDirectory and of SetFilePermissions
pub record ModeRequest : Type 0 where
  pub path : Text
  pub mode : Option Text

pub record Permissions : Type 0 where
  pub path : Text
  pub mode : Text
  pub owner : Option Text
  pub group : Option Text

pub record Move : Type 0 where
  pub src_path : Text
  pub dest_path : Text

-- The deferred Close of the file behind a failed copy
unfoldable pub close_failed : Os → Text → Text → Failure → Trace → Reply Nothing × Trace
close_failed os path message e t = (internal_500 message, ran os (close_file path) t)

unfoldable pub write_mode : Os → Text → Option ℕ → Trace → Reply Nothing × Trace
unfolding close_failed failed
write_mode os path none t = (bad_request_400 (codes "invalid mode"), t)
write_mode os path (some perm) t =
    try os (create_file path perm) (failed (codes "unable to create file"))
      (try os (copy_to path) (close_failed os path (codes "failed to write data"))
        (λ t'. (created_201 nothing, ran os (close_file path) t')))
      t

-- WriteFile, of a request with a body or without one
unfoldable pub write_file : Os → Text → Option Text → Bool → Trace → Reply Nothing × Trace
unfolding write_mode
write_file os path mode has_body t =
    if is_empty path
    then (bad_request_400 (codes "path cannot be empty"), t)
    else if not has_body
    then (bad_request_400 (codes "empty request body"), t)
    else try os (mkdir_all (dir_name path) 0o755) (failed (codes "unable to create directories"))
        (write_mode os path (mode_or 0o644 mode)) t

unfoldable pub create_mode : Os → Text → Option ℕ → Trace → Reply Nothing × Trace
create_mode os path none t = (bad_request_400 (codes "invalid mode"), t)
create_mode os path (some perm) t =
    try os (mkdir_all path perm) (failed (codes "failed to create directory"))
      (λ t'. (created_201 nothing, t')) t

-- CreateDirectory
unfoldable pub create_directory : Os → Option ModeRequest → Trace → Reply Nothing × Trace
unfolding create_mode
create_directory os none t = (bad_request_400 (codes "request body required"), t)
create_directory os (some body) t =
    if is_empty body.path
    then (bad_request_400 (codes "path cannot be empty"), t)
    else create_mode os body.path (mode_or 0o755 body.mode) t

-- DeleteFile
unfoldable pub delete_file : Os → Option Text → Trace → Reply Nothing × Trace
delete_file os none t = (bad_request_400 (codes "request body required"), t)
delete_file os (some path) t =
    if is_empty path
    then (bad_request_400 (codes "path cannot be empty"), t)
    else try os (remove path) (missing_or (codes "file not found") (codes "failed to delete file"))
        (λ t'. (done_200 nothing, t')) t

-- DeleteDirectory
unfoldable pub delete_directory : Os → Option Text → Trace → Reply Nothing × Trace
delete_directory os none t = (bad_request_400 (codes "request body required"), t)
delete_directory os (some path) t =
    if is_empty path
    then (bad_request_400 (codes "path cannot be empty"), t)
    else try os (remove_all path)
        (missing_or (codes "directory not found") (codes "failed to delete directory"))
        (λ t'. (done_200 nothing, t')) t

-- MovePath
unfoldable pub move_path : Os → Option Move → Trace → Reply Nothing × Trace
move_path os none t = (bad_request_400 (codes "request body required"), t)
move_path os (some body) t =
    if is_empty body.src_path || is_empty body.dest_path
    then (bad_request_400 (codes "src_path and dest_path required"), t)
    else try os (rename body.src_path body.dest_path)
        (missing_or (codes "source not found") (codes "failed to move path"))
        (λ t'. (done_200 nothing, t')) t

-- An id that strconv.Atoi reads, and that is not negative
natural : Option ℤ → Option ℤ
natural none = none
natural (some id) = if leb_ℤ (pos 0) id then some id else none

read_id : Text → Option ℤ
unfolding natural
read_id s = natural (atoi s)

-- The id of an owner or of a group: its digits, or what the database has for its name, or -1
unfoldable pub id_of : (Text → Option Text) → Option Text → ℤ
unfolding read_id
id_of lookup_name none = negsuc 0
id_of lookup_name (some name) = or_minus_one (or_else (read_id name) (lookup_name name >>= read_id))
  where
    or_minus_one : Option ℤ → ℤ
    or_minus_one none = negsuc 0
    or_minus_one (some id) = id

is_set : ℤ → Bool
is_set id = ltb_ℤ id (negsuc 0) || ltb_ℤ (negsuc 0) id

-- The chown behind the chmod, whose error is ignored
unfoldable pub change_owner : Os → Permissions → Trace → Trace
unfolding is_set id_of
change_owner os body t =
    let uid = id_of os.lookup_user body.owner in
    let gid = id_of os.lookup_group body.group in
    if (is_some body.owner || is_some body.group) && (is_set uid || is_set gid)
    then ran os (chown body.path uid gid) t
    else t

unfoldable pub permit : Os → Permissions → Option ℕ → Trace → Reply Nothing × Trace
permit os body none t = (bad_request_400 (codes "invalid mode"), t)
permit os body (some mode) t =
    try os (chmod body.path mode) (missing_or (codes "path not found") (codes "failed to chmod"))
      (λ t'. (done_200 nothing, change_owner os body t')) t

-- SetFilePermissions
unfoldable pub set_file_permissions : Os → Option Permissions → Trace → Reply Nothing × Trace
unfolding permit change_owner
set_file_permissions os none t = (bad_request_400 (codes "request body required"), t)
set_file_permissions os (some body) t =
    if is_empty body.path
    then (bad_request_400 (codes "path cannot be empty"), t)
    else permit os body (parse_octal body.mode) t
