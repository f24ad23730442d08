-- ===== src/Uploads/Several.antt =====
-- UploadFiles of cmd/api/api/fs.go: the parts of several files in any order, each file first in a
-- temporary file. The order of a Go map is not fixed; here it is that of the first part of each.
use popcorn_images.Base.{
  ℕ, Option, none, some, List, [], ◌∷◌, ◌++◌, Bool, not, ◌||◌, ◌==◌, Text, codes, text_eq, is_empty,
  dir_name, if◌then◌else◌,
}
use popcorn_images.Files.{
  Failure, not_exist, other, close_file, copy_to, remove, mkdir_all, open_file, create_file,
  create_temp, copy_file, Trace, Os, Reply, created_201, bad_request_400, not_found_404,
  internal_500, ran, try,
}
use popcorn_images.Uploads.{Part, Body, dest_of}
use popcorn_images.Uploads.Fields.{Field, parse_index_and_field}
use popcorn_images.Uploads.Archives.{Uploaded, uploaded}

pub record PendingUpload : Type 0 where
  pub temp_path : Text
  pub dest_path : Text
  pub file_received : Bool

abbrev pub Uploads : Type 0
Uploads = List (ℕ × PendingUpload)

abbrev no_upload : PendingUpload
no_upload = record { temp_path = []; dest_path = []; file_received = Bool.false }

-- uploads[idx], which is made where it is missing, and its change
unfoldable pub update : ℕ → (PendingUpload → PendingUpload) → Uploads → Uploads
update i f [] = (i, f no_upload) ∷ []
update i f ((j, u) ∷ us) = if j == i then (j, f u) ∷ us else (j, u) ∷ update i f us

abbrev pub Answer : Type 0
Answer = Reply Uploaded × Trace

-- What is left of the loop, over the uploads and createdTemps
abbrev pub Rest : Type 0
Rest = Uploads → List Text → Trace → Answer

unfoldable pub set_file : Text → PendingUpload → PendingUpload
set_file tmp u = record u { temp_path = tmp; file_received = Bool.true }

unfoldable pub set_dest : Text → PendingUpload → PendingUpload
set_dest dest u = record u { dest_path = dest }

module _ (os : Os) where
  -- The deferred function: os.Remove is called on each temporary file.
  unfoldable pub remove_temps : List Text → Trace → Trace
  remove_temps [] t = t
  remove_temps (tmp ∷ temps) t = remove_temps temps (ran os (remove tmp) t)

  unfoldable pub leave : List Text → Reply Uploaded → Trace → Answer
  unfolding remove_temps
  leave temps r t = (r, remove_temps temps t)

  unfoldable pub after_open : List Text → Text → Failure → Trace → Answer
  unfolding leave
  after_open temps tmp not_exist t =
      leave temps (not_found_404 (codes "destination not found")) (ran os (close_file tmp) t)
  after_open temps tmp (other e) t =
      leave temps (internal_500 (codes "failed to open destination file"))
        (ran os (close_file tmp) t)

  -- An upload to its destination, and the uploads behind it
  unfoldable pub materialize : List Text → PendingUpload → (Trace → Answer) → Trace → Answer
  unfolding leave after_open
  materialize temps u rest t =
      if not u.file_received || is_empty u.dest_path
      then leave temps (bad_request_400 (codes "each item must include file and dest_path")) t
      else try os (mkdir_all (dir_name u.dest_path) 0o755)
          (λ e. leave temps (internal_500 (codes "failed to create destination directories")))
          (try os (open_file u.temp_path) (λ e. leave temps (internal_500 (codes "internal error")))
            (try os (create_file u.dest_path 0o644) (after_open temps u.temp_path) (
              try os (copy_file u.temp_path u.dest_path)
                (λ e t'.
                  leave temps (internal_500 (codes "failed to write destination file"))
                    (ran os (close_file u.dest_path) (ran os (close_file u.temp_path) t')))
                (λ t'.
                  try os (close_file u.dest_path)
                    (λ e. leave temps (internal_500 (codes "internal error"))) rest
                    (ran os (close_file u.temp_path) t')))))
          t

  unfoldable pub materialize_all : List Text → Uploads → Trace → Answer
  unfolding materialize leave
  materialize_all temps [] t = leave temps (created_201 uploaded) t
  materialize_all temps ((i, u) ∷ us) t = materialize temps u (materialize_all temps us) t

  unfoldable pub finish : Rest
  unfolding materialize_all leave
  finish [] temps t = leave temps (bad_request_400 (codes "no files provided")) t
  finish (u ∷ us) temps t = materialize_all temps (u ∷ us) t

  unfoldable pub file_part : ℕ → Rest → Rest
  unfolding leave update set_file
  file_part i rest us temps t =
      let tmp = os.temp_of t in
      try os (create_temp tmp) (λ e. leave temps (internal_500 (codes "internal error")))
        (try os (copy_to tmp)
          (λ e t'.
            leave (temps ++ tmp ∷ []) (bad_request_400 (codes "failed to read upload data"))
              (ran os (close_file tmp) t'))
          (try os (close_file tmp)
            (λ e. leave (temps ++ tmp ∷ []) (internal_500 (codes "internal error")))
            (rest (update i (set_file tmp) us) (temps ++ tmp ∷ []))))
        t

  unfoldable pub dest_checked : ℕ → Rest → Option Text → Rest
  unfolding leave update set_dest
  dest_checked i rest none us temps t =
      leave temps (bad_request_400 (codes "dest_path must be an absolute path")) t
  dest_checked i rest (some dest) us temps t = rest (update i (set_dest dest) us) temps t

  unfoldable pub dest_part : ℕ → Rest → Option Text → Rest
  unfolding leave dest_checked
  dest_part i rest none us temps t =
      leave temps (bad_request_400 (codes "failed to read dest_path")) t
  dest_part i rest (some content) us temps t = dest_checked i rest (dest_of content) us temps t

  unfoldable pub field_part : Part → Rest → Field → Rest
  unfolding leave file_part dest_part
  field_part part rest none us temps t =
      leave temps (bad_request_400 (codes "invalid form field: " ++ part.name)) t
  field_part part rest (some (i, field)) us temps t =
      if text_eq field (codes "file")
      then file_part i rest us temps t
      else if text_eq field (codes "dest_path")
      then dest_part i rest part.content us temps t
      else leave temps (bad_request_400 (codes "invalid field: " ++ field)) t

  unfoldable pub read_parts : Body → Rest
  unfolding leave field_part finish
  read_parts [] us temps t = finish us temps t
  read_parts (none ∷ parts) us temps t =
      leave temps (bad_request_400 (codes "failed to read form part")) t
  read_parts (some part ∷ parts) us temps t =
      field_part part (read_parts parts) (parse_index_and_field part.name) us temps t

  -- UploadFiles
  unfoldable pub upload_files : Option Body → Trace → Answer
  unfolding read_parts
  upload_files none t = (bad_request_400 (codes "request body required"), t)
  upload_files (some parts) t = read_parts parts [] [] t
