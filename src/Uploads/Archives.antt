-- ===== src/Uploads/Archives.antt =====
-- UploadZip, UploadZstd, DownloadDirZip and DownloadDirZstd of cmd/api/api/fs.go. The zip archive
-- is what Unzip finds in the file; packing, and tar with zstd, are arguments.
use popcorn_images.Base.{
  ℕ, ℤ, pos, negsuc, Option, none, some, List, [], ◌∷◌, ◌++◌, Bool, true, false, not, ◌||◌, Text,
  Error, codes, text_eq, is_empty, trim_space, atoi, if◌then◌else◌,
}
use popcorn_images.Archive.{Entry, FileOp, Ops, unzip}
use popcorn_images.Files.{
  Failure, other, close_file, copy_to, remove, mkdir_all, create_temp, extract, Trace, Os, Reply,
  created_201, bad_request_400, internal_500, ran, try,
}
use popcorn_images.Uploads.{Part, Body, dest_of, contains}

pub data Uploaded : Type 0 where
  uploaded : Uploaded

-- What the parts have said so far
pub record Seen : Type 0 where
  pub dest_path : Text
  pub received : Bool
  pub strip_components : ℕ

abbrev pub nothing_seen : Seen
nothing_seen = record { dest_path = []; received = false; strip_components = 0 }

abbrev Answer : Type 0
Answer = Reply Uploaded × Trace

-- The deferred functions: Close and Remove of the temporary file
unfoldable pub leave_temp : Os → Text → Reply Uploaded → Trace → Answer
leave_temp os tmp r t = (r, ran os (remove tmp) (ran os (close_file tmp) t))

unfoldable pub invalid_zip : Text → Bool
unfolding contains
invalid_zip msg =
    contains msg (codes "failed to open zip file") || contains msg (codes "illegal file path")

unfoldable pub zip_reply : Option Error → Reply Uploaded
unfolding invalid_zip
zip_reply none = created_201 uploaded
zip_reply (some msg) =
    if invalid_zip msg
    then bad_request_400 (codes "invalid zip file")
    else internal_500 (codes "failed to extract zip")

unfoldable pub failure_of : Option Error → Option Failure
failure_of none = none
failure_of (some e) = some (other e)

-- Unzip, and the reply to its error
unfoldable pub extracted : Os → Text → Text → Option Error × Ops → Trace → Answer
unfolding leave_temp zip_reply failure_of
extracted os tmp dest (err, ops) t =
    leave_temp os tmp (zip_reply err) ((extract dest ops, failure_of err) ∷ t)

module _ (os : Os) where
  unfoldable pub zip_dest : Text → (Seen → Trace → Answer) → Seen → Option Text → Trace → Answer
  unfolding leave_temp
  zip_dest tmp rest seen none t =
      leave_temp os tmp (bad_request_400 (codes "dest_path must be an absolute path")) t
  zip_dest tmp rest seen (some dest) t = rest (record seen { dest_path = dest }) t

  unfoldable pub zip_dest_content :
      Text → (Seen → Trace → Answer) → Seen → Option Text → Trace → Answer
  unfolding leave_temp zip_dest
  zip_dest_content tmp rest seen none t =
      leave_temp os tmp (bad_request_400 (codes "failed to read dest_path")) t
  zip_dest_content tmp rest seen (some content) t = zip_dest tmp rest seen (dest_of content) t

  -- A part, and the rest of the loop behind it
  unfoldable pub zip_part : Text → Part → (Seen → Trace → Answer) → Seen → Trace → Answer
  unfolding leave_temp zip_dest_content
  zip_part tmp part rest seen t =
      if text_eq part.name (codes "zip_file")
      then try os (copy_to tmp)
          (λ e. leave_temp os tmp (bad_request_400 (codes "failed to read zip file")))
          (rest (record seen { received = true })) t
      else if text_eq part.name (codes "dest_path")
      then zip_dest_content tmp rest seen part.content t
      else leave_temp os tmp (bad_request_400 (codes "invalid form field: " ++ part.name)) t

module _ (os : Os) (answers : Ops → FileOp → Option Error) (archive : Option (List Entry)) where
  unfoldable pub extract_zip : Text → Seen → Trace → Answer
  unfolding leave_temp extracted
  extract_zip tmp seen t =
      if not seen.received || is_empty seen.dest_path
      then leave_temp os tmp (bad_request_400 (codes "zip_file and dest_path are required")) t
      else try os (mkdir_all seen.dest_path 0o755)
          (λ e. leave_temp os tmp (internal_500 (codes "failed to create destination directory")))
          (try os (close_file tmp) (λ e. leave_temp os tmp (internal_500 (codes "internal error")))
            (extracted os tmp seen.dest_path (unzip answers archive seen.dest_path [])))
          t

  unfoldable pub zip_parts : Text → Body → Seen → Trace → Answer
  unfolding leave_temp zip_part extract_zip
  zip_parts tmp [] seen t = extract_zip tmp seen t
  zip_parts tmp (none ∷ parts) seen t =
      leave_temp os tmp (bad_request_400 (codes "failed to read form part")) t
  zip_parts tmp (some part ∷ parts) seen t = zip_part os tmp part (zip_parts tmp parts) seen t

  -- UploadZip
  unfoldable pub upload_zip : Option Body → Trace → Answer
  unfolding zip_parts
  upload_zip none t = (bad_request_400 (codes "request body required"), t)
  upload_zip (some parts) t =
      let tmp = os.temp_of t in
      try os (create_temp tmp) (λ e t'. (internal_500 (codes "internal error"), t'))
        (zip_parts tmp parts nothing_seen) t

-- The archive in memory: UntarZstd with its error, given the destination and strip_components
unfoldable pub zstd_reply : Option Error → Reply Uploaded
unfolding contains
zstd_reply none = created_201 uploaded
zstd_reply (some msg) =
    if contains msg (codes "illegal file path")
    then bad_request_400 (codes "invalid archive: path traversal detected")
    else internal_500 (codes "failed to extract archive")

-- strip_components keeps its value when the text is no number that is not negative.
unfoldable pub stripped : ℕ → Option ℤ → ℕ
stripped n none = n
stripped n (some (pos v)) = v
stripped n (some (negsuc v)) = n

unfoldable pub zstd_dest : (Seen → Reply Uploaded) → Seen → Option Text → Reply Uploaded
zstd_dest rest seen none = bad_request_400 (codes "dest_path must be an absolute path")
zstd_dest rest seen (some dest) = rest (record seen { dest_path = dest })

unfoldable pub zstd_content : Text → (Text → Reply Uploaded) → Option Text → Reply Uploaded
zstd_content message rest none = bad_request_400 message
zstd_content message rest (some content) = rest content

unfoldable pub zstd_part : Part → (Seen → Reply Uploaded) → Seen → Reply Uploaded
unfolding zstd_content zstd_dest stripped
zstd_part part rest seen =
    if text_eq part.name (codes "archive")
    then zstd_content (codes "failed to read archive")
        (λ content. rest (record seen { received = true })) part.content
    else if text_eq part.name (codes "dest_path")
    then zstd_content (codes "failed to read dest_path")
        (λ content. zstd_dest rest seen (dest_of content)) part.content
    else if text_eq part.name (codes "strip_components")
    then zstd_content (codes "failed to read strip_components")
        (λ content. rest (record seen {
          strip_components = stripped seen.strip_components (atoi (trim_space content));
        }))
        part.content
    else bad_request_400 (codes "invalid form field: " ++ part.name)

module _ (untar : Text → ℕ → Option Error) where
  unfoldable pub zstd_parts : Body → Seen → Reply Uploaded
  unfolding zstd_part zstd_reply
  zstd_parts [] seen =
      if not seen.received || is_empty seen.dest_path
      then bad_request_400 (codes "archive and dest_path are required")
      else zstd_reply (untar seen.dest_path seen.strip_components)
  zstd_parts (none ∷ parts) seen = bad_request_400 (codes "failed to read form part")
  zstd_parts (some part ∷ parts) seen = zstd_part part (zstd_parts parts) seen

  -- UploadZstd
  unfoldable pub upload_zstd : Option Body → Reply Uploaded
  unfolding zstd_parts
  upload_zstd none = bad_request_400 (codes "request body required")
  upload_zstd (some parts) = zstd_parts parts nothing_seen
