-- ===== src/Uploads/Downloads.antt =====
-- DownloadDirZip and DownloadDirZstd of cmd/api/api/fs.go. The packing of a directory is an
-- argument: the bytes of the zip archive or an error, and the stream of tar with zstd.
use popcorn_images.Base.{Option, none, some, Bool, not, Text, codes, is_empty, if◌then◌else◌}
use popcorn_images.Files.{
  stat, Trace, Os, Reply, done_200, bad_request_400, internal_500, try, missing_or,
}

module _ {A : Type 0} (os : Os) where
  unfoldable pub unless_file : (Trace → Reply A × Trace) → Bool → Trace → Reply A × Trace
  unless_file rest is_dir t =
      if not is_dir then (bad_request_400 (codes "path is not a directory"), t) else rest t

  -- The checks that both share: a path that is there and is a directory
  unfoldable pub of_directory : Text → (Trace → Reply A × Trace) → Trace → Reply A × Trace
  unfolding unless_file
  of_directory path rest t =
      if is_empty path
      then (bad_request_400 (codes "path cannot be empty"), t)
      else try os (stat path)
          (missing_or (codes "directory not found") (codes "failed to stat path"))
          (λ t'. unless_file rest (os.info_of t' path).is_dir t') t

zip_packed : Option Text → Reply Text
zip_packed none = internal_500 (codes "failed to create zip")
zip_packed (some bytes) = done_200 bytes

-- DownloadDirZip, with what ZipDir makes of the directory
unfoldable pub download_dir_zip : Os → (Text → Option Text) → Text → Trace → Reply Text × Trace
unfolding of_directory zip_packed
download_dir_zip os zip_dir path t = of_directory os path (λ t'. (zip_packed (zip_dir path), t')) t

pub data Level : Type 0 where
  level_default level_fastest level_better level_best : Level

-- The compression_level of a request
pub data CompressionLevel : Type 0 where
  fastest default better best : CompressionLevel

unfoldable pub level_of : Option CompressionLevel → Level
level_of none = level_default
level_of (some fastest) = level_fastest
level_of (some better) = level_better
level_of (some best) = level_best
level_of (some default) = level_default

-- DownloadDirZstd, with the stream of TarZstdDir
unfoldable pub download_dir_zstd :
    Os → (Text → Level → Text) → Text → Option CompressionLevel → Trace → Reply Text × Trace
unfolding of_directory level_of
download_dir_zstd os tar path level t =
    of_directory os path (λ t'. (done_200 (tar path (level_of level)), t')) t
