-- ===== src/Uploads/Examples.antt =====
-- Uploads of an archive and of a file.
use popcorn_images.Base.{◌≡◌, refl, none, some, List, [], ◌∷◌, true, false, codes, pos}
use popcorn_images.Archive.{Entry}
use popcorn_images.Files.{Os}
use popcorn_images.Uploads.{Body}
use popcorn_images.Uploads.Fields.{parse_index_and_field}
use popcorn_images.Uploads.Archives.{upload_zip}
use popcorn_images.Uploads.Several.{upload_files}
use popcorn_images.Uploads.Tidy.{Cleared, all_remove_called}
use popcorn_images.Uploads.Zipping.{upload_zip-Tidy}
use popcorn_images.Uploads.Removed.{upload_files-Tidy}
use popcorn_images.Uploads.Spelling.{
  dot_name, bracket_name, dots_name, field_name, parse_index_and_field-spellings,
}
use popcorn_images.Base.{itoa}

abbrev system : Os
system = record {
  outcome = λ t call. none;
  info_of = λ t path. record { is_dir = true; size = pos 0; mod_time = pos 0; mode = codes "d" };
  entries_of = λ t path. [];
  temp_of = λ t. codes "/tmp/upload-1";
  lookup_user = λ name. none;
  lookup_group = λ name. none;
}

abbrev archive : List Entry
archive = record { name = codes "a.txt"; is_dir = false } ∷ []

abbrev zip_body : Body
zip_body =
    some (record { name = codes "zip_file"; content = some (codes "PK") })
    ∷ some (record { name = codes "dest_path"; content = some (codes " /tmp/out ") })
    ∷ []

abbrev files_body : Body
files_body =
    some (record { name = codes "files[0].file"; content = some (codes "text") })
    ∷ some (record { name = codes "files.0.dest_path"; content = some (codes "/tmp/a.txt") })
    ∷ []

upload_zip-Tidy_example :
    Cleared (upload_zip system (λ ops op. none) (some archive) (some zip_body) [])
upload_zip-Tidy_example = upload_zip-Tidy system (λ ops op. none) (some archive) (some zip_body)

upload_files-Tidy_example : all_remove_called [] (upload_files system (some files_body) []).1 ≡ true
upload_files-Tidy_example = upload_files-Tidy system (some files_body)

parse_index_and_field-spellings_example :
    (parse_index_and_field (dot_name (itoa (pos 12)) (field_name true))
      ≡ some (12, field_name true))
    × (parse_index_and_field (bracket_name (itoa (pos 12)) (field_name true))
        ≡ some (12, field_name true))
    × (parse_index_and_field (dots_name (itoa (pos 12)) (field_name true))
        ≡ some (12, field_name true))
parse_index_and_field-spellings_example = parse_index_and_field-spellings 12 true refl
