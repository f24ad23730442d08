-- ===== src/Files/Examples.antt =====
-- A file that is written below a new directory.
use popcorn_images.Base.{◌≡◌, none, some, [], true, codes, pos}
use popcorn_images.Files.{Os}
use popcorn_images.Files.Requests.{writing, serve, expected}
use popcorn_images.Files.Reported.{serve-expected}

abbrev calm : Os
calm = record {
  outcome = λ t call. none;
  info_of =
      λ t path. record { is_dir = true; size = pos 0; mod_time = pos 0; mode = codes "drwxr-xr-x" };
  entries_of = λ t path. [];
  temp_of = λ t. codes "/tmp/upload-1";
  lookup_user = λ name. none;
  lookup_group = λ name. none;
}

serve-expected_example :
    (serve calm (writing (codes "/tmp/a/b") (some (codes "600")) true)).0
    ≡ expected calm
        (writing (codes "/tmp/a/b") (some (codes "600")) true)
        (serve calm (writing (codes "/tmp/a/b") (some (codes "600")) true)).1
serve-expected_example = serve-expected calm (writing (codes "/tmp/a/b") (some (codes "600")) true)
