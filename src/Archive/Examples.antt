-- ===== src/Archive/Examples.antt =====
-- A run of Unzip on an archive with an entry that goes up.
use popcorn_images.Base.{
  ◌≡◌, refl, none, some, List, [], ◌∷◌, true, false, codes, has_prefix, join_path, clean,
}
use popcorn_images.Archive.{Entry, unzip, extract_all, extract, act, acted, failure}

abbrev archive : List Entry
archive =
    record { name = codes "a/"; is_dir = true }
    ∷ record { name = codes "../etc/passwd"; is_dir = false }
    ∷ []

unzip_up :
    (unzip (λ ops op. none) (some archive) (codes "/tmp/up") []).0
    ≡ some (codes "illegal file path: ../etc/passwd")
unfolding unzip extract_all extract act acted failure has_prefix join_path clean
unzip_up = refl
