-- ===== src/Policy/Adding.antt =====
-- AddExtension end to end: the policy that is read after it.
use popcorn_images.Base.{
  or_else, Option, none, some, List, [], ◌∷◌, Bool, Text, codes, Assoc, lookup, has_prefix, text_eq,
  if◌then◌else◌,
}
use popcorn_images.Json.{Json}
use popcorn_images.Policy.Document.{ExtensionSetting, empty_setting, Policy}
use popcorn_images.Policy.{update_url, star, star_setting}

-- The entries with a prefix.
abbrev pub with_prefix : Text → List Text → List Text
with_prefix prefix [] = []
with_prefix prefix (e ∷ es) =
    let rest = with_prefix prefix es in if has_prefix e prefix then e ∷ rest else rest

-- Every id of a map, and "*" where it has none.
abbrev pub with_star : Assoc ExtensionSetting → Text → Option ExtensionSetting
with_star m k = or_else (lookup k m) (if text_eq star k then some star_setting else none)

-- The setting that AddExtension makes.
abbrev pub new_setting : Text → Bool → ExtensionSetting
new_setting name enterprise = record empty_setting {
  installation_mode = if enterprise then codes "force_installed" else [];
  update_url = update_url name;
}

-- The key under which AddExtension stores it.
abbrev pub setting_key : Text → Text → Bool → Text
setting_key name id enterprise = if enterprise then id else name
