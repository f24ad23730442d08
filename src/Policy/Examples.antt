-- ===== src/Policy/Examples.antt =====
-- The theorems on the policy file at concrete files and overrides.
use popcorn_images.Base.{
  or_else, ◌≡◌, refl, Option, none, some, [], ◌∷◌, true, Text, codes, Assoc, lookup, text_eq, ◌↔◌,
  if◌then◌else◌,
}
use popcorn_images.Json.{Json, bool, string, object, to_fields, sets}
use popcorn_images.Policy.Document.{
  ExtensionSetting, empty_setting, Raw, valid, Policy, empty_policy, text_lt,
}
use popcorn_images.Policy.{PolicyFile, missing, contents, written, ok, read_from_disk}
use popcorn_images.Policy.Overrides.{PolicyValueType, type_bool, validate, apply_overrides, applied}
use popcorn_images.Policy.Bypass.{override, apply_overrides-variant}
use popcorn_images.Policy.Accepting.{AreAcceptable, validate-accepts}

abbrev registry : Text → Option PolicyValueType
registry name = if text_eq name (codes "SyncDisabled") then some type_bool else none

abbrev overrides : Assoc Raw
overrides = (codes "SyncDisabled", valid (bool true)) ∷ (codes "Later", valid (string [])) ∷ []

-- A file with one member that the program does not know.
abbrev theme_file : PolicyFile
theme_file = contents (object (to_fields ((codes "Theme", string (codes "dark")) ∷ [])))

abbrev theme_policy : Policy
theme_policy = record empty_policy {
  unknown_fields = (codes "Theme", valid (string (codes "dark"))) ∷ [];
}

abbrev variant : Text
variant = codes "extensionsettings"

abbrev granted : Assoc ExtensionSetting
granted = (codes "*", record empty_setting { install_sources = codes "https://*" ∷ [] }) ∷ []

read-missing : read_from_disk missing ≡ ok empty_policy
unfolding read_from_disk
read-missing = refl

apply_overrides-variant_example :
    (doc : Assoc Json) × (q : Policy) × (apply_overrides registry
        (override registry variant granted)
        written
        missing
      ≡ (applied, contents (object (to_fields doc))))
    × (read_from_disk (contents (object (to_fields doc))) ≡ ok q)
    × (q.forcelist ≡ [])
    × ((id : Text) → lookup id q.settings ≡ or_else (lookup id granted) (lookup id []))
unfolding sets lookup text_eq text_lt
apply_overrides-variant_example =
    apply_overrides-variant registry variant granted missing empty_policy
      (refl, refl, refl, refl, refl) refl (refl, tt) read-missing refl

validate-accepts_example : (validate registry overrides ≡ []) ↔ AreAcceptable registry overrides
validate-accepts_example = validate-accepts registry overrides
