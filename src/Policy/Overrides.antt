-- ===== src/Policy/Overrides.antt =====
-- lib/policy/overrides.go. The registry of policies, a table in policy_registry.go, is an argument.
use popcorn_images.Base.{
  ℕ, ◌+◌, Option, none, some, List, [], ◌∷◌, Text, codes, Assoc, lookup, insert,
}
use popcorn_images.Json.{
  Json, bool, number, string, array, object, whole, fraction, Items, nil, cons,
}
use popcorn_images.Policy.Document.{Raw, valid, malformed, Policy}
use popcorn_images.Policy.{PolicyFile, PolicyError, Write, modify}

pub data PolicyValueType : Type 0 where
  type_bool type_int type_string type_list_string type_dict : PolicyValueType

-- What Validate says of one override.
pub data OverrideError : Type 0 where
  blocked : Text → Text → OverrideError
  invalid_json : Text → OverrideError
  wrong_type : Text → PolicyValueType → OverrideError
  not_integer : Text → OverrideError
  item_not_string : Text → ℕ → OverrideError

abbrev pub blocked_policies : Assoc Text
blocked_policies =
    (codes "ExtensionSettings", codes "managed by kernel extension system")
    ∷ (codes "ExtensionInstallForcelist", codes "managed by kernel extension system")
    ∷ (codes "ExtensionInstallBlocklist", codes "could interfere with kernel extensions")
    ∷ (codes "ExtensionInstallBlacklist", codes "could interfere with kernel extensions")
    ∷ (codes "ExtensionInstallAllowlist", codes "could interfere with kernel extensions")
    ∷ (codes "ExtensionInstallWhitelist", codes "could interfere with kernel extensions")
    ∷ (codes "BlockExternalExtensions", codes "could interfere with kernel extensions")
    ∷ (codes "ExtensionAllowedTypes", codes "could interfere with kernel extensions")
    ∷ (codes "ExtensionInstallSources", codes "could interfere with kernel extensions")
    ∷ (codes "ExtensionManifestV2Availability", codes "could interfere with kernel extensions")
    ∷ (codes "RemoteDebuggingAllowed", codes "required for CDP connectivity")
    ∷ (codes "DeveloperToolsAvailability", codes "required for CDP connectivity")
    ∷ (codes "DeveloperToolsDisabled", codes "required for CDP connectivity")
    ∷ (codes "DeveloperToolsAvailabilityAllowlist", codes "required for CDP connectivity")
    ∷ (codes "DeveloperToolsAvailabilityBlocklist", codes "required for CDP connectivity")
    ∷ (codes "ChromeForTestingAllowed", codes "required for automation")
    ∷ (codes "WebDriverOverridesIncompatiblePolicies", codes "required for automation")
    ∷ (codes "ProxySettings", codes "use kernel's proxy API instead")
    ∷ (codes "ProxyMode", codes "use kernel's proxy API instead")
    ∷ (codes "ProxyServer", codes "use kernel's proxy API instead")
    ∷ (codes "ProxyBypassList", codes "use kernel's proxy API instead")
    ∷ (codes "ProxyPacUrl", codes "use kernel's proxy API instead")
    ∷ []

unfoldable pub check_items : Text → ℕ → Items → Option OverrideError
check_items name i nil = none
check_items name i (cons (string t) js) = check_items name (i + 1) js
check_items name i (cons j js) = some (item_not_string name i)

unfoldable pub check_value : Text → PolicyValueType → Json → Option OverrideError
check_value name type_bool (bool b) = none
check_value name type_int (number (whole n)) = none
check_value name type_int (number (fraction t)) = some (not_integer name)
check_value name type_string (string t) = none
check_value name type_list_string (array js) = check_items name 0 js
check_value name type_dict (object fs) = none
check_value name type_dict (array js) = none
check_value name expected other = some (wrong_type name expected)

-- validatePolicyValue
unfoldable pub validate_policy_value : Text → Raw → PolicyValueType → Option OverrideError
unfolding check_value check_items
validate_policy_value name (malformed t) expected = some (invalid_json name)
validate_policy_value name (valid j) expected = check_value name expected j

unfoldable pub check_unknown : Text → Raw → Option OverrideError
check_unknown name (malformed t) = some (invalid_json name)
check_unknown name (valid j) = none

unfoldable pub check_typed : Option PolicyValueType → Text → Raw → Option OverrideError
check_typed none name raw = check_unknown name raw
check_typed (some expected) name raw = validate_policy_value name raw expected

unfoldable pub check_blocked :
    Option Text → Option PolicyValueType → Text → Raw → Option OverrideError
unfolding check_typed check_unknown
check_blocked (some reason) expected name raw = some (blocked name reason)
check_blocked none expected name raw = check_typed expected name raw

unfoldable pub cons_error : Option OverrideError → List OverrideError → List OverrideError
cons_error none errs = errs
cons_error (some e) errs = e ∷ errs

module _ (registry : Text → Option PolicyValueType) where
  -- The body of the loop of Validate.
  unfoldable pub check : Text → Raw → Option OverrideError
  unfolding check_blocked
  check name raw = check_blocked (lookup name blocked_policies) (registry name) name raw

  -- (o ChromiumPolicyOverrides) Validate: the errors, none of them if it returns nil
  unfoldable pub validate : Assoc Raw → List OverrideError
  unfolding cons_error
  validate [] = []
  validate ((name, raw) ∷ o) = cons_error (check name raw) (validate o)

-- (o ChromiumPolicyOverrides) MergeIntoPolicy
unfoldable pub merge_into_policy : Assoc Raw → Policy → Policy
merge_into_policy [] p = p
merge_into_policy ((name, raw) ∷ o) p =
    merge_into_policy o (record p { unknown_fields = insert name raw p.unknown_fields })

pub data Applied : Type 0 where
  rejected : List OverrideError → Applied
  applied : Applied
  failed : PolicyError → Applied

outcome : Option PolicyError × PolicyFile → Applied × PolicyFile
outcome (none, f) = (applied, f)
outcome (some e, f) = (failed e, f)

module _ (registry : Text → Option PolicyValueType) where
  apply_valid : List OverrideError → Assoc Raw → Write → PolicyFile → Applied × PolicyFile
  unfolding outcome
  apply_valid [] o w f = outcome (modify (merge_into_policy o) w f)
  apply_valid (e ∷ errs) o w f = (rejected (e ∷ errs), f)

  -- (p *Policy) ApplyOverrides
  unfoldable pub apply_overrides : Assoc Raw → Write → PolicyFile → Applied × PolicyFile
  unfolding apply_valid
  apply_overrides o w f = apply_valid (validate registry o) o w f
