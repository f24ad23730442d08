-- ===== src/Policy/Applying.antt =====
-- What Validate lets through.
use popcorn_images.Base.{
  ◌≡◌, ◌≢◌, refl, Option, none, some, [], ◌∷◌, true, Text, Assoc, lookup, text_eq, text_eq_iff,
  arith, ◌⊎◌, inl, inr, Bool-cases, codes,
}
use popcorn_images.Policy.Document.{Raw, valid, malformed, forcelist_name, settings_name, is_known}
use popcorn_images.Policy.Overrides.{
  PolicyValueType, check, validate_policy_value, validate, blocked_policies,
}
use popcorn_images.Policy.Merge.{IsForeign, AreForeign, AreValid}

-- The names of the overrides: no case variant of a known field, unless it is the field itself.
abbrev pub AreExact : Assoc Raw → Type 0
AreExact [] = Unit
AreExact ((k, r) ∷ o) = (IsForeign k ⊎ (is_known k ≡ true)) × AreExact o

abbrev managed : Text
managed = codes "managed by kernel extension system"

forcelist-blocked : lookup forcelist_name blocked_policies ≡ some managed
unfolding lookup text_eq
forcelist-blocked = refl

settings-blocked : lookup settings_name blocked_policies ≡ some managed
unfolding lookup text_eq
settings-blocked = refl

pub known-blocked : (k : Text) → is_known k ≡ true → lookup k blocked_policies ≡ some managed
unfolding is_known
known-blocked k h = elim (Bool-cases (text_eq k forcelist_name)) [
  | inl e ↦ rw ((text_eq_iff k forcelist_name).0 e) forcelist-blocked
  | inr e ↦ rw ((text_eq_iff k settings_name).0 (ground arith)) settings-blocked
]

module _ (registry : Text → Option PolicyValueType) where
  check-known : (k : Text) (r : Raw) → is_known k ≡ true → check registry k r ≢ none
  unfolding check
  check-known k r h = rw (known-blocked k h, check) cc

  check-malformed : (k t : Text) → check registry k (malformed t) ≢ none
  unfolding check validate_policy_value
  check-malformed k t = ground arith

  -- Overrides that pass Validate are valid, and the known fields are not among them.
  pub validate_sound :
      (o : Assoc Raw) → validate registry o ≡ [] → AreExact o → AreValid o × AreForeign o
  unfolding validate
  validate_sound [] e x = (tt, tt)
  validate_sound ((k, malformed t) ∷ o) e x = absurd (check-malformed k t (ground arith))
  validate_sound ((k, valid j) ∷ o) e (inl f, x) =
      let (v, g) = validate_sound o (ground arith) x in (v, (f, g))
  validate_sound ((k, valid j) ∷ o) e (inr h, x) = absurd (check-known k (valid j) h (ground arith))
