-- ===== src/Policy/Bypass.antt =====
-- The gap between Validate, which compares the names of overrides, and UnmarshalJSON, for which
-- encoding/json folds them: a case variant of ExtensionSettings is not blocked, and is read back
-- into the settings.
use popcorn_images.Base.{
  or_else, ◌≡◌, refl, ap, ◌∙◌, Option, none, some, List, [], ◌∷◌, ◌++◌, true, false, Text, Assoc,
  lookup, insert, text_eq, text_eq_iff, arith, Bool-cases, Option-cases, inl, inr,
}
use popcorn_images.Json.{Json, object, to_fields, members-to_fields, sets}
use popcorn_images.Policy.Document.{
  ExtensionSetting, Raw, valid, Policy, empty_policy, forcelist_name, settings_name, set_known,
  decode_known, decode_settings, unknown_of, unmarshal, text_lt, insert_sorted, add_unknown,
  marshal, known_members, texts_member, encode_entries, is_known,
}
use popcorn_images.Policy.{PolicyFile, contents, written, ok, read_from_disk}
use popcorn_images.Policy.Overrides.{
  PolicyValueType, blocked_policies, check, validate, merge_into_policy, apply_overrides, applied,
}
use popcorn_images.Policy.RoundTrip.{Distinct, decode_entries-encode}
use popcorn_images.Policy.Merge.{read_known}
use popcorn_images.Policy.Reading.{read-IsMap}
use popcorn_images.Policy.Applying.{known-blocked}
use popcorn_images.Policy.Preserving.{apply-written}

-- The value of an override that spells extension settings.
abbrev pub spelled : Assoc ExtensionSetting → Json
spelled m = object (to_fields (encode_entries m))

-- A name that is not blocked, is read into the settings, and is sorted behind both known names.
abbrev pub IsVariant : Text → Type 0
IsVariant name =
    (sets name settings_name ≡ true)
    × (sets name forcelist_name ≡ false)
    × (lookup name blocked_policies ≡ none)
    × (text_lt name forcelist_name ≡ false)
    × (text_lt name settings_name ≡ false)

variant-unknown : (name : Text) → lookup name blocked_policies ≡ none → is_known name ≡ false
variant-unknown name h = elim (Bool-cases (is_known name)) [
  | inl e ↦ ground (arith, known-blocked name e)
  | inr e ↦ ground arith
]

decode_known-append :
    (xs ys : Assoc Json) (p q : Policy)
    → decode_known xs p ≡ some q
    → decode_known (xs ++ ys) p ≡ decode_known ys q
unfolding decode_known
decode_known-append [] ys p q e = cc e
decode_known-append ((k, v) ∷ xs) ys p q e = elim (Option-cases (set_known k v p)) [
  | inl f ↦ ground arith
  | inr (r, f) ↦ ground (arith, decode_known-append xs ys r q)
]

different :
    (k name : Text)
    → is_known k ≡ true
    → lookup name blocked_policies ≡ none
    → text_eq k name ≡ false
different k name h b = ground (arith, text_eq_iff k name, known-blocked k h)

insert-last :
    (name : Text) (j w : Json) (fl : List Text)
    → IsVariant name
    → insert_sorted name j (texts_member forcelist_name fl ++ (settings_name, w) ∷ [])
      ≡ (texts_member forcelist_name fl ++ (settings_name, w) ∷ []) ++ (name, j) ∷ []
unfolding insert_sorted texts_member is_known text_eq
insert-last name j w [] v = rw (different settings_name name refl v.2, v.4)
insert-last name j w (t ∷ fl) v =
    rw (different forcelist_name name refl v.2, v.3, different settings_name name refl v.2, v.4)

read_variant :
    (name : Text) (m : Assoc ExtensionSetting) (q : Policy)
    → IsVariant name
    → Distinct m
    → (q' : Policy) × (decode_known ((name, spelled m) ∷ []) q ≡ some q')
      × (q'.forcelist ≡ q.forcelist)
      × ((id : Text) → lookup id q'.settings ≡ or_else (lookup id m) (lookup id q.settings))
unfolding decode_known set_known decode_settings
read_variant name m q v d =
    let (r, e, same) = decode_entries-encode m q.settings d in
    (record q { settings = r }, rw (v.1, v.0, members-to_fields, e), refl, same)

variant-marshal :
    (name : Text) (j : Json) (p : Policy)
    → IsVariant name
    → p.unknown_fields ≡ []
    → marshal (merge_into_policy ((name, valid j) ∷ []) p)
      ≡ some (known_members p ++ (name, j) ∷ [])
unfolding marshal merge_into_policy insert add_unknown known_members
variant-marshal name j p v alone = rw (alone, insert-last name j _ p.forcelist v)

read_back :
    (doc : Assoc Json) (q : Policy)
    → decode_known doc empty_policy ≡ some q
    → read_from_disk (contents (object (to_fields doc)))
      ≡ ok (record q { unknown_fields = unknown_of doc [] })
unfolding read_from_disk unmarshal
read_back doc q e = rw (members-to_fields, e)

module _ (registry : Text → Option PolicyValueType) where
  abbrev pub override : Text → Assoc ExtensionSetting → Assoc Raw
  override name m = (name, valid (spelled m)) ∷ []

  variant-passes :
      (name : Text) (m : Assoc ExtensionSetting)
      → IsVariant name
      → registry name ≡ none
      → validate registry (override name m) ≡ []
  unfolding validate check
  variant-passes name m v n = rw (v.2, n)

  -- Where a policy file has no other members, an override under a case variant of
  -- ExtensionSettings that is sorted behind it, that no table lists, and whose value spells
  -- extension settings passes Validate and is applied; the written file reads back with the
  -- forcelist as before, and with extension settings in which those of the override replace the
  -- ones that were there and add to them.
  pub apply_overrides-variant :
      (name : Text) (m : Assoc ExtensionSetting) (f : PolicyFile) (p : Policy)
      → IsVariant name
      → registry name ≡ none
      → Distinct m
      → read_from_disk f ≡ ok p
      → p.unknown_fields ≡ []
      → (doc : Assoc Json) × (q : Policy) × (apply_overrides registry (override name m) written f
          ≡ (applied, contents (object (to_fields doc))))
        × (read_from_disk (contents (object (to_fields doc))) ≡ ok q)
        × (q.forcelist ≡ p.forcelist)
        × ((id : Text) → lookup id q.settings ≡ or_else (lookup id m) (lookup id p.settings))
  apply_overrides-variant name m f p v n d r alone =
      let doc = known_members p ++ (name, spelled m) ∷ [] in
      let (q, e, lists, same) = read_known p (read-IsMap f p r).0 in
      let (q', e', kept, merged) = read_variant name m q v d in
      (
        doc,
        record q' { unknown_fields = unknown_of doc [] },
        apply-written registry (override name m) f p doc r (variant-passes name m v n)
            (variant-marshal name (spelled m) p v alone),
        read_back doc q' (decode_known-append (known_members p) _ empty_policy q e ∙ e'),
        kept ∙ lists,
        λ id. merged id ∙ ap (or_else (lookup id m)) (same id),
      )
