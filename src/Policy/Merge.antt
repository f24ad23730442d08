-- ===== src/Policy/Merge.antt =====
-- Members that no known field reads, among those that a policy is written with.
use popcorn_images.Base.{
  or_else, ◌≡◌, refl, ◌∙◌, Option, none, some, List, [], ◌∷◌, ◌++◌, false, Text, Assoc, lookup,
  text_eq_iff, arith, Option-cases, inl, inr,
}
use popcorn_images.Json.{
  Json, object, to_fields, members-to_fields, sets, decode_texts, decode_items-encode_texts,
}
use popcorn_images.Policy.Document.{
  ExtensionSetting, Raw, valid, malformed, Policy, empty_policy, forcelist_name, settings_name,
  set_known, decode_known, decode_settings, insert_sorted, add_unknown, known_members, texts_member,
  encode_entries,
}
use popcorn_images.Policy.RoundTrip.{Distinct, decode_entries-encode}

-- A member of this name is read into neither of the known fields.
abbrev pub IsForeign : Text → Type 0
IsForeign key = (sets key forcelist_name ≡ false) × (sets key settings_name ≡ false)

abbrev pub AreForeign : Assoc Raw → Type 0
AreForeign [] = Unit
AreForeign ((k, r) ∷ u) = IsForeign k × AreForeign u

abbrev pub AreValid : Assoc Raw → Type 0
AreValid [] = Unit
AreValid ((k, valid j) ∷ u) = AreValid u
AreValid ((k, malformed t) ∷ u) = ⊥

set_known-foreign : (k : Text) (v : Json) (p : Policy) → IsForeign k → set_known k v p ≡ some p
unfolding set_known
set_known-foreign k v p f = rw (f.0, f.1)

decode_known-foreign :
    (k : Text) (v : Json) (fs : Assoc Json) (p : Policy)
    → IsForeign k
    → decode_known (insert_sorted k v fs) p ≡ decode_known fs p
unfolding decode_known insert_sorted
decode_known-foreign k v [] p f = ground (arith, set_known-foreign k v p f)
decode_known-foreign k v ((j, w) ∷ fs) p f = elim (Option-cases (set_known j w p)) [
  | inl e ↦ ground (arith, set_known-foreign k v p f, text_eq_iff j k, set_known-foreign j w p)
  | inr (q, e) ↦ ground (
    arith,
    set_known-foreign k v p f,
    text_eq_iff j k,
    set_known-foreign j w p,
    decode_known-foreign k v fs q f,
  )
]

-- Valid foreign members are added, and change nothing of what is read into the known fields.
pub add_unknown-foreign :
    (u : Assoc Raw) (m : Assoc Json) (p : Policy)
    → AreForeign u
    → AreValid u
    → (doc : Assoc Json) × (add_unknown u m ≡ some doc) × (decode_known doc p ≡ decode_known m p)
unfolding add_unknown
add_unknown-foreign [] m p f v = (m, refl, refl)
add_unknown-foreign ((k, malformed t) ∷ u) m p f v = absurd v
add_unknown-foreign ((k, valid j) ∷ u) m p f v =
    let (doc, e, same) = add_unknown-foreign u (insert_sorted k j m) p f.1 v in
    (doc, e, same ∙ decode_known-foreign k j m p f.0)

abbrev policy : List Text → Assoc ExtensionSetting → Policy
policy ts m = record { forcelist = ts; settings = m; unknown_fields = [] }

read_settings :
    (ts : List Text) (m r : Assoc ExtensionSetting)
    → decode_settings (object (to_fields (encode_entries m))) [] ≡ some r
    → decode_known ((settings_name, object (to_fields (encode_entries m))) ∷ []) (policy ts [])
      ≡ some (policy ts r)
unfolding decode_known set_known sets
read_settings ts m r e = rw e

read_members :
    (ts : List Text) (m r : Assoc ExtensionSetting)
    → decode_settings (object (to_fields (encode_entries m))) [] ≡ some r
    → decode_known
        (texts_member forcelist_name ts
          ++ (settings_name, object (to_fields (encode_entries m))) ∷ [])
        empty_policy
      ≡ some (policy ts r)
unfolding decode_known set_known sets texts_member decode_texts
read_members [] m r e = read_settings [] m r e
read_members (t ∷ ts) m r e = rw (decode_items-encode_texts (t ∷ ts)) (read_settings (t ∷ ts) m r e)

pub read_known :
    (p : Policy)
    → Distinct p.settings
    → (q : Policy) × (decode_known (known_members p) empty_policy ≡ some q)
      × (q.forcelist ≡ p.forcelist)
      × ((id : Text) → lookup id q.settings ≡ lookup id p.settings)
unfolding known_members decode_settings lookup
read_known p d =
    let (r, e, same) = decode_entries-encode p.settings [] d in
    (
      policy p.forcelist r,
      read_members p.forcelist p.settings r (rw members-to_fields e),
      refl,
      λ id. same id ∙ or_none (lookup id p.settings),
    )
  where
    or_none : (o : Option ExtensionSetting) → or_else o none ≡ o
    or_none none = refl
    or_none (some s) = refl
