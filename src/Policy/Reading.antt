-- ===== src/Policy/Reading.antt =====
-- What readFromDisk reads: maps with distinct keys, and raw messages that are valid.
use popcorn_images.Base.{
  ◌≡◌, some, [], ◌∷◌, Text, Assoc, insert, if◌then◌else◌, arith, Option-cases, inl, inr, subst,
}
use popcorn_images.Json.{Json, null, bool, number, string, array, object, members}
use popcorn_images.Policy.Document.{
  ExtensionSetting, Raw, valid, malformed, Policy, empty_policy, set_known, decode_known,
  decode_settings, decode_entries, decode_setting, unknown_of, unmarshal, is_known,
}
use popcorn_images.Policy.{PolicyFile, missing, garbage, unreadable, contents, ok, read_from_disk}
use popcorn_images.Policy.RoundTrip.{Distinct, insert-Distinct}
use popcorn_images.Policy.Merge.{AreValid}

decode_entries-Distinct :
    (fs : Assoc Json) (m r : Assoc ExtensionSetting)
    → Distinct m
    → decode_entries fs m ≡ some r
    → Distinct r
unfolding decode_entries
decode_entries-Distinct [] m r d e = ground (arith, d)
decode_entries-Distinct ((k, v) ∷ fs) m r d e = elim (Option-cases (decode_setting v)) [
  | inl f ↦ ground arith
  | inr (s, f) ↦
      decode_entries-Distinct fs (insert k s m) r (insert-Distinct k s m d) (ground arith)
]

set_known-Distinct :
    (k : Text) (v : Json) (p q : Policy)
    → Distinct p.settings
    → set_known k v p ≡ some q
    → Distinct q.settings
unfolding set_known decode_settings
set_known-Distinct k null p q d e = ground (arith, d)
set_known-Distinct k (object fs) p q d e =
    elim (Option-cases (decode_entries (members fs) p.settings)) [
      | inl f ↦ ground (arith, d)
      | inr (r, f) ↦ ground (arith, d, decode_entries-Distinct (members fs) p.settings r d f)
    ]
set_known-Distinct k (bool b) p q d e = ground (arith, d)
set_known-Distinct k (number n) p q d e = ground (arith, d)
set_known-Distinct k (string t) p q d e = ground (arith, d)
set_known-Distinct k (array js) p q d e = ground (arith, d)

decode_known-Distinct :
    (fs : Assoc Json) (p q : Policy)
    → Distinct p.settings
    → decode_known fs p ≡ some q
    → Distinct q.settings
unfolding decode_known
decode_known-Distinct [] p q d e = ground (arith, d)
decode_known-Distinct ((k, v) ∷ fs) p q d e = elim (Option-cases (set_known k v p)) [
  | inl f ↦ ground arith
  | inr (r, f) ↦ decode_known-Distinct fs r q (set_known-Distinct k v p r d f) (ground arith)
]

pub insert-AreValid :
    (k : Text) (j : Json) (u : Assoc Raw) → AreValid u → AreValid (insert k (valid j) u)
unfolding insert
insert-AreValid k j [] v = tt
insert-AreValid k j ((i, valid w) ∷ u) v = ground (arith, insert-AreValid k j u v)
insert-AreValid k j ((i, malformed t) ∷ u) v = absurd v

unknown_of-AreValid : (fs : Assoc Json) (u : Assoc Raw) → AreValid u → AreValid (unknown_of fs u)
unfolding unknown_of
unknown_of-AreValid [] u v = v
unknown_of-AreValid ((k, j) ∷ fs) u v =
    unknown_of-AreValid fs (if is_known k then u else insert k (valid j) u)
      (ground (arith, insert-AreValid k j u v))

unknown_of-Distinct : (fs : Assoc Json) (u : Assoc Raw) → Distinct u → Distinct (unknown_of fs u)
unfolding unknown_of
unknown_of-Distinct [] u d = d
unknown_of-Distinct ((k, j) ∷ fs) u d =
    unknown_of-Distinct fs (if is_known k then u else insert k (valid j) u)
      (ground (arith, insert-Distinct k (valid j) u d))

abbrev pub IsMap : Policy → Type 0
IsMap p = Distinct p.settings × AreValid p.unknown_fields × Distinct p.unknown_fields

IsMap-of : (q p : Policy) → q ≡ p → IsMap q → IsMap p
IsMap-of q p e m = subst IsMap e m

-- What is read from disk has distinct keys and valid raw messages.
pub read-IsMap : (f : PolicyFile) (p : Policy) → read_from_disk f ≡ ok p → IsMap p
unfolding read_from_disk unmarshal
read-IsMap missing p e = IsMap-of empty_policy p (ground arith) (tt, tt, tt)
read-IsMap garbage p e = ground arith
read-IsMap (unreadable x) p e = ground arith
read-IsMap (contents null) p e = IsMap-of empty_policy p (ground arith) (tt, tt, tt)
read-IsMap (contents (bool b)) p e = ground arith
read-IsMap (contents (number n)) p e = ground arith
read-IsMap (contents (string t)) p e = ground arith
read-IsMap (contents (array js)) p e = ground arith
read-IsMap (contents (object fs)) p e =
    elim (Option-cases (decode_known (members fs) empty_policy)) [
      | inl f ↦ ground arith
      | inr (q, f) ↦
          IsMap-of (record q { unknown_fields = unknown_of (members fs) [] }) p (ground arith)
            (
              decode_known-Distinct (members fs) empty_policy q tt f,
              unknown_of-AreValid (members fs) [] tt,
              unknown_of-Distinct (members fs) [] tt,
            )
    ]
