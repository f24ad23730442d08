-- ===== src/Policy/Preserving.antt =====
-- ApplyOverrides end to end: what the policy file says before and after it.
use popcorn_images.Base.{◌≡◌, Option, none, some, [], Text, Assoc, lookup}
use popcorn_images.Json.{Json, object, to_fields, members-to_fields}
use popcorn_images.Policy.Document.{
  Raw, valid, malformed, Policy, empty_policy, unknown_of, unmarshal, marshal, known_members,
}
use popcorn_images.Policy.{PolicyFile, contents, written, ok, read_from_disk, write_to_disk, modify}
use popcorn_images.Policy.Overrides.{
  PolicyValueType, validate, merge_into_policy, apply_overrides, applied,
}
use popcorn_images.Policy.RoundTrip.{Distinct}
use popcorn_images.Policy.Merge.{AreForeign, AreValid, add_unknown-foreign, read_known}

-- The value that a raw message spells.
abbrev pub value : Option Raw → Option Json
value none = none
value (some (valid j)) = some j
value (some (malformed t)) = none

-- A map of raw messages that are valid, and that no known field reads.
abbrev pub IsGood : Assoc Raw → Type 0
IsGood u = AreValid u × AreForeign u × Distinct u

-- Writing a policy whose other members are good and reading it back.
pub write_read :
    (p : Policy)
    → Distinct p.settings
    → IsGood p.unknown_fields
    → (doc : Assoc Json) × (q : Policy) × (marshal p ≡ some doc)
      × (read_from_disk (contents (object (to_fields doc))) ≡ ok q)
      × (q.forcelist ≡ p.forcelist)
      × ((id : Text) → lookup id q.settings ≡ lookup id p.settings)
unfolding marshal read_from_disk unmarshal
write_read p d (v, f, _) =
    let (doc, e, same) = add_unknown-foreign p.unknown_fields (known_members p) empty_policy f v in
    let (q, e', lists, settings) = read_known p d in
    (
      doc,
      record q { unknown_fields = unknown_of doc [] },
      e,
      rw (members-to_fields, same, e'),
      lists,
      settings,
    )

-- Where it can be read and passes Validate, what is written is the merged policy.
pub apply-written :
    (registry : Text → Option PolicyValueType) (o : Assoc Raw) (f : PolicyFile) (p : Policy)
    (doc : Assoc Json)
    → read_from_disk f ≡ ok p
    → validate registry o ≡ []
    → marshal (merge_into_policy o p) ≡ some doc
    → apply_overrides registry o written f ≡ (applied, contents (object (to_fields doc)))
unfolding apply_overrides modify write_to_disk
apply-written registry o f p doc r passes e = rw (passes, r, e)
