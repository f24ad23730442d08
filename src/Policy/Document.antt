-- ===== src/Policy/Document.antt =====
-- The JSON form of lib/policy/policy.go: ExtensionSetting, and UnmarshalJSON and MarshalJSON of
-- Policy. A nil slice or map reads as an empty one. Members that a map encodes stand in its order,
-- which is not observable where a decoder compares whole names; at the top, where it folds names,
-- they are sorted as encoding/json sorts them.
use popcorn_images.Base.{
  ◌>>=◌, Option, none, some, List, [], ◌∷◌, ◌++◌, Bool, true, false, Text, codes, Assoc, insert,
  text_eq, ltb, ◌==◌, if◌then◌else◌,
}
use popcorn_images.Json.{
  Json, null, string, array, object, members, to_fields, encode_texts, decode_text, decode_texts,
  sets,
}

pub record ExtensionSetting : Type 0 where
  pub installation_mode : Text
  pub update_url : Text
  pub allowed_types : List Text
  pub install_sources : List Text
  pub runtime_blocked_hosts : List Text
  pub runtime_allowed_hosts : List Text

abbrev pub empty_setting : ExtensionSetting
empty_setting = record {
  installation_mode = [];
  update_url = [];
  allowed_types = [];
  install_sources = [];
  runtime_blocked_hosts = [];
  runtime_allowed_hosts = [];
}

-- A json.RawMessage: the value that it spells, or what is no JSON.
pub data Raw : Type 0 where
  valid : Json → Raw
  malformed : Text → Raw

pub record Policy : Type 0 where
  pub forcelist : List Text
  pub settings : Assoc ExtensionSetting
  pub unknown_fields : Assoc Raw

abbrev pub forcelist_name : Text
forcelist_name = codes "ExtensionInstallForcelist"

abbrev pub settings_name : Text
settings_name = codes "ExtensionSettings"

-- One member of the object of an extension.
unfoldable pub set_member : Text → Json → ExtensionSetting → Option ExtensionSetting
set_member key v s =
    if sets key (codes "installation_mode")
    then (decode_text s.installation_mode v >>= λ t. some (record s { installation_mode = t }))
    else if sets key (codes "update_url")
    then (decode_text s.update_url v >>= λ t. some (record s { update_url = t }))
    else if sets key (codes "allowed_types")
    then (decode_texts v >>= λ ts. some (record s { allowed_types = ts }))
    else if sets key (codes "install_sources")
    then (decode_texts v >>= λ ts. some (record s { install_sources = ts }))
    else if sets key (codes "runtime_blocked_hosts")
    then (decode_texts v >>= λ ts. some (record s { runtime_blocked_hosts = ts }))
    else if sets key (codes "runtime_allowed_hosts")
    then (decode_texts v >>= λ ts. some (record s { runtime_allowed_hosts = ts }))
    else some s

unfoldable pub decode_members : Assoc Json → ExtensionSetting → Option ExtensionSetting
decode_members [] s = some s
decode_members ((k, v) ∷ fs) s = set_member k v s >>= decode_members fs

unfoldable pub decode_setting : Json → Option ExtensionSetting
decode_setting null = some empty_setting
decode_setting (object fs) = decode_members (members fs) empty_setting
decode_setting other = none

-- map[string]ExtensionSetting, into the map that is there; null makes it nil
unfoldable pub decode_entries :
    Assoc Json → Assoc ExtensionSetting → Option (Assoc ExtensionSetting)
decode_entries [] m = some m
decode_entries ((k, v) ∷ fs) m = decode_setting v >>= λ s. decode_entries fs (insert k s m)

unfoldable pub decode_settings : Json → Assoc ExtensionSetting → Option (Assoc ExtensionSetting)
decode_settings null m = some []
decode_settings (object fs) m = decode_entries (members fs) m
decode_settings other m = none

-- policyJSON, one member after the other
unfoldable pub set_known : Text → Json → Policy → Option Policy
set_known key v p =
    if sets key forcelist_name
    then (decode_texts v >>= λ ts. some (record p { forcelist = ts }))
    else if sets key settings_name
    then (decode_settings v p.settings >>= λ m. some (record p { settings = m }))
    else some p

unfoldable pub decode_known : Assoc Json → Policy → Option Policy
decode_known [] p = some p
decode_known ((k, v) ∷ fs) p = set_known k v p >>= decode_known fs

-- knownPolicyFields
unfoldable pub is_known : Text → Bool
is_known key = if text_eq key forcelist_name then true else text_eq key settings_name

unfoldable pub unknown_of : Assoc Json → Assoc Raw → Assoc Raw
unknown_of [] m = m
unknown_of ((k, v) ∷ fs) m = unknown_of fs (if is_known k then m else insert k (valid v) m)

abbrev pub empty_policy : Policy
empty_policy = record { forcelist = []; settings = []; unknown_fields = [] }

-- (p *Policy) UnmarshalJSON
unfoldable pub unmarshal : Json → Option Policy
unmarshal null = some empty_policy
unmarshal (object fs) = decode_known (members fs) empty_policy >>= λ p.
    some (record p { unknown_fields = unknown_of (members fs) [] })
unmarshal other = none

-- omitempty
unfoldable pub text_member : Text → Text → Assoc Json
text_member name [] = []
text_member name (c ∷ t) = (name, string (c ∷ t)) ∷ []

unfoldable pub texts_member : Text → List Text → Assoc Json
texts_member name [] = []
texts_member name (t ∷ ts) = (name, array (encode_texts (t ∷ ts))) ∷ []

unfoldable pub encode_setting : ExtensionSetting → Json
unfolding text_member texts_member
encode_setting s = object (
    to_fields (
      text_member (codes "installation_mode") s.installation_mode
      ++ (text_member (codes "update_url") s.update_url
          ++ (texts_member (codes "allowed_types") s.allowed_types
              ++ (texts_member (codes "install_sources") s.install_sources
                  ++ (texts_member (codes "runtime_blocked_hosts") s.runtime_blocked_hosts
                      ++ texts_member (codes "runtime_allowed_hosts") s.runtime_allowed_hosts))))))

unfoldable pub encode_entries : Assoc ExtensionSetting → Assoc Json
encode_entries [] = []
encode_entries ((k, s) ∷ m) = (k, encode_setting s) ∷ encode_entries m

-- The members of the known fields.
unfoldable pub known_members : Policy → Assoc Json
unfolding texts_member
known_members p =
    texts_member forcelist_name p.forcelist
    ++ (settings_name, object (to_fields (encode_entries p.settings))) ∷ []

-- The order of strings, by their bytes.
unfoldable pub text_lt : Text → Text → Bool
text_lt s [] = false
text_lt [] (d ∷ t) = true
text_lt (c ∷ s) (d ∷ t) = if c == d then text_lt s t else ltb c d

-- Assignment to a map whose members are kept sorted.
unfoldable pub insert_sorted : Text → Json → Assoc Json → Assoc Json
insert_sorted k v [] = (k, v) ∷ []
insert_sorted k v ((j, w) ∷ m) =
    if text_eq j k
    then (k, v) ∷ m
    else if text_lt k j
    then (k, v) ∷ (j, w) ∷ m
    else (j, w) ∷ insert_sorted k v m

add_raw : Text → Raw → Assoc Json → Option (Assoc Json)
add_raw k (valid v) m = some (insert_sorted k v m)
add_raw k (malformed t) m = none

unfoldable pub add_unknown : Assoc Raw → Assoc Json → Option (Assoc Json)
unfolding add_raw
add_unknown [] m = some m
add_unknown ((k, r) ∷ fs) m = add_raw k r m >>= add_unknown fs

-- (p *Policy) MarshalJSON: a raw message that is no JSON makes it fail
unfoldable pub marshal : Policy → Option (Assoc Json)
marshal p = add_unknown p.unknown_fields (known_members p)
