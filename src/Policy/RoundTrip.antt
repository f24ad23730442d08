-- ===== src/Policy/RoundTrip.antt =====
-- What MarshalJSON writes, UnmarshalJSON reads back.
use popcorn_images.Base.{
  or_else, ◌≡◌, refl, ◌∙◌, none, some, List, [], ◌∷◌, ◌++◌, Text, codes, Assoc, lookup, insert,
  lookup-insert, text_eq_iff, arith,
}
use popcorn_images.Json.{
  Json, array, members-to_fields, encode_texts, decode_text, decode_texts,
  decode_items-encode_texts, sets,
}
use popcorn_images.Policy.Document.{
  ExtensionSetting, empty_setting, set_member, decode_members, decode_setting, decode_entries,
  text_member, texts_member, encode_setting, encode_entries,
}

decode_texts-encode : (ts : List Text) → decode_texts (array (encode_texts ts)) ≡ some ts
unfolding decode_texts
decode_texts-encode ts = decode_items-encode_texts ts

abbrev setting : Text → Text → List Text → List Text → List Text → List Text → ExtensionSetting
setting a b c d e f = record {
  installation_mode = a;
  update_url = b;
  allowed_types = c;
  install_sources = d;
  runtime_blocked_hosts = e;
  runtime_allowed_hosts = f;
}

-- Each member sets its own field, and one that is left out leaves it empty.
read_mode :
    (a : Text) (rest : Assoc Json)
    → decode_members (text_member (codes "installation_mode") a ++ rest) empty_setting
      ≡ decode_members rest (setting a [] [] [] [] [])
unfolding decode_members text_member set_member sets decode_text
read_mode [] rest = refl
read_mode (x ∷ a) rest = refl

read_url :
    (a b : Text) (rest : Assoc Json)
    → decode_members (text_member (codes "update_url") b ++ rest) (setting a [] [] [] [] [])
      ≡ decode_members rest (setting a b [] [] [] [])
unfolding decode_members text_member set_member sets decode_text
read_url a [] rest = refl
read_url a (x ∷ b) rest = refl

read_types :
    (a b : Text) (c : List Text) (rest : Assoc Json)
    → decode_members (texts_member (codes "allowed_types") c ++ rest) (setting a b [] [] [] [])
      ≡ decode_members rest (setting a b c [] [] [])
unfolding decode_members texts_member set_member sets decode_text
read_types a b [] rest = refl
read_types a b (t ∷ c) rest = rw (decode_texts-encode (t ∷ c))

read_sources :
    (a b : Text) (c d : List Text) (rest : Assoc Json)
    → decode_members (texts_member (codes "install_sources") d ++ rest) (setting a b c [] [] [])
      ≡ decode_members rest (setting a b c d [] [])
unfolding decode_members texts_member set_member sets decode_text
read_sources a b c [] rest = refl
read_sources a b c (t ∷ d) rest = rw (decode_texts-encode (t ∷ d))

read_blocked :
    (a b : Text) (c d e : List Text) (rest : Assoc Json)
    → decode_members
        (texts_member (codes "runtime_blocked_hosts") e ++ rest)
        (setting a b c d [] [])
      ≡ decode_members rest (setting a b c d e [])
unfolding decode_members texts_member set_member sets decode_text
read_blocked a b c d [] rest = refl
read_blocked a b c d (t ∷ e) rest = rw (decode_texts-encode (t ∷ e))

read_allowed :
    (a b : Text) (c d e f : List Text)
    → decode_members (texts_member (codes "runtime_allowed_hosts") f) (setting a b c d e [])
      ≡ some (setting a b c d e f)
unfolding decode_members texts_member set_member sets decode_text
read_allowed a b c d e [] = refl
read_allowed a b c d e (t ∷ f) = rw (decode_texts-encode (t ∷ f))

pub decode_setting-encode_setting :
    (s : ExtensionSetting) → decode_setting (encode_setting s) ≡ some s
unfolding decode_setting encode_setting
decode_setting-encode_setting s = rw members-to_fields (
    read_mode s.installation_mode _
    ∙ (read_url s.installation_mode s.update_url _
        ∙ (read_types s.installation_mode s.update_url s.allowed_types _
            ∙ (read_sources s.installation_mode s.update_url s.allowed_types s.install_sources _
                ∙ (read_blocked s.installation_mode s.update_url s.allowed_types s.install_sources
                      s.runtime_blocked_hosts _
                    ∙ read_allowed s.installation_mode s.update_url s.allowed_types
                        s.install_sources s.runtime_blocked_hosts s.runtime_allowed_hosts)))))

-- The keys of a Go map are distinct.
abbrev pub Distinct : {V : Type 0} → Assoc V → Type 0
Distinct [] = Unit
Distinct ((k, v) ∷ m) = (lookup k m ≡ none) × Distinct m

module _ {V : Type 0} where
  pub insert-Distinct : (k : Text) (v : V) (m : Assoc V) → Distinct m → Distinct (insert k v m)
  unfolding insert
  insert-Distinct k v [] d = (unfold lookup in refl, tt)
  insert-Distinct k v ((j, w) ∷ m) d =
      ground (arith, insert-Distinct k v m, lookup-insert k j v m, text_eq_iff j k, text_eq_iff k j)

-- Reading entries adds them to the map that is there.
pub decode_entries-encode :
    (m acc : Assoc ExtensionSetting)
    → Distinct m
    → (r : Assoc ExtensionSetting) × (decode_entries (encode_entries m) acc ≡ some r)
      × ((id : Text) → lookup id r ≡ or_else (lookup id m) (lookup id acc))
unfolding decode_entries encode_entries lookup
decode_entries-encode [] acc d = (acc, refl, λ id. refl)
decode_entries-encode ((k, s) ∷ m) acc d =
    let (r, e, same) = decode_entries-encode m (insert k s acc) d.1 in
    (
      r,
      rw (decode_setting-encode_setting s) e,
      λ id. ground (arith, same id, lookup-insert k id s acc, text_eq_iff k id),
    )
