-- ===== src/Policy.antt =====
-- lib/policy/policy.go: the policy file and the ways to change it. The mutex makes each of them one
-- step. What the operating system answers is an argument.
pub mod Document
pub mod Overrides
pub mod RoundTrip
pub mod Merge
pub mod Reading
pub mod Applying
pub mod Preserving
pub mod Bypass
pub mod Adding
pub mod Accepting
mod Examples
use popcorn_images.Base.{
  ℕ, ◌≡◌, Option, none, some, List, [], ◌∷◌, ◌++◌, Bool, true, false, not, Text, Error, codes,
  Assoc, lookup, insert, has_prefix, if◌then◌else◌,
}
use popcorn_images.Json.{Json, object, to_fields}
use Document.{ExtensionSetting, empty_setting, Policy, empty_policy, unmarshal, marshal}

-- policy.json: missing, not readable, no JSON, or JSON.
pub data PolicyFile : Type 0 where
  missing garbage : PolicyFile
  unreadable : Error → PolicyFile
  contents : Json → PolicyFile

-- os.WriteFile: the file is not opened, is opened and then not written, or is written.
pub data Write : Type 0 where
  open_failed write_failed : Error → Write
  written : Write

pub data PolicyError : Type 0 where
  read_error write_error : Error → PolicyError
  parse_error marshal_error : PolicyError

pub data Result (A : Type 0) : Type 0 where
  ok : A → Result A
  err : PolicyError → Result A

parsed : Option Policy → Result Policy
parsed none = err parse_error
parsed (some p) = ok p

-- readFromDisk
unfoldable pub read_from_disk : PolicyFile → Result Policy
unfolding parsed
read_from_disk missing = ok empty_policy
read_from_disk garbage = err parse_error
read_from_disk (unreadable e) = err (read_error e)
read_from_disk (contents j) = parsed (unmarshal j)

store : Write → Assoc Json → PolicyFile → Option PolicyError × PolicyFile
store written doc f = (none, contents (object (to_fields doc)))
store (open_failed e) doc f = (some (write_error e), f)
store (write_failed e) doc f = (some (write_error e), garbage)

marshalled : Write → Option (Assoc Json) → PolicyFile → Option PolicyError × PolicyFile
marshalled w none f = (some marshal_error, f)
marshalled w (some doc) f = store w doc f

-- writeToDisk
unfoldable pub write_to_disk : Write → Policy → PolicyFile → Option PolicyError × PolicyFile
unfolding marshalled store
write_to_disk w p f = marshalled w (marshal p) f

modify_read :
    (Policy → Policy) → Write → Result Policy → PolicyFile → Option PolicyError × PolicyFile
modify_read change w (err e) f = (some e, f)
modify_read change w (ok p) f = write_to_disk w (change p) f

-- (p *Policy) Modify, by a function that does not fail; both of its callers pass such a one
unfoldable pub modify : (Policy → Policy) → Write → PolicyFile → Option PolicyError × PolicyFile
unfolding modify_read
modify change w f = modify_read change w (read_from_disk f) f

abbrev pub star : Text
star = codes "*"

abbrev pub star_setting : ExtensionSetting
star_setting = record empty_setting {
  allowed_types = codes "extension" ∷ [];
  install_sources = star ∷ [];
}

with_default : Option ExtensionSetting → Assoc ExtensionSetting → Assoc ExtensionSetting
with_default (some s) m = m
with_default none m = insert star star_setting m

unfoldable pub default_setting : Assoc ExtensionSetting → Assoc ExtensionSetting
unfolding with_default
default_setting m = with_default (lookup star m) m

-- slices.DeleteFunc of the entries with a prefix
unfoldable pub without_prefix : Text → List Text → List Text
without_prefix prefix [] = []
without_prefix prefix (e ∷ es) =
    let rest = without_prefix prefix es in if has_prefix e prefix then rest else e ∷ rest

pub update_url : Text → Text
update_url name = codes "http://127.0.0.1:10001/extensions/" ++ (name ++ codes "/update.xml")

-- The change that AddExtension makes.
unfoldable pub with_extension : Text → Text → Bool → Policy → Policy
unfolding default_setting update_url
with_extension name id enterprise p =
    let base = default_setting p.settings in
    let setting : ExtensionSetting = record empty_setting { update_url = update_url name } in
    if enterprise
    then record p {
      forcelist =
          without_prefix (id ++ codes ";") p.forcelist
          ++ (id ++ (codes ";" ++ update_url name)) ∷ [];
      settings = insert id (record setting { installation_mode = codes "force_installed" }) base;
    }
    else record p { settings = insert name setting base }

-- (p *Policy) AddExtension
unfoldable pub add_extension :
    Text → Text → Bool → Write → PolicyFile → Option PolicyError × PolicyFile
add_extension name id enterprise = modify (with_extension name id enterprise)
