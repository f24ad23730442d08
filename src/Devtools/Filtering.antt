-- ===== src/Devtools/Filtering.antt =====
-- What the filter of the restricted endpoint lets through.
use popcorn_images.Base.{
  or_else, ◌≡◌, refl, ◌∙◌, Option, none, some, List, [], ◌∷◌, Bool, true, Text, Error, codes, Assoc,
  lookup, insert, lookup-insert, text_eq, is_empty, mem, arith, if◌then◌else◌, Option-cases,
  Bool-cases, inl, inr,
}
use popcorn_images.Json.{Json, string, object, members}
use popcorn_images.Devtools.Filter.{
  Message, json, forward, decode_map, filter_message, pump, check_method, reply, deliver,
}

-- The value of the last member of that name.
abbrev pub last : Text → Assoc Json → Option Json
last name [] = none
last name ((k, v) ∷ fs) = or_else (last name fs) (if text_eq k name then some v else none)

-- The name that a member "method" gives.
abbrev pub method_name : Option Json → Option Text
method_name (some (string (c ∷ t))) = some (c ∷ t)
method_name other = none

abbrev pub method_of : Message → Option Text
method_of (json (object fs)) = method_name (last (codes "method") (members fs))
method_of other = none

abbrev pub id_of : Message → Option Json
id_of (json (object fs)) = last (codes "id") (members fs)
id_of other = none

abbrev pub permits : List Text → Option Text → Bool
permits allowed none = true
permits allowed (some method) = mem method allowed

lookup-decode_map :
    (name : Text) (fs m : Assoc Json)
    → lookup name (decode_map fs m) ≡ or_else (last name fs) (lookup name m)
unfolding decode_map
lookup-decode_map name [] m = refl
lookup-decode_map name ((k, v) ∷ fs) m =
    lookup-decode_map name fs (insert k v m) ∙ elim (Option-cases (last name fs)) [
      | inl e ↦ ground (arith, lookup-insert k name v m)
      | inr (w, e) ↦ rw e refl
    ]

lookup-decoded : (name : Text) (fs : Assoc Json) → lookup name (decode_map fs []) ≡ last name fs
unfolding lookup
lookup-decoded name fs = lookup-decode_map name fs [] ∙ or_else-none (last name fs)
  where
    or_else-none : (o : Option Json) → or_else o none ≡ o
    or_else-none none = refl
    or_else-none (some w) = refl

check_method-permits :
    (allowed : List Text) (m id : Option Json)
    → check_method allowed m id ≡ (if permits allowed (method_name m) then forward else reply id)
unfolding check_method is_empty
check_method-permits allowed (some (string [])) id = refl
check_method-permits allowed (some (string (c ∷ t))) id = refl
check_method-permits allowed other id = refl

-- A message is forwarded if it is permitted, and otherwise answered if it has an id.
filter_message-verdict :
    (allowed : List Text) (msg : Message)
    → filter_message allowed msg
      ≡ (if permits allowed (method_of msg) then forward else reply (id_of msg))
unfolding filter_message
filter_message-verdict allowed (json (object fs)) =
    rw (lookup-decoded (codes "method") (members fs), lookup-decoded (codes "id") (members fs))
      (check_method-permits allowed (last (codes "method") (members fs)) _)
filter_message-verdict allowed other = refl

-- The messages that are read before a permitted one cannot be written to the upstream.
abbrev pub handled : List Text → List (Message × Option Error) → List Message
handled allowed [] = []
handled allowed ((msg, none) ∷ rest) = msg ∷ handled allowed rest
handled allowed ((msg, some e) ∷ rest) =
    let more = handled allowed rest in if permits allowed (method_of msg) then [] else msg ∷ more

abbrev pub permitted : List Text → List Message → List Message
permitted allowed [] = []
permitted allowed (msg ∷ msgs) =
    let rest = permitted allowed msgs in
    if permits allowed (method_of msg) then msg ∷ rest else rest

abbrev some_first : Option Json → List Json → List Json
some_first none ids = ids
some_first (some id) ids = id ∷ ids

-- The ids of the messages that are not permitted.
abbrev pub refused : List Text → List Message → List Json
refused allowed [] = []
refused allowed (msg ∷ msgs) =
    let rest = refused allowed msgs in
    if permits allowed (method_of msg) then rest else some_first (id_of msg) rest

-- For any list of allowed commands and any messages of the client: of those that are read until a
-- permitted one cannot be written, the ones written to the upstream are just the permitted ones,
-- in their order, and the error responses carry just the ids of the others that have one. A
-- message is permitted if its method, that of the last such member of a JSON object, is in the
-- list, or if it names no method.
pub pump-permitted :
    (allowed : List Text) (ws : List (Message × Option Error))
    → pump allowed ws
      ≡ (permitted allowed (handled allowed ws), refused allowed (handled allowed ws))
unfolding pump deliver reply
pump-permitted allowed [] = refl
pump-permitted allowed ((msg, none) ∷ ws) =
    let rest = pump-permitted allowed ws in
    elim (Bool-cases (permits allowed (method_of msg))) [
      | inl h ↦ rw (filter_message-verdict allowed msg, h, rest) refl
      | inr h ↦ elim (Option-cases (id_of msg)) [
        | inl e ↦ rw (filter_message-verdict allowed msg, h, e, rest) refl
        | inr (id, e) ↦ rw (filter_message-verdict allowed msg, h, e, rest) refl
      ]
    ]
pump-permitted allowed ((msg, some x) ∷ ws) =
    let rest = pump-permitted allowed ws in
    elim (Bool-cases (permits allowed (method_of msg))) [
      | inl h ↦ rw (filter_message-verdict allowed msg, h) refl
      | inr h ↦ elim (Option-cases (id_of msg)) [
        | inl e ↦ rw (filter_message-verdict allowed msg, h, e, rest, h) refl
        | inr (id, e) ↦ rw (filter_message-verdict allowed msg, h, e, rest, h) refl
      ]
    ]
