-- ===== src/Policy/Accepting.antt =====
-- Which overrides Validate accepts: a description that does not mention its checks.
use popcorn_images.Base.{
  ℕ, ℤ, ◌+◌, ◌≡◌, refl, ap, Option, none, some, List, [], ◌∷◌, Bool, Text, Assoc, lookup, arith,
  Option-cases, ◌⊎◌, ◌↔◌, inl, inr,
}
use popcorn_images.Json.{
  Json, bool, number, string, array, object, whole, Items, nil, cons, Fields, encode_texts,
}
use popcorn_images.Policy.Document.{Raw, valid, malformed}
use popcorn_images.Policy.Overrides.{
  PolicyValueType, type_bool, type_int, type_string, type_list_string, type_dict, blocked_policies,
  check, check_blocked, check_typed, check_unknown, check_items, check_value, validate_policy_value,
  validate, cons_error,
}

-- The JSON values of a policy's type.
abbrev pub Conforms : PolicyValueType → Json → Type 0
Conforms type_bool j = (b : Bool) × (j ≡ bool b)
Conforms type_int j = (n : ℤ) × (j ≡ number (whole n))
Conforms type_string j = (t : Text) × (j ≡ string t)
Conforms type_list_string j = (ts : List Text) × (j ≡ array (encode_texts ts))
Conforms type_dict j = ((fs : Fields) × (j ≡ object fs)) ⊎ ((js : Items) × (j ≡ array js))

check_items-encode_texts :
    (name : Text) (i : ℕ) (ts : List Text) → check_items name i (encode_texts ts) ≡ none
unfolding check_items encode_texts
check_items-encode_texts name i [] = refl
check_items-encode_texts name i (t ∷ ts) = check_items-encode_texts name (i + 1) ts

check_items-texts :
    (name : Text) (i : ℕ) (js : Items)
    → check_items name i js ≡ none
    → (ts : List Text) × (js ≡ encode_texts ts)
unfolding check_items encode_texts
check_items-texts name i nil e = ([], refl)
check_items-texts name i (cons (string t) js) e =
    let (ts, same) = check_items-texts name (i + 1) js e in (t ∷ ts, ap (cons (string t)) same)
check_items-texts name i (cons other js) e = ground arith

check_value-Conforms :
    (name : Text) (t : PolicyValueType) (j : Json) → check_value name t j ≡ none → Conforms t j
unfolding check_value
check_value-Conforms name type_bool (bool b) e = (b, refl)
check_value-Conforms name type_int (number (whole n)) e = (n, refl)
check_value-Conforms name type_string (string t) e = (t, refl)
check_value-Conforms name type_list_string (array js) e =
    let (ts, same) = check_items-texts name 0 js e in (ts, ap array same)
check_value-Conforms name type_dict (object fs) e = inl (fs, refl)
check_value-Conforms name type_dict (array js) e = inr (js, refl)
check_value-Conforms name expected other e = ground arith

Conforms-check_value :
    (name : Text) (t : PolicyValueType) (j : Json) → Conforms t j → check_value name t j ≡ none
unfolding check_value
Conforms-check_value name type_bool j (b, e) = rw e refl
Conforms-check_value name type_int j (n, e) = rw e refl
Conforms-check_value name type_string j (t, e) = rw e refl
Conforms-check_value name type_list_string j (ts, e) = rw e (check_items-encode_texts name 0 ts)
Conforms-check_value name type_dict j (inl (fs, e)) = rw e refl
Conforms-check_value name type_dict j (inr (js, e)) = rw e refl

module _ (registry : Text → Option PolicyValueType) where
  -- The value is JSON and, where the registry lists the name, of the listed type.
  abbrev pub IsTyped : Text → Raw → Type 0
  IsTyped name raw =
      (j : Json) × (raw ≡ valid j)
      × ((registry name ≡ none) ⊎ ((t : PolicyValueType) × (registry name ≡ some t) × Conforms t j))

  -- An override that is not blocked, is JSON, and has the type that the registry has for it.
  abbrev pub IsAcceptable : Text → Raw → Type 0
  IsAcceptable name raw = (lookup name blocked_policies ≡ none) × IsTyped name raw

  abbrev pub AreAcceptable : Assoc Raw → Type 0
  AreAcceptable [] = Unit
  AreAcceptable ((name, raw) ∷ o) = IsAcceptable name raw × AreAcceptable o

  check_typed-IsTyped :
      (name : Text) (raw : Raw) → check_typed (registry name) name raw ≡ none → IsTyped name raw
  unfolding check_typed check_unknown validate_policy_value
  check_typed-IsTyped name (malformed x) e = elim (Option-cases (registry name)) [
    | inl r ↦ ground arith
    | inr (t, r) ↦ ground arith
  ]
  check_typed-IsTyped name (valid j) e = elim (Option-cases (registry name)) [
    | inl r ↦ (j, refl, inl r)
    | inr (t, r) ↦ (j, refl, inr (t, r, check_value-Conforms name t j (ground arith)))
  ]

  check-IsAcceptable :
      (name : Text) (raw : Raw) → check registry name raw ≡ none → IsAcceptable name raw
  unfolding check check_blocked
  check-IsAcceptable name raw e = elim (Option-cases (lookup name blocked_policies)) [
    | inr (reason, b) ↦ ground arith
    | inl b ↦ (b, check_typed-IsTyped name raw (ground arith))
  ]

  IsAcceptable-check :
      (name : Text) (raw : Raw) → IsAcceptable name raw → check registry name raw ≡ none
  unfolding check check_blocked check_typed check_unknown validate_policy_value
  IsAcceptable-check name raw (b, (j, e, inl r)) = rw (b, r, e) refl
  IsAcceptable-check name raw (b, (j, e, inr (t, r, c))) =
      rw (b, r, e) (Conforms-check_value name t j c)

  -- Validate finds no error exactly in overrides of which each has a name that is not blocked and
  -- a value that is JSON and, where the registry lists the name, of the listed type.
  pub validate-accepts : (o : Assoc Raw) → (validate registry o ≡ []) ↔ AreAcceptable o
  unfolding validate cons_error
  validate-accepts [] = (λ e. tt, λ a. refl)
  validate-accepts ((name, raw) ∷ o) =
      let (to, from) = validate-accepts o in
      (
        λ e. (check-IsAcceptable name raw (ground arith), to (ground arith)),
        λ a. rw (IsAcceptable-check name raw a.0) (from a.1),
      )
