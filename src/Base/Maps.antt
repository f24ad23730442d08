-- ===== src/Base/Maps.antt =====
-- A Go map with text keys as an association list: lookup, assignment and delete.
use mathlib.Core.Path.{◌≡◌, refl, subst, sym, ap, ◌∙◌}
use mathlib.Core.Logic.{inl, inr}
use mathlib.Core.Bool.{false}
use mathlib.Core.Option.{Option, none, some, some-injective}
use mathlib.Core.List.{List, [], ◌∷◌}
use native.Mathlib.Omega.{arith}
use popcorn_images.Base.Tests.{Bool-cases, if◌then◌else◌}
use popcorn_images.Base.Strings.{Text, text_eq, text_eq_iff, text_eq_refl}

abbrev pub Assoc {ℓ} : Type ℓ → Type ℓ
Assoc V = List (Text × V)

module _ {ℓ} {V : Type ℓ} where
  -- m[k]
  unfoldable pub lookup : Text → Assoc V → Option V
  lookup k [] = none
  lookup k ((j, v) ∷ m) = if text_eq j k then some v else lookup k m

  -- m[k] = v
  unfoldable pub insert : Text → V → Assoc V → Assoc V
  insert k v [] = (k, v) ∷ []
  insert k v ((j, w) ∷ m) = if text_eq j k then (k, v) ∷ m else (j, w) ∷ insert k v m

  -- delete(m, k)
  unfoldable pub delete : Text → Assoc V → Assoc V
  delete k [] = []
  delete k ((j, v) ∷ m) = let rest = delete k m in if text_eq j k then rest else (j, v) ∷ rest

  pub lookup-insert :
      (k j : Text) (v : V) (m : Assoc V)
      → lookup j (insert k v m) ≡ (if text_eq k j then some v else lookup j m)
  unfolding lookup insert
  lookup-insert k j v [] = refl
  lookup-insert k j v ((i, w) ∷ m) =
      ground (arith, text_eq_iff k j, text_eq_iff i k, text_eq_iff i j, lookup-insert k j v m)

  pub lookup-delete :
      (k j : Text) (m : Assoc V)
      → lookup j (delete k m) ≡ (if text_eq k j then none else lookup j m)
  unfolding lookup delete
  lookup-delete k j [] = ground arith
  lookup-delete k j ((i, v) ∷ m) =
      ground (arith, lookup-delete k j m, text_eq_iff i k, text_eq_iff i j, text_eq_iff k j)

  -- The value of a key, changed where it is
  unfoldable pub adjust : Text → (V → V) → Assoc V → Assoc V
  adjust k f [] = []
  adjust k f ((j, v) ∷ m) = if text_eq j k then (j, f v) ∷ m else (j, v) ∷ adjust k f m

  abbrev pub mapped : (V → V) → Option V → Option V
  mapped f none = none
  mapped f (some v) = some (f v)

  pub lookup-adjust :
      (k j : Text) (f : V → V) (m : Assoc V)
      → lookup k (adjust j f m) ≡ (if text_eq j k then mapped f (lookup k m) else lookup k m)
  unfolding adjust lookup
  lookup-adjust k j f [] = ground arith
  lookup-adjust k j f ((i, v) ∷ m) =
      ground (arith, lookup-adjust k j f m, text_eq_iff i j, text_eq_iff i k, text_eq_iff j k)

  -- A property of each value that a key has
  abbrev pub Each : (V → Type ℓ) → Assoc V → Type ℓ
  Each P m = (k : Text) (v : V) → lookup k m ≡ some v → P v

  module _ (P : V → Type ℓ) where
    mapped-Each :
        (f : V → V) (o : Option V) (v : V)
        → ((w : V) → o ≡ some w → P (f w))
        → mapped f o ≡ some v
        → P v
    mapped-Each f none v keep e = ground (arith, e)
    mapped-Each f (some w) v keep e = subst P (some-injective (f w) v e) (keep w refl)

    pub adjust-Each :
        (j : Text) (f : V → V) (m : Assoc V)
        → ((w : V) → P w → P (f w))
        → Each P m
        → Each P (adjust j f m)
    adjust-Each j f m keep h k v e = elim (Bool-cases (text_eq j k)) [
      | inl c ↦
          mapped-Each f (lookup k m) v (λ w found. keep w (h k w found))
            (sym (lookup-adjust k j f m ∙ rw c refl) ∙ e)
      | inr c ↦ h k v (sym (lookup-adjust k j f m ∙ rw c refl) ∙ e)
    ]

    pub cons-Each : (j : Text) (v : V) (m : Assoc V) → P v → Each P m → Each P ((j, v) ∷ m)
    unfolding lookup
    cons-Each j v m p h k w e = elim (Bool-cases (text_eq j k)) [
      | inl c ↦ subst P (some-injective v w (rw c at e)) p
      | inr c ↦ h k w (rw c at e)
    ]

  fresh-differs :
      (k j : Text) (m : Assoc V) (v : V)
      → lookup j m ≡ none
      → lookup k m ≡ some v
      → text_eq j k ≡ false
  fresh-differs k j m v fresh found = ground (arith, text_eq_iff j k, fresh, found)

-- A key has a value with a property.
pub record At {ℓ} {V : Type ℓ} (P : V → Type ℓ) (k : Text) (m : Assoc V) : Type ℓ where
  pub value : V
  pub found : lookup k m ≡ some value
  pub has : P value

module _ {ℓ} {V : Type ℓ} (P : V → Type ℓ) (k : Text) where
  pub adjust-At :
      (j : Text) (f : V → V) (m : Assoc V)
      → ((v : V) → P v → P (f v))
      → At P k m
      → At P k (adjust j f m)
  adjust-At j f m keep a = elim (Bool-cases (text_eq j k)) [
    | inl c ↦ record {
      value = f a.value;
      found = lookup-adjust k j f m ∙ rw c (ap (mapped f) a.found);
      has = keep a.value a.has;
    }
    | inr c ↦ record { value = a.value; found = lookup-adjust k j f m ∙ rw c a.found; has = a.has }
  ]

  pub adjust_same-At :
      (Q : V → Type ℓ) (f : V → V) (m : Assoc V)
      → ((v : V) → P v → Q (f v))
      → At P k m
      → At Q k (adjust k f m)
  adjust_same-At Q f m keep a = record {
    value = f a.value;
    found = lookup-adjust k k f m ∙ rw (text_eq_refl k) (ap (mapped f) a.found);
    has = keep a.value a.has;
  }

  pub cons-At :
      (j : Text) (v : V) (m : Assoc V) → lookup j m ≡ none → At P k m → At P k ((j, v) ∷ m)
  unfolding lookup
  cons-At j v m fresh a = record {
    value = a.value;
    found = rw (fresh-differs k j m a.value fresh a.found) a.found;
    has = a.has;
  }
