-- ===== src/Base/Strings.antt =====
-- Texts as lists of code points, with the operations of Go's package strings that the program
-- calls: equality, HasPrefix, TrimPrefix, TrimSpace, Fields, Split and Join.
use Prim.Native.Nat.{ℕ}
use Prim.Native.Char.{code}
use Prim.Native.String.{String}
use mathlib.Core.Path.{◌≡◌, refl, ap}
use mathlib.Core.Logic.{◌↔◌}
use mathlib.Core.Bool.{Bool, true, false, ◌&&◌, ◌||◌}
use mathlib.Core.List.{List, [], ◌∷◌, ◌++◌}
use native.Mathlib.Omega.{arith}
use popcorn_images.Base.Tests.{◌==◌, ltb, leb, if◌then◌else◌}

abbrev pub Text : Type 0
Text = List ℕ

-- A Go error, by its message; `none` of an `Option Error` is nil.
abbrev pub Error : Type 0
Error = Text

-- The code points of a literal.
abbrev pub codes : String → Text
codes String.[] = []
codes (String.◌∷◌ c s) = code c ∷ codes s

unfoldable pub text_eq : Text → Text → Bool
text_eq [] [] = true
text_eq [] (d ∷ t) = false
text_eq (c ∷ s) [] = false
text_eq (c ∷ s) (d ∷ t) = (c == d) && text_eq s t

pub text_eq_sound : (s t : Text) → text_eq s t ≡ true → s ≡ t
unfolding text_eq
text_eq_sound [] [] h = refl
text_eq_sound [] (d ∷ t) h = ground arith
text_eq_sound (c ∷ s) [] h = ground arith
text_eq_sound (c ∷ s) (d ∷ t) h = ground (arith, text_eq_sound s t)

pub text_eq_refl : (s : Text) → text_eq s s ≡ true
unfolding text_eq
text_eq_refl [] = refl
text_eq_refl (c ∷ s) = ground (arith, text_eq_refl s)

pub text_eq_iff : (s t : Text) → (text_eq s t ≡ true) ↔ (s ≡ t)
text_eq_iff s t = (text_eq_sound s t, λ e. cc (text_eq_refl s, ap (text_eq s) e))

unfoldable pub is_empty : Text → Bool
is_empty [] = true
is_empty (c ∷ s) = false

-- strings.HasPrefix
unfoldable pub has_prefix : Text → Text → Bool
has_prefix s [] = true
has_prefix [] (p ∷ ps) = false
has_prefix (c ∷ s) (p ∷ ps) = (c == p) && has_prefix s ps

pub has_prefix-append : (p s : Text) → has_prefix (p ++ s) p ≡ true
unfolding has_prefix
has_prefix-append [] s = refl
has_prefix-append (c ∷ p) s = ground (arith, has_prefix-append p s)

-- strings.TrimPrefix
unfoldable pub trim_prefix : Text → Text → Text
trim_prefix s [] = s
trim_prefix [] (p ∷ ps) = []
trim_prefix (c ∷ s) (p ∷ ps) =
    let rest = trim_prefix s ps in
    elim (has_prefix (c ∷ s) (p ∷ ps)) [ true ↦ rest | false ↦ c ∷ s ]

-- unicode.IsSpace
unfoldable pub is_space : ℕ → Bool
is_space c =
    if ltb c 256
    then (leb 9 c && leb c 13) || ((c == 32) || ((c == 0x85) || (c == 0xA0)))
    else (leb 0x2000 c && leb c 0x200A)
      || ((c == 0x1680)
          || ((c == 0x2028)
              || ((c == 0x2029) || ((c == 0x202F) || ((c == 0x205F) || (c == 0x3000))))))

unfoldable pub trim_left : Text → Text
trim_left [] = []
trim_left (c ∷ s) = let rest = trim_left s in if is_space c then rest else c ∷ s

unfoldable pub trim_right : Text → Text
trim_right [] = []
trim_right (c ∷ s) = let rest = trim_right s in if is_empty rest && is_space c then [] else c ∷ rest

-- strings.TrimSpace
unfoldable pub trim_space : Text → Text
unfolding trim_left trim_right is_empty is_space
trim_space s = trim_left (trim_right s)

trim_left-trim_left : (s : Text) → trim_left (trim_left s) ≡ trim_left s
unfolding trim_left
trim_left-trim_left [] = refl
trim_left-trim_left (c ∷ s) = ground (arith, trim_left-trim_left s)

trim_right-trim_right : (s : Text) → trim_right (trim_right s) ≡ trim_right s
unfolding trim_right is_empty
trim_right-trim_right [] = refl
trim_right-trim_right (c ∷ s) = ground (arith, trim_right-trim_right s)

trim_left-is_empty : (t : Text) → is_empty t ≡ true → trim_left t ≡ t
unfolding trim_left is_empty
trim_left-is_empty [] h = refl
trim_left-is_empty (c ∷ t) h = ground arith

trim_right-trim_left : (s : Text) → trim_right (trim_left s) ≡ trim_left (trim_right s)
unfolding trim_right trim_left is_empty
trim_right-trim_left [] = refl
trim_right-trim_left (c ∷ s) =
    ground (arith, trim_right-trim_left s, trim_left-is_empty (trim_right s))

pub trim_space-trim_space : (s : Text) → trim_space (trim_space s) ≡ trim_space s
unfolding trim_space
trim_space-trim_space s = rw (trim_right-trim_left, trim_right-trim_right, trim_left-trim_left) refl

flush : Text → List Text → List Text
flush [] words = words
flush (c ∷ part) words = (c ∷ part) ∷ words

words_from : Text → Text → List Text
words_from part [] = flush part []
words_from part (c ∷ s) = elim (is_space c) [
  | true ↦ flush part (words_from [] s)
  | false ↦ words_from (part ++ c ∷ []) s
]

-- strings.Fields
unfoldable pub fields : Text → List Text
unfolding words_from flush is_space
fields s = words_from [] s

-- The text is one of the list.
unfoldable pub mem : Text → List Text → Bool
mem t [] = false
mem t (s ∷ ss) = text_eq s t || mem t ss

pub mem-append : (t : Text) (xs ys : List Text) → mem t (xs ++ ys) ≡ mem t xs || mem t ys
unfolding mem
mem-append t [] ys = refl
mem-append t (x ∷ xs) ys = ground (arith, mem-append t xs ys)

fields-words : fields (codes " --a  --b=1 ") ≡ codes "--a" ∷ codes "--b=1" ∷ []
unfolding fields
fields-words = refl

trim_space-both : trim_space (codes "  a b ") ≡ codes "a b"
unfolding trim_space
trim_space-both = refl
