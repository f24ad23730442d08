-- ===== src/Base/Decimal.antt =====
-- strconv.Itoa and strconv.Atoi, and that the one reads what the other prints.
use Prim.Native.Nat.{ℕ, zero, suc, ◌+◌, ◌-◌, ◌*◌, ◌/◌, ◌%◌, ◌<◌}
use mathlib.Core.Path.{◌≡◌, refl, ap, ◌∙◌}
use native.Mathlib.Omega.{arith}
use mathlib.Core.Bool.{Bool, true, false, ◌&&◌}
use mathlib.Core.Logic.{inl, inr}
use mathlib.Core.Option.{Option, none, some}
use mathlib.Core.List.{[], ◌∷◌, ◌++◌}
use popcorn_images.Base.Tests.{ltb, leb, ◌==◌, if◌then◌else◌, Bool-cases}
use popcorn_images.Base.Strings.{Text, is_empty}
use popcorn_images.Base.Int.{ℤ, pos, negsuc, neg_ℕ}

-- The decimal digits of a number; the fuel `suc n` is enough for `n`, which has at most as many.
print_digits : ℕ → ℕ → Text
print_digits zero n = []
print_digits (suc f) n =
    let rest = print_digits f (n / 10) ++ (b'0' + n % 10) ∷ [] in
    if ltb n 10 then (b'0' + n) ∷ [] else rest

-- strconv.Itoa
unfoldable pub itoa : ℤ → Text
unfolding print_digits
itoa (pos n) = print_digits (suc n) n
itoa (negsuc n) = b'-' ∷ print_digits (suc (suc n)) (suc n)

push_digit : ℕ → Option ℕ → Option ℕ
push_digit c none = none
push_digit c (some n) = if leb b'0' c && leb c b'9' then some (10 * n + (c - b'0')) else none

read_digits : Text → Option ℕ → Option ℕ
read_digits [] n = n
read_digits (c ∷ s) n = read_digits s (push_digit c n)

abbrev pub max_int : ℕ
max_int = 9223372036854775807

non_negative : Option ℕ → Option ℤ
non_negative none = none
non_negative (some n) = if leb n max_int then some (pos n) else none

negative : Option ℕ → Option ℤ
negative none = none
negative (some n) = if leb n (max_int + 1) then some (neg_ℕ n) else none

-- The digits, of which there is at least one.
unfoldable pub digits_of : Text → Option ℕ
unfolding read_digits push_digit
digits_of [] = none
digits_of (c ∷ s) = read_digits (c ∷ s) (some 0)

-- strconv.Atoi
unfoldable pub atoi : Text → Option ℤ
unfolding push_digit read_digits non_negative negative digits_of neg_ℕ
atoi [] = none
atoi (c ∷ s) =
    if c == b'-'
    then negative (digits_of s)
    else if c == b'+'
    then non_negative (digits_of s)
    else non_negative (digits_of (c ∷ s))

atoi_signs : atoi (b'-' ∷ b'4' ∷ b'2' ∷ []) ≡ some (negsuc 41)
unfolding atoi
atoi_signs = refl

read_digits-append :
    (s t : Text) (a : Option ℕ) → read_digits (s ++ t) a ≡ read_digits t (read_digits s a)
unfolding read_digits
read_digits-append [] t a = refl
read_digits-append (c ∷ s) t a = read_digits-append s t (push_digit c a)

last_digit : (n : ℕ) → push_digit (b'0' + n % 10) (some (n / 10)) ≡ some n
unfolding push_digit
last_digit n = ground arith

read_digits-print_digits : (f n : ℕ) → n < f → read_digits (print_digits f n) (some 0) ≡ some n
unfolding print_digits read_digits
read_digits-print_digits zero n h = ground arith
read_digits-print_digits (suc f) n h = elim (Bool-cases (ltb n 10)) [
  | inl c ↦ rw c (unfold push_digit in ground arith)
  | inr c ↦ rw c (
      read_digits-append (print_digits f (n / 10)) ((b'0' + n % 10) ∷ []) (some 0)
      ∙ ap (push_digit (b'0' + n % 10)) (read_digits-print_digits f (n / 10) (ground arith))
      ∙ last_digit n)
]

abbrev pub is_digit : ℕ → Bool
is_digit c = leb b'0' c && leb c b'9'

abbrev pub all_digits : Text → Bool
all_digits [] = true
all_digits (c ∷ s) = is_digit c && all_digits s

-- A sign or a digit.
abbrev pub all_plain : Text → Bool
all_plain [] = true
all_plain (c ∷ s) = (leb b'-' c && leb c b'9') && all_plain s

all_digits-snoc :
    (s : Text) (c : ℕ) → all_digits s ≡ true → is_digit c ≡ true → all_digits (s ++ c ∷ []) ≡ true
all_digits-snoc [] c h d = ground arith
all_digits-snoc (x ∷ s) c h d = ground (arith, all_digits-snoc s c)

all_digits-print_digits : (f n : ℕ) → all_digits (print_digits f n) ≡ true
unfolding print_digits
all_digits-print_digits zero n = refl
all_digits-print_digits (suc f) n = elim (Bool-cases (ltb n 10)) [
  | inl c ↦ rw c (ground arith)
  | inr c ↦ rw c (
      all_digits-snoc (print_digits f (n / 10)) (b'0' + n % 10) (all_digits-print_digits f (n / 10))
        (ground arith))
]

is_nonempty-snoc : (s : Text) (c : ℕ) → is_empty (s ++ c ∷ []) ≡ false
unfolding is_empty
is_nonempty-snoc [] c = refl
is_nonempty-snoc (x ∷ s) c = refl

is_empty-print_digits : (f n : ℕ) → is_empty (print_digits (suc f) n) ≡ false
unfolding print_digits is_empty
is_empty-print_digits f n = elim (Bool-cases (ltb n 10)) [
  | inl c ↦ rw c refl
  | inr c ↦ rw c (is_nonempty-snoc (print_digits f (n / 10)) (b'0' + n % 10))
]

digits_of-filled : (s : Text) → is_empty s ≡ false → digits_of s ≡ read_digits s (some 0)
unfolding digits_of is_empty
digits_of-filled [] h = ground arith
digits_of-filled (c ∷ s) h = refl

atoi-digits :
    (s : Text) → all_digits s ≡ true → is_empty s ≡ false → atoi s ≡ non_negative (digits_of s)
unfolding atoi is_empty
atoi-digits [] h e = ground arith
atoi-digits (c ∷ s) h e = ground (arith, h)

digits_of-print_digits : (f n : ℕ) → n < suc f → digits_of (print_digits (suc f) n) ≡ some n
digits_of-print_digits f n h =
    digits_of-filled (print_digits (suc f) n) (is_empty-print_digits f n)
    ∙ read_digits-print_digits (suc f) n h

-- The integers of 64 bits.
abbrev pub is_int64 : ℤ → Bool
is_int64 (pos n) = leb n max_int
is_int64 (negsuc n) = leb n max_int

non_negative-int64 : (n : ℕ) → leb n max_int ≡ true → non_negative (some n) ≡ some (pos n)
unfolding non_negative
non_negative-int64 n h = rw h refl

negative-int64 : (n : ℕ) → leb n max_int ≡ true → negative (some (suc n)) ≡ some (negsuc n)
unfolding negative neg_ℕ
negative-int64 n h = ground (arith, h)

pub atoi-itoa : (z : ℤ) → is_int64 z ≡ true → atoi (itoa z) ≡ some z
unfolding itoa
atoi-itoa (pos n) h =
    atoi-digits (print_digits (suc n) n) (all_digits-print_digits (suc n) n)
      (is_empty-print_digits n n)
    ∙ ap non_negative (digits_of-print_digits n n (omega arith))
    ∙ non_negative-int64 n h
atoi-itoa (negsuc n) h =
    unfold atoi in
    ap negative (digits_of-print_digits (suc n) (suc n) (omega arith)) ∙ negative-int64 n h

all_plain-digits : (s : Text) → all_digits s ≡ true → all_plain s ≡ true
all_plain-digits [] h = refl
all_plain-digits (c ∷ s) h = ground (arith, all_plain-digits s)

pub all_plain-itoa : (z : ℤ) → all_plain (itoa z) ≡ true
unfolding itoa
all_plain-itoa (pos n) =
    all_plain-digits (print_digits (suc n) n) (all_digits-print_digits (suc n) n)
all_plain-itoa (negsuc n) = ground (
  arith,
  all_plain-digits (print_digits (suc (suc n)) (suc n))
      (all_digits-print_digits (suc (suc n)) (suc n)),
)

pub all_digits-itoa : (n : ℕ) → all_digits (itoa (pos n)) ≡ true
unfolding itoa
all_digits-itoa n = all_digits-print_digits (suc n) n

pub is_empty-itoa : (z : ℤ) → is_empty (itoa z) ≡ false
unfolding itoa is_empty
is_empty-itoa (pos n) = unfold is_empty in is_empty-print_digits n n
is_empty-itoa (negsuc n) = refl
