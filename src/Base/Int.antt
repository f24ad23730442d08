-- ===== src/Base/Int.antt =====
-- Go's int as signed integers over the native numbers, under the library's names, with the
-- comparisons that the program makes and strconv.Itoa. No modelled value comes near 2 ^ 63 except
-- the constant math.MinInt, so the operations do not wrap.
use Prim.Native.Nat.{ℕ, zero, suc, ◌+◌, ◌-◌, ◌*◌, ◌/◌, ◌<◌}
use mathlib.Core.Path.{◌≡◌, refl, ap, ◌∙◌}
use native.Mathlib.Omega.{arith}
use native.Mathlib.Nat.{div-eq_of_lt-le}
use mathlib.Core.Bool.{Bool}
use popcorn_images.Base.Tests.{ltb, leb, if◌then◌else◌}

-- `negsuc n` is -(n + 1).
pub data ℤ : Type 0 where
  pos : ℕ → ℤ
  negsuc : ℕ → ℤ

abbrev pub pos_part : ℤ → ℕ
pos_part (pos n) = n
pos_part (negsuc n) = 0

abbrev pub neg_part : ℤ → ℕ
neg_part (pos n) = 0
neg_part (negsuc n) = suc n

abbrev pub ltb_ℤ : ℤ → ℤ → Bool
ltb_ℤ a b = ltb (pos_part a + neg_part b) (pos_part b + neg_part a)

abbrev pub leb_ℤ : ℤ → ℤ → Bool
leb_ℤ a b = leb (pos_part a + neg_part b) (pos_part b + neg_part a)

-- a - b, as an integer.
abbrev pub sub_ℕ : ℕ → ℕ → ℤ
sub_ℕ a b = if leb b a then pos (a - b) else negsuc (b - a - 1)

infixl 65 ◌+ℤ◌ ◌-ℤ◌
unfoldable pub ◌+ℤ◌ : ℤ → ℤ → ℤ
a +ℤ b = sub_ℕ (pos_part a + pos_part b) (neg_part a + neg_part b)

unfoldable pub ◌-ℤ◌ : ℤ → ℤ → ℤ
a -ℤ b = sub_ℕ (pos_part a + neg_part b) (neg_part a + pos_part b)

pub +ℤ_assoc : (a b c : ℤ) → a +ℤ b +ℤ c ≡ a +ℤ (b +ℤ c)
unfolding ◌+ℤ◌
+ℤ_assoc a b c = ground arith

pub +ℤ_zero : (a : ℤ) → a +ℤ pos 0 ≡ a
unfolding ◌+ℤ◌
+ℤ_zero a = ground arith

-- From a to b, and on to c.
pub -ℤ_chain : (a b c : ℤ) → b -ℤ a +ℤ (c -ℤ b) ≡ c -ℤ a
unfolding ◌+ℤ◌ ◌-ℤ◌
-ℤ_chain a b c = ground arith

pub -ℤ_self : (a : ℤ) → a -ℤ a ≡ pos 0
unfolding ◌-ℤ◌
-ℤ_self a = ground arith

pub +ℤ_reach : (a b : ℤ) → a +ℤ (b -ℤ a) ≡ b
unfolding ◌+ℤ◌ ◌-ℤ◌
+ℤ_reach a b = ground arith

pub -ℤ_zero : (a : ℤ) → a -ℤ pos 0 ≡ a
unfolding ◌-ℤ◌
-ℤ_zero a = ground arith

unfoldable pub neg_ℕ : ℕ → ℤ
neg_ℕ zero = pos 0
neg_ℕ (suc n) = negsuc n

-- i * z
unfoldable pub scale : ℕ → ℤ → ℤ
unfolding neg_ℕ
scale i (pos n) = pos (i * n)
scale i (negsuc n) = neg_ℕ (i * suc n)

round_ℕ : ℕ → ℕ → ℕ
round_ℕ m s = (2 * m + s) / (2 * s)

-- int(math.Round(float64(z) / float64(s))), half away from zero; the floats are exact enough while
-- z is below 2 ^ 31 and s below 2 ^ 20.
unfoldable pub round_div : ℤ → ℕ → ℤ
unfolding round_ℕ neg_ℕ
round_div (pos n) s = pos (round_ℕ n s)
round_div (negsuc n) s = neg_ℕ (round_ℕ (suc n) s)

round_ℕ_exact : (s m : ℕ) → 0 < s → round_ℕ (s * m) s ≡ m
unfolding round_ℕ
round_ℕ_exact s m h = div-eq_of_lt-le (2 * s) (grind arith) (grind arith)

round_ℕ_zero : (s : ℕ) → 0 < s → round_ℕ 0 s ≡ 0
unfolding round_ℕ
round_ℕ_zero s h = div-eq_of_lt-le (2 * s) (grind arith) (grind arith)

round_div-neg : (k s : ℕ) → 0 < s → round_div (neg_ℕ k) s ≡ neg_ℕ (round_ℕ k s)
unfolding round_div neg_ℕ
round_div-neg zero s h = rw (round_ℕ_zero s h) refl
round_div-neg (suc k) s h = refl

pub round_div_exact : (s : ℕ) (z : ℤ) → 0 < s → round_div (scale s z) s ≡ z
unfolding scale
round_div_exact s (pos n) h = unfold round_div in rw (round_ℕ_exact s n h) refl
round_div_exact s (negsuc n) h =
    round_div-neg (s * suc n) s h ∙ rw (round_ℕ_exact s (suc n) h) (unfold neg_ℕ in refl)

pub scale_zero : (s : ℕ) (z : ℤ) → scale 0 z ≡ scale s (pos 0)
unfolding scale neg_ℕ
scale_zero s (pos n) = ap pos (omega arith)
scale_zero s (negsuc n) = ground arith
