-- ===== src/Base/Splitting.antt =====
-- Where strings.Split cuts a text.
use Prim.Native.Nat.{ℕ}
use mathlib.Core.Path.{◌≡◌, sym, ap, ◌∙◌}
use mathlib.Core.Bool.{Bool, true, false, not, ◌&&◌}
use mathlib.Core.List.{[], ◌∷◌, ◌++◌, append-nil, append_assoc}
use native.Mathlib.Omega.{arith}
use popcorn_images.Base.Tests.{◌==◌}
use popcorn_images.Base.Strings.{Text}
use popcorn_images.Base.FilePath.{cut}

-- The character is not in the text.
abbrev pub is_free : ℕ → Text → Bool
is_free sep [] = true
is_free sep (c ∷ s) = not (c == sep) && is_free sep s

pub cut-here :
    (sep : ℕ) (part t : Text) (c : ℕ)
    → (c == sep) ≡ true
    → cut sep part (c ∷ t) ≡ part ∷ cut sep [] t
unfolding cut
cut-here sep part t c h =
    ap (λ b. elim b [ true ↦ part ∷ cut sep [] t | false ↦ cut sep (part ++ c ∷ []) t ]) h

pub cut-other :
    (sep : ℕ) (part t : Text) (c : ℕ)
    → (c == sep) ≡ false
    → cut sep part (c ∷ t) ≡ cut sep (part ++ c ∷ []) t
unfolding cut
cut-other sep part t c h =
    ap (λ b. elim b [ true ↦ part ∷ cut sep [] t | false ↦ cut sep (part ++ c ∷ []) t ]) h

pub cut-part :
    (sep : ℕ) (part s t : Text)
    → is_free sep s ≡ true
    → cut sep part (s ++ sep ∷ t) ≡ (part ++ s) ∷ cut sep [] t
cut-part sep part [] t h =
    cut-here sep part t sep (ground arith) ∙ ap (λ p. p ∷ cut sep [] t) (sym (append-nil part))
cut-part sep part (c ∷ s) t h =
    cut-other sep part (s ++ sep ∷ t) c (ground (arith, h))
    ∙ cut-part sep (part ++ c ∷ []) s t (ground (arith, h))
    ∙ ap (λ p. p ∷ cut sep [] t) (append_assoc part (c ∷ []) s)

pub cut-rest : (sep : ℕ) (part s : Text) → is_free sep s ≡ true → cut sep part s ≡ (part ++ s) ∷ []
cut-rest sep part [] h = unfold cut in ap (λ p. p ∷ []) (sym (append-nil part))
cut-rest sep part (c ∷ s) h =
    cut-other sep part s c (ground (arith, h))
    ∙ cut-rest sep (part ++ c ∷ []) s (ground (arith, h))
    ∙ ap (λ p. p ∷ []) (append_assoc part (c ∷ []) s)
