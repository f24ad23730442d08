-- ===== src/Archive/Paths.antt =====
-- No path that Unzip writes to leaves the destination directory.
use mathlib.Core.List.{reverse_aux}
use popcorn_images.Base.{
  is_free, cut-here, cut-other, cut-part, cut-rest, ℕ, ◌≡◌, ◌≢◌, refl, ap, ◌∙◌, List, [], ◌∷◌, ◌++◌,
  Bool, true, false, not, ◌&&◌, ◌==◌, Text, codes, text_eq, mem, has_prefix, cut, split, join,
  enter, enter_all, clean, join_path, arith, Bool-cases, inl, inr,
}

abbrev slash : ℕ
slash = b'/'

abbrev slash_free : Text → Bool
slash_free s = is_free slash s

abbrev all_free : List Text → Bool
all_free [] = true
all_free (p ∷ ps) = slash_free p && all_free ps

-- Elements of a path that do not go up.
abbrev all_down : List Text → Bool
all_down [] = true
all_down (p ∷ ps) = (slash_free p && not (text_eq p (codes ".."))) && all_down ps

slash_free-snoc :
    (s : Text) (c : ℕ)
    → slash_free s ≡ true
    → (c == slash) ≡ false
    → slash_free (s ++ c ∷ []) ≡ true
slash_free-snoc [] c h d = rw d refl
slash_free-snoc (x ∷ s) c h d = ground (arith, slash_free-snoc s c)

cut-all_free : (part s : Text) → slash_free part ≡ true → all_free (cut slash part s) ≡ true
cut-all_free part [] h = unfold cut in ground (arith, h)
cut-all_free part (c ∷ s) h = elim (Bool-cases (c == slash)) [
  | inl d ↦ ap all_free (cut-here slash part s c d) ∙ ground (arith, h, cut-all_free [] s refl)
  | inr d ↦
      ap all_free (cut-other slash part s c d)
      ∙ cut-all_free (part ++ c ∷ []) s (slash_free-snoc part c h d)
]

enter-all_down :
    (kept : List Text) (part : Text)
    → slash_free part ≡ true
    → all_down kept ≡ true
    → all_down (enter true kept part) ≡ true
unfolding enter
enter-all_down [] part f h = ground (arith, f)
enter-all_down (top ∷ kept) part f h = ground (arith, f, h)

enter_all-all_down :
    (kept parts : List Text)
    → all_free parts ≡ true
    → all_down kept ≡ true
    → all_down (enter_all true kept parts) ≡ true
unfolding enter_all
enter_all-all_down kept [] f h = h
enter_all-all_down kept (part ∷ parts) f h =
    enter_all-all_down (enter true kept part) parts (ground (arith, f))
      (enter-all_down kept part (ground (arith, f)) h)

reverse-all_down :
    (xs r : List Text) → all_down xs ≡ true → all_down r ≡ true → all_down (reverse_aux xs r) ≡ true
reverse-all_down [] r h k = k
reverse-all_down (x ∷ xs) r h k =
    reverse-all_down xs (x ∷ r) (ground (arith, h)) (ground (arith, h, k))

cut-join :
    (p : Text) (ps : List Text)
    → all_down (p ∷ ps) ≡ true
    → cut slash [] (join (p ∷ ps) (codes "/")) ≡ p ∷ ps
unfolding join
cut-join p [] h = cut-rest slash [] p (ground (arith, h))
cut-join p (q ∷ ps) h =
    cut-part slash [] p (join (q ∷ ps) (codes "/")) (ground (arith, h))
    ∙ ap (λ (ls : List Text). p ∷ ls) (cut-join q ps (ground (arith, h)))

mem-all_down : (ps : List Text) → all_down ps ≡ true → mem (codes "..") ps ≡ false
unfolding mem
mem-all_down [] h = refl
mem-all_down (p ∷ ps) h = ground (arith, h, mem-all_down ps)

-- A path goes up if one of its elements is "..".
abbrev pub goes_up : Text → Bool
goes_up path = mem (codes "..") (split path slash)

joined-down : (ps : List Text) → all_down ps ≡ true → goes_up (slash ∷ join ps (codes "/")) ≡ false
unfolding split
joined-down [] h = unfold cut in unfold join in unfold mem in unfold text_eq in refl
joined-down (p ∷ ps) h =
    ap (mem (codes "..")) (
      cut-here slash [] (join (p ∷ ps) (codes "/")) slash refl
      ∙ ap (λ (ls : List Text). [] ∷ ls) (cut-join p ps h))
    ∙ (unfold mem in unfold text_eq in mem-all_down (p ∷ ps) h)

-- What Clean makes of an absolute path has no element that goes up.
pub clean-down : (path : Text) → has_prefix path (codes "/") ≡ true → goes_up (clean path) ≡ false
unfolding clean
clean-down path h = rw h (
    joined-down (reverse_aux (enter_all true [] (split path slash)) []) (
      reverse-all_down (enter_all true [] (split path slash)) []
        (enter_all-all_down [] (split path slash) (unfold split in cut-all_free [] path refl) refl)
        refl))

empty-unrooted : has_prefix [] (codes "/") ≢ true
unfolding has_prefix
empty-unrooted h = cc h

pub join_path-down :
    (dir name : Text) → has_prefix dir (codes "/") ≡ true → goes_up (join_path dir name) ≡ false
unfolding join_path
join_path-down [] name h = elim (empty-unrooted h) [ ]
join_path-down (c ∷ dir) [] h = clean-down (c ∷ dir) h
join_path-down (c ∷ dir) (d ∷ name) h =
    clean-down ((c ∷ dir) ++ (codes "/" ++ d ∷ name)) (unfold has_prefix in ground (arith, h))
