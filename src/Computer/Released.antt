-- ===== src/Computer/Released.antt =====
-- The keys that the commands of a history leave held down, where xdotool carries out every command
-- of a run, also of one that it reports as failed.
pub mod Keys
pub mod Mouse
pub mod Drag
pub mod Batch
use popcorn_images.Base.{
  ℤ, ◌≡◌, refl, sym, ◌∙◌, ap, Option, none, some, List, [], ◌∷◌, ◌++◌, Bool, true, false, not, ◌&&◌,
  ◌||◌, Text, text_eq, text_eq_iff, mem, subst, mem-append, arith, if◌then◌else◌, Bool-cases, inl,
  inr, ltb_ℤ, pos,
}
use popcorn_images.Computer.{
  Xdo, keydown, keyup, key, mousemove, mousemove_relative, mousemove_marked, mousedown, mouseup,
  click, click_times, scroll_ticks, sleep, type_text, getmouselocation, Op, xdo, slept,
  pkill_unclutter, start_unclutter, History, Env, M, ActionError, execute, keydowns, keyups,
  keys_of, run_anyway, ◌>>=◌, ◌>>◌,
}
use popcorn_images.Computer.Triple.{
  Triple, Returns, returns, fails, bind_rule, on_failure_rule, finally_rule, settled, run_rule,
  execute_rule, sleep_rule, pure_rule, fail_rule, if_rule, resolution_rule, bounds_rule,
}

-- Whether a key is down behind commands, each of them carried out.
abbrev pub down_after : Text → Bool → List Xdo → Bool
down_after k b [] = b
down_after k b (keydown j ∷ cs) = down_after k (text_eq j k || b) cs
down_after k b (keyup j ∷ cs) = down_after k (not (text_eq j k) && b) cs
down_after k b (c ∷ cs) = down_after k b cs

-- Whether a key is down behind a history that starts with all keys up.
abbrev pub is_down : Text → History → Bool
is_down k [] = false
is_down k (xdo cs ∷ h) = down_after k (is_down k h) cs
is_down k (op ∷ h) = is_down k h

-- The key is up; it is up or one of these.
abbrev pub Up : Text → History → Type 0
Up k h = is_down k h ≡ false

abbrev pub Held : List Text → Text → History → Type 0
Held ks k h = is_down k h ≡ true → mem k ks ≡ true

pub down_after-append :
    (k : Text) (b : Bool) (xs ys : List Xdo)
    → down_after k b (xs ++ ys) ≡ down_after k (down_after k b xs) ys
down_after-append k b [] ys = refl
down_after-append k b (keydown j ∷ xs) ys = down_after-append k (text_eq j k || b) xs ys
down_after-append k b (keyup j ∷ xs) ys = down_after-append k (not (text_eq j k) && b) xs ys
down_after-append k b (x ∷ xs) ys = down_after-append k b xs ys

pub down_after-keydowns :
    (k : Text) (b : Bool) (ks : List Text) → down_after k b (keydowns ks) ≡ mem k ks || b
unfolding keydowns mem
down_after-keydowns k b [] = refl
down_after-keydowns k b (j ∷ ks) = ground (arith, down_after-keydowns k (text_eq j k || b) ks)

pub down_after-keyups :
    (k : Text) (b : Bool) (ks : List Text) → down_after k b (keyups ks) ≡ not (mem k ks) && b
unfolding keyups mem
down_after-keyups k b [] = ground arith
down_after-keyups k b (j ∷ ks) = ground (arith, down_after-keyups k (not (text_eq j k) && b) ks)

module _ (k : Text) (b : Bool) (ks : List Text) where
  -- Commands between the presses and the releases of the same keys.
  pub down_after-around :
      (cs : List Xdo)
      → ((c : Bool) → down_after k c cs ≡ c)
      → down_after k b (keydowns ks ++ (cs ++ keyups ks)) ≡ not (mem k ks) && b
  down_after-around cs q = ground (
    arith,
    down_after-append k b (keydowns ks) (cs ++ keyups ks),
    down_after-append k (down_after k b (keydowns ks)) cs (keyups ks),
    q (down_after k b (keydowns ks)),
    down_after-keydowns k b ks,
    down_after-keyups k (down_after k b (keydowns ks)) ks,
  )

pub release-Held :
    (k : Text) (ks : List Text) (h : History) → Held ks k h → Up k (xdo (keyups ks) ∷ h)
release-Held k ks h p = ground (arith, p, down_after-keyups k (is_down k h) ks)

module _ (env : Env) (k : Text) where
  -- Commands that leave the key as it is.
  pub quiet_run :
      (P : Bool → Type 0) (cs : List Xdo) (e : Text → ActionError)
      → ((b : Bool) → down_after k b cs ≡ b)
      → Triple
          (λ h. P (is_down k h))
          (execute env cs e)
          (λ a h. P (is_down k h))
          (λ h. P (is_down k h))
  quiet_run P cs e q =
      let step : (h : History) → P (is_down k h) → P (is_down k (xdo cs ∷ h)) =
        (λ h p. subst P (sym (q (is_down k h))) p) in
      execute_rule env cs e step step

  -- Commands that end with the keys up which they press.
  pub around_run :
      (ks : List Text) (cs : List Xdo) (e : Text → ActionError)
      → ((b : Bool) → down_after k b cs ≡ b)
      → Triple (Up k) (execute env (keydowns ks ++ (cs ++ keyups ks)) e) (λ a. Up k) (Up k)
  around_run ks cs e q =
      let step : (h : History) → Up k h → Up k (xdo (keydowns ks ++ (cs ++ keyups ks)) ∷ h) =
        (λ h p. ground (arith, p, down_after-around k (is_down k h) ks cs q)) in
      execute_rule env (keydowns ks ++ (cs ++ keyups ks)) e step step
