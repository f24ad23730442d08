-- ===== src/Computer/Released/Keys.antt =====
-- doTypeText, doPressKey and doScroll release the keys that they hold.
use popcorn_images.Base.{
  ℤ, ◌≡◌, refl, Option, none, some, List, [], ◌∷◌, ◌++◌, Bool, ◌&&◌, Text, codes, mem-append, arith,
}
use popcorn_images.Computer.{
  mousemove, xdo, History, Env, ActionError, execution, execute, keydowns, keyups, keys_of,
  run_anyway, type_text,
}
use popcorn_images.Computer.Triple.{
  Triple, bind_rule, on_failure_rule, execute_rule, sleep_rule, fail_rule, if_rule, resolution_rule,
  bounds_rule,
}
use popcorn_images.Computer.Keys.{
  TypeTextRequest, PressKeyRequest, ScrollRequest, do_type_text, do_press_key, do_scroll, hold, tap,
  taps, press, releases, scroll_commands, ticks, is_zero,
}
use popcorn_images.Computer.Released.{
  Up, Held, is_down, down_after, down_after-append, down_after-keydowns, down_after-keyups,
  around_run,
}

down_after-taps : (k : Text) (b : Bool) (ks : List Text) → down_after k b (taps ks) ≡ b
unfolding taps
down_after-taps k b [] = refl
down_after-taps k b (j ∷ ks) = down_after-taps k b ks

down_after-ticks :
    (k : Text) (b : Bool) (n : Option ℤ) (less more : Text) → down_after k b (ticks n less more) ≡ b
unfolding ticks is_zero
down_after-ticks k b none less more = refl
down_after-ticks k b (some n) less more = ground arith

module _ (env : Env) (k : Text) where
  type_run :
      (body : TypeTextRequest) (e : Text → ActionError)
      → Triple (Up k) (execute env (type_text body.delay body.text ∷ []) e) (λ a. Up k) (Up k)
  type_run body e = execute_rule env (type_text body.delay body.text ∷ []) e (λ h p. p) (λ h p. p)

  pub do_type_text-Up :
      (body : TypeTextRequest) → Triple (Up k) (do_type_text env body) (λ a. Up k) (Up k)
  unfolding do_type_text
  do_type_text-Up body = search (if_rule, fail_rule, type_run body)

  tap-Up : (body : PressKeyRequest) → Triple (Up k) (tap env body) (λ a. Up k) (Up k)
  unfolding tap
  tap-Up body =
      around_run env k (keys_of body.hold_keys) (taps body.keys)
        (λ out. execution (codes "failed to press keys. out=" ++ out))
        (λ b. down_after-taps k b body.keys)

  release_all :
      (body : PressKeyRequest) (h : History)
      → Held (keys_of body.hold_keys ++ body.keys) k h
      → Up k (xdo (releases body) ∷ h)
  unfolding releases
  release_all body h p = ground (
    arith,
    p,
    mem-append k (keys_of body.hold_keys) body.keys,
    down_after-append k (is_down k h) (keyups body.keys) (keyups (keys_of body.hold_keys)),
    down_after-keyups k (is_down k h) body.keys,
    down_after-keyups k (down_after k (is_down k h) (keyups body.keys)) (keys_of body.hold_keys),
  )

  press_all :
      (body : PressKeyRequest) (h : History)
      → Up k h
      → Held
          (keys_of body.hold_keys ++ body.keys)
          k
          (xdo (keydowns (keys_of body.hold_keys) ++ keydowns body.keys) ∷ h)
  press_all body h p = ground (
    arith,
    p,
    mem-append k (keys_of body.hold_keys) body.keys,
    down_after-append k (is_down k h) (keydowns (keys_of body.hold_keys)) (keydowns body.keys),
    down_after-keydowns k (is_down k h) (keys_of body.hold_keys),
    down_after-keydowns k (down_after k (is_down k h) (keydowns (keys_of body.hold_keys)))
        body.keys,
  )

  hold-Up : (body : PressKeyRequest) (d : ℤ) → Triple (Up k) (hold env body d) (λ a. Up k) (Up k)
  unfolding hold run_anyway
  hold-Up body d =
      let ks = keys_of body.hold_keys ++ body.keys in
      bind_rule _ _
        (bind_rule _ _
          (on_failure_rule _ _ (execute_rule env _ _ (press_all body) (press_all body))
            (release_all body))
          (λ a. on_failure_rule _ _ (sleep_rule env (λ ms h p. p) d _) (release_all body)))
        (λ a. execute_rule env _ _ (release_all body) (release_all body))

  pub do_press_key-Up :
      (body : PressKeyRequest) → Triple (Up k) (do_press_key env body) (λ a. Up k) (Up k)
  unfolding do_press_key
  do_press_key-Up body = search (if_rule, fail_rule, press-Up body.duration body)
    where
      press-Up :
          (d : Option ℤ) (b : PressKeyRequest) → Triple (Up k) (press env d b) (λ a. Up k) (Up k)
      press-Up none b = unfold press in tap-Up b
      press-Up (some d) b = unfold press in search (if_rule, fail_rule, hold-Up b d, tap-Up b)

  scroll_step :
      (body : ScrollRequest) (h : History) → Up k h → Up k (xdo (scroll_commands body) ∷ h)
  unfolding scroll_commands
  scroll_step body h p =
      let ks = keys_of body.scroll_hold_keys in
      let b = down_after k (is_down k h) (keydowns ks) in
      let across = ticks body.delta_x (codes "6") (codes "7") in
      ground (
        arith,
        p,
        down_after-append k (is_down k h) (keydowns ks) (
            mousemove body.scroll_x body.scroll_y ∷ ticks body.delta_y (codes "4") (codes "5")
            ++ (across ++ keyups ks)),
        down_after-append k b (ticks body.delta_y (codes "4") (codes "5")) (across ++ keyups ks),
        down_after-append k b across (keyups ks),
        down_after-ticks k b body.delta_y (codes "4") (codes "5"),
        down_after-ticks k b body.delta_x (codes "6") (codes "7"),
        down_after-keydowns k (is_down k h) ks,
        down_after-keyups k b ks,
      )

  scroll_run :
      (body : ScrollRequest) (e : Text → ActionError)
      → Triple (Up k) (execute env (scroll_commands body) e) (λ a. Up k) (Up k)
  scroll_run body e =
      execute_rule env (scroll_commands body) e (scroll_step body) (scroll_step body)

  pub do_scroll-Up : (body : ScrollRequest) → Triple (Up k) (do_scroll env body) (λ a. Up k) (Up k)
  unfolding do_scroll
  do_scroll-Up body = if_rule (is_zero body.delta_x && is_zero body.delta_y) _ _ (fail_rule _) (
      bind_rule _ _ (resolution_rule env) (λ screen.
        bind_rule _ _ (bounds_rule (body.scroll_x, body.scroll_y) screen) (λ a. scroll_run body _)))
