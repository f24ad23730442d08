-- ===== src/Computer/Released/Mouse.antt =====
-- doMoveMouse and doClickMouse release the keys that they hold.
use popcorn_images.Base.{
  ℤ, pos, ◌≡◌, ◌≢◌, refl, Option, none, some, List, [], ◌∷◌, ◌++◌, Bool, true, Text, codes, text_eq,
  mem, arith, Bool-cases, inl, inr,
}
use popcorn_images.Computer.{
  Xdo, mousemove, getmouselocation, xdo, History, Point, Env, Answer, done, failed, answered,
  ActionError, execute, run, keydowns, keyups, keys_of, run_anyway,
}
use popcorn_images.Computer.Triple.{
  Triple, Returns, returns, fails, bind_rule, finally_rule, run_rule, sleep_rule, pure_rule,
  fail_rule, if_rule, resolution_rule, bounds_rule,
}
use popcorn_images.Computer.Mouse.{
  MoveMouseRequest, do_move_mouse, do_move_mouse_instant, do_move_mouse_smooth, follow, hold_down,
  located, get_mouse_location, move_steps, release, relative, same_point, is_smooth, out_of_range,
}
use popcorn_images.Computer.Click.{
  ClickMouseRequest, do_click_mouse, click_there, click_code, coded, button_of, action_of,
}
use popcorn_images.Computer.Released.{
  Up, Held, is_down, down_after, down_after-keydowns, quiet_run, around_run, release-Held,
}

module _ (env : Env) (k : Text) where
  located-Up : (o : Option Point) → Triple (Up k) (located env o) (λ p. Up k) (Up k)
  unfolding located
  located-Up none = fail_rule _
  located-Up (some p) = pure_rule p

  get_mouse_location-Up : Triple (Up k) (get_mouse_location env) (λ p. Up k) (Up k)
  unfolding get_mouse_location
  get_mouse_location-Up =
      bind_rule _ _ (run_rule env (getmouselocation ∷ []) _ (λ h p. p) (λ h p. p))
        (λ out. located-Up _)

  module _ (ks : List Text) where
    move_steps-Held :
        (delay : ℤ) (prev : Point) (ps : List Point)
        → Triple (Held ks k) (move_steps env delay prev ps) (λ a. Held ks k) (Held ks k)
    unfolding move_steps relative
    move_steps-Held delay prev [] h p = returns p
    move_steps-Held delay (x, y) ((x', y') ∷ ps) h p = elim (Bool-cases (env.cancelled h)) [
      | inl c ↦ rw c (fails p)
      | inr c ↦ rw c (
          bind_rule _ _
            (bind_rule _ _
              (if_rule (same_point (x, y) (x', y')) _ _ (pure_rule tt)
                (quiet_run env k (λ b. b ≡ true → mem k ks ≡ true) _ _ (λ b. refl)))
              (λ a h' q. sleep_rule env (λ ms h p. p) _ _ h' q))
            (λ a. move_steps-Held delay (x', y') ps) h p)
    ]

    Held-run :
        (e : Text → ActionError) (h : History) (x : Answer)
        → ((out : Text) → mem k ks ≡ true → x ≢ failed out)
        → Up k h
        → Returns (λ out. Held ks k) (Up k) (answered e x (xdo (keydowns ks) ∷ h))
    unfolding answered
    Held-run e h (done out) fine p =
        returns (λ q. ground (arith, p, q, down_after-keydowns k (is_down k h) ks))
    Held-run e h (failed out) fine p = fails (elim (Bool-cases (mem k ks)) [
      | inl c ↦ elim (fine out c refl) [ ]
      | inr c ↦ ground (arith, c, p, down_after-keydowns k (is_down k h) ks)
    ])

  module _ (o : Option (List Text)) where
    hold_down-Held :
        ((h : History) (out : Text)
          → mem k (keys_of o) ≡ true
          → env.xdotool h (keydowns (keys_of o)) ≢ failed out)
        → Triple (Up k) (hold_down env o) (λ a. Held (keys_of o) k) (Up k)
    unfolding hold_down run
    hold_down-Held fine =
        elim o
            as (λ o.
              ((h : History) (out : Text)
                → mem k (keys_of o) ≡ true
                → env.xdotool h (keydowns (keys_of o)) ≢ failed out)
              → Triple (Up k) (hold_down env o) (λ a. Held (keys_of o) k) (Up k)) [
                | none ↦ λ f h p. returns (λ q. cc (p, q))
                | some ks ↦ λ f.
                    bind_rule _ _ (λ h p. Held-run ks _ h (env.xdotool h (keydowns ks)) (f h) p)
                      (λ a. pure_rule tt)
              ]
          fine

    pub release-Up : (h : History) → Held (keys_of o) k h → Up k (release env o h)
    release-Up = elim o as (λ o. (h : History) → Held (keys_of o) k h → Up k (release env o h)) [
      | none ↦ λ h p. unfold mem in ground (arith, p)
      | some ks ↦ λ h p. unfold run_anyway in release-Held k ks h p
    ]

  instant-Up :
      (body : MoveMouseRequest) → Triple (Up k) (do_move_mouse_instant env body) (λ a. Up k) (Up k)
  unfolding do_move_mouse_instant
  instant-Up body =
      around_run env k (keys_of body.move_hold_keys) (mousemove body.move_x body.move_y ∷ []) _
        (λ b. refl)

  module _ (body : MoveMouseRequest)
      (fine : (h : History) (out : Text)
        → mem k (keys_of body.move_hold_keys) ≡ true
        → env.xdotool h (keydowns (keys_of body.move_hold_keys)) ≢ failed out) where
    follow-Up :
        (screen : Point) (ps : List Point)
        → Triple (Up k) (follow env body screen ps) (λ a. Up k) (Up k)
    unfolding follow
    follow-Up screen [] = instant-Up body
    follow-Up screen (p ∷ []) = instant-Up body
    follow-Up screen (p ∷ q ∷ ps) = bind_rule _ _ (hold_down-Held body.move_hold_keys fine) (λ a.
        finally_rule (release env body.move_hold_keys) _
          (move_steps-Held (keys_of body.move_hold_keys) _ _ _)
          (λ a. release-Up body.move_hold_keys) (release-Up body.move_hold_keys))

    smooth-Up :
        (screen : Point) → Triple (Up k) (do_move_mouse_smooth env body screen) (λ a. Up k) (Up k)
    unfolding do_move_mouse_smooth
    smooth-Up screen = bind_rule _ _ get_mouse_location-Up (λ from.
        if_rule (out_of_range (pos 50) (pos 5000) body.move_duration_ms) _ _ (fail_rule _)
          (follow-Up screen _))

    pub do_move_mouse-Up : Triple (Up k) (do_move_mouse env body) (λ a. Up k) (Up k)
    unfolding do_move_mouse
    do_move_mouse-Up = bind_rule _ _ (resolution_rule env) (λ screen.
        bind_rule _ _ (bounds_rule (body.move_x, body.move_y) screen)
          (λ a. if_rule (is_smooth body.move_smooth) _ _ (smooth-Up screen) (instant-Up body)))

  click_run :
      (ks : List Text) (x y : ℤ) (action : Xdo) (e : Text → ActionError)
      → ((b : Bool) → down_after k b (action ∷ []) ≡ b)
      → Triple
          (Up k)
          (execute env (keydowns ks ++ (mousemove x y ∷ action ∷ keyups ks)) e)
          (λ a. Up k)
          (Up k)
  click_run ks x y action e q = around_run env k ks (mousemove x y ∷ action ∷ []) e q

  coded-Up : (name : Text) (o : Option Text) → Triple (Up k) (coded name o) (λ btn. Up k) (Up k)
  unfolding coded
  coded-Up name none = fail_rule _
  coded-Up name (some code) = pure_rule code

  button-Up : (o : Option Text) → Triple (Up k) (button_of o) (λ btn. Up k) (Up k)
  unfolding button_of
  button-Up none = pure_rule _
  button-Up (some name) = coded-Up name (click_code name)

  -- The action of a click is no command on a key.
  action-Up :
      (kind : Text) (n : ℤ) (btn : Text)
      → Triple
          (Up k)
          (action_of kind n btn)
          (λ action h. Up k h × ((b : Bool) → down_after k b (action ∷ []) ≡ b))
          (Up k)
  unfolding action_of
  action-Up kind n btn =
      if_rule (text_eq kind (codes "down")) _ _ (λ h p. returns (p, λ b. refl))
        (if_rule (text_eq kind (codes "up")) _ _ (λ h p. returns (p, λ b. refl))
          (if_rule (text_eq kind (codes "click")) _ _ (λ h p. returns (p, λ b. ground arith))
            (fail_rule _)))

  click_there-Up :
      (body : ClickMouseRequest) → Triple (Up k) (click_there env body) (λ a. Up k) (Up k)
  unfolding click_there
  click_there-Up body = bind_rule _ _ (button-Up body.click_button) (λ btn.
      bind_rule _ _ (action-Up _ _ btn) (λ action h p.
        click_run (keys_of body.click_hold_keys) body.click_x body.click_y action _ p.1 h p.0))

  no_hold : {P : Type 0} → mem k (keys_of none) ≡ true → P
  unfolding mem
  no_hold m = cc m

  pub do_click_mouse-Up :
      (body : ClickMouseRequest) → Triple (Up k) (do_click_mouse env body) (λ a. Up k) (Up k)
  unfolding do_click_mouse
  do_click_mouse-Up body = bind_rule _ _ (resolution_rule env) (λ screen.
      bind_rule _ _
        (bind_rule _ _ (bounds_rule (body.click_x, body.click_y) screen)
          (λ a. do_move_mouse-Up _ (λ h out m. no_hold m)))
        (λ a. click_there-Up body))
