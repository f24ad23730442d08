-- ===== src/Computer/Released/Drag.antt =====
-- doDragMouse releases the keys that it holds.
use popcorn_images.Base.{
  ℕ, ◌+◌, ℤ, pos, ◌≡◌, refl, ◌∙◌, Option, none, some, List, [], ◌∷◌, ◌++◌, Bool, true, Text, codes,
  text_eq, mem, arith, ltb_ℤ,
}
use popcorn_images.Computer.{
  Xdo, mousemove, mousedown, xdo, History, Point, Env, ActionError, keydowns, keys_of, run_anyway,
}
use popcorn_images.Computer.Triple.{
  Triple, bind_rule, on_failure_rule, execute_rule, sleep_rule, pure_rule, fail_rule, if_rule,
  resolution_rule, bounds_rule,
}
use popcorn_images.Computer.Mouse.{relative, is_smooth, out_of_range, release}
use popcorn_images.Computer.Drag.{
  DragMouseRequest, do_drag_mouse, drag_checked, is_long, check_points, button_of, begin_drag,
  finish_drag, wait, drag_releases, do_drag_mouse_smooth, do_drag_mouse_linear, follow_drag,
  run_unless_empty, smooth_commands, step_commands, step_command, linear_commands,
}
use popcorn_images.Computer.Released.{
  Up, Held, is_down, down_after, down_after-append, down_after-keydowns, quiet_run, release-Held,
}
use popcorn_images.Computer.Released.Mouse.{release-Up}

down_after-step :
    (k : Text) (b : Bool) (d : Point) (cs : List Xdo)
    → down_after k b (step_command d ∷ cs) ≡ down_after k b cs
unfolding step_command
down_after-step k b (dx, dy) cs = ground arith

down_after-steps :
    (k : Text) (b : Bool) (delay : ℤ) (total i : ℕ) (ds : List Point)
    → down_after k b (step_commands delay total i ds) ≡ b
unfolding step_commands
down_after-steps k b delay total i [] = refl
down_after-steps k b delay total i (d ∷ ds) =
    let rest = step_commands delay total (i + 1) ds in
    down_after-step k b d _ ∙ ground (arith, down_after-steps k b delay total (i + 1) ds)

module _ (env : Env) (k : Text) where
  down_after-smooth :
      (b : Bool) (total i : ℕ) (prev : Point) (ps : List Point)
      → down_after k b (smooth_commands env total i prev ps) ≡ b
  unfolding smooth_commands relative
  down_after-smooth b total i prev [] = refl
  down_after-smooth b total i (x, y) ((x', y') ∷ ps) =
      ground (arith, down_after-smooth b total (i + 1) (x', y') ps)

  module _ (ks : List Text) where
    Held-run :
        (cs : List Xdo) (e : Text → ActionError)
        → ((b : Bool) → down_after k b cs ≡ b)
        → Triple (Held ks k) (run_unless_empty env cs e) (λ a. Held ks k) (Held ks k)
    unfolding run_unless_empty
    Held-run [] e q = pure_rule tt
    Held-run (c ∷ cs) e q = quiet_run env k (λ b. b ≡ true → mem k ks ≡ true) (c ∷ cs) e q

    follow-Held :
        (ps : List Point) → Triple (Held ks k) (follow_drag env ps) (λ a. Held ks k) (Held ks k)
    unfolding follow_drag
    follow-Held [] = pure_rule tt
    follow-Held (p ∷ []) = pure_rule tt
    follow-Held (p ∷ q ∷ ps) = Held-run _ _ (λ b. down_after-smooth b _ 1 p (q ∷ ps))

    wait-Held : (o : Option ℤ) → Triple (Held ks k) (wait env o) (λ a. Held ks k) (Held ks k)
    unfolding wait
    wait-Held none = pure_rule tt
    wait-Held (some ms) =
        if_rule (ltb_ℤ (pos 0) ms) _ _ (sleep_rule env (λ ms h p. p) ms _) (pure_rule tt)

  module _ (body : DragMouseRequest) (btn : Text) where
    finished :
        (h : History)
        → Held (keys_of body.drag_hold_keys) k h
        → Up k (xdo (drag_releases body btn) ∷ h)
    unfolding drag_releases
    finished h p = release-Held k (keys_of body.drag_hold_keys) h p

    linear-Held :
        (start : Point) (rest : List Point)
        → Triple
            (Held (keys_of body.drag_hold_keys) k)
            (do_drag_mouse_linear env body btn start rest)
            (λ a. Held (keys_of body.drag_hold_keys) k)
            (Up k)
    unfolding do_drag_mouse_linear run_anyway linear_commands
    linear-Held start rest =
        on_failure_rule _ _
          (Held-run (keys_of body.drag_hold_keys) _ _ (λ b. down_after-steps k b _ _ 0 _)) finished

    smooth-Held :
        (ps : List Point) (screen : Point)
        → Triple
            (Held (keys_of body.drag_hold_keys) k)
            (do_drag_mouse_smooth env body ps screen)
            (λ a. Held (keys_of body.drag_hold_keys) k)
            (Held (keys_of body.drag_hold_keys) k)
    unfolding do_drag_mouse_smooth
    smooth-Held ps screen =
        if_rule (out_of_range (pos 50) (pos 10000) body.drag_duration_ms) _ _ (fail_rule _)
          (follow-Held (keys_of body.drag_hold_keys) _)

    finish_drag-Up :
        (start : Point) (rest : List Point) (screen : Point)
        → Triple
            (Held (keys_of body.drag_hold_keys) k)
            (finish_drag env body btn start rest screen)
            (λ a. Up k)
            (Up k)
    unfolding finish_drag run_anyway
    finish_drag-Up start rest screen =
        bind_rule _ _
          (bind_rule _ _
            (on_failure_rule _ _ (wait-Held (keys_of body.drag_hold_keys) body.drag_delay) finished)
            (λ a.
              if_rule (is_smooth body.drag_smooth) _ _
                (on_failure_rule _ _ (smooth-Held (start ∷ rest) screen) finished)
                (linear-Held start rest)))
          (λ a. execute_rule env _ _ finished finished)

    started :
        (p : Point) (h : History)
        → Up k h
        → Held (keys_of body.drag_hold_keys) k (
            xdo (keydowns (keys_of body.drag_hold_keys) ++ (mousemove p.0 p.1 ∷ mousedown btn ∷ []))
            ∷ h)
    started (x, y) h p = ground (
      arith,
      p,
      down_after-append k (is_down k h) (keydowns (keys_of body.drag_hold_keys))
          (mousemove x y ∷ mousedown btn ∷ []),
      down_after-keydowns k (is_down k h) (keys_of body.drag_hold_keys),
    )

    begin_drag-Held :
        (p : Point)
        → Triple
            (Up k)
            (begin_drag env body btn p)
            (λ a. Held (keys_of body.drag_hold_keys) k)
            (Up k)
    unfolding begin_drag
    begin_drag-Held (x, y) =
        on_failure_rule (release env body.drag_hold_keys) _
          (execute_rule env _ _ (started (x, y)) (started (x, y)))
          (release-Up env k body.drag_hold_keys)

  check_points-Up :
      (i : ℕ) (path : List (List ℤ)) (screen : Point)
      → Triple (Up k) (check_points i path screen) (λ ps. Up k) (Up k)
  unfolding check_points
  check_points-Up i [] screen = pure_rule _
  check_points-Up i ([] ∷ path) screen = fail_rule _
  check_points-Up i ((x ∷ []) ∷ path) screen = fail_rule _
  check_points-Up i ((x ∷ y ∷ z ∷ l) ∷ path) screen = fail_rule _
  check_points-Up i ((x ∷ y ∷ []) ∷ path) screen =
      bind_rule _ _
        (bind_rule _ _ (bounds_rule (x, y) screen) (λ a. check_points-Up (i + 1) path screen))
        (λ ps. pure_rule _)

  button-Up : (o : Option Text) → Triple (Up k) (button_of o) (λ btn. Up k) (Up k)
  unfolding button_of
  button-Up none = pure_rule _
  button-Up (some name) = if_rule (text_eq name (codes "left")) _ _ (pure_rule _) (
      if_rule (text_eq name (codes "middle")) _ _ (pure_rule _)
        (if_rule (text_eq name (codes "right")) _ _ (pure_rule _) (fail_rule _)))

  checked-Up :
      (body : DragMouseRequest) (screen : Point) (ps : List Point)
      → Triple (Up k) (drag_checked env body screen ps) (λ a. Up k) (Up k)
  unfolding drag_checked
  checked-Up body screen [] = pure_rule tt
  checked-Up body screen (start ∷ rest) = bind_rule _ _ (button-Up body.drag_button) (λ btn.
      bind_rule _ _ (begin_drag-Held body btn start)
        (λ a. finish_drag-Up body btn start rest screen))

  pub do_drag_mouse-Up :
      (body : DragMouseRequest) → Triple (Up k) (do_drag_mouse env body) (λ a. Up k) (Up k)
  unfolding do_drag_mouse
  do_drag_mouse-Up body =
      if_rule (is_long body.path) _ _
        (bind_rule _ _ (resolution_rule env) (λ screen.
          bind_rule _ _ (check_points-Up 0 body.path screen) (λ ps. checked-Up body screen ps)))
        (fail_rule _)
