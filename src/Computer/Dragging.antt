-- ===== src/Computer/Dragging.antt =====
-- doDragMouse with linear movement: where it leaves the pointer.
use popcorn_images.Base.{
  ℕ, ◌+◌, ℤ, pos, ◌≡◌, refl, sym, ap, ◌∙◌, Option, none, some, List, [], ◌∷◌, ◌++◌, true, false,
  Text, text_eq, codes, ltb_ℤ, Bool-cases, inl, inr,
}
use popcorn_images.Computer.{
  Xdo, mousemove, mousedown, xdo, History, Point, Env, ok, ActionError, run_anyway, keydowns,
  keyups, keys_of,
}
use popcorn_images.Computer.Triple.{
  Triple, returned, weaken_Returns, returns, bind_rule, on_failure_rule, execute_rule, sleep_rule,
  pure_rule, fail_rule, if_rule, resolution_rule, bounds_rule,
}
use popcorn_images.Computer.Drag.{
  DragMouseRequest, do_drag_mouse, drag_checked, is_long, check_points, button_of, begin_drag,
  finish_drag, wait, drag_releases, do_drag_mouse_linear, run_unless_empty,
}
use popcorn_images.Computer.Mouse.{is_smooth, release}
use popcorn_images.Computer.Pointer.{pointer, moved, last_of, moved-linear_commands}

abbrev Any : History → Type 0
Any h = Unit

abbrev pub coordinates : Point → List ℤ
coordinates (x, y) = x ∷ y ∷ []

abbrev pub last_entry : List (List ℤ) → List ℤ
last_entry [] = []
last_entry (pt ∷ []) = pt
last_entry (pt ∷ q ∷ path) = last_entry (q ∷ path)

abbrev as_path : List Point → List (List ℤ)
as_path [] = []
as_path (p ∷ ps) = coordinates p ∷ as_path ps

last_entry-as_path :
    (p : Point) (ps : List Point) → last_entry (as_path (p ∷ ps)) ≡ coordinates (last_of p ps)
last_entry-as_path p [] = refl
last_entry-as_path p (q ∷ ps) = last_entry-as_path q ps

moved-keydowns :
    (p : Point) (ks : List Text) (cs : List Xdo) → moved p (keydowns ks ++ cs) ≡ moved p cs
unfolding keydowns
moved-keydowns p [] cs = refl
moved-keydowns p (k ∷ ks) cs = moved-keydowns p ks cs

moved-keyups : (p : Point) (ks : List Text) → moved p (keyups ks) ≡ p
unfolding keyups
moved-keyups p [] = refl
moved-keyups p (k ∷ ks) = moved-keyups p ks

module _ (env : Env) (origin : Point) where
  check_points-path :
      (i : ℕ) (path : List (List ℤ)) (screen : Point)
      → Triple Any (check_points i path screen) (λ ps h. path ≡ as_path ps) Any
  unfolding check_points
  check_points-path i [] screen = λ h t. returns refl
  check_points-path i ([] ∷ path) screen = fail_rule _
  check_points-path i ((x ∷ []) ∷ path) screen = fail_rule _
  check_points-path i ((x ∷ y ∷ z ∷ l) ∷ path) screen = fail_rule _
  check_points-path i ((x ∷ y ∷ []) ∷ path) screen =
      bind_rule _ _
        (bind_rule _ _ (bounds_rule (x, y) screen) (λ a. check_points-path (i + 1) path screen))
        (λ ps h e. returns (ap (λ (l : List (List ℤ)). (x ∷ y ∷ []) ∷ l) e))

  button_of-Any : (o : Option Text) → Triple Any (button_of o) (λ btn. Any) Any
  unfolding button_of
  button_of-Any none = pure_rule _
  button_of-Any (some name) = if_rule (text_eq name (codes "left")) _ _ (pure_rule _) (
      if_rule (text_eq name (codes "middle")) _ _ (pure_rule _)
        (if_rule (text_eq name (codes "right")) _ _ (pure_rule _) (fail_rule _)))

  module _ (body : DragMouseRequest) (btn : Text) where
    begin_drag-start :
        (p : Point) → Triple Any (begin_drag env body btn p) (λ a h. pointer origin h ≡ p) Any
    unfolding begin_drag
    begin_drag-start (x, y) =
        on_failure_rule {R = Any} (release env body.drag_hold_keys) _
          (execute_rule env _ _
            (λ h t.
              moved-keydowns (pointer origin h) (keys_of body.drag_hold_keys)
                (mousemove x y ∷ mousedown btn ∷ []))
            (λ h t. tt {0}))
          (λ h t. tt {0})

    wait-still :
        (p : Point) (o : Option ℤ)
        → Triple
            (λ h. pointer origin h ≡ p)
            (wait env o)
            (λ a h. pointer origin h ≡ p)
            (λ h. pointer origin h ≡ p)
    unfolding wait
    wait-still p none = pure_rule tt
    wait-still p (some ms) =
        if_rule (ltb_ℤ (pos 0) ms) _ _ (sleep_rule env (λ ms h p. p) ms _) (pure_rule tt)

    run-move :
        (p q : Point) (cs : List Xdo) (e : Text → ActionError)
        → moved p cs ≡ q
        → Triple
            (λ h. pointer origin h ≡ p)
            (run_unless_empty env cs e)
            (λ a h. pointer origin h ≡ q)
            Any
    unfolding run_unless_empty
    run-move p q [] e m = λ h t. returns (t ∙ m)
    run-move p q (c ∷ cs) e m =
        execute_rule env (c ∷ cs) e (λ h t. ap (λ (r : Point). moved r (c ∷ cs)) t ∙ m)
          (λ h t. tt {0})

    linear-end :
        (start : Point) (rest : List Point)
        → Triple
            (λ h. pointer origin h ≡ start)
            (do_drag_mouse_linear env body btn start rest)
            (λ a h. pointer origin h ≡ last_of start rest)
            Any
    unfolding do_drag_mouse_linear
    linear-end start rest =
        on_failure_rule (run_anyway env (drag_releases body btn)) _
          (run-move start (last_of start rest) _ _ (moved-linear_commands body start rest))
          (λ h t. tt {0})

    released-still :
        (p : Point) (h : History)
        → pointer origin h ≡ p
        → pointer origin (xdo (drag_releases body btn) ∷ h) ≡ p
    unfolding drag_releases
    released-still p h t = moved-keyups (pointer origin h) (keys_of body.drag_hold_keys) ∙ t

    finish_drag-end :
        (start : Point) (rest : List Point) (screen : Point)
        → is_smooth body.drag_smooth ≡ false
        → Triple
            (λ h. pointer origin h ≡ start)
            (finish_drag env body btn start rest screen)
            (λ a h. pointer origin h ≡ last_of start rest)
            Any
    unfolding finish_drag
    finish_drag-end start rest screen linear = rw linear (
        bind_rule _ _
          (bind_rule _ _
            (on_failure_rule (run_anyway env (drag_releases body btn)) _
              (wait-still start body.drag_delay) (λ h t. tt {0}))
            (λ a. linear-end start rest))
          (λ a. execute_rule env _ _ (released-still (last_of start rest)) (λ h t. tt {0})))

  checked-end :
      (body : DragMouseRequest) (screen : Point) (ps : List Point)
      → is_long body.path ≡ true
      → is_smooth body.drag_smooth ≡ false
      → Triple
          (λ h. body.path ≡ as_path ps)
          (drag_checked env body screen ps)
          (λ a h. coordinates (pointer origin h) ≡ last_entry body.path)
          Any
  unfolding drag_checked is_long
  checked-end body screen [] long linear h e = cc (ap is_long (sym e) ∙ long)
  checked-end body screen (start ∷ rest) long linear h e =
      weaken_Returns
        (λ a h' q. ap coordinates q ∙ sym (last_entry-as_path start rest) ∙ ap last_entry (sym e))
        (bind_rule _ _ (button_of-Any body.drag_button)
          (λ btn.
            bind_rule _ _ (begin_drag-start body btn start)
              (λ a. finish_drag-end body btn start rest screen linear))
          h tt)

  drag-Returns :
      (body : DragMouseRequest)
      → is_smooth body.drag_smooth ≡ false
      → Triple Any
          (do_drag_mouse env body)
          (λ a h. coordinates (pointer origin h) ≡ last_entry body.path)
          Any
  unfolding do_drag_mouse
  drag-Returns body linear = elim (Bool-cases (is_long body.path)) [
    | inl c ↦ rw c (
        bind_rule _ _ (resolution_rule env) (λ screen.
          bind_rule _ _ (check_points-path 0 body.path screen)
            (λ ps. checked-end body screen ps c linear)))
    | inr c ↦ rw c (fail_rule _)
  ]

  -- A linear drag that succeeds leaves the pointer at the last point of its path, if xdotool
  -- carries out the commands of each run: the rounded steps of the segments add up to the path.
  pub do_drag_mouse-pointer :
      (body : DragMouseRequest) (h : History)
      → is_smooth body.drag_smooth ≡ false
      → (do_drag_mouse env body h).0 ≡ ok tt
      → coordinates (pointer origin (do_drag_mouse env body h).1) ≡ last_entry body.path
  do_drag_mouse-pointer body h linear succeeds = returned (drag-Returns body linear h tt) succeeds
