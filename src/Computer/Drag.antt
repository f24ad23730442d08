-- ===== src/Computer/Drag.antt =====
-- doDragMouse of cmd/api/api/computer.go with its linear and its smooth movement.
use popcorn_images.Base.{
  ℕ, zero, suc, ◌+◌, ◌-◌, ltb, ℤ, pos, pos_part, Option, none, some, List, [], ◌∷◌, ◌++◌, Bool,
  true, false, ◌&&◌, ◌||◌, Text, codes, itoa, text_eq, ltb_ℤ, leb_ℤ, ◌-ℤ◌, scale, round_div,
  if◌then◌else◌,
}
use popcorn_images.Computer.{
  Xdo, mousemove, mousemove_relative, mousemove_marked, mousedown, mouseup, sleep, Point, Env,
  ActionError, validation, execution, M, ◌>>=◌, ◌>>◌, pure, fail, on_failure, execute, run_anyway,
  sleep_with_context, current_resolution, check_bounds, keys_of, keydowns, keyups,
}
use popcorn_images.Computer.Mouse.{same_point, relative, steps_of, out_of_range, is_smooth, release}

pub record DragMouseRequest : Type 0 where
  pub drag_button : Option Text
  pub drag_delay : Option ℤ
  pub drag_duration_ms : Option ℤ
  pub drag_hold_keys : Option (List Text)
  pub path : List (List ℤ)
  pub drag_smooth : Option Bool
  pub step_delay_ms : Option ℤ
  pub steps_per_segment : Option ℤ

-- The loop of generateRelativeSteps: the rounds left, i, and the rounded position before.
unfoldable pub relative_loop : ℕ → ℕ → Point → ℕ → Point → List Point
relative_loop zero i d steps prev = []
relative_loop (suc left) i (dx, dy) steps (px, py) =
    let cx = round_div (scale i dx) steps in
    let cy = round_div (scale i dy) steps in
    (cx -ℤ px, cy -ℤ py) ∷ relative_loop left (i + 1) (dx, dy) steps (cx, cy)

-- generateRelativeSteps; its caller passes at least one step
unfoldable pub generate_relative_steps : Point → ℕ → List Point
generate_relative_steps d steps =
    if same_point d (pos 0, pos 0) then [] else relative_loop steps 1 d steps (pos 0, pos 0)

-- The steps of all segments, from a point on.
unfoldable pub path_steps : ℕ → Point → List Point → List Point
path_steps steps prev [] = []
path_steps steps (x0, y0) ((x1, y1) ∷ ps) =
    generate_relative_steps (x1 -ℤ x0, y1 -ℤ y0) steps ++ path_steps steps (x1, y1) ps

unfoldable pub step_command : Point → Xdo
step_command (dx, dy) =
    if ltb_ℤ dx (pos 0) || ltb_ℤ dy (pos 0)
    then mousemove_marked dx dy
    else mousemove_relative dx dy

-- The second loop of doDragMouseLinear: totalSteps and stepIndex.
unfoldable pub step_commands : ℤ → ℕ → ℕ → List Point → List Xdo
step_commands delay total index [] = []
step_commands delay total index (d ∷ ds) =
    let rest = step_commands delay total (index + 1) ds in
    step_command d
    ∷ (if ltb index (total - 1) && ltb_ℤ (pos 0) delay then sleep delay ∷ rest else rest)

unfoldable pub segment_steps : Option ℤ → ℕ
segment_steps none = 10
segment_steps (some n) = if leb_ℤ (pos 1) n then pos_part n else 10

unfoldable pub linear_delay : Option ℤ → ℤ
linear_delay none = pos 50
linear_delay (some n) = if leb_ℤ (pos 0) n then n else pos 50

-- The arguments of doDragMouseLinear.
unfoldable pub linear_commands : DragMouseRequest → Point → List Point → List Xdo
unfolding segment_steps linear_delay
linear_commands body start rest =
    let steps = path_steps (segment_steps body.steps_per_segment) start rest in
    step_commands (linear_delay body.step_delay_ms) (steps_of steps) 0 steps

max_three : ℤ → ℤ
max_three ms = if ltb_ℤ ms (pos 3) then pos 3 else ms

unfoldable pub check_points : ℕ → List (List ℤ) → Point → M (List Point)
check_points i [] screen = pure []
check_points i ((x ∷ y ∷ []) ∷ path) screen =
    let rest = check_points (i + 1) path screen in
    check_bounds (x, y) screen >> rest >>= λ ps. pure ((x, y) ∷ ps)
check_points i (pt ∷ path) screen =
    fail (validation (codes "path[" ++ (itoa (pos i) ++ codes "] must be [x,y]")))

unfoldable pub button_of : Option Text → M Text
button_of none = pure (codes "1")
button_of (some name) =
    if text_eq name (codes "left")
    then pure (codes "1")
    else if text_eq name (codes "middle")
    then pure (codes "2")
    else if text_eq name (codes "right")
    then pure (codes "3")
    else fail (validation (codes "unsupported button: " ++ name))

-- The release of the button and of the modifiers.
unfoldable pub drag_releases : DragMouseRequest → Text → List Xdo
drag_releases body btn = mouseup btn ∷ keyups (keys_of body.drag_hold_keys)

-- The path has two points at least.
unfoldable pub is_long : List (List ℤ) → Bool
is_long (p ∷ q ∷ ps) = true
is_long few = false

module _ (env : Env) where
  -- The loop of doDragMouseSmooth; env.drag_jitter is the delay with its random part.
  unfoldable pub smooth_commands : ℕ → ℕ → Point → List Point → List Xdo
  unfolding max_three
  smooth_commands total i prev [] = []
  smooth_commands total i prev (p ∷ ps) =
      let rest = smooth_commands total (i + 1) p ps in
      if same_point prev p
      then rest
      else relative prev p
        ∷ (if ltb i total then sleep (max_three (env.drag_jitter i)) ∷ rest else rest)

  unfoldable pub run_unless_empty : List Xdo → (Text → ActionError) → M (Unit {0})
  run_unless_empty [] e = pure tt
  run_unless_empty (c ∷ cs) e = execute env (c ∷ cs) e

  unfoldable pub follow_drag : List Point → M (Unit {0})
  unfolding run_unless_empty
  follow_drag (p ∷ q ∷ ps) =
      run_unless_empty (smooth_commands (steps_of (q ∷ ps)) 1 p (q ∷ ps))
        (λ out. execution (codes "failed during smooth drag movement"))
  follow_drag few = pure tt

  -- doDragMouseSmooth
  unfoldable pub do_drag_mouse_smooth : DragMouseRequest → List Point → Point → M (Unit {0})
  do_drag_mouse_smooth body waypoints screen =
      if out_of_range (pos 50) (pos 10000) body.drag_duration_ms
      then fail (validation (codes "duration_ms must be between 50 and 10000"))
      else follow_drag (env.drag_points waypoints screen body.drag_duration_ms)

  -- doDragMouseLinear
  unfoldable pub do_drag_mouse_linear : DragMouseRequest → Text → Point → List Point → M (Unit {0})
  unfolding run_unless_empty
  do_drag_mouse_linear body btn start rest = on_failure (run_anyway env (drag_releases body btn)) (
      run_unless_empty (linear_commands body start rest)
        (λ out. execution (codes "failed during drag movement: " ++ out)))

  -- Phase 1: the modifiers, the move to the start, the button
  unfoldable pub begin_drag : DragMouseRequest → Text → Point → M (Unit {0})
  begin_drag body btn (x, y) = on_failure (release env body.drag_hold_keys) (
      execute env (keydowns (keys_of body.drag_hold_keys) ++ (mousemove x y ∷ mousedown btn ∷ []))
        (λ out. execution (codes "failed to start drag: " ++ out)))

  unfoldable pub wait : Option ℤ → M (Unit {0})
  wait none = pure tt
  wait (some ms) =
      if ltb_ℤ (pos 0) ms
      then sleep_with_context env ms (λ e. execution (codes "drag delay interrupted: " ++ e))
      else pure tt

  -- Phase 2 with the delay in front of it, and phase 3
  unfoldable pub finish_drag : DragMouseRequest → Text → Point → List Point → Point → M (Unit {0})
  unfolding wait
  finish_drag body btn start rest screen =
      on_failure (run_anyway env (drag_releases body btn)) (wait body.drag_delay)
      >> (if is_smooth body.drag_smooth
          then on_failure (run_anyway env (drag_releases body btn))
              (do_drag_mouse_smooth body (start ∷ rest) screen)
          else do_drag_mouse_linear body btn start rest)
      >> execute env (drag_releases body btn)
          (λ out. execution (codes "failed to finish drag: " ++ out))

  unfoldable pub drag_checked : DragMouseRequest → Point → List Point → M (Unit {0})
  unfolding button_of
  drag_checked body screen (start ∷ rest) = button_of body.drag_button >>= λ btn.
      begin_drag body btn start >> finish_drag body btn start rest screen
  drag_checked body screen [] = pure tt

  -- doDragMouse
  unfoldable pub do_drag_mouse : DragMouseRequest → M (Unit {0})
  unfolding is_long check_points drag_checked
  do_drag_mouse body =
      if is_long body.path
      then (current_resolution env >>= λ screen.
          check_points 0 body.path screen >>= λ points. drag_checked body screen points)
      else fail (validation (codes "path must contain at least two points"))
