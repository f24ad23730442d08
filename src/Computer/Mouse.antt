-- ===== src/Computer/Mouse.antt =====
-- doMoveMouse of cmd/api/api/computer.go.
use popcorn_images.Base.{
  ℕ, suc, ◌/◌, ℤ, pos, pos_part, Option, none, some, List, [], ◌∷◌, ◌++◌, Bool, true, false, not,
  ◌&&◌, ◌||◌, Text, codes, ltb_ℤ, ◌+ℤ◌, ◌-ℤ◌, if◌then◌else◌,
}
use popcorn_images.Computer.{
  Xdo, mousemove, mousemove_marked, getmouselocation, History, Point, Env, validation, execution, M,
  ok, err, ◌>>=◌, ◌>>◌, pure, fail, finally, run, execute, run_anyway, sleep_with_context,
  current_resolution, check_bounds, keys_of, keydowns, keyups,
}
use popcorn_images.Computer.Position.{parse_mouse_position}

pub record MoveMouseRequest : Type 0 where
  pub move_duration_ms : Option ℤ
  pub move_hold_keys : Option (List Text)
  pub move_smooth : Option Bool
  pub move_x : ℤ
  pub move_y : ℤ

unfoldable pub clamp_axis : ℤ → ℤ → ℤ
clamp_axis v size =
    if ltb_ℤ v (pos 0) then pos 0 else if ltb_ℤ (size -ℤ pos 1) v then size -ℤ pos 1 else v

unfoldable pub clamp_point : Point → Point → Point
unfolding clamp_axis
clamp_point (w, height) (x, y) = (clamp_axis x w, clamp_axis y height)

-- clampPoints
unfoldable pub clamp_points : Point → List Point → List Point
clamp_points screen [] = []
clamp_points screen (p ∷ ps) = clamp_point screen p ∷ clamp_points screen ps

at_least : ℤ → ℤ → ℤ
at_least low v = if ltb_ℤ v low then low else v

-- The number of points of a trajectory for a duration: MinPoints and MaxPoints are 5 and 80.
target_points : Option ℤ → Option ℤ
target_points none = none
target_points (some d) =
    let target = at_least (pos 5) (pos (pos_part d / 10)) in
    some (if ltb_ℤ (pos 80) target then pos 80 else target)

abbrev pub steps_of : List Point → ℕ
steps_of [] = 0
steps_of (p ∷ ps) = suc (steps_of ps)

step_delay : Option ℤ → List Point → ℤ
step_delay none steps = pos 10
step_delay (some d) steps = at_least (pos 3) (pos (pos_part d / steps_of steps))

abbrev pub out_of_range : ℤ → ℤ → Option ℤ → Bool
out_of_range low high none = false
out_of_range low high (some d) = ltb_ℤ d low || ltb_ℤ high d

unfoldable pub same_point : Point → Point → Bool
same_point (x, y) (x', y') =
    (not (ltb_ℤ x x') && not (ltb_ℤ x' x)) && (not (ltb_ℤ y y') && not (ltb_ℤ y' y))

-- The relative move between two points.
unfoldable pub relative : Point → Point → Xdo
relative (x, y) (x', y') = mousemove_marked (x' -ℤ x) (y' -ℤ y)

abbrev pub is_smooth : Option Bool → Bool
is_smooth none = true
is_smooth (some b) = b

module _ (env : Env) where
  -- doMoveMouseInstant
  unfoldable pub do_move_mouse_instant : MoveMouseRequest → M (Unit {0})
  do_move_mouse_instant body =
      execute env
        (keydowns (keys_of body.move_hold_keys)
          ++ (mousemove body.move_x body.move_y ∷ keyups (keys_of body.move_hold_keys)))
        (λ out. execution (codes "failed to move mouse"))

  unfoldable pub located : Option Point → M Point
  located none = fail (execution (codes "failed to get current mouse position: "))
  located (some p) = pure p

  -- getMouseLocation; the tail of the messages is left out
  unfoldable pub get_mouse_location : M Point
  unfolding located
  get_mouse_location =
      run env (getmouselocation ∷ [])
        (λ out. execution (codes "failed to get current mouse position: "))
      >>= λ out. located (parse_mouse_position out)

  -- A delay with its jitter; env.jitter is rand.Intn(5).
  jittered : ℤ → History → ℤ
  unfolding at_least
  jittered delay h =
      if ltb_ℤ (pos 3) delay then at_least (pos 3) (delay +ℤ env.jitter h -ℤ pos 2) else delay

  -- The loop over the points of the path.
  unfoldable pub move_steps : ℤ → Point → List Point → M (Unit {0})
  unfolding jittered
  move_steps delay prev [] h = (ok tt, h)
  move_steps delay prev (p ∷ ps) h =
      let rest = move_steps delay p ps in
      if env.cancelled h
      then (err (execution (codes "mouse movement cancelled")), h)
      else ((if same_point prev p
              then pure tt
              else execute env (relative prev p ∷ [])
                  (λ out. execution (codes "failed during smooth mouse movement")))
            >> (λ h'.
                sleep_with_context env (jittered delay h')
                  (λ e. execution (codes "mouse movement cancelled")) h')
            >> rest)
          h

  abbrev pub release : Option (List Text) → History → History
  release none h = h
  release (some ks) h = run_anyway env (keyups ks) h

  unfoldable pub hold_down : Option (List Text) → M (Unit {0})
  hold_down none = pure tt
  hold_down (some ks) =
      execute env (keydowns ks) (λ out. execution (codes "failed to hold modifier keys"))

  unfoldable pub follow : MoveMouseRequest → Point → List Point → M (Unit {0})
  unfolding hold_down step_delay at_least
  follow body screen (p ∷ q ∷ ps) =
      hold_down body.move_hold_keys
      >> finally (release body.move_hold_keys) (
          move_steps (step_delay body.move_duration_ms (q ∷ ps)) (clamp_point screen p)
            (clamp_points screen (q ∷ ps)))
  follow body screen few = do_move_mouse_instant body

  -- doMoveMouseSmooth
  unfoldable pub do_move_mouse_smooth : MoveMouseRequest → Point → M (Unit {0})
  unfolding target_points at_least
  do_move_mouse_smooth body screen = get_mouse_location >>= λ from.
      if out_of_range (pos 50) (pos 5000) body.move_duration_ms
      then fail (validation (codes "duration_ms must be between 50 and 5000"))
      else follow body screen
          (env.move_points from (body.move_x, body.move_y) (target_points body.move_duration_ms))

  -- doMoveMouse
  unfoldable pub do_move_mouse : MoveMouseRequest → M (Unit {0})
  do_move_mouse body = current_resolution env >>= λ screen.
      check_bounds (body.move_x, body.move_y) screen
      >> (if is_smooth body.move_smooth
          then do_move_mouse_smooth body screen
          else do_move_mouse_instant body)
