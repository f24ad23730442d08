-- ===== src/Computer/Click.antt =====
-- doClickMouse, doSetCursor and doSleep of cmd/api/api/computer.go.
use popcorn_images.Base.{
  ℤ, pos, Option, none, some, List, ◌∷◌, ◌++◌, Bool, Text, Error, codes, text_eq, ltb_ℤ,
  if◌then◌else◌,
}
use popcorn_images.Computer.{
  Xdo, mousemove, mousedown, mouseup, click, click_times, pkill_unclutter, start_unclutter, Env,
  Kill, kill_failed, validation, execution, M, ok, err, ◌>>=◌, ◌>>◌, pure, fail, execute,
  sleep_with_context, current_resolution, check_bounds, keys_of, keydowns, keyups,
}
use popcorn_images.Computer.Mouse.{do_move_mouse}

pub record ClickMouseRequest : Type 0 where
  pub click_button : Option Text
  pub click_type : Option Text
  pub click_hold_keys : Option (List Text)
  pub num_clicks : Option ℤ
  pub click_x : ℤ
  pub click_y : ℤ

unfoldable pub click_code : Text → Option Text
click_code name =
    if text_eq name (codes "left")
    then some (codes "1")
    else if text_eq name (codes "middle")
    then some (codes "2")
    else if text_eq name (codes "right")
    then some (codes "3")
    else if text_eq name (codes "back")
    then some (codes "8")
    else if text_eq name (codes "forward")
    then some (codes "9")
    else none

unfoldable pub coded : Text → Option Text → M Text
coded name none = fail (validation (codes "unsupported button: " ++ name))
coded name (some code) = pure code

unfoldable pub button_of : Option Text → M Text
unfolding click_code coded
button_of none = pure (codes "1")
button_of (some name) = coded name (click_code name)

clicks : Option ℤ → ℤ
clicks none = pos 1
clicks (some n) = if ltb_ℤ (pos 0) n then n else pos 1

or_click : Option Text → Text
or_click none = codes "click"
or_click (some t) = t

unfoldable pub action_of : Text → ℤ → Text → M Xdo
action_of kind count btn =
    if text_eq kind (codes "down")
    then pure (mousedown btn)
    else if text_eq kind (codes "up")
    then pure (mouseup btn)
    else if text_eq kind (codes "click")
    then pure (if ltb_ℤ (pos 1) count then click_times count btn else click btn)
    else fail (validation (codes "unsupported click type: " ++ kind))

unfoldable pub start : Option Error → M (Unit {0})
start none h = (ok tt, start_unclutter ∷ h)
start (some e) h = (err (execution (codes "failed to start unclutter")), start_unclutter ∷ h)

unfoldable pub kill_old : Kill → M (Unit {0})
kill_old kill_failed h =
    (err (execution (codes "failed to kill existing unclutter processes")), pkill_unclutter ∷ h)
kill_old other h = (ok tt, pkill_unclutter ∷ h)

module _ (env : Env) where
  -- doClickMouse behind the move
  unfoldable pub click_there : ClickMouseRequest → M (Unit {0})
  unfolding button_of action_of or_click clicks
  click_there body = button_of body.click_button >>= λ btn.
      action_of (or_click body.click_type) (clicks body.num_clicks) btn >>= λ action.
      execute env
        (keydowns (keys_of body.click_hold_keys)
          ++ (mousemove body.click_x body.click_y ∷ action ∷ keyups (keys_of body.click_hold_keys)))
        (λ out. execution (codes "failed to execute mouse action"))

  -- doClickMouse
  unfoldable pub do_click_mouse : ClickMouseRequest → M (Unit {0})
  do_click_mouse body = current_resolution env >>= λ screen.
      check_bounds (body.click_x, body.click_y) screen
      >> do_move_mouse env (record {
        move_duration_ms = none;
        move_hold_keys = none;
        move_smooth = none;
        move_x = body.click_x;
        move_y = body.click_y;
      })
      >> click_there body

  unfoldable pub hide : Bool → M (Unit {0})
  unfolding start
  hide hidden h = if hidden then start (env.unclutter h) h else (ok tt, h)

  -- doSetCursor
  unfoldable pub do_set_cursor : Bool → M (Unit {0})
  unfolding hide kill_old
  do_set_cursor hidden = (λ h. kill_old (env.pkill h) h) >> hide hidden

  -- doSleep; maxSleepDurationMs is 30000
  unfoldable pub do_sleep : ℤ → M (Unit {0})
  do_sleep ms =
      if ltb_ℤ ms (pos 0)
      then fail (validation (codes "duration_ms must be >= 0"))
      else if ltb_ℤ (pos 30000) ms
      then fail (validation (codes "duration_ms must be <= 30000"))
      else sleep_with_context env ms (λ e. execution (codes "sleep interrupted: " ++ e))
