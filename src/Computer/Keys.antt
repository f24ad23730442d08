-- ===== src/Computer/Keys.antt =====
-- doTypeText, doPressKey and doScroll of cmd/api/api/computer.go.
use popcorn_images.Base.{
  ℤ, pos, Option, none, some, List, [], ◌∷◌, ◌++◌, Bool, true, false, not, ◌&&◌, Text, codes, ltb_ℤ,
  ◌-ℤ◌, if◌then◌else◌,
}
use popcorn_images.Computer.{
  Xdo, key, mousemove, scroll_ticks, type_text, Env, validation, execution, M, ◌>>=◌, ◌>>◌, fail,
  on_failure, execute, run_anyway, sleep_with_context, current_resolution, check_bounds, keys_of,
  keydowns, keyups,
}

pub record TypeTextRequest : Type 0 where
  pub text : Text
  pub delay : Option ℤ

pub record PressKeyRequest : Type 0 where
  pub duration : Option ℤ
  pub hold_keys : Option (List Text)
  pub keys : List Text

pub record ScrollRequest : Type 0 where
  pub delta_x : Option ℤ
  pub delta_y : Option ℤ
  pub scroll_hold_keys : Option (List Text)
  pub scroll_x : ℤ
  pub scroll_y : ℤ

unfoldable pub is_negative : Option ℤ → Bool
is_negative none = false
is_negative (some n) = ltb_ℤ n (pos 0)

unfoldable pub taps : List Text → List Xdo
taps [] = []
taps (k ∷ ks) = key k ∷ taps ks

-- argsUp: the keys, then the modifiers
unfoldable pub releases : PressKeyRequest → List Xdo
releases body = keyups body.keys ++ keyups (keys_of body.hold_keys)

unfoldable pub is_zero : Option ℤ → Bool
is_zero none = true
is_zero (some n) = not (ltb_ℤ n (pos 0)) && not (ltb_ℤ (pos 0) n)

-- The ticks in one direction, with the buttons for a negative and a positive count.
unfoldable pub ticks : Option ℤ → Text → Text → List Xdo
ticks none less more = []
ticks (some n) less more =
    if is_zero (some n)
    then []
    else if ltb_ℤ n (pos 0)
    then scroll_ticks (pos 0 -ℤ n) less ∷ []
    else scroll_ticks n more ∷ []

unfoldable pub scroll_commands : ScrollRequest → List Xdo
unfolding ticks is_zero
scroll_commands body =
    keydowns (keys_of body.scroll_hold_keys)
    ++ (mousemove body.scroll_x body.scroll_y ∷ ticks body.delta_y (codes "4") (codes "5")
        ++ (ticks body.delta_x (codes "6") (codes "7") ++ keyups (keys_of body.scroll_hold_keys)))

unfoldable pub no_keys : List Text → Bool
no_keys [] = true
no_keys (k ∷ ks) = false

module _ (env : Env) where
  -- doTypeText
  unfoldable pub do_type_text : TypeTextRequest → M (Unit {0})
  unfolding is_negative
  do_type_text body =
      if is_negative body.delay
      then fail (validation (codes "delay must be >= 0 milliseconds"))
      else execute env (type_text body.delay body.text ∷ [])
          (λ out. execution (codes "failed to type text"))

  -- doPressKey with a duration
  unfoldable pub hold : PressKeyRequest → ℤ → M (Unit {0})
  unfolding releases
  hold body d =
      on_failure (run_anyway env (releases body)) (
        execute env (keydowns (keys_of body.hold_keys) ++ keydowns body.keys)
          (λ out. execution (codes "failed to press keys (keydown). out=" ++ out)))
      >> on_failure (run_anyway env (releases body))
          (sleep_with_context env d (λ e. execution (codes "key hold interrupted: " ++ e)))
      >> execute env (releases body)
          (λ out. execution (codes "failed to release keys. out=" ++ out))

  -- doPressKey without one
  unfoldable pub tap : PressKeyRequest → M (Unit {0})
  unfolding taps
  tap body =
      execute env
        (keydowns (keys_of body.hold_keys) ++ (taps body.keys ++ keyups (keys_of body.hold_keys)))
        (λ out. execution (codes "failed to press keys. out=" ++ out))

  unfoldable pub press : Option ℤ → PressKeyRequest → M (Unit {0})
  press none body = tap body
  press (some d) body =
      if ltb_ℤ d (pos 0)
      then fail (validation (codes "duration must be >= 0 milliseconds"))
      else if ltb_ℤ (pos 0) d
      then hold body d
      else tap body

  -- doPressKey
  unfoldable pub do_press_key : PressKeyRequest → M (Unit {0})
  unfolding press no_keys
  do_press_key body =
      if no_keys body.keys
      then fail (validation (codes "keys must contain at least one key symbol"))
      else press body.duration body

  -- doScroll
  unfoldable pub do_scroll : ScrollRequest → M (Unit {0})
  unfolding is_zero
  do_scroll body =
      if is_zero body.delta_x && is_zero body.delta_y
      then fail (validation (codes "at least one of delta_x or delta_y must be non-zero"))
      else current_resolution env >>= λ screen.
          check_bounds (body.scroll_x, body.scroll_y) screen
          >> execute env (scroll_commands body)
              (λ out. execution (codes "failed to perform scroll: " ++ out))
