-- ===== src/Computer.antt =====
-- cmd/api/api/computer.go and xdotool.go: the input actions. An action runs commands of xdotool and
-- sleeps; the history lists what has been run, the newest first. What these programs and the
-- screen answer is a function of the history. inputMu makes a request one action after the other.
pub mod Position
mod Triple
pub mod Released
pub mod Keys
pub mod Mouse
pub mod Click
pub mod Drag
pub mod Reading
pub mod Pointer
pub mod Dragging
pub mod Clamping
pub mod Batch
pub mod FirstError
pub mod Handlers
mod Examples
use popcorn_images.Base.{
  ℕ, ℤ, pos, negsuc, ◌+◌, ◌/◌, ◌%◌, ◌-ℤ◌, not, ◌||◌, Option, none, some, List, [], ◌∷◌, ◌++◌, Bool,
  true, false, Text, Error, codes, itoa, ltb_ℤ, if◌then◌else◌,
}

-- A command of xdotool with its operands.
pub data Xdo : Type 0 where
  keydown keyup key : Text → Xdo
  mousemove mousemove_relative mousemove_marked : ℤ → ℤ → Xdo
  mousedown mouseup click : Text → Xdo
  click_times : ℤ → Text → Xdo
  scroll_ticks : ℤ → Text → Xdo
  sleep : ℤ → Xdo
  type_text : Option ℤ → Text → Xdo
  getmouselocation : Xdo

digit : ℕ → Text
digit n = (b'0' + n % 10) ∷ []

-- fmt.Sprintf("%.3f", float64(ms)/1000.0) of what is not negative
seconds : ℤ → Text
unfolding digit
seconds (pos n) =
    itoa (pos (n / 1000)) ++ (codes "." ++ (digit (n / 100) ++ (digit (n / 10) ++ digit n)))
seconds (negsuc n) = []

type_delay : Option ℤ → List Text
type_delay none = []
type_delay (some d) = codes "--delay" ∷ itoa d ∷ []

-- The arguments as the handlers append them.
unfoldable pub argv : Xdo → List Text
unfolding seconds type_delay
argv (keydown k) = codes "keydown" ∷ k ∷ []
argv (keyup k) = codes "keyup" ∷ k ∷ []
argv (key k) = codes "key" ∷ k ∷ []
argv (mousemove x y) = codes "mousemove" ∷ itoa x ∷ itoa y ∷ []
argv (mousemove_relative x y) = codes "mousemove_relative" ∷ itoa x ∷ itoa y ∷ []
argv (mousemove_marked x y) = codes "mousemove_relative" ∷ codes "--" ∷ itoa x ∷ itoa y ∷ []
argv (mousedown b) = codes "mousedown" ∷ b ∷ []
argv (mouseup b) = codes "mouseup" ∷ b ∷ []
argv (click b) = codes "click" ∷ b ∷ []
argv (click_times n b) = codes "click" ∷ codes "--repeat" ∷ itoa n ∷ b ∷ []
argv (scroll_ticks n b) =
    codes "click" ∷ codes "--repeat" ∷ itoa n ∷ codes "--delay" ∷ codes "0" ∷ b ∷ []
argv (sleep ms) = codes "sleep" ∷ seconds ms ∷ []
argv (type_text d t) = codes "type" ∷ type_delay d ++ codes "--" ∷ t ∷ []
argv getmouselocation = codes "getmouselocation" ∷ codes "--shell" ∷ []

pub data Op : Type 0 where
  xdo : List Xdo → Op
  slept : ℤ → Op
  pkill_unclutter start_unclutter : Op

abbrev pub History : Type 0
History = List Op

abbrev pub Point : Type 0
Point = ℤ × ℤ

-- The output of xdotool, and whether it failed.
pub data Answer : Type 0 where
  done failed : Text → Answer

-- pkill ends well, finds no process, or fails.
pub data Kill : Type 0 where
  killed no_process kill_failed : Kill

-- What the outside answers, at each history. The points of a trajectory, which are computed with
-- floats and random numbers, and the random jitter of a delay are among it.
pub record Env : Type 0 where
  pub xdotool : History → List Xdo → Answer
  pub resolution : History → Option Point
  pub interrupted : History → Option Error
  pub cancelled : History → Bool
  pub pkill : History → Kill
  pub unclutter : History → Option Error
  pub move_points : Point → Point → Option ℤ → List Point
  pub drag_points : List Point → Point → Option ℤ → List Point
  pub jitter : History → ℤ
  pub drag_jitter : ℕ → ℤ

-- validationError and executionError
pub data ActionError : Type 0 where
  validation execution : Text → ActionError

pub data Result (A : Type 0) : Type 0 where
  ok : A → Result A
  err : ActionError → Result A

abbrev pub M : Type 0 → Type 0
M A = History → Result A × History

abbrev pub resume : {A B : Type 0} → (A → M B) → Result A × History → Result B × History
resume f (ok a, h) = f a h
resume f (err e, h) = (err e, h)

infixl 5 ◌>>=◌ ◌>>◌
abbrev pub ◌>>=◌ : {A B : Type 0} → M A → (A → M B) → M B
◌>>=◌ m f h = resume f (m h)

abbrev pub ◌>>◌ : {B : Type 0} → M (Unit {0}) → M B → M B
m >> k = m >>= λ _. k

abbrev pub pure : {A : Type 0} → A → M A
pure a h = (ok a, h)

abbrev pub fail : {A : Type 0} → ActionError → M A
fail e h = (err e, h)

-- A cleanup that is made on a failure, and one that is made always.
abbrev pub cleaned : {A : Type 0} → (History → History) → Result A × History → Result A × History
cleaned f (ok a, h) = (ok a, h)
cleaned f (err e, h) = (err e, f h)

abbrev pub on_failure : {A : Type 0} → (History → History) → M A → M A
on_failure f m h = cleaned f (m h)

abbrev pub deferred : {A : Type 0} → (History → History) → Result A × History → Result A × History
deferred f (r, h) = (r, f h)

abbrev pub finally : {A : Type 0} → (History → History) → M A → M A
finally f m h = deferred f (m h)

unfoldable pub answered : (Text → ActionError) → Answer → History → Result Text × History
answered e (done out) h = (ok out, h)
answered e (failed out) h = (err (e out), h)

unfoldable pub slept_well :
    (Error → ActionError) → Option Error → History → Result (Unit {0}) × History
slept_well e none h = (ok tt, h)
slept_well e (some x) h = (err (e x), h)

module _ (env : Env) where
  -- defaultXdoTool.Run, with the error that its caller makes of a failure
  unfoldable pub run : List Xdo → (Text → ActionError) → M Text
  unfolding answered
  run cs e h = answered e (env.xdotool h cs) (xdo cs ∷ h)

  abbrev pub execute : List Xdo → (Text → ActionError) → M (Unit {0})
  execute cs e = run cs e >>= λ out. pure tt

  -- A run whose result is dropped.
  unfoldable pub run_anyway : List Xdo → History → History
  run_anyway cs h = xdo cs ∷ h

  -- sleepWithContext
  unfoldable pub sleep_with_context : ℤ → (Error → ActionError) → M (Unit {0})
  unfolding slept_well
  sleep_with_context ms e h =
      if ltb_ℤ (pos 0) ms then slept_well e (env.interrupted h) (slept ms ∷ h) else (ok tt, h)

  unfoldable pub resolved : Option Point → M Point
  resolved none = fail (execution (codes "failed to get current display resolution"))
  resolved (some p) = pure p

  -- getCurrentResolution as the actions call it
  unfoldable pub current_resolution : M Point
  unfolding resolved
  current_resolution h = resolved (env.resolution h) h

abbrev pub exceed : Point → Text
exceed (w, height) =
    codes "coordinates exceed screen bounds (max: "
    ++ (itoa (w -ℤ pos 1) ++ (codes "x" ++ (itoa (height -ℤ pos 1) ++ codes ")")))

-- The checks of a point against the screen.
unfoldable pub check_bounds : Point → Point → M (Unit {0})
check_bounds (x, y) (w, height) =
    if ltb_ℤ x (pos 0) || ltb_ℤ y (pos 0)
    then fail (validation (codes "coordinates must be non-negative"))
    else if not (ltb_ℤ x w) || not (ltb_ℤ y height)
    then fail (validation (exceed (w, height)))
    else pure tt

-- The loops over hold_keys; a nil list has no keys.
abbrev pub keys_of : Option (List Text) → List Text
keys_of none = []
keys_of (some ks) = ks

unfoldable pub keydowns : List Text → List Xdo
keydowns [] = []
keydowns (k ∷ ks) = keydown k ∷ keydowns ks

unfoldable pub keyups : List Text → List Xdo
keyups [] = []
keyups (k ∷ ks) = keyup k ∷ keyups ks
