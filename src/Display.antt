-- ===== src/Display.antt =====
-- The viewport override of cmd/api/api/display.go with the resizes of Xvfb in the background: a fast
-- resize sets the override and starts a goroutine, and xvfbResizeMu lets one resize run at a time.
-- Each goroutine moves in steps, and a list of events is an interleaving.
pub mod Reported
pub mod Segments
pub mod Budget
pub mod Kept
pub mod Resolution
pub mod Patch
pub mod Patching
mod Examples
use popcorn_images.Base.{
  ℕ, ℤ, Option, none, some, List, [], ◌∷◌, ◌++◌, Bool, true, false, not, ◌&&◌, ◌-◌, ltb, ltb_ℤ,
  if◌then◌else◌,
}

pub record Size : Type 0 where
  pub width : ℤ
  pub height : ℤ

-- Who holds xvfbResizeMu: nobody, a goroutine of backgroundResizeXvfb behind its check, or a
-- PatchDisplay that resizes synchronously.
pub data Holder : Type 0 where
  nobody : Holder
  background synchronous : Size → Holder

pub record Display : Type 0 where
  -- viewportOverride, with its refresh rate
  pub override : Option (Size × ℤ)
  -- the size that Xvfb runs with
  pub xvfb : Size
  pub holder : Holder
  -- the goroutines that wait for the mutex
  pub queued : List Size

pub data Event : Type 0 where
  -- a PatchDisplay that has resized the viewport by CDP
  fast : Size → ℤ → Event
  -- the goroutine at a position gets the mutex
  locked : ℕ → Event
  -- a PatchDisplay behind stopped recordings gets the mutex
  sync_locked : Size → Event
  -- resizeXvfb of the holder returns, with nil or not, and Xvfb then runs with this size: nil does
  -- not say that it is the requested one, nor an error that it is the one before
  resized : Bool → Size → Event

unfoldable pub same_size : Size → Size → Bool
same_size a b =
    (not (ltb_ℤ a.width b.width) && not (ltb_ℤ b.width a.width))
    && (not (ltb_ℤ a.height b.height) && not (ltb_ℤ b.height a.height))

-- The override has these dimensions.
abbrev pub matches : Size → Option (Size × ℤ) → Bool
matches size none = false
matches size (some (z, rate)) = same_size z size

-- setViewportOverride, and the start of the goroutine
unfoldable pub set_override : Size → ℤ → Display → Display
set_override size rate d = record d { override = some (size, rate); queued = d.queued ++ size ∷ [] }

unfoldable pub take_at : ℕ → List Size → Option Size × List Size
take_at i [] = (none, [])
take_at i (z ∷ zs) =
    let (found, rest) = take_at (i - 1) zs in if ltb 0 i then (found, z ∷ rest) else (some z, zs)

-- The first part of backgroundResizeXvfb: a cleared or a newer override ends it.
unfoldable pub check_override : Option Size × List Size → Display → Display
check_override (none, rest) d = d
check_override (some size, rest) d =
    if matches size d.override
    then record d { holder = background size; queued = rest }
    else record d { queued = rest }

unfoldable pub lock_background : ℕ → Holder → Display → Display
unfolding check_override take_at
lock_background i nobody d = check_override (take_at i d.queued) d
lock_background i (background z) d = d
lock_background i (synchronous z) d = d

unfoldable pub lock_sync : Size → Holder → Display → Display
lock_sync size nobody d = record d { holder = synchronous size }
lock_sync size (background z) d = d
lock_sync size (synchronous z) d = d

-- The second part of backgroundResizeXvfb, and clearViewportOverride behind a synchronous resize
unfoldable pub finish : Bool → Size → Holder → Display → Display
finish fine left nobody d = d
finish false left (background size) d = record d { holder = nobody; xvfb = left }
finish true left (background size) d = record d {
  holder = nobody;
  xvfb = left;
  override = if matches size d.override then none else d.override;
}
finish false left (synchronous size) d = record d { holder = nobody; xvfb = left }
finish true left (synchronous size) d = record d { holder = nobody; xvfb = left; override = none }

unfoldable pub step : Display → Event → Display
unfolding lock_background lock_sync
step d (fast size rate) = set_override size rate d
step d (locked i) = lock_background i d.holder d
step d (sync_locked size) = lock_sync size d.holder d
step d (resized fine left) = finish fine left d.holder d

unfoldable pub run : Display → List Event → Display
run d [] = d
run d (e ∷ es) = run (step d e) es

abbrev pub size_of : Size → Option (Size × ℤ) → Size
size_of xvfb none = xvfb
size_of xvfb (some (z, rate)) = z

-- The dimensions of getCurrentResolution; xrandr reports the size of Xvfb.
unfoldable pub get_current_resolution : Display → Size
get_current_resolution d = size_of d.xvfb d.override
