-- ===== src/Display/Patch.antt =====
-- PatchDisplay of cmd/api/api/display.go, over the recorders and the viewport override. A
-- synchronous resize finds the mutex of the resizes free; the stopped recordings go on in new
-- segments behind the answer. The marker of Xvfb, which the code reads once, does not change.
use popcorn_images.Base.{
  ℤ, pos, Option, none, some, List, [], ◌∷◌, ◌++◌, Bool, true, false, not, ◌&&◌, ◌||◌, ◌==◌, Text,
  Error, codes, text_eq, Assoc, leb_ℤ, is_some, if◌then◌else◌,
}
use popcorn_images.ScaleToZero.{Controller}
use popcorn_images.Recorder.{Recorder, Remux, Response, is_recording}
use popcorn_images.Recorder.Manager.{list_active}
use popcorn_images.Recordings.{Service}
use popcorn_images.Display.{Size, Display, set_override, lock_sync, finish}
use popcorn_images.Display.Segments.{StoppedRecordingInfo, Stopped, stop_active_recordings}
use popcorn_images.Display.Resolution.{
  Outside, Parsed, resolution, unreadable, of_xrandr, active_neko_sessions, set_resolution_via_neko,
  set_resolution_via_xrandr, resize_xvfb, set_viewport_via_cdp,
}

pub record PatchRequest : Type 0 where
  pub width : Option ℤ
  pub height : Option ℤ
  pub refresh_rate : Option ℤ
  pub require_idle : Option Bool
  pub restart_chromium : Option Bool

pub data PatchResponse : Type 0 where
  patch_200 : Size → ℤ → PatchResponse
  patch_bad_request_400 patch_conflict_409 patch_error_500 : Text → PatchResponse

pub record Desktop (W : Type 0) : Type 0 where
  pub service : Service W
  pub display : Display

-- The answer, the recordings that go on in new segments, and what is left
abbrev pub Patched : Type 0 → Type 0
Patched W = PatchResponse × List StoppedRecordingInfo × Desktop W

-- getCurrentResolution
unfoldable pub current_resolution : Outside → Option (Size × ℤ) → Parsed
current_resolution o none = of_xrandr o.parse_rate o.xrandr
current_resolution o (some (size, rate)) = resolution size rate

unfoldable pub any_recording : List Recorder → Bool
any_recording [] = false
any_recording (r ∷ rs) = is_recording r || any_recording rs

unfoldable pub value_or : ℤ → Option ℤ → ℤ
value_or z none = z
value_or z (some v) = v

-- requireIdle is true by default.
unfoldable pub required : Option Bool → Bool
required none = true
required (some b) = b

unfoldable pub is_valid_size : Size → Bool
is_valid_size size = not (leb_ℤ size.width (pos 0)) && not (leb_ℤ size.height (pos 0))

unfoldable pub resized_answer : Size → ℤ → Option Error → PatchResponse
resized_answer size rate none = patch_200 size rate
resized_answer size rate (some e) = patch_error_500 (codes "failed to change resolution: " ++ e)

unfoldable pub is_nil : Option Error → Bool
is_nil none = true
is_nil (some e) = false

-- The resize between the lock and the unlock of xvfbResizeMu
unfoldable pub resize_locked : Size → Option Error → Size → Display → Display
unfolding is_nil finish lock_sync
resize_locked size err left d =
    let locked = lock_sync size d.holder d in finish (is_nil err) left locked.holder locked

unfoldable pub override_set : Size → ℤ → Option Error → Display → Display
unfolding set_override
override_set size rate none d = set_override size rate d
override_set size rate (some e) d = d

module _ (o : Outside) where
  unfoldable pub resize_xorg : Size → ℤ → Option Error
  resize_xorg size rate =
      if text_eq (o.getenv (codes "ENABLE_WEBRTC")) (codes "true")
      then set_resolution_via_neko o size rate
      else set_resolution_via_xrandr o size rate

  -- The resize of the screen, with recordings stopped or not: its error, and the display
  unfoldable pub resize : List StoppedRecordingInfo → Size → ℤ → Display → Option Error × Display
  unfolding resize_xorg resize_locked override_set
  resize [] size rate d =
      if not o.marker
      then (resize_xorg size rate, d)
      else (set_viewport_via_cdp o size, override_set size rate (set_viewport_via_cdp o size) d)
  resize (x ∷ stopped) size rate d =
      if not o.marker
      then (resize_xorg size rate, d)
      else ((resize_xvfb o size).0, resize_locked size (resize_xvfb o size).0 (o.xvfb_after size) d)

unfoldable pub patch_resized :
    {W : Type 0}
    → Size
    → ℤ
    → List StoppedRecordingInfo
    → Assoc Recorder
    → W
    → Option Error × Display
    → Patched W
unfolding resized_answer
patch_resized size rate infos recorders w (err, d) = (
  resized_answer size rate err,
  infos,
  record { service = record { recorders = recorders; ctl = w }; display = d },
)

module _ {W : Type 0} (o : Outside) where
  -- Behind stopActiveRecordings; an error of it loses the recordings that were stopped before.
  unfoldable pub patch_stopped : Size → ℤ → Display → Stopped W → Patched W
  unfolding resize patch_resized
  patch_stopped size rate d (some e, infos, recorders, w) = (
    patch_error_500 (codes "failed to stop recordings for resize: " ++ e),
    [],
    record { service = record { recorders = recorders; ctl = w }; display = d },
  )
  patch_stopped size rate d (none, infos, recorders, w) =
      patch_resized size rate infos recorders w (resize o infos size rate d)

module _ {W : Type 0} (ctrl : Controller W) (rs : Text → List Response) (a : Text → Remux)
    (o : Outside) where
  -- Behind the reading of the current resolution
  unfoldable pub patch_sized : PatchRequest → Size → ℤ → Desktop W → Patched W
  unfolding patch_stopped
  patch_sized body size rate s =
      let idle =
        (active_neko_sessions o.sessions == 0)
        && not (any_recording (list_active s.service.recorders)) in
      if not (is_valid_size size)
      then (patch_bad_request_400 (codes "invalid width/height"), [], s)
      else if required body.require_idle && not idle
      then (
        patch_conflict_409 (codes "resize refused: live view or recording/replay active"),
        [],
        s,
      )
      else patch_stopped o size rate s.display
          (stop_active_recordings ctrl rs a s.service.recorders s.service.ctl)

  unfoldable pub patch_from : PatchRequest → Desktop W → Parsed → Patched W
  unfolding patch_sized
  patch_from body s (unreadable e) =
      (patch_error_500 (codes "failed to get current display resolution"), [], s)
  patch_from body s (resolution size rate) =
      patch_sized body
        (record {
          width = value_or size.width body.width;
          height = value_or size.height body.height;
        })
        (value_or rate body.refresh_rate) s

  -- PatchDisplay
  unfoldable pub patch_display : Option PatchRequest → Desktop W → Patched W
  unfolding patch_from
  patch_display none s = (patch_bad_request_400 (codes "missing request body"), [], s)
  patch_display (some body) s =
      if not (is_some body.width || is_some body.height)
      then (patch_bad_request_400 (codes "no display parameters to update"), [], s)
      else patch_from body s (current_resolution o s.display.override)
