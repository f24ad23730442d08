-- ===== src/Display/Patching.antt =====
-- What PatchDisplay leaves behind each of its answers.
use popcorn_images.Base.{
  ℤ, ◌≡◌, refl, ap, ◌∙◌, Option, none, some, List, [], ◌∷◌, true, not, ◌&&◌, ◌||◌, Text, Error,
  is_some, Assoc, if-Holds, arith,
}
use popcorn_images.ScaleToZero.{Controller}
use popcorn_images.Recorder.{Recorder, Remux, Response}
use popcorn_images.Display.{
  Size, Display, nobody, synchronous, set_override, lock_sync, finish, get_current_resolution,
}
use popcorn_images.Display.Segments.{StoppedRecordingInfo, Stopped}
use popcorn_images.Display.Resolution.{
  Outside, Parsed, resolution, unreadable, resize_xvfb, set_viewport_via_cdp,
}
use popcorn_images.Display.Patch.{
  PatchRequest, PatchResponse, patch_200, patch_bad_request_400, patch_conflict_409,
  patch_error_500, Desktop, Patched, required, is_valid_size, resized_answer, is_nil, resize_locked,
  override_set, resize, patch_stopped, patch_resized, patch_sized, patch_from, patch_display,
}

-- A refusal changes nothing; a failure leaves the override, and the display where no recordings
-- were stopped; a success reports the resolution that it answers.
abbrev Left :
    {W : Type 0} → Desktop W → PatchResponse → List StoppedRecordingInfo → Desktop W → Type 0
Left s (patch_200 size rate) infos t = get_current_resolution t.display ≡ size
Left s (patch_bad_request_400 m) infos t = (infos ≡ []) × (t ≡ s)
Left s (patch_conflict_409 m) infos t = (infos ≡ []) × (t ≡ s)
Left s (patch_error_500 m) infos t =
    (t.display.override ≡ s.display.override) × (infos ≡ [] → t.display ≡ s.display)

pub record Answers {W : Type 0} (s : Desktop W) (x : Patched W) : Type 0 where
  pub left : Left s x.0 x.1 x.2

locked-finish :
    (size : Size) (err : Option Error) (left : Size) (d : Display)
    → d.holder ≡ nobody
    → resize_locked size err left d
      ≡ finish (is_nil err) left (synchronous size) (record d { holder = synchronous size })
unfolding resize_locked lock_sync
locked-finish size err left d h =
    ap (λ k. let l = lock_sync size k d in finish (is_nil err) left l.holder l) h

abbrev left_with : {W : Type 0} → Assoc Recorder → W → Display → Desktop W
left_with recorders w d = record {
  service = record { recorders = recorders; ctl = w };
  display = d;
}

module _ {W : Type 0} (o : Outside) (s : Desktop W) (free : s.display.holder ≡ nobody)
    (xvfb : o.marker ≡ true)
    (kept : (size : Size) → (resize_xvfb o size).0 ≡ none → o.xvfb_after size ≡ size) where
  locked-Left :
      (size : Size) (rate : ℤ) (err : Option Error) (left : Size) (i : StoppedRecordingInfo)
      (infos : List StoppedRecordingInfo) (t : Desktop W)
      → (err ≡ none → left ≡ size)
      → t.display ≡ resize_locked size err left s.display
      → Left s (resized_answer size rate err) (i ∷ infos) t
  unfolding resized_answer finish is_nil get_current_resolution
  locked-Left size rate none left i infos t k e =
      ap get_current_resolution (e ∙ locked-finish size none left s.display free) ∙ k refl
  locked-Left size rate (some m) left i infos t k e = (
    ap (λ d. d.override) (e ∙ locked-finish size (some m) left s.display free),
    λ n. ground (arith, n),
  )

  override-Left :
      (size : Size) (rate : ℤ) (err : Option Error) (infos : List StoppedRecordingInfo)
      (t : Desktop W)
      → t.display ≡ override_set size rate err s.display
      → Left s (resized_answer size rate err) infos t
  unfolding resized_answer override_set set_override get_current_resolution
  override-Left size rate none infos t e = ap get_current_resolution e
  override-Left size rate (some m) infos t e = (ap (λ d. d.override) e, λ n. e)

  stopped-Answers :
      (size : Size) (rate : ℤ) (x : Stopped W) → Answers s (patch_stopped o size rate s.display x)
  unfolding patch_stopped resize patch_resized set_viewport_via_cdp resize_xvfb
  stopped-Answers size rate (some e, infos, recorders, w) = record { left = (refl, λ n. refl) }
  stopped-Answers size rate (none, [], recorders, w) = rw xvfb (record {
    left = override-Left size rate (set_viewport_via_cdp o size) [] (left_with recorders w _) refl;
  })
  stopped-Answers size rate (none, (i ∷ infos), recorders, w) = rw xvfb (record {
    left =
        locked-Left size rate (resize_xvfb o size).0 (o.xvfb_after size) i infos
          (left_with recorders w _) (kept size) refl;
  })

  module _ (ctrl : Controller W) (rs : Text → List Response) (a : Text → Remux) where
    sized-Answers :
        (body : PatchRequest) (size : Size) (rate : ℤ)
        → Answers s (patch_sized ctrl rs a o body size rate s)
    unfolding patch_sized
    sized-Answers body size rate =
        if-Holds (Answers s) (not (is_valid_size size)) _ _ (λ c. record { left = (refl, refl) })
          (λ c.
            if-Holds (Answers s) (required body.require_idle && _) _ _
              (λ d. record { left = (refl, refl) }) (λ d. stopped-Answers size rate _))

    from-Answers : (body : PatchRequest) (r : Parsed) → Answers s (patch_from ctrl rs a o body s r)
    unfolding patch_from
    from-Answers body (unreadable e) = record { left = (refl, λ n. refl) }
    from-Answers body (resolution size rate) = sized-Answers body _ _

-- With Xvfb and no resize under way, where each resize of Xvfb for which resizeXvfb returns nil
-- leaves Xvfb at the requested size, PatchDisplay leaves behind its answer: a 400 or 409 the
-- recorders and the display as they were; a 500 the viewport override as it was, and the whole
-- display if no recordings are left to go on; and a 200 the resolution that it answers, as the one
-- that the server reports.
pub patch_display-Answers :
    {W : Type 0} (ctrl : Controller W) (rs : Text → List Response) (a : Text → Remux) (o : Outside)
    (body : Option PatchRequest) (s : Desktop W)
    → s.display.holder ≡ nobody
    → o.marker ≡ true
    → ((size : Size) → (resize_xvfb o size).0 ≡ none → o.xvfb_after size ≡ size)
    → Answers s (patch_display ctrl rs a o body s)
unfolding patch_display
patch_display-Answers ctrl rs a o none s free xvfb kept = record { left = (refl, refl) }
patch_display-Answers ctrl rs a o (some body) s free xvfb kept =
    if-Holds (Answers s) (not (is_some body.width || is_some body.height)) _ _
      (λ c. record { left = (refl, refl) }) (λ c. from-Answers o s free xvfb kept ctrl rs a body _)
