-- ===== src/Display/Segments.antt =====
-- The segments of a recording across a resize, of cmd/api/api/display.go: stopActiveRecordings,
-- adjustParamsForRemainingBudget and startNewRecordingSegments over the recorder manager. Go's
-- iteration order over the recorders is not fixed; here it is that of the list.
use popcorn_images.Base.{
  ℕ, ℤ, pos, ◌-ℤ◌, ◌+◌, ◌-◌, ◌/◌, Option, none, some, List, [], ◌∷◌, ◌++◌, not, ◌&&◌, Text, Error,
  codes, Assoc, insert, itoa, join_path, leb, ltb, ltb_ℤ, ◌>>=◌, if◌then◌else◌,
}
use popcorn_images.ScaleToZero.{Controller}
use popcorn_images.Recorder.{Recorder, Remux, Response, is_recording}
use popcorn_images.Recorder.Arguments.{Params}
use popcorn_images.Recorder.Session.{Session, start, stop}
use popcorn_images.Recorder.Manager.{register, deregister}
use popcorn_images.Recordings.{Service, Host, factory}

-- stoppedRecordingInfo; the metadata are the times, in nanoseconds.
pub record StoppedRecordingInfo : Type 0 where
  pub id : Text
  pub params : Params
  pub start_time : ℕ
  pub end_time : ℕ

info_of : Recorder → StoppedRecordingInfo
info_of r = record {
  id = r.id;
  params = r.params;
  start_time = r.start_time;
  end_time = r.end_time;
}

-- int(end.Sub(start).Seconds())
unfoldable pub seconds : ℕ → ℕ → ℤ
seconds begun ended =
    if leb begun ended
    then pos ((ended - begun) / 1000000000)
    else pos 0 -ℤ pos ((begun - ended) / 1000000000)

-- The megabytes of a file, rounded up
unfoldable pub megabytes : ℕ → ℤ
megabytes size = pos ((size + 1048575) / 1048576)

-- What is left of a limit, and at least 1
unfoldable pub remaining : ℤ → ℤ → ℤ
remaining limit used = if ltb_ℤ (limit -ℤ used) (pos 1) then pos 1 else limit -ℤ used

unfoldable pub adjust_duration : ℕ → ℕ → Option ℤ → Option ℤ
unfolding remaining seconds
adjust_duration begun ended none = none
adjust_duration begun ended (some limit) =
    if ltb 0 ended then some (remaining limit (seconds begun ended)) else some limit

-- The size of the segment's file is that of os.Stat, unless this fails.
unfoldable pub adjust_size : Option ℕ → Option ℤ → Option ℤ
unfolding remaining megabytes
adjust_size size none = none
adjust_size none (some limit) = some limit
adjust_size (some n) (some limit) = some (remaining limit (megabytes n))

unfoldable pub segment_size : (Text → Option ℕ) → Text → Option Text → Option ℕ
segment_size stat id none = none
segment_size stat id (some dir) = stat (join_path dir (id ++ codes ".mp4"))

-- adjustParamsForRemainingBudget
unfoldable pub adjust_params : (Text → Option ℕ) → StoppedRecordingInfo → Params
unfolding adjust_duration adjust_size segment_size
adjust_params stat info = record info.params {
  max_duration_in_seconds =
      adjust_duration info.start_time info.end_time info.params.max_duration_in_seconds;
  max_size_in_mb =
      adjust_size (segment_size stat info.id info.params.output_dir) info.params.max_size_in_mb;
}

unfoldable pub stop_failure : Text → Error → Error
stop_failure id e = codes "failed to stop recording " ++ (id ++ (codes ": " ++ e))

abbrev pub Stopped : Type 0 → Type 0
Stopped W = Option Error × List StoppedRecordingInfo × Assoc Recorder × W

module _ {W : Type 0} (ctrl : Controller W) where
  keep : Text → Recorder → Stopped W → Stopped W
  keep id r (e, infos, recorders, w) = (e, infos, (id, r) ∷ recorders, w)

  -- The error of Stop counts when the process is still running.
  stop_outcome : Text → Option Error × Session W → Assoc Recorder → (W → Stopped W) → Stopped W
  unfolding info_of
  stop_outcome id (none, s) rest others =
      let (e, infos, recorders, w) = others s.ctl in
      (e, info_of s.rec ∷ infos, (id, s.rec) ∷ recorders, w)
  stop_outcome id (some e, s) rest others =
      let (e', infos, recorders, w) = others s.ctl in
      if is_recording s.rec
      then (some (stop_failure id e), [], (id, s.rec) ∷ rest, s.ctl)
      else (e', info_of s.rec ∷ infos, (id, s.rec) ∷ recorders, w)

  -- stopActiveRecordings, with what each process and each remux does; an error ends the loop.
  unfoldable pub stop_active_recordings :
      (Text → List Response) → (Text → Remux) → Assoc Recorder → W → Stopped W
  unfolding stop_outcome keep
  stop_active_recordings rs a [] w = (none, [], [], w)
  stop_active_recordings rs a ((id, r) ∷ rest) w =
      let others = stop_active_recordings rs a rest in
      if not r.deleted && is_recording r
      then (let (sent, e, done) = stop ctrl (rs id) (a id) (record { rec = r; ctl = w }) in
          stop_outcome id (e, done) rest others)
      else keep id r (others w)

  -- Behind Start: a recorder that does not start is deregistered.
  unfoldable pub segment_started : Recorder → Option Error × Session W → Assoc Recorder → Service W
  segment_started r (none, s) recorders = record {
    recorders = insert r.id s.rec recorders;
    ctl = s.ctl;
  }
  segment_started r (some e, s) recorders = record {
    recorders = deregister r recorders;
    ctl = s.ctl;
  }

  unfoldable pub segment_registered :
      Host → Recorder → Service W → Option Error × Assoc Recorder → Service W
  unfolding segment_started
  segment_registered h r s (some e, recorders) = s
  segment_registered h r s (none, recorders) =
      segment_started r (start ctrl h.os h.now h.launch h.early (record { rec = r; ctl = s.ctl }))
        recorders

  unfoldable pub segment_made : Host → Service W → Option Recorder → Option (Service W)
  unfolding segment_registered
  segment_made h s none = none
  segment_made h s (some r) = some (segment_registered h r s (register r s.recorders))

  -- startNewRecordingSegments, with the milliseconds of each new id; none is a panic of the
  -- factory, on a nil output directory.
  unfoldable pub start_new_recording_segments :
      Params
      → (Text → Option ℕ)
      → (Text → ℕ)
      → (Text → Host)
      → List StoppedRecordingInfo
      → Service W
      → Option (Service W)
  unfolding segment_made
  start_new_recording_segments config stat millis host [] s = some s
  start_new_recording_segments config stat millis host (info ∷ stopped) s =
      let new_id = info.id ++ (codes "-" ++ itoa (pos (millis info.id))) in
      segment_made (host new_id) s (factory config new_id (adjust_params stat info))
      >>= start_new_recording_segments config stat millis host stopped
