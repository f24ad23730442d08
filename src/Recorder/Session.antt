-- ===== src/Recorder/Session.antt =====
-- The operations of lib/recorder/ffmpeg.go that also drive the scale-to-zero oncer: Start, the
-- background waiter, Stop and ForceStop; and Recording and Delete.
use popcorn_images.Base.{
  ℕ, Option, none, some, List, ◌++◌, true, ◌&&◌, not, Text, Error, codes, if◌then◌else◌,
}
use popcorn_images.ScaleToZero.{Controller, once_disable, once_enable}
use popcorn_images.Recorder.Arguments.{Platform, Outcome, ok, err, panics, ffmpeg_args}
use popcorn_images.Recorder.{
  Command, no_command, built, process, opened, closed, Signal, Exit, Recorder, exit_code_init,
  is_done, Launch, started, start_failed, Remux, Response, describe, reap, finalize, shutdown,
  stop_phases, force_phases, gives_up,
}

-- A recorder with the state of the controller that its oncer wraps.
pub record Session (W : Type 0) : Type 0 where
  pub rec : Recorder
  pub ctl : W

-- How the file of a recording is opened: os.Open and Stat.
pub data Opening : Type 0 where
  open_failed stat_failed : Error → Opening
  file : ℕ → Opening

-- What Recording returns: the file with its size and times, or an error; `finalizing` is
-- ErrRecordingFinalizing.
pub data Access : Type 0 where
  serves : ℕ → ℕ → ℕ → Access
  finalizing : Access
  fails : Error → Access

open_recording : Opening → Recorder → Access
open_recording (open_failed e) r = fails (codes "failed to open recording file: " ++ e)
open_recording (stat_failed e) r = fails (codes "failed to get recording file info: " ++ e)
open_recording (file size) r = serves size r.start_time r.end_time

-- Recording
unfoldable pub recording : Opening → Recorder → Access
unfolding open_recording
recording o r =
    if r.deleted
    then fails (codes "recording deleted: file does not exist")
    else if is_done r && not r.finalize_complete
    then finalizing
    else open_recording o r

-- os.Remove; a file that is not there counts as removed.
pub data Removal : Type 0 where
  removed not_there : Removal
  remove_failed : Error → Removal

pub data DeleteError : Type 0 where
  still_finalizing : DeleteError
  delete_failed : Error → DeleteError

removal : Removal → Recorder → Option DeleteError × Recorder
removal removed r = (none, record r { deleted = true })
removal not_there r = (none, record r { deleted = true })
removal (remove_failed e) r =
    (some (delete_failed (codes "failed to delete recording file: " ++ e)), r)

-- Delete
unfoldable pub delete_file : Removal → Recorder → Option DeleteError × Recorder
unfolding removal
delete_file a r =
    if r.deleted
    then (none, r)
    else if is_done r && not r.finalize_complete
    then (some still_finalizing, r)
    else removal a r

module _ {W : Type 0} (ctrl : Controller W) where
  abbrev pub disable_stz : Session W → Option Error × Session W
  disable_stz s =
      let (e, o, w) = once_disable ctrl s.rec.stz s.ctl in
      (e, record { rec = record s.rec { stz = o }; ctl = w })

  abbrev pub enable_stz : Session W → Session W
  enable_stz s =
      let (e, o, w) = once_enable ctrl s.rec.stz s.ctl in
      record { rec = record s.rec { stz = o }; ctl = w }

  build : Outcome (List Text) → Session W → Option Error × Session W
  build (ok args) s = (none, record s { rec = record s.rec { cmd = built args } })
  build (err e) s =
      (some e, enable_stz (record s { rec = record s.rec { cmd = no_command; exited = closed } }))
  build panics s = (some (codes "panic: invalid memory address or nil pointer dereference"), s)

  prepare : Platform → ℕ → Option Error × Session W → Option Error × Session W
  prepare os now (some e, s) = (some (codes "failed to disable scale-to-zero: " ++ e), s)
  prepare os now (none, s) = build (ffmpeg_args os s.rec.params s.rec.output_path) (record s {
    rec = record s.rec {
      ffmpeg_err = none;
      exit_code = exit_code_init;
      start_time = now;
      exited = opened;
    };
  })

  begin_idle : Command → Platform → ℕ → Session W → Option Error × Session W
  begin_idle no_command os now s = prepare os now (disable_stz s)
  begin_idle (built args) os now s = (some (codes "recording already in progress"), s)
  begin_idle (process pid) os now s = (some (codes "recording already in progress"), s)

  -- Start, up to the point where the lock is given back and ffmpeg is not started
  unfoldable pub begin_start : Platform → ℕ → Session W → Option Error × Session W
  unfolding begin_idle prepare build
  begin_start os now s = begin_idle s.rec.cmd os now s

  -- Start, from there to the launch of the waiter
  unfoldable pub launch : Launch → Session W → Option Error × Session W
  launch (started pid) s = (none, record s { rec = record s.rec { cmd = process pid } })
  launch (start_failed e) s =
      let s' = enable_stz s in
      (
        some (codes "failed to start ffmpeg process: " ++ e),
        record s' {
          rec = record s'.rec { ffmpeg_err = some e; cmd = no_command; exited = closed };
        },
      )

  -- The last part of Start: whether the process ends within 250 milliseconds.
  unfoldable pub check_startup : Option Exit → Session W → Option Error × Session W
  check_startup none s = (none, s)
  check_startup (some x) s = (
    some (codes "failed to start ffmpeg process: " ++ describe x.error),
    record s { rec = reap x s.rec },
  )

  abbrev and_then :
      Option Error × Session W → (Session W → Option Error × Session W) → Option Error × Session W
  and_then (some e, s) f = (some e, s)
  and_then (none, s) f = f s

  -- Start with nothing between its parts
  unfoldable pub start : Platform → ℕ → Launch → Option Exit → Session W → Option Error × Session W
  start os now l early s =
      and_then (begin_start os now s) λ s1. and_then (launch l s1) (check_startup early)

  -- The rest of waitForCommand, after the process has ended and that is noted.
  unfoldable pub end_wait : Remux → Session W → Session W
  end_wait a s = enable_stz (record s { rec = (finalize a s.rec).1 })

  stop_with :
      List (ℕ × Signal) × Option Error × Recorder
      → Remux
      → Session W
      → List (ℕ × Signal) × Option Error × Session W
  stop_with (sent, e, r) a s =
      if gives_up e
      then (sent, e, enable_stz (record s { rec = r }))
      else (sent, (finalize a r).0, enable_stz (record s { rec = (finalize a r).1 }))

  -- Stop: the signals sent, the error and the session
  unfoldable pub stop :
      List Response → Remux → Session W → List (ℕ × Signal) × Option Error × Session W
  unfolding stop_with
  stop rs a s = stop_with (shutdown stop_phases rs s.rec) a s

  force_with :
      List (ℕ × Signal) × Option Error × Recorder
      → Remux
      → Session W
      → List (ℕ × Signal) × Option Error × Session W
  force_with (sent, e, r) a s =
      if gives_up e
      then (sent, e, enable_stz (record s { rec = r }))
      else (sent, none, enable_stz (record s { rec = (finalize a r).1 }))

  -- ForceStop: the error of finalization is only logged
  unfoldable pub force_stop :
      List Response → Remux → Session W → List (ℕ × Signal) × Option Error × Session W
  unfolding force_with
  force_stop rs a s = force_with (shutdown force_phases rs s.rec) a s
