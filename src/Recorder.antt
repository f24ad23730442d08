-- ===== src/Recorder.antt =====
-- lib/recorder/ffmpeg.go: one recording session of ffmpeg, as a state that the operations change.
-- What the operating system answers (the start of ffmpeg, its exit, the file system) is an
-- argument of each operation. A section under `fr.mu` is one step. The singleflight group lets one
-- finalization run at a time, so `finalize` is one step too.
pub mod Arguments
pub mod Session
pub mod Shutdown
pub mod Lifecycle
pub mod Finalization
pub mod Effects
pub mod Balance
pub mod Manager
pub mod Examples
use popcorn_images.Base.{
  ℕ, ℤ, pos, negsuc, leb_ℤ, ltb_ℤ, Option, none, some, List, [], ◌∷◌, ◌++◌, Bool, true, false, ◌&&◌,
  ◌||◌, not, Text, Error, codes, text_eq, map, if◌then◌else◌,
}
use popcorn_images.ScaleToZero.{Controller, Once, once_disable, once_enable, new_oncer}
use Arguments.{Params, Platform, Outcome, ok, err, panics, merge, ffmpeg_args}

-- fr.cmd: nil, built and not started, or a process.
pub data Command : Type 0 where
  no_command : Command
  built : List Text → Command
  process : ℕ → Command

-- fr.exited: nil, open or closed.
pub data Channel : Type 0 where
  no_channel opened closed : Channel

pub data Signal : Type 0 where
  sigint sigterm sigkill : Signal

-- How the process ends: the error of Wait, the exit code and the time.
pub record Exit : Type 0 where
  pub error : Option Error
  pub code : ℤ
  pub at : ℕ

pub record Recorder : Type 0 where
  pub id : Text
  pub cmd : Command
  pub params : Params
  pub output_path : Text
  pub start_time : ℕ
  pub end_time : ℕ
  pub ffmpeg_err : Option Error
  pub exit_code : ℤ
  pub exited : Channel
  pub deleted : Bool
  pub stz : Once
  pub finalize_complete : Bool
  pub finalize_result : Option Error

-- math.MinInt of a 64-bit int
abbrev pub exit_code_init : ℤ
exit_code_init = negsuc 9223372036854775807

-- The time 0 is Go's zero time; the zero value of the exit code is 0.
unfoldable pub new_recorder : Params → Text → Params → Text → Recorder
new_recorder config id overrides output_path = record {
  id = id;
  cmd = no_command;
  params = merge config overrides;
  output_path = output_path;
  start_time = 0;
  end_time = 0;
  ffmpeg_err = none;
  exit_code = pos 0;
  exited = no_channel;
  deleted = false;
  stz = new_oncer;
  finalize_complete = false;
  finalize_result = none;
}

-- exitCode >= exitCodeProcessDoneMinValue
abbrev pub is_done : Recorder → Bool
is_done r = leb_ℤ (negsuc 0) r.exit_code

abbrev pub has_command : Command → Bool
has_command no_command = false
has_command (built args) = true
has_command (process pid) = true

-- IsRecording
abbrev pub is_recording : Recorder → Bool
is_recording r = has_command r.cmd && not (is_done r)

-- cmd.Start()
pub data Launch : Type 0 where
  started : ℕ → Launch
  start_failed : Error → Launch

-- What finalization meets: the error of os.Stat if the file is missing, and those of the remux and
-- the rename.
pub record Remux : Type 0 where
  pub missing : Option Error
  pub run_err : Option Error
  pub rename_err : Option Error

-- During one shutdown phase the process has ended before the signals, ends in time, or does not.
pub data Response : Type 0 where
  gone dies : Exit → Response
  ignores : Response

abbrev pub failed_to_shutdown : Error
failed_to_shutdown = codes "failed to shutdown ffmpeg"

abbrev pub no_recording : Error
no_recording = codes "no recording to stop"

-- The message of an error in `%w`.
pub describe : Option Error → Text
describe none = codes "%!w(<nil>)"
describe (some e) = e

-- The section of waitForCommand that notes how the process ended.
unfoldable pub reap : Exit → Recorder → Recorder
reap x r = record r { ffmpeg_err = x.error; exit_code = x.code; end_time = x.at; exited = closed }

complete : Option Error → Recorder → Recorder
complete e r = record r { finalize_complete = true; finalize_result = e }

remux_result : Option Error → Option Error → Option Error → Option Error
remux_result (some e) run_err rename_err = some (codes "recording file does not exist: " ++ e)
remux_result none (some e) rename_err = some (codes "failed to finalize recording: " ++ e)
remux_result none none (some e) =
    some (codes "failed to replace recording with finalized version: " ++ e)
remux_result none none none = none

-- What one run of the remux stores as the result of finalization.
unfoldable pub remux : Remux → Option Error
unfolding remux_result
remux a = remux_result a.missing a.run_err a.rename_err

-- finalizeRecording
unfoldable pub finalize : Remux → Recorder → Option Error × Recorder
unfolding complete
finalize a r =
    if r.finalize_complete
    then (r.finalize_result, r)
    else if not (is_done r)
    then (some (codes "cannot finalize: recording is still in progress"), r)
    else (remux a, complete (remux a) r)

send : ℕ → List Signal → List (ℕ × Signal)
send pid = map (λ s. (pid, s))

-- The phases of shutdownInPhases: what was sent to the process group, the error and the recorder.
unfoldable pub run_phases :
    ℕ → List (List Signal) → List Response → Recorder → List (ℕ × Signal) × Option Error × Recorder
unfolding send
run_phases pid [] rs r = ([], some failed_to_shutdown, r)
run_phases pid (phase ∷ phases) (gone x ∷ rs) r = ([], none, reap x r)
run_phases pid (phase ∷ phases) (dies x ∷ rs) r = (send pid phase, (reap x r).ffmpeg_err, reap x r)
run_phases pid (phase ∷ phases) (ignores ∷ rs) r =
    let (sent, e, r') = run_phases pid phases rs r in (send pid phase ++ sent, e, r')
run_phases pid (phase ∷ phases) [] r =
    let (sent, e, r') = run_phases pid phases [] r in (send pid phase ++ sent, e, r')

shutdown_running :
    Command
    → List (List Signal)
    → List Response
    → Recorder
    → List (ℕ × Signal) × Option Error × Recorder
shutdown_running no_command phases rs r = ([], some no_recording, r)
shutdown_running (built args) phases rs r = ([], some no_recording, r)
shutdown_running (process pid) phases rs r = run_phases pid phases rs r

-- shutdownInPhases
unfoldable pub shutdown :
    List (List Signal) → List Response → Recorder → List (ℕ × Signal) × Option Error × Recorder
unfolding shutdown_running
shutdown phases rs r = if is_done r then ([], none, r) else shutdown_running r.cmd phases rs r

abbrev pub stop_phases : List (List Signal)
stop_phases = (sigint ∷ []) ∷ (sigterm ∷ []) ∷ (sigkill ∷ []) ∷ []

abbrev pub force_phases : List (List Signal)
force_phases = (sigkill ∷ []) ∷ []

-- The errors after which Stop and ForceStop do not go on to finalization.
unfoldable pub gives_up : Option Error → Bool
gives_up none = false
gives_up (some e) = text_eq e failed_to_shutdown || text_eq e no_recording
