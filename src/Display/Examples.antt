-- ===== src/Display/Examples.antt =====
-- A run of the viewport override with two fast resizes that overlap, a recording that is split by a
-- resize, and a request that resizes the viewport.
use popcorn_images.Base.{
  ℕ, pos, ◌≡◌, refl, Option, none, some, List, [], ◌∷◌, Bool, true, false, Text, codes, lookup,
  text_eq, arith,
}
use popcorn_images.ScaleToZero.{Controller}
use popcorn_images.Recorder.{Recorder, started, process, new_recorder}
use popcorn_images.Recorder.Arguments.{Params, linux, validate, merge, require, check_duration}
use popcorn_images.Recordings.{Service, Host, factory}
use popcorn_images.Process.Command.{exec_200}
use popcorn_images.Display.Segments.{
  StoppedRecordingInfo, adjust_params, start_new_recording_segments, segment_made,
}
use popcorn_images.Display.Budget.{
  Keeps, seconds_left, megabytes_left, elapsed, file_size, adjust_params-within,
}
use popcorn_images.Display.Kept.{start_new_recording_segments-kept}
use popcorn_images.Display.Resolution.{Outside}
use popcorn_images.Display.Patch.{PatchRequest, Desktop, patch_display}
use popcorn_images.Display.Patching.{Answers, patch_display-Answers}
use popcorn_images.Display.{
  Size, nobody, Display, Event, fast, locked, sync_locked, resized, run, step, finish, set_override,
  same_size, check_override, take_at, get_current_resolution,
}
use popcorn_images.Display.Reported.{last_asked, run-reported}

abbrev full_hd : Size
full_hd = record { width = pos 1920; height = pos 1080 }

abbrev small : Size
small = record { width = pos 800; height = pos 600 }

abbrev idle : Display
idle = record { override = none; xvfb = full_hd; holder = nobody; queued = [] }

abbrev events : List Event
events =
    fast small (pos 60)
    ∷ locked 0
    ∷ fast full_hd (pos 25)
    ∷ resized true small
    ∷ locked 0
    ∷ resized false small
    ∷ sync_locked small
    ∷ resized true small
    ∷ []

run-reported_example :
    get_current_resolution (run idle events) ≡ last_asked idle (get_current_resolution idle) events
unfolding run step finish set_override same_size check_override take_at
run-reported_example = run-reported idle events refl (refl, (refl, tt))

ends_small : get_current_resolution (run idle events) ≡ small
unfolding get_current_resolution run step finish set_override same_size check_override take_at
ends_small = refl

abbrev config : Params
config = record {
  frame_rate = some (pos 10);
  display_num = some (pos 1);
  max_size_in_mb = some (pos 500);
  max_duration_in_seconds = some (pos 60);
  output_dir = some (codes "/tmp");
}

-- A recording of 25 seconds and 12 bytes
abbrev stopped : StoppedRecordingInfo
stopped = record {
  id = codes "a";
  params = config;
  start_time = 5000000000;
  end_time = 30000000000;
}

abbrev stat : Text → Option ℕ
stat path = some 12

config_valid : validate stopped.params ≡ none
unfolding validate require check_duration
config_valid = refl

adjust_params-within_example :
    (validate (adjust_params stat stopped) ≡ none)
    × Keeps seconds_left
        (elapsed stopped)
        config.max_duration_in_seconds
        (adjust_params stat stopped).max_duration_in_seconds
    × Keeps megabytes_left
        (file_size stat (codes "a") config.output_dir)
        config.max_size_in_mb
        (adjust_params stat stopped).max_size_in_mb
adjust_params-within_example = adjust_params-within stat stopped config_valid (λ k. omega arith)

abbrev switch : Controller Bool
switch = record { disable = λ w. (none, true); enable = λ w. (none, false) }

abbrev host : Host
host = record { os = linux; now = 3; launch = started 7; early = none }

abbrev past : Recorder
past = record (new_recorder config (codes "a") config (codes "/tmp/a.mp4")) {
  cmd = process 7;
  finalize_complete = true;
}

abbrev service : Service Bool
service = record { recorders = (codes "a", past) ∷ []; ctl = false }

abbrev begun : Option (Service Bool)
begun =
    start_new_recording_segments switch config stat (λ id. 1700) (λ id. host) (stopped ∷ []) service

abbrev or_service : Option (Service Bool) → Service Bool
or_service none = service
or_service (some s) = s

begins : begun ≡ some (or_service begun)
unfolding start_new_recording_segments segment_made factory merge adjust_params
begins = refl

past_found : lookup (codes "a") service.recorders ≡ some past
unfolding lookup text_eq
past_found = refl

start_new_recording_segments-kept_example :
    lookup (codes "a") (or_service begun).recorders ≡ some past
start_new_recording_segments-kept_example =
    start_new_recording_segments-kept switch config stat (λ id. 1700) (λ id. host) (stopped ∷ [])
      service (or_service begun) (codes "a") past begins past_found

abbrev outside : Outside
outside = record {
  getenv = λ name. [];
  xrandr = some (codes "1920x1080_60.00");
  parse_rate = λ s. some (pos 60);
  sessions = some [];
  marker = true;
  exec = λ commands command. exec_200 (pos 0) [] [];
  decode_b64 = λ s. none;
  upstream_url = codes "ws://127.0.0.1:9223/devtools";
  dial = none;
  set_metrics = λ size. none;
  change_screen = λ size rate. none;
  xvfb_after = λ size. size;
}

abbrev request : PatchRequest
request = record {
  width = some (pos 800);
  height = some (pos 600);
  refresh_rate = none;
  require_idle = none;
  restart_chromium = none;
}

abbrev desktop : Desktop Bool
desktop = record { service = service; display = idle }

patch_display-Answers_example : Answers desktop (
    patch_display switch
      (λ id. [])
      (λ id. record { missing = none; run_err = none; rename_err = none })
      outside
      (some request)
      desktop)
patch_display-Answers_example =
    patch_display-Answers switch (λ id. [])
      (λ id. record { missing = none; run_err = none; rename_err = none }) outside (some request)
      desktop refl refl (λ size e. refl)
