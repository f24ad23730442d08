-- ===== src/Recordings/Examples.antt =====
-- The theorems on the recording handlers at concrete inputs.
use popcorn_images.Base.{
  ◌≡◌, ◌≢◌, refl, List, [], ◌∷◌, some, none, true, false, Bool, Text, codes, pos, lookup, text_eq,
}
use popcorn_images.ScaleToZero.{Controller}
use popcorn_images.Recorder.Arguments.{Params, linux}
use popcorn_images.Recorder.{started, Remux, process, new_recorder, Recorder}
use popcorn_images.Recorder.Session.{file, removed, delete_file}
use popcorn_images.Recorder.Manager.{get_recorder}
use popcorn_images.Recordings.{
  Service, Host, recorder_id, start_recording, download, download_recording, delete_recording,
  deleted_400, created_201,
}
use popcorn_images.Recordings.Deletion.{Request, starts, stops, serve_all, deleted_for_good}
use popcorn_images.Recordings.Starting.{Started, start_recording-Started}
use popcorn_images.Recordings.Serving.{Served, download-Served}

abbrev config : Params
config = record {
  frame_rate = some (pos 10);
  display_num = some (pos 1);
  max_size_in_mb = some (pos 500);
  max_duration_in_seconds = none;
  output_dir = some (codes ".");
}

abbrev no_params : Params
no_params = record {
  frame_rate = none;
  display_num = none;
  max_size_in_mb = none;
  max_duration_in_seconds = none;
  output_dir = none;
}

abbrev switch : Controller Bool
switch = record { disable = λ w. (none, true); enable = λ w. (none, false) }

abbrev host : Host
host = record { os = linux; now = 3; launch = started 7; early = none }

abbrev good : Remux
good = record { missing = none; run_err = none; rename_err = none }

-- A recording that has ended and is finalized.
abbrev past : Recorder
past = record (new_recorder config (codes "a") no_params (codes "a.mp4")) {
  cmd = process 7;
  start_time = 3;
  end_time = 9;
  finalize_complete = true;
}

abbrev service : Service Bool
service = record { recorders = (codes "a", past) ∷ []; ctl = false }

abbrev requests : List Request
requests =
    starts config (some (codes "a")) no_params host
    ∷ starts config none no_params host
    ∷ stops (some (codes "a")) true [] good
    ∷ []

deleted_for_good_example :
    let s = serve_all switch (delete_recording (some (codes "a")) removed service).1 requests in
    ((download_recording (some (codes "a")) (file 5) (file 5) good s).0 ≡ deleted_400)
    × ((start_recording switch config (some (codes "a")) no_params host s).0 ≢ created_201)
    × ((start_recording switch config (some (codes "a")) no_params host s).1 ≡ s)
unfolding delete_recording get_recorder lookup recorder_id delete_file new_recorder text_eq
deleted_for_good_example =
    deleted_for_good switch (some (codes "a")) removed service requests (file 5) (file 5) good
      config no_params host refl

start_recording-Started_example :
    let answer = start_recording switch config none no_params host service in
    Started answer.0
      (lookup (recorder_id none) service.recorders)
      (lookup (recorder_id none) answer.1.recorders)
    × ((key : Text)
        → key ≢ recorder_id none
        → lookup key answer.1.recorders ≡ lookup key service.recorders)
start_recording-Started_example = start_recording-Started switch config no_params none host service

download-Served_example :
    Served
      (download (file 500) (file 500) good past).0
      past
      (download (file 500) (file 500) good past).1
download-Served_example = download-Served (file 500) (file 500) good past
