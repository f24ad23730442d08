-- ===== src/Recorder/Examples.antt =====
-- The theorems on the recorder at concrete inputs.
use popcorn_images.Base.{
  ◌+◌, ◌<◌, ◌≡◌, refl, List, [], ◌∷◌, some, none, true, false, Bool, codes, pos, arith, text_eq,
}
use popcorn_images.ScaleToZero.{Controller, debounced, disable, once_disable}
use popcorn_images.Recorder.Arguments.{
  Params, linux, validate, merge, ffmpeg_args, IsFirst, merge-validate,
}
use popcorn_images.Recorder.{
  Exit, started, Remux, dies, ignores, remux, process, new_recorder, opened, exit_code_init,
  gives_up,
}
use popcorn_images.Recorder.Session.{Session, begin_start, stop, removed}
use popcorn_images.Recorder.Lifecycle.{
  Event, launches, exits, ends_wait, deletes, run, Inv, begun-run-Inv,
}
use popcorn_images.Recorder.Shutdown.{ladder, ends_within, stop-ended}
use popcorn_images.Recorder.Balance.{
  System, SystemEvent, recorder, arrives, finishes, own, sys_run, sys_run-counts,
}

-- the defaults of cmd/config/config.go
abbrev config : Params
config = record {
  frame_rate = some (pos 10);
  display_num = some (pos 1);
  max_size_in_mb = some (pos 500);
  max_duration_in_seconds = none;
  output_dir = some (codes ".");
}

abbrev overrides : Params
overrides = record {
  frame_rate = some (pos 5);
  display_num = none;
  max_size_in_mb = none;
  max_duration_in_seconds = some (pos 60);
  output_dir = none;
}

merge-validate_example :
    (validate (merge config overrides) ≡ none)
    × IsFirst overrides.frame_rate config.frame_rate (merge config overrides).frame_rate
    × IsFirst overrides.display_num config.display_num (merge config overrides).display_num
    × IsFirst overrides.max_size_in_mb config.max_size_in_mb (merge config overrides).max_size_in_mb
    × IsFirst overrides.max_duration_in_seconds config.max_duration_in_seconds
        (merge config overrides).max_duration_in_seconds
    × IsFirst overrides.output_dir config.output_dir (merge config overrides).output_dir
unfolding validate
merge-validate_example = merge-validate config overrides refl (λ d e. ground arith)

-- A controller that always succeeds.
abbrev switch : Controller Bool
switch = record { disable = λ w. (none, true); enable = λ w. (none, false) }

abbrev fresh : Session Bool
fresh = record { rec = new_recorder config (codes "a") overrides (codes "a.mp4"); ctl = false }

abbrev killed : Exit
killed = record { error = some (codes "exit status 255"); code = pos 255; at = 40 }

abbrev good : Remux
good = record { missing = none; run_err = none; rename_err = none }

abbrev missing_file : Remux
missing_file = record { missing = some (codes "ENOENT"); run_err = none; rename_err = none }

abbrev history : List Event
history = launches (started 7) ∷ exits killed ∷ ends_wait good ∷ deletes removed ∷ []

begun-run-Inv_example : Inv (run switch (begin_start switch linux 3 fresh).1 history).rec
unfolding new_recorder begin_start once_disable ffmpeg_args merge
begun-run-Inv_example =
    begun-run-Inv switch linux 3 fresh history refl refl (tt, (refl, (tt, (tt, tt))))

-- ffmpeg runs as process 7.
abbrev running : Session Bool
running = record {
  rec = record (new_recorder config (codes "a") overrides (codes "a.mp4")) {
    cmd = process 7;
    exit_code = exit_code_init;
    exited = opened;
  };
  ctl = true;
}

abbrev ended : Session Bool
ended = record running { rec = record running.rec { exit_code = pos 255 } }

stop-ended_example :
    let result = stop switch (ignores ∷ dies killed ∷ []) good running in
    (result.0 ≡ ladder 7 2)
    × (result.1 ≡ remux good)
    × (result.2.rec.exit_code ≡ pos 255)
    × (result.2.rec.finalize_complete ≡ true)
    × (result.2.rec.finalize_result ≡ remux good)
unfolding new_recorder ends_within gives_up text_eq
stop-ended_example =
    stop-ended switch 7 2 killed (ignores ∷ dies killed ∷ []) good running refl refl refl refl refl
      refl

-- One request is in flight when the recording starts.
abbrev busy : System Bool
busy = record {
  session = record {
    rec = new_recorder config (codes "a") overrides (codes "a.mp4");
    ctl = record { inner = true; disabled = true; active_count = 1 };
  };
  others = 1;
}

abbrev mixed : List SystemEvent
mixed =
    recorder (launches (started 7))
    ∷ finishes
    ∷ recorder (exits killed)
    ∷ arrives
    ∷ recorder (ends_wait good)
    ∷ []

sys_run-counts_example :
    let begun = record busy { session = (begin_start (debounced switch) linux 3 busy.session).1 } in
    let t = sys_run switch begun mixed in
    (t.session.ctl.active_count ≡ t.others + own t.session.rec.stz)
    × (0 < t.others + own t.session.rec.stz → t.session.ctl.disabled ≡ true)
unfolding new_recorder begin_start once_disable debounced disable ffmpeg_args merge
sys_run-counts_example = sys_run-counts switch linux 3 busy mixed refl refl (λ p. refl) refl
