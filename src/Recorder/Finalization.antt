-- ===== src/Recorder/Finalization.antt =====
-- Finalization happens once, and what that means for Recording and Delete.
use popcorn_images.Base.{ℕ, ◌≡◌, refl, Option, List, [], ◌∷◌, true, arith, Error, Text}
use popcorn_images.ScaleToZero.{Controller}
use popcorn_images.Recorder.Arguments.{Params, Platform}
use popcorn_images.Recorder.{
  Command, no_command, built, process, Exit, Recorder, is_done, Launch, started, start_failed,
  Remux, Response, gone, dies, ignores, Signal, reap, remux, finalize, run_phases, shutdown,
  new_recorder, gives_up, stop_phases, force_phases,
}
use popcorn_images.Recorder.Session.{
  Session, delete_file, begin_start, launch, end_wait, stop, force_stop,
}
use popcorn_images.Recorder.Lifecycle.{
  Event, begins, launches, exits, ends_wait, finalizes, stops, forces, deletes, step, run, exit_of,
  launch_of,
}

-- Finalization is complete with this result.
abbrev pub IsFinal : Option Error → Recorder → Type 0
IsFinal e r = (r.finalize_complete ≡ true) × (r.finalize_result ≡ e)

run_phases-IsFinal :
    (e : Option Error) (pid : ℕ) (phases : List (List Signal)) (rs : List Response) (r : Recorder)
    → IsFinal e r
    → IsFinal e (run_phases pid phases rs r).2
unfolding run_phases reap
run_phases-IsFinal e pid [] rs r f = f
run_phases-IsFinal e pid (p ∷ ps) [] r f = run_phases-IsFinal e pid ps [] r f
run_phases-IsFinal e pid (p ∷ ps) (gone x ∷ rs) r f = f
run_phases-IsFinal e pid (p ∷ ps) (dies x ∷ rs) r f = f
run_phases-IsFinal e pid (p ∷ ps) (ignores ∷ rs) r f = run_phases-IsFinal e pid ps rs r f

shutdown-IsFinal :
    (e : Option Error) (phases : List (List Signal)) (rs : List Response) (r : Recorder)
    → IsFinal e r
    → IsFinal e (shutdown phases rs r).2
unfolding shutdown
shutdown-IsFinal e phases rs r f = go r.cmd refl
  where
    go : (c : Command) → r.cmd ≡ c → IsFinal e (shutdown phases rs r).2
    go no_command q = ground arith
    go (built args) q = ground arith
    go (process pid) q = ground (arith, run_phases-IsFinal e pid phases rs r f)

pub finalize-IsFinal :
    (e : Option Error) (a : Remux) (r : Recorder) → IsFinal e r → finalize a r ≡ (e, r)
unfolding finalize
finalize-IsFinal e a r f = ground arith

exit-IsFinal :
    (e : Option Error) (c : Command) (x : Exit) (r : Recorder)
    → IsFinal e r
    → IsFinal e (exit_of c x r)
unfolding reap
exit-IsFinal e no_command x r f = f
exit-IsFinal e (built args) x r f = f
exit-IsFinal e (process pid) x r f = ground arith

module _ {W : Type 0} (ctrl : Controller W) where
  launch-IsFinal :
      (e : Option Error) (c : Command) (l : Launch) (s : Session W)
      → IsFinal e s.rec
      → IsFinal e (launch_of ctrl c l s).rec
  unfolding launch
  launch-IsFinal e no_command l s f = f
  launch-IsFinal e (built args) (started pid) s f = f
  launch-IsFinal e (built args) (start_failed x) s f = f
  launch-IsFinal e (process pid) l s f = f

  step-IsFinal :
      (e : Option Error) (s : Session W) (v : Event)
      → IsFinal e s.rec
      → IsFinal e (step ctrl s v).rec
  unfolding step
  step-IsFinal e s (begins os now) f = unfold begin_start in ground arith
  step-IsFinal e s (launches l) f = launch-IsFinal e s.rec.cmd l s f
  step-IsFinal e s (exits x) f = exit-IsFinal e s.rec.cmd x s.rec f
  step-IsFinal e s (ends_wait a) f = unfold end_wait in ground (arith, finalize-IsFinal e a s.rec f)
  step-IsFinal e s (finalizes a) f = ground (arith, finalize-IsFinal e a s.rec f)
  step-IsFinal e s (stops rs a) f =
      unfold stop in
      ground (
        arith,
        shutdown-IsFinal e stop_phases rs s.rec f,
        finalize-IsFinal e a (shutdown stop_phases rs s.rec).2
            (shutdown-IsFinal e stop_phases rs s.rec f),
      )
  step-IsFinal e s (forces rs a) f =
      unfold force_stop in
      ground (
        arith,
        shutdown-IsFinal e force_phases rs s.rec f,
        finalize-IsFinal e a (shutdown force_phases rs s.rec).2
            (shutdown-IsFinal e force_phases rs s.rec f),
      )
  step-IsFinal e s (deletes d) f = unfold delete_file in ground arith

  run-IsFinal :
      (e : Option Error) (s : Session W) (vs : List Event)
      → IsFinal e s.rec
      → IsFinal e (run ctrl s vs).rec
  unfolding run
  run-IsFinal e s [] f = f
  run-IsFinal e s (v ∷ vs) f = run-IsFinal e (step ctrl s v) vs (step-IsFinal e s v f)

  -- Once a finalization has run on a recorder that has ended, then after any further events every
  -- finalization returns the result of the first, whatever a new remux would give, and changes
  -- nothing.
  pub finalize-once :
      (a b : Remux) (s : Session W) (vs : List Event)
      → is_done s.rec ≡ true
      → let s' = run ctrl s (finalizes a ∷ vs) in finalize b s'.rec ≡ ((finalize a s.rec).0, s'.rec)
  unfolding run step
  finalize-once a b s vs h =
      let first : Session W = record s { rec = (finalize a s.rec).1 } in
      let final : IsFinal (finalize a s.rec).0 first.rec = unfold finalize in ground arith in
      finalize-IsFinal (finalize a s.rec).0 b (run ctrl first vs).rec
        (run-IsFinal (finalize a s.rec).0 first vs final)

  -- A recorder that Stop meets before Start is marked as finalized: the exit code of a new
  -- recorder is 0, which counts as ended. If Start succeeds afterwards, then whatever happens to
  -- the recording, every later finalization returns what that of Stop has returned, and does not
  -- remux the file that ffmpeg has written.
  pub stop-before-begin :
      (config overrides : Params) (id path : Text) (w : W) (rs : List Response) (a b : Remux)
      (os : Platform) (now : ℕ) (vs : List Event)
      → let s : Session W = record { rec = new_recorder config id overrides path; ctl = w } in
        let s' = run ctrl s (stops rs a ∷ begins os now ∷ vs) in
        finalize b s'.rec ≡ (remux a, s'.rec)
  unfolding run
  stop-before-begin config overrides id path w rs a b os now vs =
      let s : Session W = record { rec = new_recorder config id overrides path; ctl = w } in
      let stopped : IsFinal (remux a) (step ctrl s (stops rs a)).rec =
        unfold step stop shutdown finalize new_recorder gives_up in ground arith in
      finalize-IsFinal (remux a) b _
        (run-IsFinal (remux a) (step ctrl s (stops rs a)) (begins os now ∷ vs) stopped)
