-- ===== src/Recorder/Effects.antt =====
-- What the operations of a recorder do to its oncer and to the controller behind it.
use popcorn_images.Base.{
  ℕ, ◌≡◌, refl, List, [], ◌∷◌, true, arith, ◌⊎◌, inl, inr, ap, ◌∙◌, Bool-cases,
}
use popcorn_images.ScaleToZero.{Controller, once_disable, once_enable}
use popcorn_images.Recorder.Arguments.{Platform}
use popcorn_images.Recorder.{
  Command, no_command, built, process, Exit, Recorder, Launch, started, start_failed, Remux,
  Response, gone, dies, ignores, Signal, reap, finalize, run_phases, shutdown, stop_phases,
  force_phases, gives_up,
}
use popcorn_images.Recorder.Session.{
  Session, delete_file, begin_start, launch, end_wait, stop, force_stop, enable_stz,
}
use popcorn_images.Recorder.Lifecycle.{
  Event, begins, launches, exits, ends_wait, finalizes, stops, forces, deletes, step, exit_of,
  launch_of,
}

run_phases-stz :
    (pid : ℕ) (phases : List (List Signal)) (rs : List Response) (r : Recorder)
    → (run_phases pid phases rs r).2.stz ≡ r.stz
unfolding run_phases reap
run_phases-stz pid [] rs r = refl
run_phases-stz pid (p ∷ ps) [] r = run_phases-stz pid ps [] r
run_phases-stz pid (p ∷ ps) (gone x ∷ rs) r = refl
run_phases-stz pid (p ∷ ps) (dies x ∷ rs) r = refl
run_phases-stz pid (p ∷ ps) (ignores ∷ rs) r = run_phases-stz pid ps rs r

shutdown-stz :
    (phases : List (List Signal)) (rs : List Response) (r : Recorder)
    → (shutdown phases rs r).2.stz ≡ r.stz
unfolding shutdown
shutdown-stz phases rs r = go r.cmd refl
  where
    go : (c : Command) → r.cmd ≡ c → (shutdown phases rs r).2.stz ≡ r.stz
    go no_command q = ground arith
    go (built args) q = ground arith
    go (process pid) q = ground (arith, run_phases-stz pid phases rs r)

finalize-stz : (a : Remux) (r : Recorder) → (finalize a r).1.stz ≡ r.stz
unfolding finalize
finalize-stz a r = ground arith

exit-stz : (c : Command) (x : Exit) (r : Recorder) → (exit_of c x r).stz ≡ r.stz
unfolding reap
exit-stz no_command x r = refl
exit-stz (built args) x r = refl
exit-stz (process pid) x r = ground arith

module _ {W : Type 0} (ctrl : Controller W) where
  -- What an operation does to the oncer and the controller: nothing, or one Enable of the oncer.
  abbrev pub Effect : Session W → Session W → Type 0
  Effect s t =
      ((t.rec.stz ≡ s.rec.stz) × (t.ctl ≡ s.ctl))
      ⊎ ((t.rec.stz ≡ (enable_stz ctrl s).rec.stz) × (t.ctl ≡ (enable_stz ctrl s).ctl))

  launch-Effect : (c : Command) (l : Launch) (s : Session W) → Effect s (launch_of ctrl c l s)
  unfolding launch
  launch-Effect no_command l s = inl (refl, refl)
  launch-Effect (built args) (started pid) s = inl (refl, refl)
  launch-Effect (built args) (start_failed e) s = inr (refl, refl)
  launch-Effect (process pid) l s = inl (refl, refl)

  enable-Effect :
      (s : Session W) (r : Recorder)
      → r.stz ≡ s.rec.stz
      → Effect s (enable_stz ctrl (record s { rec = r }))
  enable-Effect s r e =
      inr (ap (λ o. (once_enable ctrl o s.ctl).1) e, ap (λ o. (once_enable ctrl o s.ctl).2) e)

  begin-Effect :
      (os : Platform) (now : ℕ) (s : Session W)
      → s.rec.stz.disabled_once ≡ true
      → Effect s (begin_start ctrl os now s).1
  unfolding begin_start once_disable
  begin-Effect os now s h = ground arith

  stop-Effect : (rs : List Response) (a : Remux) (s : Session W) → Effect s (stop ctrl rs a s).2
  unfolding stop
  stop-Effect rs a s =
      let r = (shutdown stop_phases rs s.rec).2 in
      elim (Bool-cases (gives_up (shutdown stop_phases rs s.rec).1)) [
        | inl e ↦ rw (e, stop) (enable-Effect s r (shutdown-stz stop_phases rs s.rec))
        | inr e ↦
            rw (e, stop)
              (enable-Effect s (finalize a r).1
                (finalize-stz a r ∙ shutdown-stz stop_phases rs s.rec))
      ]

  force_stop-Effect :
      (rs : List Response) (a : Remux) (s : Session W) → Effect s (force_stop ctrl rs a s).2
  unfolding force_stop
  force_stop-Effect rs a s =
      let r = (shutdown force_phases rs s.rec).2 in
      elim (Bool-cases (gives_up (shutdown force_phases rs s.rec).1)) [
        | inl e ↦ rw (e, force_stop) (enable-Effect s r (shutdown-stz force_phases rs s.rec))
        | inr e ↦
            rw (e, force_stop)
              (enable-Effect s (finalize a r).1
                (finalize-stz a r ∙ shutdown-stz force_phases rs s.rec))
      ]

  pub step-Effect :
      (s : Session W) (e : Event) → s.rec.stz.disabled_once ≡ true → Effect s (step ctrl s e)
  unfolding step
  step-Effect s (begins os now) h = begin-Effect os now s h
  step-Effect s (launches l) h = launch-Effect s.rec.cmd l s
  step-Effect s (exits x) h = inl (exit-stz s.rec.cmd x s.rec, refl)
  step-Effect s (ends_wait a) h =
      unfold end_wait in enable-Effect s (finalize a s.rec).1 (finalize-stz a s.rec)
  step-Effect s (finalizes a) h = inl (finalize-stz a s.rec, refl)
  step-Effect s (stops rs a) h = stop-Effect rs a s
  step-Effect s (forces rs a) h = force_stop-Effect rs a s
  step-Effect s (deletes d) h = inl (unfold delete_file in ground arith, refl)
