-- ===== src/Recorder/Lifecycle.antt =====
-- A recorder over any sequence of events: the parts of Start, the exit of ffmpeg, the waiter,
-- finalizations, Stop, ForceStop and Delete, from whichever goroutines they come.
use popcorn_images.Base.{
  ℕ, ◌≡◌, refl, none, List, [], ◌∷◌, Bool, true, false, negsuc, leb_ℤ, arith, if◌then◌else◌,
}
use popcorn_images.ScaleToZero.{Controller}
use popcorn_images.Recorder.Arguments.{Platform}
use popcorn_images.Recorder.{
  Command, no_command, built, process, opened, closed, Exit, Recorder, is_done, Launch, started,
  start_failed, Remux, Response, Signal, gone, dies, ignores, reap, stop_phases, force_phases,
  finalize, shutdown, run_phases,
}
use popcorn_images.Recorder.Session.{
  Session, Removal, delete_file, begin_start, launch, end_wait, stop, force_stop,
}

pub data Event : Type 0 where
  begins : Platform → ℕ → Event
  launches : Launch → Event
  exits : Exit → Event
  ends_wait finalizes : Remux → Event
  stops forces : List Response → Remux → Event
  deletes : Removal → Event

-- os.ProcessState.ExitCode is -1 or more.
abbrev pub IsExit : Exit → Type 0
IsExit x = leb_ℤ (negsuc 0) x.code ≡ true

abbrev pub AreExits : List Response → Type 0
AreExits [] = Unit
AreExits (gone x ∷ rs) = IsExit x × AreExits rs
AreExits (dies x ∷ rs) = IsExit x × AreExits rs
AreExits (ignores ∷ rs) = AreExits rs

abbrev pub IsValid : Event → Type 0
IsValid (exits x) = IsExit x
IsValid (stops rs a) = AreExits rs
IsValid (forces rs a) = AreExits rs
IsValid _ = Unit

abbrev pub AreValid : List Event → Type 0
AreValid [] = Unit
AreValid (e ∷ es) = IsValid e × AreValid es

abbrev pub is_process : Command → Bool
is_process no_command = false
is_process (built args) = false
is_process (process pid) = true

-- The process ends only if there is one that has not ended.
abbrev pub exit_of : Command → Exit → Recorder → Recorder
exit_of no_command x r = r
exit_of (built args) x r = r
exit_of (process pid) x r = if is_done r then r else reap x r

module _ {W : Type 0} (ctrl : Controller W) where
  -- Start launches only the command that it has built.
  abbrev pub launch_of : Command → Launch → Session W → Session W
  launch_of no_command l s = s
  launch_of (built args) l s = (launch ctrl l s).1
  launch_of (process pid) l s = s

  unfoldable pub step : Session W → Event → Session W
  step s (begins os now) = (begin_start ctrl os now s).1
  step s (launches l) = launch_of s.rec.cmd l s
  step s (exits x) = record s { rec = exit_of s.rec.cmd x s.rec }
  step s (ends_wait a) = end_wait ctrl a s
  step s (finalizes a) = record s { rec = (finalize a s.rec).1 }
  step s (stops rs a) = (stop ctrl rs a s).2
  step s (forces rs a) = (force_stop ctrl rs a s).2
  step s (deletes d) = record s { rec = (delete_file d s.rec).1 }

  unfoldable pub run : Session W → List Event → Session W
  run s [] = s
  run s (e ∷ es) = run (step s e) es

-- What holds from the first successful `begin_start` on.
pub record Inv (r : Recorder) : Type 0 where
  pub open_runs : r.exited ≡ opened → is_done r ≡ false
  pub done_closed : is_done r ≡ true → r.exited ≡ closed
  pub complete_done : r.finalize_complete ≡ true → is_done r ≡ true
  pub done_ran : is_done r ≡ true → is_process r.cmd ≡ true

reap-Inv : (x : Exit) (r : Recorder) → IsExit x → is_process r.cmd ≡ true → Inv (reap x r)
unfolding reap
reap-Inv x r h c = record {
  open_runs = λ e. cc;
  done_closed = λ e. refl;
  complete_done = λ e. h;
  done_ran = λ e. c;
}

finalize-Inv : (a : Remux) (r : Recorder) → Inv r → Inv (finalize a r).1
unfolding finalize
finalize-Inv a r v = ground arith

run_phases-Inv :
    (pid : ℕ) (phases : List (List Signal)) (rs : List Response) (r : Recorder)
    → AreExits rs
    → is_process r.cmd ≡ true
    → Inv r
    → Inv (run_phases pid phases rs r).2
unfolding run_phases
run_phases-Inv pid [] rs r x c v = v
run_phases-Inv pid (p ∷ ps) [] r x c v = run_phases-Inv pid ps [] r x c v
run_phases-Inv pid (p ∷ ps) (gone e ∷ rs) r x c v = reap-Inv e r x.0 c
run_phases-Inv pid (p ∷ ps) (dies e ∷ rs) r x c v = reap-Inv e r x.0 c
run_phases-Inv pid (p ∷ ps) (ignores ∷ rs) r x c v = run_phases-Inv pid ps rs r x c v

shutdown-Inv :
    (phases : List (List Signal)) (rs : List Response) (r : Recorder)
    → AreExits rs
    → Inv r
    → Inv (shutdown phases rs r).2
unfolding shutdown
shutdown-Inv phases rs r x v = go r.cmd refl
  where
    go : (c : Command) → r.cmd ≡ c → Inv (shutdown phases rs r).2
    go no_command e = ground arith
    go (built args) e = ground arith
    go (process pid) e = ground (arith, run_phases-Inv pid phases rs r)

module _ {W : Type 0} (ctrl : Controller W) where
  begin-Inv :
      (os : Platform) (now : ℕ) (s : Session W) → Inv s.rec → Inv (begin_start ctrl os now s).1.rec
  unfolding begin_start
  begin-Inv os now s v = ground arith

  launch-Inv :
      (c : Command) (l : Launch) (s : Session W)
      → s.rec.cmd ≡ c
      → Inv s.rec
      → Inv (launch_of ctrl c l s).rec
  unfolding launch
  launch-Inv no_command l s e v = v
  launch-Inv (built args) (started pid) s e v = ground arith
  launch-Inv (built args) (start_failed x) s e v = ground arith
  launch-Inv (process pid) l s e v = v

  stop-Inv :
      (rs : List Response) (a : Remux) (s : Session W)
      → AreExits rs
      → Inv s.rec
      → Inv (stop ctrl rs a s).2.rec
  unfolding stop
  stop-Inv rs a s x v = ground (
    arith,
    shutdown-Inv stop_phases rs s.rec x v,
    finalize-Inv a (shutdown stop_phases rs s.rec).2 (shutdown-Inv stop_phases rs s.rec x v),
  )

  force_stop-Inv :
      (rs : List Response) (a : Remux) (s : Session W)
      → AreExits rs
      → Inv s.rec
      → Inv (force_stop ctrl rs a s).2.rec
  unfolding force_stop
  force_stop-Inv rs a s x v = ground (
    arith,
    shutdown-Inv force_phases rs s.rec x v,
    finalize-Inv a (shutdown force_phases rs s.rec).2 (shutdown-Inv force_phases rs s.rec x v),
  )

  exit-Inv :
      (c : Command) (x : Exit) (r : Recorder) → r.cmd ≡ c → IsExit x → Inv r → Inv (exit_of c x r)
  exit-Inv no_command x r e h v = v
  exit-Inv (built args) x r e h v = v
  exit-Inv (process pid) x r e h v = ground (arith, reap-Inv x r h)

  delete-Inv : (d : Removal) (r : Recorder) → Inv r → Inv (delete_file d r).1
  unfolding delete_file
  delete-Inv d r v = ground arith

  step-Inv : (s : Session W) (e : Event) → IsValid e → Inv s.rec → Inv (step ctrl s e).rec
  unfolding step end_wait
  step-Inv s (begins os now) h v = begin-Inv os now s v
  step-Inv s (launches l) h v = launch-Inv s.rec.cmd l s refl v
  step-Inv s (exits x) h v = exit-Inv s.rec.cmd x s.rec refl h v
  step-Inv s (ends_wait a) h v = ground (arith, finalize-Inv a s.rec v)
  step-Inv s (finalizes a) h v = finalize-Inv a s.rec v
  step-Inv s (stops rs a) h v = stop-Inv rs a s h v
  step-Inv s (forces rs a) h v = force_stop-Inv rs a s h v
  step-Inv s (deletes d) h v = delete-Inv d s.rec v

  run-Inv : (s : Session W) (es : List Event) → AreValid es → Inv s.rec → Inv (run ctrl s es).rec
  unfolding run
  run-Inv s [] h v = v
  run-Inv s (e ∷ es) h v = run-Inv (step ctrl s e) es h.1 (step-Inv s e h.0 v)

  begun-Inv :
      (os : Platform) (now : ℕ) (s : Session W)
      → s.rec.finalize_complete ≡ false
      → (begin_start ctrl os now s).0 ≡ none
      → Inv (begin_start ctrl os now s).1.rec
  unfolding begin_start
  begun-Inv os now s f h = ground arith

  -- Where Start has built its command for a recorder that is not finalized, and then any events
  -- follow, with exit codes of -1 or more: the channel of the waiter is open only while there is
  -- no exit code, and closed once there is one; a recorder whose finalization is complete, or
  -- that has an exit code, has been launched and has ended.
  pub begun-run-Inv :
      (os : Platform) (now : ℕ) (s : Session W) (es : List Event)
      → s.rec.finalize_complete ≡ false
      → (begin_start ctrl os now s).0 ≡ none
      → AreValid es
      → Inv (run ctrl (begin_start ctrl os now s).1 es).rec
  begun-run-Inv os now s es f h valid =
      run-Inv (begin_start ctrl os now s).1 es valid (begun-Inv os now s f h)
