-- ===== src/Recorder/Shutdown.antt =====
-- The phases of Stop and ForceStop: which signals are sent, and what is left behind.
use popcorn_images.Base.{
  ℕ, zero, suc, ◌≡◌, refl, Option, none, some, List, [], ◌∷◌, true, false, arith, ◌∙◌, text_eq,
}
use popcorn_images.ScaleToZero.{Controller}
use popcorn_images.Recorder.{
  process, Exit, Recorder, is_done, Remux, Response, gone, dies, ignores, Signal, sigint, sigterm,
  sigkill, failed_to_shutdown, reap, remux, finalize, run_phases, shutdown, stop_phases, gives_up,
}
use popcorn_images.Recorder.Session.{Session, stop, enable_stz}
use popcorn_images.Recorder.Lifecycle.{IsExit}

later : Option (ℕ × Exit) → Option (ℕ × Exit)
later none = none
later (some (n, x)) = some (suc n, x)

-- How many of the given phases send their signals before the process ends, and how it ends; `none`
-- if it outlives them.
unfoldable pub ends_within : ℕ → List Response → Option (ℕ × Exit)
unfolding later
ends_within zero rs = none
ends_within (suc k) [] = none
ends_within (suc k) (gone x ∷ rs) = some (0, x)
ends_within (suc k) (dies x ∷ rs) = some (1, x)
ends_within (suc k) (ignores ∷ rs) = later (ends_within k rs)

-- The signals of the first `n` phases of Stop.
pub ladder : ℕ → ℕ → List (ℕ × Signal)
ladder pid zero = []
ladder pid (suc zero) = (pid, sigint) ∷ []
ladder pid (suc (suc zero)) = (pid, sigint) ∷ (pid, sigterm) ∷ []
ladder pid (suc (suc (suc n))) = (pid, sigint) ∷ (pid, sigterm) ∷ (pid, sigkill) ∷ []

-- What Stop's phases come to.
abbrev Outlived : ℕ → List Response → Recorder → Type 0
Outlived pid rs r =
    ends_within 3 rs ≡ none
    → run_phases pid stop_phases rs r ≡ (ladder pid 3, some failed_to_shutdown, r)

abbrev Ended : ℕ → List Response → Recorder → Type 0
Ended pid rs r =
    (n : ℕ) (x : Exit)
    → ends_within 3 rs ≡ some (n, x)
    → gives_up x.error ≡ false
    → ((run_phases pid stop_phases rs r).0 ≡ ladder pid n)
      × (gives_up (run_phases pid stop_phases rs r).1 ≡ false)
      × ((run_phases pid stop_phases rs r).2 ≡ reap x r)

stop_phases-run : (pid : ℕ) (rs : List Response) (r : Recorder) → Outlived pid rs r × Ended pid rs r
unfolding run_phases ladder ends_within gives_up reap
stop_phases-run pid [] r = (λ e. refl, λ n x e g. ground arith)
stop_phases-run pid (gone y ∷ rs) r = (λ e. ground arith, λ n x e g. ground arith)
stop_phases-run pid (dies y ∷ rs) r = (λ e. ground arith, λ n x e g. ground arith)
stop_phases-run pid (ignores ∷ []) r = (λ e. refl, λ n x e g. ground arith)
stop_phases-run pid (ignores ∷ gone y ∷ rs) r = (λ e. ground arith, λ n x e g. ground arith)
stop_phases-run pid (ignores ∷ dies y ∷ rs) r = (λ e. ground arith, λ n x e g. ground arith)
stop_phases-run pid (ignores ∷ ignores ∷ []) r = (λ e. refl, λ n x e g. ground arith)
stop_phases-run pid (ignores ∷ ignores ∷ gone y ∷ rs) r =
    (λ e. ground arith, λ n x e g. ground arith)
stop_phases-run pid (ignores ∷ ignores ∷ dies y ∷ rs) r =
    (λ e. ground arith, λ n x e g. ground arith)
stop_phases-run pid (ignores ∷ ignores ∷ ignores ∷ rs) r = (λ e. refl, λ n x e g. ground arith)

shutdown-running :
    (pid : ℕ) (phases : List (List Signal)) (rs : List Response) (r : Recorder)
    → r.cmd ≡ process pid
    → is_done r ≡ false
    → shutdown phases rs r ≡ run_phases pid phases rs r
unfolding shutdown
shutdown-running pid phases rs r c d = rw (d, c)

module _ {W : Type 0} (ctrl : Controller W) where
  -- Stop on a running ffmpeg that outlives all phases: SIGINT, SIGTERM and SIGKILL are sent in
  -- this order, the error says that the shutdown failed, and nothing is finalized: but for the
  -- oncer, the recorder is as it was.
  pub stop-outlived :
      (pid : ℕ) (rs : List Response) (a : Remux) (s : Session W)
      → s.rec.cmd ≡ process pid
      → is_done s.rec ≡ false
      → ends_within 3 rs ≡ none
      → stop ctrl rs a s ≡ (ladder pid 3, some failed_to_shutdown, enable_stz ctrl s)
  unfolding stop gives_up text_eq
  stop-outlived pid rs a s c d e =
      rw (shutdown-running pid stop_phases rs s.rec c d ∙ (stop_phases-run pid rs s.rec).0 e, stop)

  -- Stop on a running ffmpeg that is not finalized and ends while the phases run, behind `n` of
  -- them, with another error than the two that Stop looks for: just the signals of these phases
  -- are sent, the exit is noted, the recording is finalized, and the result of the remux is both
  -- stored and returned.
  pub stop-ended :
      (pid n : ℕ) (x : Exit) (rs : List Response) (a : Remux) (s : Session W)
      → s.rec.cmd ≡ process pid
      → is_done s.rec ≡ false
      → s.rec.finalize_complete ≡ false
      → ends_within 3 rs ≡ some (n, x)
      → gives_up x.error ≡ false
      → IsExit x
      → ((stop ctrl rs a s).0 ≡ ladder pid n)
        × ((stop ctrl rs a s).1 ≡ remux a)
        × ((stop ctrl rs a s).2.rec.exit_code ≡ x.code)
        × ((stop ctrl rs a s).2.rec.finalize_complete ≡ true)
        × ((stop ctrl rs a s).2.rec.finalize_result ≡ remux a)
  unfolding stop finalize reap
  stop-ended pid n x rs a s c d f e g v = ground (
    arith,
    (stop_phases-run pid rs s.rec).1 n x e g,
    shutdown-running pid stop_phases rs s.rec c d,
  )
