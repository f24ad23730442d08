-- ===== src/ScaleToZero/Control.antt =====
-- The Unikraft controller of lib/scaletozero/scaletozero.go behind the debounced one: the commands
-- that its control file takes.
use popcorn_images.Base.{
  ℕ, ◌≡◌, ◌≢◌, refl, List, [], ◌∷◌, some, none, Bool, true, false, ◌==◌, arith,
}
use popcorn_images.ScaleToZero.{Answers, not_exist, Device, unikraft, write, disable, enable}
use popcorn_images.ScaleToZero.Middleware.{
  Server, Event, arrives, finishes, IsLawful, start, step, run,
}

-- The newest command is the one that turns scale-to-zero off.
abbrev pub is_off : List ℕ → Bool
is_off [] = false
is_off (c ∷ cs) = c == b'+'

-- Each command differs from the one before it, the oldest is a plus, and the newest is a plus
-- exactly if the flag is set.
abbrev pub Alternates : Bool → List ℕ → Type 0
Alternates off [] = off ≡ false
Alternates true (c ∷ cs) = (c ≡ b'+') × Alternates false cs
Alternates false (c ∷ cs) = (c ≡ b'-') × Alternates true cs

module _ (answers : ℕ → Answers) (present : (n : ℕ) → (answers n).stat_err ≢ some not_exist) where
  write-lawful :
      (d : Device) (c : ℕ)
      → ((write answers d c).0 ≡ none → (write answers d c).1.commands ≡ c ∷ d.commands)
        × ((write answers d c).0 ≢ none → (write answers d c).1.commands ≡ d.commands)
  unfolding write
  write-lawful d c = (λ h. ground (arith, present d.calls), λ h. ground (arith, present d.calls))

  pub unikraft-IsLawful : IsLawful (unikraft answers) (λ d. is_off d.commands)
  unfolding unikraft
  unikraft-IsLawful = record {
    disable_ok = λ d h. ground (arith, write-lawful d b'+');
    disable_fails = λ d e h. ground (arith, write-lawful d b'+');
    enable_ok = λ d h. ground (arith, write-lawful d b'-');
    enable_fails = λ d e h. ground (arith, write-lawful d b'-');
  }

  abbrev Tidy : Server Device → Type 0
  Tidy s = Alternates s.ctl.disabled s.ctl.inner.commands

  step-Tidy : (s : Server Device) (e : Event) → Tidy s → Tidy (step (unikraft answers) s e)
  unfolding step disable enable unikraft
  step-Tidy s (arrives true) t = ground arith
  step-Tidy s (arrives false) t = ground (arith, write-lawful s.ctl.inner b'+')
  step-Tidy s finishes t = ground (arith, write-lawful s.ctl.inner b'-')

  run-Tidy : (s : Server Device) (es : List Event) → Tidy s → Tidy (run (unikraft answers) s es)
  unfolding run
  run-Tidy s [] t = t
  run-Tidy s (e ∷ es) t = run-Tidy (step (unikraft answers) s e) es (step-Tidy s e t)

  -- Where the control file is always there, whatever else fails, and however requests overlap:
  -- the commands that the control file has taken alternate between plus and minus and start with
  -- a plus, and the newest is a plus exactly if the debounced controller counts itself disabled.
  pub run-Alternates :
      (es : List Event)
      → let s = run (unikraft answers) (start (record { calls = 0; commands = [] })) es in
        Alternates s.ctl.disabled s.ctl.inner.commands
  run-Alternates es = run-Tidy _ es refl
