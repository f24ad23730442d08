-- ===== src/ScaleToZero/Examples.antt =====
-- The theorems on scale-to-zero at concrete inputs.
use popcorn_images.Base.{
  ℕ, ◌<◌, ◌≡◌, ◌≢◌, refl, List, [], ◌∷◌, some, none, true, false, codes, ltb, ◌==◌, if◌then◌else◌,
}
use popcorn_images.ScaleToZero.{Answers, not_exist, Device, unikraft, Controller}
use popcorn_images.ScaleToZero.Middleware.{
  Event, arrives, finishes, start, run, run-off_in_flight, run-off_iff_in_flight,
}
use popcorn_images.ScaleToZero.Control.{is_off, Alternates, unikraft-IsLawful, run-Alternates}

-- Opening the control file fails at the second call and at no other.
abbrev flaky : ℕ → Answers
flaky n = record {
  stat_err = none;
  open_err = if n == 1 then some (codes "EIO") else none;
  write_err = none;
}

abbrev steady : ℕ → Answers
steady n = record { stat_err = none; open_err = none; write_err = none }

flaky-present : (n : ℕ) → (flaky n).stat_err ≢ some not_exist
flaky-present n = cc

steady-present : (n : ℕ) → (steady n).stat_err ≢ some not_exist
steady-present n = cc

abbrev fresh : Device
fresh = record { calls = 0; commands = [] }

-- Two requests overlap, one from a loopback address comes between them.
abbrev overlap : List Event
overlap = arrives false ∷ arrives true ∷ arrives false ∷ finishes ∷ []

run-off_in_flight_example :
    let s = run (unikraft flaky) (start fresh) overlap in
    (0 < s.in_flight → is_off s.ctl.inner.commands ≡ true)
    × (s.ctl.active_count ≡ s.in_flight)
    × (s.ctl.disabled ≡ is_off s.ctl.inner.commands)
run-off_in_flight_example =
    run-off_in_flight (unikraft flaky) (λ d. is_off d.commands)
      (unikraft-IsLawful flaky flaky-present) fresh overlap refl

-- A controller that only keeps its flag; its Enable never fails.
abbrev switch : Controller ℕ
switch = record { disable = λ w. (none, 1); enable = λ w. (none, 0) }

run-off_iff_in_flight_example :
    let s = run switch (start 0) (arrives false ∷ finishes ∷ []) in
    (s.ctl.inner == 1) ≡ ltb 0 s.in_flight
run-off_iff_in_flight_example =
    run-off_iff_in_flight switch (λ w. w == 1)
      (record {
        disable_ok = λ w h. refl;
        disable_fails = λ w e h. cc;
        enable_ok = λ w h. refl;
        enable_fails = λ w e h. cc;
      })
      (λ w. refl) 0 (arrives false ∷ finishes ∷ []) refl

run-Alternates_example :
    let s = run (unikraft steady) (start fresh) overlap in
    Alternates s.ctl.disabled s.ctl.inner.commands
run-Alternates_example = run-Alternates steady steady-present overlap
