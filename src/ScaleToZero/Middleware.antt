-- ===== src/ScaleToZero/Middleware.antt =====
-- lib/scaletozero/middleware.go over a debounced controller, with requests that overlap: each
-- request is one step that admits it and, once its handler is done, one step that finishes it.
use popcorn_images.Base.{
  ℕ, ◌+◌, ◌-◌, ◌<◌, ◌≡◌, refl, sym, ◌∙◌, List, [], ◌∷◌, Option, none, some, Bool, true, false,
  Error, ltb, if◌then◌else◌, arith, inl, inr, Option-cases,
}
use popcorn_images.ScaleToZero.{Controller, Debounce, disable, enable}

-- What becomes of a request: from a loopback address, answered by a 500, or served.
pub data Admission : Type 0 where
  ignored refused admitted : Admission

pub record Server (W : Type 0) : Type 0 where
  pub ctl : Debounce W
  -- the requests that were admitted and are not finished
  pub in_flight : ℕ

pub data Event : Type 0 where
  arrives : Bool → Event
  finishes : Event

-- `disabled` of a controller says whether scale-to-zero is off in the state behind it, and a call
-- that fails changes nothing.
pub record IsLawful {W : Type 0} (ctrl : Controller W) (off : W → Bool) : Type 0 where
  pub disable_ok : (w : W) → (ctrl.disable w).0 ≡ none → off (ctrl.disable w).1 ≡ true
  pub disable_fails :
      (w : W) (e : Error) → (ctrl.disable w).0 ≡ some e → off (ctrl.disable w).1 ≡ off w
  pub enable_ok : (w : W) → (ctrl.enable w).0 ≡ none → off (ctrl.enable w).1 ≡ false
  pub enable_fails :
      (w : W) (e : Error) → (ctrl.enable w).0 ≡ some e → off (ctrl.enable w).1 ≡ off w

-- NewDebouncedController over a fresh state of the controller behind it
abbrev pub start : {W : Type 0} → W → Server W
start w = record { ctl = record { inner = w; disabled = false; active_count = 0 }; in_flight = 0 }

module _ {W : Type 0} (ctrl : Controller W) where
  admit : Option Error × Debounce W → Admission × Debounce W
  admit (some e, c) = (refused, c)
  admit (none, c) = (admitted, c)

  -- The part of the handler before `next.ServeHTTP`.
  pub begin : Bool → Debounce W → Admission × Debounce W
  unfolding admit
  begin loopback c = if loopback then (ignored, c) else admit (disable ctrl c)

  -- The deferred part: its error is dropped.
  pub finish : Admission → Debounce W → Debounce W
  finish admitted c = (enable ctrl c).1
  finish ignored c = c
  finish refused c = c

  count_in : Admission → ℕ → ℕ
  count_in admitted n = n + 1
  count_in ignored n = n
  count_in refused n = n

  unfoldable pub step : Server W → Event → Server W
  unfolding begin finish count_in
  step s (arrives loopback) =
      let (a, c) = begin loopback s.ctl in record { ctl = c; in_flight = count_in a s.in_flight }
  step s finishes =
      if ltb 0 s.in_flight
      then record { ctl = finish admitted s.ctl; in_flight = s.in_flight - 1 }
      else s

  unfoldable pub run : Server W → List Event → Server W
  run s [] = s
  run s (e ∷ es) = run (step s e) es

  module _ (off : W → Bool) where
    pub record Inv (s : Server W) : Type 0 where
      pub counted : s.ctl.active_count ≡ s.in_flight
      pub held : 0 < s.in_flight → s.ctl.disabled ≡ true
      pub agrees : off s.ctl.inner ≡ s.ctl.disabled

    module _ (lawful : IsLawful ctrl off) where
      step-Inv : (s : Server W) (e : Event) → Inv s → Inv (step s e)
      unfolding step disable enable
      step-Inv s (arrives true) v = ground arith
      step-Inv s (arrives false) v = elim (Option-cases (ctrl.disable s.ctl.inner).0) [
        | inl e ↦ ground (arith, lawful.disable_ok s.ctl.inner)
        | inr (x, e) ↦ ground (arith, lawful.disable_fails s.ctl.inner x)
      ]
      step-Inv s finishes v = elim (Option-cases (ctrl.enable s.ctl.inner).0) [
        | inl e ↦ ground (arith, lawful.enable_ok s.ctl.inner)
        | inr (x, e) ↦ ground (arith, lawful.enable_fails s.ctl.inner x)
      ]

      run-Inv : (s : Server W) (es : List Event) → Inv s → Inv (run s es)
      unfolding run
      run-Inv s [] v = v
      run-Inv s (e ∷ es) v = run-Inv (step s e) es (step-Inv s e v)

      -- A server that starts with scale-to-zero on and handles any events, in any interleaving,
      -- whichever calls of the controller fail: while a request is in flight, scale-to-zero is
      -- off; the count of the controller is the number of requests in flight; and its flag says
      -- whether scale-to-zero is off.
      pub run-off_in_flight :
          (w : W) (es : List Event)
          → off w ≡ false
          → (0 < (run (start w) es).in_flight → off (run (start w) es).ctl.inner ≡ true)
            × ((run (start w) es).ctl.active_count ≡ (run (start w) es).in_flight)
            × ((run (start w) es).ctl.disabled ≡ off (run (start w) es).ctl.inner)
      run-off_in_flight w es h =
          let v = run-Inv (start w) es (ground arith) in
          (λ p. cc (v.agrees, v.held p), v.counted, sym v.agrees)

      module _ (enable_works : (w : W) → (ctrl.enable w).0 ≡ none) where
        abbrev Quiet : Server W → Type 0
        Quiet s = s.ctl.disabled ≡ ltb 0 s.in_flight

        step-Quiet : (s : Server W) (e : Event) → Inv s → Quiet s → Quiet (step s e)
        unfolding step disable enable
        step-Quiet s (arrives true) v q = ground arith
        step-Quiet s (arrives false) v q = elim (Option-cases (ctrl.disable s.ctl.inner).0) [
          | inl e ↦ ground arith
          | inr (x, e) ↦ ground arith
        ]
        step-Quiet s finishes v q = ground (arith, enable_works s.ctl.inner)

        run-Quiet : (s : Server W) (es : List Event) → Inv s → Quiet s → Quiet (run s es)
        unfolding run
        run-Quiet s [] v q = q
        run-Quiet s (e ∷ es) v q = run-Quiet (step s e) es (step-Inv s e v) (step-Quiet s e v q)

        -- A server that starts with scale-to-zero on, over a controller whose Enable never fails,
        -- after any events: scale-to-zero is off exactly if a request is in flight, so it is on
        -- again once the last request is finished.
        pub run-off_iff_in_flight :
            (w : W) (es : List Event)
            → off w ≡ false
            → off (run (start w) es).ctl.inner ≡ ltb 0 (run (start w) es).in_flight
        run-off_iff_in_flight w es h =
            (run-Inv (start w) es (ground arith)).agrees
            ∙ run-Quiet (start w) es (ground arith) refl
