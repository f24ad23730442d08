-- ===== src/Recorder/Balance.antt =====
-- A recorder, and the requests of the middleware, over one debounced controller: what the recorder
-- adds to its count.
use popcorn_images.Base.{
  ℕ, ◌+◌, ◌-◌, ◌<◌, ◌≡◌, refl, Option, none, some, List, [], ◌∷◌, true, arith, ltb, if◌then◌else◌,
  inl, inr, Error, Option-cases,
}
use popcorn_images.ScaleToZero.{
  Controller, Once, new_oncer, once_disable, once_enable, Debounce, disable, enable, debounced,
}
use popcorn_images.Recorder.Arguments.{Platform}
use popcorn_images.Recorder.Session.{Session, begin_start, enable_stz}
use popcorn_images.Recorder.Lifecycle.{Event, step}
use popcorn_images.Recorder.Effects.{step-Effect}

-- The recorder with the debounced controller, and the number of requests that hold it too.
pub record System (W : Type 0) : Type 0 where
  pub session : Session (Debounce W)
  pub others : ℕ

pub data SystemEvent : Type 0 where
  recorder : Event → SystemEvent
  arrives finishes : SystemEvent

-- What the recorder holds of the count: one from its successful Disable to its Enable.
abbrev pub own : Once → ℕ
own o = if o.enabled_once then 0 else 1

module _ {W : Type 0} (ctrl : Controller W) where
  arrive : Option Error × Debounce W → System W → System W
  arrive (none, c) s = record { session = record s.session { ctl = c }; others = s.others + 1 }
  arrive (some e, c) s = record s { session = record s.session { ctl = c } }

  unfoldable pub sys_step : System W → SystemEvent → System W
  unfolding arrive
  sys_step s (recorder e) = record s { session = step (debounced ctrl) s.session e }
  sys_step s arrives = arrive (disable ctrl s.session.ctl) s
  sys_step s finishes =
      if ltb 0 s.others
      then record {
        session = record s.session { ctl = (enable ctrl s.session.ctl).1 };
        others = s.others - 1;
      }
      else s

  unfoldable pub sys_run : System W → List SystemEvent → System W
  sys_run s [] = s
  sys_run s (e ∷ es) = sys_run (sys_step s e) es

pub record Balanced {W : Type 0} (s : System W) : Type 0 where
  pub disabled_once : s.session.rec.stz.disabled_once ≡ true
  pub no_error : s.session.rec.stz.disable_err ≡ none
  pub counted : s.session.ctl.active_count ≡ s.others + own s.session.rec.stz
  pub held : 0 < s.session.ctl.active_count → s.session.ctl.disabled ≡ true

module _ {W : Type 0} (ctrl : Controller W) where
  enable-Balanced :
      (s : System W)
      → Balanced s
      → Balanced (record s { session = enable_stz (debounced ctrl) s.session })
  unfolding once_enable debounced enable
  enable-Balanced s b = elim (Option-cases (ctrl.enable s.session.ctl.inner).0) [
    | inl e ↦ ground arith
    | inr (x, e) ↦ ground arith
  ]

  same-Balanced :
      (s t : System W)
      → t.others ≡ s.others
      → t.session.rec.stz ≡ s.session.rec.stz
      → t.session.ctl ≡ s.session.ctl
      → Balanced s
      → Balanced t
  same-Balanced s t o z c b = ground arith

  step-Balanced : (s : System W) (e : SystemEvent) → Balanced s → Balanced (sys_step ctrl s e)
  unfolding sys_step
  step-Balanced s (recorder e) b = elim (step-Effect (debounced ctrl) s.session e b.disabled_once) [
    | inl (z, c) ↦ same-Balanced s _ refl z c b
    | inr (z, c) ↦ same-Balanced _ _ refl z c (enable-Balanced s b)
  ]
  step-Balanced s arrives b =
      unfold disable in
      elim (Option-cases (ctrl.disable s.session.ctl.inner).0) [
        | inl e ↦ ground arith
        | inr (x, e) ↦ ground arith
      ]
  step-Balanced s finishes b =
      unfold enable in
      elim (Option-cases (ctrl.enable s.session.ctl.inner).0) [
        | inl e ↦ ground arith
        | inr (x, e) ↦ ground arith
      ]

  run-Balanced : (s : System W) (es : List SystemEvent) → Balanced s → Balanced (sys_run ctrl s es)
  unfolding sys_run
  run-Balanced s [] b = b
  run-Balanced s (e ∷ es) b = run-Balanced (sys_step ctrl s e) es (step-Balanced s e b)

  begun-Balanced :
      (os : Platform) (now : ℕ) (s : System W)
      → s.session.rec.stz ≡ new_oncer
      → s.session.ctl.active_count ≡ s.others
      → (0 < s.session.ctl.active_count → s.session.ctl.disabled ≡ true)
      → (begin_start (debounced ctrl) os now s.session).0 ≡ none
      → Balanced (record s { session = (begin_start (debounced ctrl) os now s.session).1 })
  unfolding begin_start once_disable debounced disable
  begun-Balanced os now s f c h r = elim (Option-cases (ctrl.disable s.session.ctl.inner).0) [
    | inl e ↦ ground arith
    | inr (x, e) ↦ ground arith
  ]

  -- Where Start has built its command on a recorder whose oncer is new, so that no Stop came before
  -- it, while the debounced controller counts the requests in flight and is disabled if there are
  -- any; then any events of the recorder and
  -- of requests follow, in any order, whichever calls of the controller behind fail. The count is
  -- the number of requests in flight, and one more until the first Enable of the recorder's oncer;
  -- and while it is not 0 the controller is disabled.
  pub sys_run-counts :
      (os : Platform) (now : ℕ) (s : System W) (es : List SystemEvent)
      → s.session.rec.stz ≡ new_oncer
      → s.session.ctl.active_count ≡ s.others
      → (0 < s.session.ctl.active_count → s.session.ctl.disabled ≡ true)
      → (begin_start (debounced ctrl) os now s.session).0 ≡ none
      → let begun = record s { session = (begin_start (debounced ctrl) os now s.session).1 } in
        let t = sys_run ctrl begun es in
        (t.session.ctl.active_count ≡ t.others + own t.session.rec.stz)
        × (0 < t.others + own t.session.rec.stz → t.session.ctl.disabled ≡ true)
  sys_run-counts os now s es f c h r =
      let b = run-Balanced _ es (begun-Balanced os now s f c h r) in
      (b.counted, λ p. b.held (omega (arith, b.counted)))
