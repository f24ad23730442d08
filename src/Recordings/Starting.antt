-- ===== src/Recordings/Starting.antt =====
-- What a request to start a recording leaves behind.
use popcorn_images.Base.{
  ℕ, ◌≡◌, ◌≢◌, refl, Option, none, some, true, false, Text, codes, lookup, insert, delete,
  lookup-insert, lookup-delete, text_eq_refl, text_eq_iff, arith, inl, inr, Bool-cases,
  Option-cases, Error, subst, ap, ◌∙◌, if◌then◌else◌,
}
use popcorn_images.ScaleToZero.{Controller}
use popcorn_images.Recorder.Arguments.{Params, Platform}
use popcorn_images.Recorder.{
  Recorder, Exit, Launch, started, start_failed, is_recording, is_done, new_recorder,
}
use popcorn_images.Recorder.Session.{Session, start, begin_start, launch, check_startup}
use popcorn_images.Recorder.Manager.{get_recorder, register, deregister}
use popcorn_images.Recordings.{
  Service, Host, recorder_id, factory, start_new, start_recording, StartResponse, created_201,
  in_progress_409, completed_400, failed_500, panics,
}
use popcorn_images.Recordings.Deletion.{start-id}

-- What the recorders under the request's id and under another id are, by the answer.
abbrev pub Started : StartResponse → Option Recorder → Option Recorder → Type 0
Started created_201 before after =
    (before ≡ none) × ((r : Recorder) × (after ≡ some r) × (is_recording r ≡ true))
Started in_progress_409 before after =
    (after ≡ before) × ((r : Recorder) × (before ≡ some r) × (is_recording r ≡ true))
Started completed_400 before after =
    (after ≡ before) × ((r : Recorder) × (before ≡ some r) × (is_recording r ≡ false))
Started (failed_500 m) before after = (before ≡ none) × (after ≡ none)
Started panics before after = after ≡ before

module _ {W : Type 0} (ctrl : Controller W) where
  begin-recording :
      (os : Platform) (now : ℕ) (s : Session W)
      → (begin_start ctrl os now s).0 ≡ none
      → is_done (begin_start ctrl os now s).1.rec ≡ false
  unfolding begin_start
  begin-recording os now s h = ground arith

  launch-recording :
      (l : Launch) (s : Session W)
      → (launch ctrl l s).0 ≡ none
      → is_done s.rec ≡ false
      → is_recording (launch ctrl l s).1.rec ≡ true
  unfolding launch
  launch-recording (started pid) s h d = ground arith
  launch-recording (start_failed e) s h d = ground arith

  start-recording :
      (os : Platform) (now : ℕ) (l : Launch) (early : Option Exit) (s : Session W)
      → (start ctrl os now l early s).0 ≡ none
      → is_recording (start ctrl os now l early s).1.rec ≡ true
  unfolding start check_startup
  start-recording os now l early s h =
      ground (arith, begin-recording os now s, launch-recording l (begin_start ctrl os now s).1)

  factory-id :
      (config overrides : Params) (key : Text) (r : Recorder)
      → factory config key overrides ≡ some r
      → r.id ≡ key
  unfolding factory new_recorder
  factory-id config overrides key r h = ground arith

  -- The recorder that Start leaves, with its error.
  abbrev started_as : Host → Recorder → W → Option Error × Session W
  started_as h r w = start ctrl h.os h.now h.launch h.early (record { rec = r; ctl = w })

  abbrev Shown : Text → Service W → StartResponse × Service W → Type 0
  Shown id s result =
      Started result.0 (lookup id s.recorders) (lookup id result.1.recorders)
      × ((key : Text) → key ≢ id → lookup key result.1.recorders ≡ lookup key s.recorders)

  new_conflict :
      (h : Host) (r q : Recorder) (s : Service W)
      → lookup r.id s.recorders ≡ some q
      → start_new ctrl h r s ≡ (if is_recording q then in_progress_409 else completed_400, s)
  unfolding start_new register get_recorder
  new_conflict h r q s e = ground arith

  conflict-Shown :
      (h : Host) (r q : Recorder) (s : Service W)
      → lookup r.id s.recorders ≡ some q
      → Shown r.id s (start_new ctrl h r s)
  conflict-Shown h r q s e = elim (Bool-cases (is_recording q)) [
    | inl b ↦
        rw (new_conflict h r q s e ∙ ap (λ b. (if b then in_progress_409 else completed_400, s)) b)
          ((refl, (q, e, b)), λ key n. refl)
    | inr b ↦
        rw (new_conflict h r q s e ∙ ap (λ b. (if b then in_progress_409 else completed_400, s)) b)
          ((refl, (q, e, b)), λ key n. refl)
  ]

  module _ (h : Host) (r : Recorder) (s : Service W) (free : lookup r.id s.recorders ≡ none) where
    new_ok :
        (started_as h r s.ctl).0 ≡ none
        → start_new ctrl h r s ≡ (
          created_201,
          record {
            recorders = insert r.id (started_as h r s.ctl).1.rec (insert r.id r s.recorders);
            ctl = (started_as h r s.ctl).1.ctl;
          },
        )
    unfolding start_new register
    new_ok e = ground arith

    new_fails :
        (x : Error)
        → (started_as h r s.ctl).0 ≡ some x
        → start_new ctrl h r s ≡ (
          failed_500 (codes "failed to start recording"),
          record {
            recorders = delete r.id (insert r.id r s.recorders);
            ctl = (started_as h r s.ctl).1.ctl;
          },
        )
    unfolding start_new register deregister
    new_fails x e =
        ground (arith, start-id ctrl h.os h.now h.launch h.early (record { rec = r; ctl = s.ctl }))

    new-Shown : Shown r.id s (start_new ctrl h r s)
    new-Shown = elim (Option-cases (started_as h r s.ctl).0) [
      | inl e ↦ rw (new_ok e) (
        (
          free,
          (
            (started_as h r s.ctl).1.rec,
            simp (lookup-insert, text_eq_refl),
            start-recording h.os h.now h.launch h.early _ e,
          ),
        ),
        λ key n. ground (
          arith,
          text_eq_iff r.id key,
          lookup-insert r.id key r s.recorders,
          lookup-insert r.id key (started_as h r s.ctl).1.rec (insert r.id r s.recorders),
        ),
      )
      | inr (x, e) ↦ rw (new_fails x e) (
        (free, simp (lookup-delete, text_eq_refl)),
        λ key n. ground (
          arith,
          text_eq_iff r.id key,
          lookup-insert r.id key r s.recorders,
          lookup-delete r.id key (insert r.id r s.recorders),
        ),
      )
    ]

  -- The answer to a request to start a recording tells what the recorders are. On 201 there was
  -- none under its id, and now there is one that is recording. On 409 there was one, recording, and
  -- on 400 one that was not, and it is the same as before. On 500 there is none under the id,
  -- before and after. Under every other id the recorders are the same.
  pub start_recording-Started :
      (config overrides : Params) (id : Option Text) (h : Host) (s : Service W)
      → Started
          (start_recording ctrl config id overrides h s).0
          (lookup (recorder_id id) s.recorders)
          (lookup (recorder_id id) (start_recording ctrl config id overrides h s).1.recorders)
        × ((key : Text)
            → key ≢ recorder_id id
            → lookup key (start_recording ctrl config id overrides h s).1.recorders
              ≡ lookup key s.recorders)
  unfolding start_recording
  start_recording-Started config overrides id h s =
      elim (Option-cases (factory config (recorder_id id) overrides)) [
        | inl e ↦ rw (e, start_recording) (refl, λ key n. refl)
        | inr (r, e) ↦
            rw (e, start_recording)
              (subst (λ k. Shown k s (start_new ctrl h r s))
                (factory-id config overrides (recorder_id id) r e) (shown r))
      ]
    where
      shown : (r : Recorder) → Shown r.id s (start_new ctrl h r s)
      shown r = elim (Option-cases (lookup r.id s.recorders)) [
        | inl f ↦ new-Shown h r s f
        | inr (q, f) ↦ conflict-Shown h r q s f
      ]
