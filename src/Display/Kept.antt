-- ===== src/Display/Kept.antt =====
-- A new segment replaces no recorder.
use mathlib.Core.Option.{some-injective}
use popcorn_images.Base.{
  ℕ, ◌≡◌, refl, subst, ◌∙◌, Option, none, some, List, [], ◌∷◌, false, Text, Error, text_eq,
  text_eq_iff, Assoc, lookup, insert, lookup-insert, lookup-delete, arith, ◌>>=◌, codes, ◌++◌,
}
use popcorn_images.ScaleToZero.{Controller}
use popcorn_images.Recorder.{Recorder}
use popcorn_images.Recorder.Arguments.{Params}
use popcorn_images.Recorder.Session.{Session}
use popcorn_images.Recorder.Manager.{register, deregister}
use popcorn_images.Recordings.{Service, Host}
use popcorn_images.Display.Segments.{
  StoppedRecordingInfo, segment_started, segment_registered, segment_made,
  start_new_recording_segments,
}

-- The recorder that the manager has for an id
abbrev Has : {W : Type 0} → Text → Recorder → Service W → Type 0
Has k q s = lookup k s.recorders ≡ some q

register-fresh :
    (r : Recorder) (recorders : Assoc Recorder)
    → lookup r.id recorders ≡ none
    → register r recorders ≡ (none, insert r.id r recorders)
unfolding register
register-fresh r recorders e = rw (e, register) refl

register-taken :
    (r other : Recorder) (recorders : Assoc Recorder)
    → lookup r.id recorders ≡ some other
    → register r recorders
      ≡ (some (codes "recorder with id '" ++ (r.id ++ codes "' already exists")), recorders)
unfolding register
register-taken r other recorders e = rw (e, register) refl

module _ {W : Type 0} (ctrl : Controller W) (k : Text) (q : Recorder) where
  segment_started-Has :
      (r : Recorder) (x : Option Error × Session W) (recorders : Assoc Recorder)
      → text_eq r.id k ≡ false
      → lookup k recorders ≡ some q
      → Has k q (segment_started ctrl r x recorders)
  unfolding segment_started deregister
  segment_started-Has r (none, s) recorders d h = lookup-insert r.id k s.rec recorders ∙ rw d h
  segment_started-Has r (some e, s) recorders d h = lookup-delete r.id k recorders ∙ rw d h

  differs :
      (r : Recorder) (recorders : Assoc Recorder)
      → lookup r.id recorders ≡ none
      → lookup k recorders ≡ some q
      → text_eq r.id k ≡ false
  differs r recorders fresh h = ground (arith, text_eq_iff r.id k, fresh, h)

  registered-Has :
      (h : Host) (r : Recorder) (s : Service W) (o : Option Recorder)
      → lookup r.id s.recorders ≡ o
      → Has k q s
      → Has k q (segment_registered ctrl h r s (register r s.recorders))
  unfolding segment_registered
  registered-Has h r s (some other) e x = rw (register-taken r other s.recorders e) x
  registered-Has h r s none e x =
      let d = differs r s.recorders e x in
      rw (register-fresh r s.recorders e) (
        segment_started-Has r _ (insert r.id r s.recorders) d
          (lookup-insert r.id k r s.recorders ∙ rw d x))

  made-Has :
      (h : Host) (s t : Service W) (o : Option Recorder)
      → segment_made ctrl h s o ≡ some t
      → Has k q s
      → Has k q t
  unfolding segment_made
  made-Has h s t none e x = ground (arith, e)
  made-Has h s t (some r) e x =
      subst (λ u. Has k q u) (some-injective _ t e) (registered-Has h r s _ refl x)

  then_started-Has :
      (config : Params) (stat : Text → Option ℕ) (millis : Text → ℕ) (host : Text → Host)
      (stopped : List StoppedRecordingInfo) (o : Option (Service W)) (t : Service W)
      → ((u v : Service W)
          → start_new_recording_segments ctrl config stat millis host stopped u ≡ some v
          → Has k q u
          → Has k q v)
      → ((u : Service W) → o ≡ some u → Has k q u)
      → (o >>= start_new_recording_segments ctrl config stat millis host stopped) ≡ some t
      → Has k q t
  then_started-Has config stat millis host stopped none t next here e = ground (arith, e)
  then_started-Has config stat millis host stopped (some u) t next here e = next u t e (here u refl)

  started-Has :
      (config : Params) (stat : Text → Option ℕ) (millis : Text → ℕ) (host : Text → Host)
      (stopped : List StoppedRecordingInfo) (s t : Service W)
      → start_new_recording_segments ctrl config stat millis host stopped s ≡ some t
      → Has k q s
      → Has k q t
  unfolding start_new_recording_segments
  started-Has config stat millis host [] s t e x = subst (λ u. Has k q u) (some-injective s t e) x
  started-Has config stat millis host (info ∷ stopped) s t e x =
      then_started-Has config stat millis host stopped _ t
        (started-Has config stat millis host stopped) (λ u m. made-Has _ s u _ m x) e

-- When the new segments of the stopped recordings are made, each registered and started or not,
-- each recorder that the manager had before stays registered as it was.
pub start_new_recording_segments-kept :
    {W : Type 0} (ctrl : Controller W) (config : Params) (stat : Text → Option ℕ)
    (millis : Text → ℕ) (host : Text → Host) (stopped : List StoppedRecordingInfo) (s t : Service W)
    (id : Text) (r : Recorder)
    → start_new_recording_segments ctrl config stat millis host stopped s ≡ some t
    → lookup id s.recorders ≡ some r
    → lookup id t.recorders ≡ some r
start_new_recording_segments-kept ctrl config stat millis host stopped s t id r e h =
    started-Has ctrl id r config stat millis host stopped s t e h
