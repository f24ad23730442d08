-- ===== src/Process/Balance.antt =====
-- What the spawned processes add to the count of the scale-to-zero controller.
use popcorn_images.Base.{
  adjust, ℕ, ℤ, ◌+◌, ◌<◌, ◌≡◌, refl, Option, none, some, List, [], ◌∷◌, Bool, true, ◌&&◌, Text,
  Assoc, lookup, arith, if◌then◌else◌, inl, inr, Option-cases,
}
use popcorn_images.ScaleToZero.{Controller, disable, enable}
use popcorn_images.Process.{Handle, sending, gone, set_exited}
use popcorn_images.Process.Table.{
  Server, Event, spawned, read, reaped, exit_sent, retention_ended, streamed, attached, detached,
  other_arrives, other_leaves, step, run, spawn, reap, forget, arrive, register, is_waiting,
  read_chunk, send_exit, take_event, attach, detach,
}

-- Whether a process runs that has disabled scale-to-zero.
abbrev pub holds : Handle → Bool
holds h = h.stz_disabled && is_waiting h.waiter

abbrev pub holding : Assoc Handle → ℕ
holding [] = 0
holding ((j, h) ∷ hs) = (if holds h then 1 else 0) + holding hs

pub record Balanced {W : Type 0} (s : Server W) : Type 0 where
  pub counted : s.stz.active_count ≡ s.others + holding s.handles
  pub held : 0 < s.stz.active_count → s.stz.disabled ≡ true

holding-adjust_same :
    (id : Text) (f : Handle → Handle) (hs : Assoc Handle)
    → ((h : Handle) → holds (f h) ≡ holds h)
    → holding (adjust id f hs) ≡ holding hs
unfolding adjust
holding-adjust_same id f [] same = refl
holding-adjust_same id f ((j, h) ∷ hs) same =
    ground (arith, same h, holding-adjust_same id f hs same)

holding-adjust :
    (id : Text) (f : Handle → Handle) (hs : Assoc Handle) (h : Handle)
    → lookup id hs ≡ some h
    → holding (adjust id f hs) + (if holds h then 1 else 0)
      ≡ holding hs + (if holds (f h) then 1 else 0)
unfolding adjust lookup
holding-adjust id f [] h e = ground arith
holding-adjust id f ((j, g) ∷ hs) h e = ground (arith, holding-adjust id f hs h)

module _ {W : Type 0} (ctrl : Controller W) where
  -- A step on one handle that starts and ends no wait.
  handle-Balanced :
      (s : Server W) (id : Text) (f : Handle → Handle)
      → ((h : Handle) → holds (f h) ≡ holds h)
      → Balanced s
      → Balanced (record s { handles = adjust id f s.handles })
  handle-Balanced s id f same b = ground (arith, holding-adjust_same id f s.handles same)

  read-holds :
      (stream : Bool) (bytes : Text) (h : Handle) → holds (read_chunk stream bytes h) ≡ holds h
  unfolding read_chunk
  read-holds stream bytes h = ground arith

  send-holds : (h : Handle) → holds (send_exit h) ≡ holds h
  unfolding send_exit
  send-holds h = ground arith

  attach-holds : (h : Handle) → holds (attach h) ≡ holds h
  unfolding attach
  attach-holds h = ground arith

  spawn-Balanced :
      (id : Text) (pid : ℕ) (tty : Bool) (s : Server W) (o : Option Handle)
      → Balanced s
      → Balanced (spawn ctrl id pid tty s o)
  unfolding spawn register disable
  spawn-Balanced id pid tty s (some h) b = b
  spawn-Balanced id pid tty s none b = elim (Option-cases (ctrl.disable s.stz.inner).0) [
    | inl e ↦ ground arith
    | inr (x, e) ↦ ground arith
  ]

  reap-Balanced :
      (id : Text) (code : ℤ) (s : Server W) (o : Option Handle)
      → lookup id s.handles ≡ o
      → Balanced s
      → Balanced (reap ctrl id code s o)
  unfolding reap set_exited enable
  reap-Balanced id code s none e b = b
  reap-Balanced id code s (some h) e b =
      let change =
        holding-adjust id (λ g. record (set_exited code g) { waiter = sending }) s.handles h e in
      elim (Option-cases (ctrl.enable s.stz.inner).0) [
        | inl x ↦ ground arith
        | inr (y, x) ↦ ground arith
      ]

  forget-Balanced :
      (id : Text) (s : Server W) (o : Option Handle)
      → lookup id s.handles ≡ o
      → Balanced s
      → Balanced (forget ctrl id s o)
  unfolding forget
  forget-Balanced id s none e b = b
  forget-Balanced id s (some h) e b =
      ground (arith, holding-adjust id (λ g. record g { waiter = gone }) s.handles h e)

  step-Balanced : (s : Server W) (e : Event) → Balanced s → Balanced (step ctrl s e)
  unfolding step
  step-Balanced s (spawned id pid tty) b = spawn-Balanced id pid tty s _ b
  step-Balanced s (read id stream bytes) b = handle-Balanced s id _ (read-holds stream bytes) b
  step-Balanced s (reaped id code) b = reap-Balanced id code s _ refl b
  step-Balanced s (exit_sent id) b = handle-Balanced s id _ send-holds b
  step-Balanced s (retention_ended id) b = forget-Balanced id s _ refl b
  step-Balanced s (streamed id) b = handle-Balanced s id _ (λ h. unfold take_event in refl) b
  step-Balanced s (attached id) b = handle-Balanced s id _ attach-holds b
  step-Balanced s (detached id) b = handle-Balanced s id _ (λ h. unfold detach in refl) b
  step-Balanced s other_arrives b =
      unfold arrive disable in
      elim (Option-cases (ctrl.disable s.stz.inner).0) [
        | inl e ↦ ground arith
        | inr (x, e) ↦ ground arith
      ]
  step-Balanced s other_leaves b =
      unfold enable in
      elim (Option-cases (ctrl.enable s.stz.inner).0) [
        | inl e ↦ ground arith
        | inr (x, e) ↦ ground arith
      ]

  run-Balanced : (s : Server W) (es : List Event) → Balanced s → Balanced (run ctrl s es)
  unfolding run
  run-Balanced s [] b = b
  run-Balanced s (e ∷ es) b = run-Balanced (step ctrl s e) es (step-Balanced s e b)

  -- From a server without processes whose controller counts its other holders and is disabled if
  -- there are any, after any spawns, exits, requests and moves of the goroutines, in any order,
  -- whichever calls of the controller behind fail: the count is the number of the other holders
  -- and of the processes that have not been waited for and whose Disable succeeded, and while it
  -- is not 0 the controller is disabled.
  pub run-counts :
      (s : Server W) (es : List Event)
      → s.handles ≡ []
      → s.stz.active_count ≡ s.others
      → (0 < s.stz.active_count → s.stz.disabled ≡ true)
      → ((run ctrl s es).stz.active_count
          ≡ (run ctrl s es).others + holding (run ctrl s es).handles)
        × (0 < (run ctrl s es).stz.active_count → (run ctrl s es).stz.disabled ≡ true)
  run-counts s es none_yet c h =
      let b = run-Balanced s es (record { counted = ground (arith, none_yet, c); held = h }) in
      (b.counted, b.held)
