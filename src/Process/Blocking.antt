-- ===== src/Process/Blocking.antt =====
-- A process that exits while outCh is full and no client streams its output.
use popcorn_images.Base.{
  At, adjust-At, cons-At, lookup-adjust, adjust, ℕ, ℤ, ◌≡◌, refl, ◌∙◌, Option, none, some, List, [],
  ◌∷◌, Bool, true, false, not, ◌&&◌, Text, text_eq, text_eq_iff, mem, Assoc, lookup, arith, ltb,
  length, inl, inr, Bool-cases,
}
use popcorn_images.ScaleToZero.{Controller, Debounce}
use popcorn_images.Process.{Handle, set_exited}
use popcorn_images.Process.Table.{
  Server, Event, spawned, read, reaped, exit_sent, retention_ended, streamed, attached, detached,
  other_arrives, other_leaves, step, run, spawn, reap, forget, arrive, register, is_waiting,
  is_retaining, is_sending, read_chunk, send_exit, attach, detach, has_room, without,
}

-- The goroutine of the process waits to send the exit event, and outCh is full.
abbrev Blocked : Handle → Type 0
Blocked h = (is_sending h.waiter ≡ true) × (has_room h ≡ false) × (h.done ≡ false)

-- No stream request takes an event of the process.
abbrev pub is_unread : Text → List Event → Bool
is_unread id [] = true
is_unread id (streamed j ∷ es) = not (text_eq j id) && is_unread id es
is_unread id (e ∷ es) = is_unread id es

mem-without :
    (id j : Text) (ids : List Text)
    → text_eq j id ≡ false
    → mem id ids ≡ true
    → mem id (without j ids) ≡ true
unfolding mem without
mem-without id j [] d m = m
mem-without id j (i ∷ ids) d m = ground (
  arith,
  d,
  m,
  mem-without id j ids d,
  text_eq_iff i j,
  text_eq_iff i id,
  text_eq_iff id i,
  text_eq_iff j id,
)

module _ {W : Type 0} (ctrl : Controller W) (id : Text) where
  record Stays (s : Server W) : Type 0 where
    blocked : At Blocked id s.handles
    listed : mem id s.procs ≡ true

  handle-Stays :
      (j : Text) (f : Handle → Handle) (s : Server W)
      → ((h : Handle) → Blocked h → Blocked (f h))
      → Stays s
      → Stays (record s { handles = adjust j f s.handles })
  handle-Stays j f s keep a = record {
    blocked = adjust-At Blocked id j f s.handles keep a.blocked;
    listed = a.listed;
  }

  spawn-Stays :
      (j : Text) (pid : ℕ) (tty : Bool) (s : Server W) (o : Option Handle)
      → lookup j s.handles ≡ o
      → Stays s
      → Stays (spawn ctrl j pid tty s o)
  unfolding spawn register mem
  spawn-Stays j pid tty s (some h) e a = a
  spawn-Stays j pid tty s none e a = record {
    blocked = cons-At Blocked id j _ s.handles e a.blocked;
    listed = ground (arith, a.listed);
  }

  reap-Stays :
      (j : Text) (c : ℤ) (s : Server W) (o : Option Handle) → Stays s → Stays (reap ctrl j c s o)
  unfolding reap set_exited has_room
  reap-Stays j c s none a = a
  reap-Stays j c s (some h) a = elim (Bool-cases (is_waiting h.waiter)) [
    | inl w ↦ rw w (record {
      blocked = adjust-At Blocked id j _ s.handles (λ h p. (refl, p.1, p.2)) a.blocked;
      listed = a.listed;
    })
    | inr w ↦ rw w a
  ]

  other-Blocked :
      (j : Text) (f : Handle → Handle) (hs : Assoc Handle)
      → text_eq j id ≡ false
      → At Blocked id hs
      → At Blocked id (adjust j f hs)
  other-Blocked j f hs d a = record {
    value = a.value;
    found = lookup-adjust id j f hs ∙ rw d a.found;
    has = a.has;
  }

  forget-Stays :
      (j : Text) (s : Server W) (o : Option Handle)
      → lookup j s.handles ≡ o
      → Stays s
      → Stays (forget ctrl j s o)
  unfolding forget
  forget-Stays j s none e a = a
  forget-Stays j s (some h) e a = elim (Bool-cases (is_retaining h.waiter)) [
    | inl w ↦
        let d : text_eq j id ≡ false =
          ground (arith, text_eq_iff j id, e, a.blocked.found, a.blocked.has, w) in
        rw w (record {
          blocked = other-Blocked j _ s.handles d a.blocked;
          listed = mem-without id j s.procs d a.listed;
        })
    | inr w ↦ rw w a
  ]

  arrive-Stays : (s : Server W) (r : Option Text × Debounce W) → Stays s → Stays (arrive ctrl s r)
  unfolding arrive
  arrive-Stays s (none, c) a = record { blocked = a.blocked; listed = a.listed }
  arrive-Stays s (some e, c) a = record { blocked = a.blocked; listed = a.listed }

  read-Blocked :
      (stream : Bool) (bytes : Text) (h : Handle) → Blocked h → Blocked (read_chunk stream bytes h)
  unfolding read_chunk
  read-Blocked stream bytes h p = ground (arith, p)

  send-Blocked : (h : Handle) → Blocked h → Blocked (send_exit h)
  unfolding send_exit
  send-Blocked h p = ground (arith, p)

  attach-Blocked : (h : Handle) → Blocked h → Blocked (attach h)
  unfolding attach has_room
  attach-Blocked h p = ground (arith, p)

  step-Stays :
      (s : Server W) (e : Event) → is_unread id (e ∷ []) ≡ true → Stays s → Stays (step ctrl s e)
  unfolding step has_room
  step-Stays s (spawned j pid tty) u a = spawn-Stays j pid tty s _ refl a
  step-Stays s (read j stream bytes) u a = handle-Stays j _ s (read-Blocked stream bytes) a
  step-Stays s (reaped j c) u a = reap-Stays j c s _ a
  step-Stays s (exit_sent j) u a = handle-Stays j _ s send-Blocked a
  step-Stays s (retention_ended j) u a = forget-Stays j s _ refl a
  step-Stays s (streamed j) u a = record {
    blocked = other-Blocked j _ s.handles (ground (arith, u)) a.blocked;
    listed = a.listed;
  }
  step-Stays s (attached j) u a = handle-Stays j _ s attach-Blocked a
  step-Stays s (detached j) u a = handle-Stays j _ s (λ h p. unfold detach in p) a
  step-Stays s other_arrives u a = arrive-Stays s _ a
  step-Stays s other_leaves u a = elim (Bool-cases (ltb 0 s.others)) [
    | inl c ↦ rw c (record { blocked = a.blocked; listed = a.listed })
    | inr c ↦ rw c a
  ]

  head-unread :
      (e : Event) (es : List Event)
      → is_unread id (e ∷ es) ≡ true
      → (is_unread id (e ∷ []) ≡ true) × (is_unread id es ≡ true)
  head-unread (streamed j) es u = ground (arith, u)
  head-unread (spawned j pid tty) es u = (refl, u)
  head-unread (read j stream bytes) es u = (refl, u)
  head-unread (reaped j c) es u = (refl, u)
  head-unread (exit_sent j) es u = (refl, u)
  head-unread (retention_ended j) es u = (refl, u)
  head-unread (attached j) es u = (refl, u)
  head-unread (detached j) es u = (refl, u)
  head-unread other_arrives es u = (refl, u)
  head-unread other_leaves es u = (refl, u)

  run-Stays :
      (s : Server W) (es : List Event) → is_unread id es ≡ true → Stays s → Stays (run ctrl s es)
  unfolding run
  run-Stays s [] u a = a
  run-Stays s (e ∷ es) u a =
      let us = head-unread e es u in run-Stays (step ctrl s e) es us.1 (step-Stays s e us.0 a)

full-room : (h : Handle) → length h.out ≡ 256 → has_room h ≡ false
unfolding has_room
full-room h e = rw e refl

-- Where a process in the table has exited while outCh held 256 events, and as long as no stream
-- request takes one: it is in the table for ever, and its doneCh is never closed.
pub run-blocked :
    {W : Type 0} (ctrl : Controller W) (id : Text) (s : Server W) (h : Handle) (es : List Event)
    → mem id s.procs ≡ true
    → lookup id s.handles ≡ some h
    → is_sending h.waiter ≡ true
    → length h.out ≡ 256
    → h.done ≡ false
    → is_unread id es ≡ true
    → (mem id (run ctrl s es).procs ≡ true)
      × ((g : Handle) × (lookup id (run ctrl s es).handles ≡ some g) × (g.done ≡ false))
run-blocked ctrl id s h es listed found sends full open_yet unread =
    let b = run-Stays ctrl id s es unread (record {
      blocked = record { value = h; found = found; has = (sends, full-room h full, open_yet) };
      listed = listed;
    }) in
    (b.listed, (b.blocked.value, b.blocked.found, b.blocked.has.2))
