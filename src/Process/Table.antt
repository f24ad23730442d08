-- ===== src/Process/Table.antt =====
-- The table of processes of cmd/api/api/process.go with its goroutines, over the debounced
-- controller of scale-to-zero: each goroutine moves in steps, and a list of events is an
-- interleaving. Other holders of the controller are counted too.
use popcorn_images.Base.{
  adjust, ℕ, ℤ, ◌+◌, ◌-◌, Option, none, some, List, [], ◌∷◌, ◌++◌, Bool, true, false, not, ◌&&◌,
  Text, Error, text_eq, Assoc, lookup, ltb, length, if◌then◌else◌,
}
use popcorn_images.ScaleToZero.{Controller, Debounce, disable, enable}
use popcorn_images.Process.{
  StreamEvent, chunk, exit_event, Waiter, waiting, sending, retaining, gone, Handle, set_exited,
}

pub record Server (W : Type 0) : Type 0 where
  -- the ids that s.procs has
  pub procs : List Text
  pub handles : Assoc Handle
  pub stz : Debounce W
  -- the other holders of the controller
  pub others : ℕ

pub data Event : Type 0 where
  -- a spawn whose process has started: id, pid and whether it has a terminal
  spawned : Text → ℕ → Bool → Event
  -- a reader goroutine has read a chunk
  read : Text → Bool → Text → Event
  -- cmd.Wait returns
  reaped : Text → ℤ → Event
  exit_sent retention_ended : Text → Event
  -- a stream request takes an event
  streamed : Text → Event
  attached detached : Text → Event
  other_arrives other_leaves : Event

abbrev pub is_waiting : Waiter → Bool
is_waiting waiting = true
is_waiting w = false

abbrev pub is_sending : Waiter → Bool
is_sending sending = true
is_sending w = false

abbrev pub is_retaining : Waiter → Bool
is_retaining retaining = true
is_retaining w = false

unfoldable pub without : Text → List Text → List Text
without id [] = []
without id (j ∷ ids) = let rest = without id ids in if text_eq j id then rest else j ∷ rest

-- The capacity of outCh is 256.
unfoldable pub has_room : Handle → Bool
has_room h = ltb (length h.out) 256

unfoldable pub put : StreamEvent → Handle → Handle
put e h = record h { out = h.out ++ e ∷ [] }

-- A reader goroutine; there is none for a terminal, and it blocks on a full channel.
unfoldable pub read_chunk : Bool → Text → Handle → Handle
unfolding put
read_chunk stream bytes h = if not h.is_tty && has_room h then put (chunk stream bytes) h else h

abbrev pub first_out : List StreamEvent → List StreamEvent
first_out [] = []
first_out (e ∷ es) = es

unfoldable pub take_event : Handle → Handle
take_event h = record h { out = first_out h.out }

abbrev pub code_of : Option ℤ → ℤ
code_of none = ℤ.pos 0
code_of (some c) = c

-- The send of the exit event, which blocks on a full channel, and close(h.doneCh)
unfoldable pub send_exit : Handle → Handle
unfolding put
send_exit h =
    if is_sending h.waiter && has_room h
    then record (put (exit_event (code_of h.exit_code)) h) { done = true; waiter = retaining }
    else h

-- An attach behind the guards of the request, and its end
unfoldable pub attach : Handle → Handle
attach h = if h.is_tty && not h.attach_active then record h { attach_active = true } else h

unfoldable pub detach : Handle → Handle
detach h = record h { attach_active = false }

abbrev pub started : ℕ → Bool → Bool → Handle
started pid tty stz_disabled = record {
  pid = pid;
  exit_code = none;
  is_tty = tty;
  out = [];
  done = false;
  attach_active = false;
  stz_disabled = stz_disabled;
  waiter = waiting;
}

abbrev pub is_nil : Option Error → Bool
is_nil none = true
is_nil (some e) = false

module _ {W : Type 0} (ctrl : Controller W) where
  -- ProcessSpawn behind the start of the process
  unfoldable pub register : Text → ℕ → Bool → Server W → Option Error × Debounce W → Server W
  register id pid tty s (e, c) = record s {
    stz = c;
    handles = (id, started pid tty (is_nil e)) ∷ s.handles;
    procs = id ∷ s.procs;
  }

  -- The ids of uuid.New do not repeat.
  unfoldable pub spawn : Text → ℕ → Bool → Server W → Option Handle → Server W
  unfolding register
  spawn id pid tty s (some h) = s
  spawn id pid tty s none = register id pid tty s (disable ctrl s.stz)

  -- The goroutine behind cmd.Wait: setExited, and Enable if Disable had succeeded
  unfoldable pub reap : Text → ℤ → Server W → Option Handle → Server W
  reap id code s none = s
  reap id code s (some h) =
      if is_waiting h.waiter
      then record s {
        handles = adjust id (λ g. record (set_exited code g) { waiter = sending }) s.handles;
        stz = if h.stz_disabled then (enable ctrl s.stz).1 else s.stz;
      }
      else s

  -- The delete behind the retention of ten seconds
  unfoldable pub forget : Text → Server W → Option Handle → Server W
  forget id s none = s
  forget id s (some h) =
      if is_retaining h.waiter
      then record s {
        procs = without id s.procs;
        handles = adjust id (λ g. record g { waiter = gone }) s.handles;
      }
      else s

  unfoldable pub arrive : Server W → Option Error × Debounce W → Server W
  arrive s (none, c) = record s { stz = c; others = s.others + 1 }
  arrive s (some e, c) = record s { stz = c }

  unfoldable pub step : Server W → Event → Server W
  unfolding spawn reap forget arrive
  step s (spawned id pid tty) = spawn id pid tty s (lookup id s.handles)
  step s (read id stream bytes) = record s {
    handles = adjust id (read_chunk stream bytes) s.handles;
  }
  step s (reaped id code) = reap id code s (lookup id s.handles)
  step s (exit_sent id) = record s { handles = adjust id send_exit s.handles }
  step s (retention_ended id) = forget id s (lookup id s.handles)
  step s (streamed id) = record s { handles = adjust id take_event s.handles }
  step s (attached id) = record s { handles = adjust id attach s.handles }
  step s (detached id) = record s { handles = adjust id detach s.handles }
  step s other_arrives = arrive s (disable ctrl s.stz)
  step s other_leaves =
      if ltb 0 s.others then record s { stz = (enable ctrl s.stz).1; others = s.others - 1 } else s

  unfoldable pub run : Server W → List Event → Server W
  run s [] = s
  run s (e ∷ es) = run (step s e) es
