-- ===== src/Watches.antt =====
-- The directory watches of cmd/api/api/fs.go: s.watches, the goroutine of each watch that forwards
-- the events of fsnotify, and the streams that take them. Each goroutine moves in steps, and a
-- list of events is an interleaving.
pub mod Soundness
pub mod Lifecycle
pub mod Unlisted
pub mod Requests
pub mod Stopping
mod Examples
use popcorn_images.Base.{
  ℕ, ◌+◌, Option, none, some, is_some, List, [], ◌∷◌, ◌++◌, Bool, true, false, ◌&&◌, ◌||◌, Text,
  text_eq, base, Error, Assoc, lookup, adjust, ltb, length, if◌then◌else◌,
}

pub data EventType : Type 0 where
  create write delete rename : EventType

pub record FileSystemEvent : Type 0 where
  pub kind : EventType
  pub path : Text
  pub name : Text
  pub is_dir : Bool

-- The bits of fsnotify.Op that the code tests
pub record Op : Type 0 where
  pub created : Bool
  pub written : Bool
  pub removed : Bool
  pub renamed : Bool

-- A path of filepath.WalkDir: a directory or not, or an error
pub record Visit : Type 0 where
  pub path : Text
  pub is_dir : Bool
  pub err : Option Error

-- The goroutine of a watch: in its loop, or in front of a step of its deferred function
pub data Forwarder : Type 0 where
  forwarding closing forgetting draining finished : Forwarder

pub record Watch : Type 0 where
  pub path : Text
  pub recursive : Bool
  -- what the fsnotify watcher watches
  pub dirs : List Text
  -- closeOnce has run, and how often the watcher was closed
  pub close_once : Bool
  pub closes : ℕ
  -- the channel of events, and how often it was closed
  pub events : List FileSystemEvent
  pub events_closed : ℕ
  -- a send on the closed channel
  pub panicked : Bool
  pub forwarder : Forwarder
  -- s.watches has the watch
  pub listed : Bool
  -- the events that the goroutine has offered to the channel, and those that streams have taken
  pub offered : List FileSystemEvent
  pub taken : List FileSystemEvent

pub data Event : Type 0 where
  -- StartFsWatch behind its checks: id, path, recursive and what the watcher watches
  started : Text → Text → Bool → List Text → Event
  -- fsnotify reports an operation on a path, which is a directory or not, with a walk from it
  notified : Text → Op → Text → Bool → List Visit → Event
  -- the goroutine finds the channels of fsnotify closed, which the Close of the watcher does
  ended : Text → Event
  -- fsnotify has closed its channels by itself, as after an error of the file system
  broken : Text → Event
  -- the next step of the deferred function
  deferred : Text → Event
  -- StopFsWatch
  stopped : Text → Event
  -- a stream takes an event from the channel
  streamed : Text → Event

-- Close of fsWatch
unfoldable pub close : Watch → Watch
close w = if w.close_once then w else record w { close_once = true; closes = w.closes + 1 }

-- addRecursive, with what the watcher answers to Add: the directories up to the first error
unfoldable pub add_recursive : (Text → Option Error) → List Visit → Option Error × List Text
add_recursive add [] = (none, [])
add_recursive add (v ∷ vs) =
    let (err, dirs) = add_recursive add vs in
    if is_some v.err
    then (v.err, [])
    else if v.is_dir
    then (if is_some (add v.path) then (add v.path, []) else (err, v.path ∷ dirs))
    else (err, dirs)

unfoldable pub event_type : Op → Option EventType
event_type op =
    if op.created
    then some create
    else if op.written
    then some write
    else if op.removed
    then some delete
    else if op.renamed
    then some rename
    else none

-- The send that does not block: the channel holds 100 events.
unfoldable pub offer : FileSystemEvent → Watch → Watch
offer e w = record w {
  offered = w.offered ++ e ∷ [];
  panicked = w.panicked || ltb 0 w.events_closed;
  events = if ltb (length w.events) 100 then w.events ++ e ∷ [] else w.events;
}

abbrev pub is_create : EventType → Bool
is_create create = true
is_create kind = false

-- A new directory of a recursive watch
unfoldable pub follow : (Text → Option Error) → FileSystemEvent → List Visit → Watch → Watch
unfolding add_recursive
follow add e visits w =
    if w.recursive && (is_create e.kind && e.is_dir)
    then record w { dirs = w.dirs ++ (add_recursive add visits).1 }
    else w

unfoldable pub forward :
    (Text → Option Error) → Option EventType → Text → Bool → List Visit → Watch → Watch
unfolding offer follow
forward add none path is_dir visits w = w
forward add (some kind) path is_dir visits w =
    let e : FileSystemEvent = record {
      kind = kind;
      path = path;
      name = base path;
      is_dir = is_dir;
    } in
    follow add e visits (offer e w)

abbrev pub is_forwarding : Forwarder → Bool
is_forwarding forwarding = true
is_forwarding f = false

unfoldable pub notify : (Text → Option Error) → Op → Text → Bool → List Visit → Watch → Watch
unfolding forward event_type
notify add op path is_dir visits w =
    if is_forwarding w.forwarder then forward add (event_type op) path is_dir visits w else w

-- A receive that is not ok: the goroutine returns from its loop.
unfoldable pub leave : Watch → Watch
leave w = if is_forwarding w.forwarder then record w { forwarder = closing } else w

-- fsnotify documents that the Close of a watcher closes its channels.
unfoldable pub end : Watch → Watch
unfolding leave
end w = if ltb 0 w.closes then leave w else w

-- The deferred function: Close, the delete, the close of the channel
unfoldable pub defer : Forwarder → Watch → Watch
unfolding close
defer forwarding w = w
defer closing w = record (close w) { forwarder = forgetting }
defer forgetting w = record w { forwarder = draining; listed = false }
defer draining w = record w {
  forwarder = finished;
  panicked = w.panicked || ltb 0 w.events_closed;
  events_closed = w.events_closed + 1;
}
defer finished w = w

-- StopFsWatch of an id that s.watches may have
unfoldable pub stop : Watch → Watch
unfolding close
stop w = if w.listed then close (record w { listed = false }) else w

unfoldable pub take_first : List FileSystemEvent → Watch → Watch
take_first [] w = w
take_first (e ∷ es) w = record w { events = es; taken = w.taken ++ e ∷ [] }

abbrev pub Watches : Type 0
Watches = Assoc Watch

abbrev pub new_watch : Text → Bool → List Text → Watch
new_watch path recursive dirs = record {
  path = path;
  recursive = recursive;
  dirs = dirs;
  close_once = false;
  closes = 0;
  events = [];
  events_closed = 0;
  panicked = false;
  forwarder = forwarding;
  listed = true;
  offered = [];
  taken = [];
}

-- The ids of cuid2 do not repeat.
unfoldable pub register : Text → Watch → Option Watch → Watches → Watches
register id w none ws = (id, w) ∷ ws
register id w (some v) ws = ws

module _ (add : Text → Option Error) where
  unfoldable pub step : Watches → Event → Watches
  unfolding register adjust notify end leave defer stop take_first
  step ws (started id path recursive dirs) =
      register id (new_watch path recursive dirs) (lookup id ws) ws
  step ws (notified id op path is_dir visits) = adjust id (notify add op path is_dir visits) ws
  step ws (ended id) = adjust id end ws
  step ws (broken id) = adjust id leave ws
  step ws (deferred id) = adjust id (λ w. defer w.forwarder w) ws
  step ws (stopped id) = adjust id stop ws
  step ws (streamed id) = adjust id (λ w. take_first w.events w) ws

  unfoldable pub run : Watches → List Event → Watches
  unfolding step
  run ws [] = ws
  run ws (e ∷ es) = run (step ws e) es
