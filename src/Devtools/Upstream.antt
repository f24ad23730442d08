-- ===== src/Devtools/Upstream.antt =====
-- UpstreamManager of lib/devtoolsproxy/proxy.go: the current URL and the channels of the
-- subscribers. One goroutine, the tail of the log, calls setCurrent; a receive that falls between
-- its sends leaves the same state as one before or behind them, so setCurrent is one step.
use popcorn_images.Base.{
  ℕ, ◌+◌, Option, none, some, List, [], ◌∷◌, ◌++◌, Bool, true, false, not, ◌&&◌, ◌==◌, Text,
  text_eq, is_empty, if◌then◌else◌,
}

-- A subscriber's channel of size 1; it is among the manager's subs as long as it is open. What its
-- subscriber knows last is kept beside it: what it has received, before that the URL at the time
-- it subscribed.
pub record Channel : Type 0 where
  pub id : ℕ
  pub buffer : Option Text
  pub is_open : Bool
  pub known : Text

pub record UpstreamManager : Type 0 where
  pub current_url : Text
  pub next_id : ℕ
  pub subs : List Channel

-- NewUpstreamManager
abbrev pub new_upstream_manager : UpstreamManager
new_upstream_manager = record { current_url = []; next_id = 0; subs = [] }

-- A send that does not block: whether it is done, and the channel after it.
unfoldable pub try_send : Text → Channel → Bool × Channel
try_send url ch = elim ch.buffer [
  | none ↦ (true, record ch { buffer = some url })
  | some stale ↦ (false, ch)
]

unfoldable pub drain : Channel → Channel
drain ch = record ch { buffer = none }

unfoldable pub retry_send : Text → Bool × Channel → Channel
retry_send url (true, ch) = ch
retry_send url (false, ch) = (try_send url (drain ch)).1

-- The body of the loop of setCurrent, on the channels that are in subs.
unfoldable pub broadcast : Text → Channel → Channel
unfolding retry_send try_send drain
broadcast url ch = if ch.is_open then retry_send url (try_send url ch) else ch

unfoldable pub broadcast_all : Text → List Channel → List Channel
broadcast_all url [] = []
broadcast_all url (ch ∷ chs) = broadcast url ch ∷ broadcast_all url chs

-- setCurrent
unfoldable pub set_current : Text → UpstreamManager → UpstreamManager
set_current url u =
    if not (is_empty url) && not (text_eq url u.current_url)
    then record u { current_url = url; subs = broadcast_all url u.subs }
    else u

-- Subscribe
unfoldable pub subscribe : UpstreamManager → UpstreamManager
subscribe u =
    let ch : Channel = record {
      id = u.next_id;
      buffer = none;
      is_open = true;
      known = u.current_url;
    } in
    record u { next_id = u.next_id + 1; subs = u.subs ++ ch ∷ [] }

unfoldable pub close : ℕ → Channel → Channel
close n ch = if ch.id == n then record ch { is_open = false } else ch

unfoldable pub close_all : ℕ → List Channel → List Channel
close_all n [] = []
close_all n (ch ∷ chs) = close n ch ∷ close_all n chs

-- The cancel function that Subscribe returns.
unfoldable pub cancel : ℕ → UpstreamManager → UpstreamManager
unfolding close_all close
cancel n u = record u { subs = close_all n u.subs }

unfoldable pub taken : Channel → Channel
taken ch = elim ch.buffer [ none ↦ ch | some url ↦ record ch { buffer = none; known = url } ]

unfoldable pub receive_from : ℕ → List Channel → List Channel
receive_from n [] = []
receive_from n (ch ∷ chs) =
    let rest = receive_from n chs in if ch.id == n then taken ch ∷ rest else ch ∷ rest

-- A subscriber receives from its channel, if there is something.
unfoldable pub receive : ℕ → UpstreamManager → UpstreamManager
unfolding receive_from taken
receive n u = record u { subs = receive_from n u.subs }

pub data Event : Type 0 where
  found : Text → Event
  subscribed : Event
  cancelled received : ℕ → Event

unfoldable pub step : Event → UpstreamManager → UpstreamManager
step (found url) = set_current url
step subscribed = subscribe
step (cancelled n) = cancel n
step (received n) = receive n

unfoldable pub run : List Event → UpstreamManager → UpstreamManager
run [] u = u
run (e ∷ es) u = run es (step e u)
