-- ===== src/Process.antt =====
-- cmd/api/api/process.go: the processes that a client spawns. A handle is shared by the table, the
-- goroutines of its process and the requests, so the handles stand in a store by their id, and the
-- table has the ids that s.procs lists.
pub mod Command
pub mod Credentials
pub mod Table
pub mod Balance
pub mod Requests
pub mod Spawning
pub mod Exits
pub mod Blocking
mod Examples
use popcorn_images.Base.{ℕ, ℤ, Option, none, some, List, Bool, true, false, Text, is_some}

-- oapi.ProcessStreamEvent: a chunk of stdout or stderr, or the exit
pub data StreamEvent : Type 0 where
  chunk : Bool → Text → StreamEvent
  exit_event : ℤ → StreamEvent

-- Where the goroutine of a process stands that waits for it: in cmd.Wait, at the send of the exit
-- event, in the retention, or behind the delete.
pub data Waiter : Type 0 where
  waiting sending retaining gone : Waiter

-- processHandle, with the state of its goroutine
pub record Handle : Type 0 where
  pub pid : ℕ
  pub exit_code : Option ℤ
  pub is_tty : Bool
  -- outCh
  pub out : List StreamEvent
  -- doneCh is closed
  pub done : Bool
  pub attach_active : Bool
  pub stz_disabled : Bool
  pub waiter : Waiter

-- h.state
unfoldable pub is_exited : Handle → Bool
is_exited h = is_some h.exit_code

keep_first : ℤ → Option ℤ → Option ℤ
keep_first code none = some code
keep_first code (some c) = some c

-- h.setExited
unfoldable pub set_exited : ℤ → Handle → Handle
unfolding keep_first
set_exited code h = record h { exit_code = keep_first code h.exit_code }
