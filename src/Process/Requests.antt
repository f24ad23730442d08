-- ===== src/Process/Requests.antt =====
-- The requests of cmd/api/api/process.go on a spawned process: status, kill, stdin, resize, and
-- the guards of an attach. What /proc, signals, pipes and terminals answer, and the base64
-- decoding, are arguments.
use popcorn_images.Base.{
  ℕ, ℤ, pos, Option, none, some, List, [], ◌∷◌, Bool, not, ◌&&◌, ◌||◌, ◌%◌, ◌^◌, pos_part, Text,
  Error, codes, text_eq, mem, lookup, has_prefix, fields, split, atoi, scale, ltb, ltb_ℤ, leb_ℤ,
  if◌then◌else◌,
}
use popcorn_images.Process.{Handle, is_exited}
use popcorn_images.Process.Table.{Server}

-- s.procs[id]
unfoldable pub find : {W : Type 0} → Text → Server W → Option Handle
find id s = if mem id s.procs then lookup id s.handles else none

-- Whether the process has exited, its exit code, and its memory
pub data StatusResponse : Type 0 where
  status_200 : Bool → Option ℤ → Option ℤ → StatusResponse
  status_not_found_404 : StatusResponse

kilobytes : Option ℤ → ℤ
kilobytes none = pos 0
kilobytes (some v) = scale 1024 v

second_field : List Text → ℤ
unfolding kilobytes
second_field [] = pos 0
second_field (name ∷ []) = pos 0
second_field (name ∷ value ∷ more) = kilobytes (atoi value)

-- The loop over the lines of /proc/<pid>/status, up to the first VmRSS
resident : List Text → ℤ
unfolding second_field
resident [] = pos 0
resident (line ∷ lines) =
    let rest = resident lines in
    if has_prefix line (codes "VmRSS:") then second_field (fields line) else rest

memory : Option Text → Option ℤ
unfolding resident
memory none = none
memory (some text) =
    let bytes = resident (split text 10) in if ltb_ℤ (pos 0) bytes then some bytes else none

-- ProcessStatus
unfoldable pub status_of : (ℕ → Option Text) → Option Handle → StatusResponse
unfolding memory
status_of proc none = status_not_found_404
status_of proc (some h) =
    status_200 (is_exited h) h.exit_code
      (if not (is_exited h) && ltb 0 h.pid then memory (proc h.pid) else none)

unfoldable pub process_status : {W : Type 0} → (ℕ → Option Text) → Text → Server W → StatusResponse
unfolding status_of
process_status proc id s = status_of proc (find id s)

pub data Answer : Type 0 where
  ok_200 : Answer
  written_200 : ℕ → Answer
  bad_request_400 : Text → Answer
  not_found_404 internal_error_500 : Text → Answer

pub data Signal : Type 0 where
  sigterm sigkill sigint sighup : Signal

signal_of : Text → Option Signal
signal_of name =
    if text_eq name (codes "TERM")
    then some sigterm
    else if text_eq name (codes "KILL")
    then some sigkill
    else if text_eq name (codes "INT")
    then some sigint
    else if text_eq name (codes "HUP")
    then some sighup
    else none

abbrev process_not_found : Answer
process_not_found = not_found_404 (codes "process not found")

abbrev no_body : Answer
no_body = bad_request_400 (codes "request body required")

signalled : Option Error → Answer
signalled none = ok_200
signalled (some e) = internal_error_500 (codes "failed to signal process")

send_signal : (ℕ → Signal → Option Error) → ℕ → Option Signal → Answer
unfolding signalled
send_signal signal pid none = bad_request_400 (codes "invalid signal")
send_signal signal pid (some sig) = signalled (signal pid sig)

kill_found : (ℕ → Signal → Option Error) → Option Text → Option Handle → Answer
unfolding send_signal signal_of
kill_found signal body none = process_not_found
kill_found signal none (some h) = no_body
kill_found signal (some name) (some h) = send_signal signal h.pid (signal_of name)

-- ProcessKill; the process of a started command is never nil
unfoldable pub process_kill :
    {W : Type 0} → (ℕ → Signal → Option Error) → Text → Option Text → Server W → Answer
unfolding kill_found
process_kill signal id body s = kill_found signal body (find id s)

written : Option ℕ → Answer
written none = internal_error_500 (codes "failed to write to stdin")
written (some n) = written_200 n

write_decoded : (ℕ → Text → Option ℕ) → ℕ → Option Text → Answer
unfolding written
write_decoded write pid none = bad_request_400 (codes "invalid base64")
write_decoded write pid (some bytes) = written (write pid bytes)

stdin_found : (Text → Option Text) → (ℕ → Text → Option ℕ) → Option Text → Option Handle → Answer
unfolding write_decoded
stdin_found decode write body none = process_not_found
stdin_found decode write none (some h) = no_body
stdin_found decode write (some b64) (some h) = write_decoded write h.pid (decode b64)

-- ProcessStdin
unfoldable pub process_stdin :
    {W : Type 0}
    → (Text → Option Text)
    → (ℕ → Text → Option ℕ)
    → Text
    → Option Text
    → Server W
    → Answer
unfolding stdin_found
process_stdin decode write id body s = stdin_found decode write body (find id s)

resized : Option Error → Answer
resized none = ok_200
resized (some e) = internal_error_500 (codes "failed to resize PTY")

resize_found : (ℕ → ℕ → ℕ → Option Error) → ℕ → ℕ → Option Handle → Answer
unfolding resized
resize_found setsize rows cols none = process_not_found
resize_found setsize rows cols (some h) =
    if h.is_tty
    then resized (setsize h.pid (rows % 2 ^ 16) (cols % 2 ^ 16))
    else bad_request_400 (codes "process is not PTY-backed")

-- ProcessResize, with the rows and the columns of its body
unfoldable pub process_resize :
    {W : Type 0} → (ℕ → ℕ → ℕ → Option Error) → Text → Option (ℤ × ℤ) → Server W → Answer
unfolding resize_found
process_resize setsize id none s = no_body
process_resize setsize id (some (rows, cols)) s =
    if leb_ℤ rows (pos 0) || leb_ℤ cols (pos 0)
    then bad_request_400 (codes "rows and cols must be > 0")
    else if ltb_ℤ (pos 65535) rows || ltb_ℤ (pos 65535) cols
    then bad_request_400 (codes "rows and cols must be <= 65535")
    else resize_found setsize (pos_part rows) (pos_part cols) (find id s)

-- The guards of HandleProcessAttachWS
pub data AttachAnswer : Type 0 where
  attach_not_found_404 not_a_terminal_400 attached_409 admitted : AttachAnswer

admit : Option Handle → AttachAnswer
admit none = attach_not_found_404
admit (some h) =
    if h.is_tty then (if h.attach_active then attached_409 else admitted) else not_a_terminal_400

unfoldable pub attach_answer : {W : Type 0} → Text → Server W → AttachAnswer
unfolding admit
attach_answer id s = admit (find id s)
