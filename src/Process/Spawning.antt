-- ===== src/Process/Spawning.antt =====
-- ProcessSpawn of cmd/api/api/process.go: the checks, the start, and the entry in the table.
use popcorn_images.Base.{
  ℕ, ℤ, pos, pos_part, ◌≡◌, refl, Option, none, some, List, [], ◌∷◌, ◌++◌, Bool, true, false, ◌&&◌,
  ◌||◌, Text, Error, codes, has_prefix, mem, text_eq_refl, lookup, ltb_ℤ, if◌then◌else◌, arith, ◌⊎◌,
  inl, inr, Bool-cases,
}
use popcorn_images.ScaleToZero.{Controller}
use popcorn_images.Process.{is_exited}
use popcorn_images.Process.Command.{
  ExecRequest, System, Cmd, Built, built, refused, build_cmd, is_true,
}
use popcorn_images.Process.Table.{Server, spawned, step, spawn, register}
use popcorn_images.Process.Requests.{process_status, status_200, status_of, find}

pub record SpawnRequest : Type 0 where
  pub exec : ExecRequest
  pub allocate_tty : Option Bool
  pub rows : Option ℤ
  pub cols : Option ℤ

-- What the pipes, the terminal and the start of the command answer; the pid, and the new id.
pub record Outside : Type 0 where
  pub stdout_pipe : Option Error
  pub stderr_pipe : Option Error
  pub stdin_pipe : Option Error
  pub start : Cmd → Option Error
  pub new_pid : ℕ
  pub new_id : Text

pub data SpawnResponse : Type 0 where
  spawned_200 : Text → ℕ → SpawnResponse
  bad_request_400 internal_error_500 : Text → SpawnResponse

too_large : Option ℤ → Bool
too_large none = false
too_large (some n) = ltb_ℤ (pos 65535) n

has_term : List Text → Bool
has_term [] = false
has_term (kv ∷ kvs) = has_prefix kv (codes "TERM=") || has_term kvs

-- The environment of a command on a terminal.
with_term : Cmd → Cmd
unfolding has_term
with_term c =
    if has_term c.env then c else record c { env = c.env ++ codes "TERM=xterm-256color" ∷ [] }

dimension : Option ℤ → ℕ
dimension none = 0
dimension (some n) = pos_part n

-- The first size of the terminal, if the request has one
unfoldable pub initial_size : SpawnRequest → Option (ℕ × ℕ)
unfolding dimension
initial_size body =
    if ltb_ℤ (pos 0) (pos (dimension body.rows)) && ltb_ℤ (pos 0) (pos (dimension body.cols))
    then some (dimension body.rows, dimension body.cols)
    else none

-- A step that fails is answered with its message; otherwise it goes on.
unless_failed : Option Error → Text → Option SpawnResponse → Option SpawnResponse
unless_failed none message more = more
unless_failed (some e) message more = some (internal_error_500 message)

-- The start with pipes, and on a terminal; the answer is that of a failure.
start_piped : Outside → Cmd → Option SpawnResponse
unfolding unless_failed
start_piped out c = unless_failed out.stdout_pipe (codes "failed to open stdout") (
    unless_failed out.stderr_pipe (codes "failed to open stderr") (
      unless_failed out.stdin_pipe (codes "failed to open stdin")
        (unless_failed (out.start c) (codes "failed to start process") none)))

start_tty : Outside → SpawnRequest → Cmd → Option SpawnResponse
unfolding too_large with_term unless_failed
start_tty out body c =
    if too_large body.rows
    then some (bad_request_400 (codes "rows must be <= 65535"))
    else if too_large body.cols
    then some (bad_request_400 (codes "cols must be <= 65535"))
    else unless_failed (out.start (with_term c)) (codes "failed to start process") none

module _ {W : Type 0} (ctrl : Controller W) (os : System) (out : Outside) where
  enter : Bool → Option SpawnResponse → Server W → SpawnResponse × Server W
  enter tty (some failure) s = (failure, s)
  enter tty none s =
      (spawned_200 out.new_id out.new_pid, step ctrl s (spawned out.new_id out.new_pid tty))

  start_built : SpawnRequest → Built Cmd → Server W → SpawnResponse × Server W
  unfolding enter start_piped start_tty
  start_built body (refused e) s = (bad_request_400 e, s)
  start_built body (built c) s =
      if is_true body.allocate_tty
      then enter true (start_tty out body c) s
      else enter false (start_piped out c) s

  -- ProcessSpawn
  unfoldable pub process_spawn : Option SpawnRequest → Server W → SpawnResponse × Server W
  unfolding start_built
  process_spawn none s = (bad_request_400 (codes "request body required"), s)
  process_spawn (some body) s = start_built body (build_cmd os (some body.exec)) s

abbrev pub is_failure : SpawnResponse → Bool
is_failure (spawned_200 id pid) = false
is_failure (bad_request_400 e) = true
is_failure (internal_error_500 e) = true

module _ {W : Type 0} (ctrl : Controller W) (os : System) (out : Outside) where
  -- A refused or failed spawn changes nothing; another one puts a process that runs in the table.
  abbrev pub Outcome : (ℕ → Option Text) → SpawnResponse × Server W → Server W → Type 0
  Outcome proc r s =
      ((is_failure r.0 ≡ true) × (r.1 ≡ s))
      ⊎ ((r.0 ≡ spawned_200 out.new_id out.new_pid)
          × ((m : Option ℤ) × (process_status proc out.new_id r.1 ≡ status_200 false none m)))

  spawned-status :
      (tty : Bool) (s : Server W) (proc : ℕ → Option Text)
      → lookup out.new_id s.handles ≡ none
      → (m : Option ℤ) × (process_status proc out.new_id
            (step ctrl s (spawned out.new_id out.new_pid tty))
          ≡ status_200 false none m)
  unfolding process_status find status_of step spawn register mem lookup is_exited
  spawned-status tty s proc fresh = rw (fresh, text_eq_refl out.new_id) (_, refl)

  enter-Outcome :
      (proc : ℕ → Option Text) (tty : Bool) (f : Option SpawnResponse) (s : Server W)
      → lookup out.new_id s.handles ≡ none
      → ((r : SpawnResponse) → f ≡ some r → is_failure r ≡ true)
      → Outcome proc (enter ctrl os out tty f s) s
  unfolding enter
  enter-Outcome proc tty (some r) s fresh fails = inl (fails r refl, refl)
  enter-Outcome proc tty none s fresh fails = inr (refl, spawned-status tty s proc fresh)

  piped-fails : (c : Cmd) (r : SpawnResponse) → start_piped out c ≡ some r → is_failure r ≡ true
  unfolding start_piped unless_failed
  piped-fails c r e = ground (arith, e)

  tty-fails :
      (body : SpawnRequest) (c : Cmd) (r : SpawnResponse)
      → start_tty out body c ≡ some r
      → is_failure r ≡ true
  unfolding start_tty unless_failed
  tty-fails body c r e = ground (arith, e)

  built-Outcome :
      (proc : ℕ → Option Text) (body : SpawnRequest) (b : Built Cmd) (s : Server W)
      → lookup out.new_id s.handles ≡ none
      → Outcome proc (start_built ctrl os out body b s) s
  unfolding start_built
  built-Outcome proc body (refused e) s fresh = inl (refl, refl)
  built-Outcome proc body (built c) s fresh = elim (Bool-cases (is_true body.allocate_tty)) [
    | inl t ↦ rw t (enter-Outcome proc true (start_tty out body c) s fresh (tty-fails body c))
    | inr t ↦ rw t (enter-Outcome proc false (start_piped out c) s fresh (piped-fails c))
  ]

  -- A spawn, whose new id is not yet used, either fails with 400 or 500 and changes nothing, or is
  -- answered with the new id and pid, and then a status request finds the process running and
  -- without an exit code.
  pub process_spawn-Outcome :
      (proc : ℕ → Option Text) (body : Option SpawnRequest) (s : Server W)
      → lookup out.new_id s.handles ≡ none
      → Outcome proc (process_spawn ctrl os out body s) s
  unfolding process_spawn
  process_spawn-Outcome proc none s fresh = inl (refl, refl)
  process_spawn-Outcome proc (some body) s fresh =
      built-Outcome proc body (build_cmd os (some body.exec)) s fresh
