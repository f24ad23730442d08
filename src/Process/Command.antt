-- ===== src/Process/Command.antt =====
-- buildCmd and the checks of ProcessSpawn in cmd/api/api/process.go. The working directory, the
-- environment and the user database are answers of the operating system.
use popcorn_images.Base.{
  ℕ, ℤ, pos, Option, none, some, is_some, List, [], ◌∷◌, ◌++◌, Bool, false, not, ◌&&◌, ◌==◌, Text,
  codes, is_empty, Assoc, insert, join_path, atoi, digits_of, leb, if◌then◌else◌, Error,
}

pub record ExecRequest : Type 0 where
  pub command : Text
  pub args : List Text
  pub cwd : Option Text
  pub environment : Assoc Text
  pub as_user : Option Text
  pub as_root : Option Bool

-- The uid and the gid of an entry of the user database, as it spells them.
pub record User : Type 0 where
  pub uid : Text
  pub gid : Text

pub record System : Type 0 where
  pub getwd : Text
  pub environ : List Text
  pub lookup_id : Text → Option User
  pub lookup_name : Text → Option User

-- exec.Cmd
pub record Cmd : Type 0 where
  pub path : Text
  pub argv : List Text
  pub dir : Text
  pub env : List Text
  pub credential : Option (ℕ × ℕ)

pub data Built (A : Type 0) : Type 0 where
  built : A → Built A
  refused : Text → Built A

-- strconv.ParseUint(s, 10, 32)
fits : Option ℕ → Option ℕ
fits none = none
fits (some n) = if leb n 4294967295 then some n else none

unfoldable pub parse_uint : Text → Option ℕ
unfolding fits
parse_uint s = fits (digits_of s)

unfoldable pub put_front : ℕ → Option (Text × Text) → Option (Text × Text)
put_front c none = none
put_front c (some (a, b)) = some (c ∷ a, b)

-- strings.IndexByte: the text in front of the first such byte, and the text behind it
unfoldable pub cut_at : ℕ → Text → Option (Text × Text)
unfolding put_front
cut_at sep [] = none
cut_at sep (c ∷ s) = if c == sep then some ([], s) else put_front c (cut_at sep s)

add_pair : Option (Text × Text) → Assoc Text → Assoc Text
add_pair none m = m
add_pair (some (k, v)) m = if is_empty k then m else insert k v m

from_environ : List Text → Assoc Text → Assoc Text
unfolding add_pair
from_environ [] m = m
from_environ (kv ∷ kvs) m = from_environ kvs (add_pair (cut_at b'=' kv) m)

insert_all : Assoc Text → Assoc Text → Assoc Text
insert_all [] m = m
insert_all ((k, v) ∷ kvs) m = insert_all kvs (insert k v m)

-- The order of a Go map is not fixed; here it is that of the insertions.
spell : Assoc Text → List Text
spell [] = []
spell ((k, v) ∷ m) = (k ++ (codes "=" ++ v)) ∷ spell m

unfoldable pub is_true : Option Bool → Bool
is_true none = false
is_true (some b) = b

unfoldable pub or_nothing : Option Text → Text
or_nothing none = []
or_nothing (some t) = t

dir_of : Text → Text → Text
dir_of wd [] = []
dir_of wd (c ∷ cwd) = if c == b'/' then c ∷ cwd else join_path wd (c ∷ cwd)

unfoldable pub spec_parts : Text → Option (Text × Text) → Text × Text
spec_parts spec none = (spec, [])
spec_parts spec (some (uid, gid)) = (uid, gid)

unfoldable pub with_gid : ℕ → Text → Option ℕ → Built (Option (ℕ × ℕ))
with_gid uid s none = refused (codes "gid override must be numeric, got " ++ s)
with_gid uid s (some g) = built (some (uid, g))

unfoldable pub overridden : ℕ → ℕ → Text → Built (Option (ℕ × ℕ))
unfolding with_gid
overridden uid gid [] = built (some (uid, gid))
overridden uid gid (c ∷ s) = with_gid uid (c ∷ s) (parse_uint (c ∷ s))

unfoldable pub numbers : Text → Option ℕ → Option ℕ → Text → Built (Option (ℕ × ℕ))
unfolding overridden
numbers spec none gid over = refused (codes "invalid uid for user " ++ spec)
numbers spec (some u) none over = refused (codes "invalid gid for user " ++ spec)
numbers spec (some u) (some g) over = overridden u g over

unfoldable pub of_user : Text → Option User → Text → Built (Option (ℕ × ℕ))
unfolding numbers
of_user spec none over = refused (codes "failed to lookup user " ++ spec)
of_user spec (some user) over = numbers spec (parse_uint user.uid) (parse_uint user.gid) over

unfoldable pub with_credential :
    Text → List Text → Text → List Text → Built (Option (ℕ × ℕ)) → Built Cmd
with_credential path argv dir env (refused e) = refused e
with_credential path argv dir env (built c) =
    built (record { path = path; argv = argv; dir = dir; env = env; credential = c })

module _ (os : System) where
  -- The entry of a user spec: by its id if it starts with a number, and else by its name
  unfoldable pub user_of : Text → Option User
  user_of uid = if is_some (atoi uid) then os.lookup_id uid else os.lookup_name uid

  unfoldable pub credential_of : Option Bool → Text → Built (Option (ℕ × ℕ))
  unfolding is_true of_user spec_parts
  credential_of as_root spec =
      if is_true as_root && not (is_empty spec)
      then refused (codes "cannot specify both as_root and as_user")
      else if is_true as_root
      then built (some (0, 0))
      else if is_empty spec
      then built none
      else let (uid, gid) = spec_parts spec (cut_at b':' spec) in of_user spec (user_of uid) gid

  -- buildCmd
  unfoldable pub build_cmd : Option ExecRequest → Built Cmd
  unfolding with_credential dir_of or_nothing spell insert_all from_environ
  build_cmd none = refused (codes "command required")
  build_cmd (some body) =
      if is_empty body.command
      then refused (codes "command required")
      else with_credential body.command body.args (dir_of os.getwd (or_nothing body.cwd))
          (spell (insert_all body.environment (from_environ os.environ [])))
          (credential_of body.as_root (or_nothing body.as_user))

pub data ExecResponse : Type 0 where
  exec_200 : ℤ → Text → Text → ExecResponse
  exec_bad_request_400 exec_error_500 : Text → ExecResponse

-- A command that is waited for: whether its start fails, whether its time is over first, and its
-- exit status and output in base64.
pub record Execution : Type 0 where
  pub start_err : Option Error
  pub timed_out : Bool
  pub status : Option ℤ
  pub stdout_b64 : Text
  pub stderr_b64 : Text

or_zero : Option ℤ → ℤ
or_zero none = pos 0
or_zero (some c) = c

waited : Execution → Option Error → ExecResponse
unfolding or_zero
waited x (some e) = exec_error_500 (codes "failed to start process")
waited x none =
    if x.timed_out
    then exec_error_500 (codes "process timed out")
    else exec_200 (or_zero x.status) x.stdout_b64 x.stderr_b64

executed : (Cmd → Execution) → Built Cmd → ExecResponse
unfolding waited
executed execute (refused e) = exec_bad_request_400 e
executed execute (built c) = waited (execute c) (execute c).start_err

-- ProcessExec
unfoldable pub process_exec : System → (Cmd → Execution) → Option ExecRequest → ExecResponse
unfolding executed
process_exec os execute none = exec_bad_request_400 (codes "request body required")
process_exec os execute (some body) = executed execute (build_cmd os (some body))
