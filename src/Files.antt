-- ===== src/Files.antt =====
-- What the handlers of cmd/api/api/fs.go share: the calls of the operating system with their
-- outcomes, the replies and the modes in octal digits.
pub mod Reading
pub mod Changing
pub mod Requests
pub mod Outcomes
pub mod Reported
mod Examples
use popcorn_images.Archive.{Ops}
use popcorn_images.Base.{
  ℕ, ℤ, ◌+◌, ◌-◌, ◌*◌, Option, none, some, List, [], ◌∷◌, Bool, ◌&&◌, Text, Error, leb,
  if◌then◌else◌,
}

-- An error with errors.Is(err, os.ErrNotExist), or another one
pub data Failure : Type 0 where
  not_exist : Failure
  other : Error → Failure

pub data Call : Type 0 where
  open_file stat_open close_file copy_to remove remove_all read_dir stat : Text → Call
  mkdir_all create_file chmod : Text → ℕ → Call
  rename : Text → Text → Call
  chown : Text → ℤ → ℤ → Call
  -- os.CreateTemp with the name that it gives, and io.Copy from a file to a file
  create_temp : Text → Call
  copy_file : Text → Text → Call
  -- Unzip into a directory, with what it did
  extract : Text → Ops → Call

-- The calls of a request with their outcomes, the newest in front
abbrev pub Trace : Type 0
Trace = List (Call × Option Failure)

-- os.FileInfo
pub record Info : Type 0 where
  pub is_dir : Bool
  pub size : ℤ
  pub mod_time : ℤ
  pub mode : Text

-- os.DirEntry; its Info can fail
pub record DirEntry : Type 0 where
  pub name : Text
  pub is_dir : Bool
  pub info : Option Info

-- What the operating system answers, by the calls before
pub record Os : Type 0 where
  pub outcome : Trace → Call → Option Failure
  pub info_of : Trace → Text → Info
  pub entries_of : Trace → Text → List DirEntry
  -- the name of a temporary file
  pub temp_of : Trace → Text
  pub lookup_user : Text → Option Text
  pub lookup_group : Text → Option Text

pub data Reply (A : Type 0) : Type 0 where
  done_200 created_201 : A → Reply A
  bad_request_400 not_found_404 internal_500 : Text → Reply A

-- A call whose error is ignored
unfoldable pub ran : Os → Call → Trace → Trace
ran os call t = (call, os.outcome t call) ∷ t

module _ {A : Type 0} where
  unfoldable pub tried :
      Call
      → (Failure → Trace → Reply A × Trace)
      → (Trace → Reply A × Trace)
      → Trace
      → Option Failure
      → Reply A × Trace
  tried call on_fail rest t none = rest ((call, none) ∷ t)
  tried call on_fail rest t (some e) = on_fail e ((call, some e) ∷ t)

  -- A call, and what is done behind its error and behind its success
  unfoldable pub try :
      Os
      → Call
      → (Failure → Trace → Reply A × Trace)
      → (Trace → Reply A × Trace)
      → Trace
      → Reply A × Trace
  unfolding tried
  try os call on_fail rest t = tried call on_fail rest t (os.outcome t call)

  unfoldable pub failed : Text → Failure → Trace → Reply A × Trace
  failed message e t = (internal_500 message, t)

  -- 404 for os.ErrNotExist, and else 500
  unfoldable pub missing_or : Text → Text → Failure → Trace → Reply A × Trace
  missing_or missing message not_exist t = (not_found_404 missing, t)
  missing_or missing message (other e) t = (internal_500 message, t)

push_octal : ℕ → Option ℕ → Option ℕ
push_octal c none = none
push_octal c (some n) = if leb b'0' c && leb c b'7' then some (8 * n + (c - b'0')) else none

read_octal : Text → Option ℕ → Option ℕ
read_octal [] n = n
read_octal (c ∷ s) n = read_octal s (push_octal c n)

fits : Option ℕ → Option ℕ
fits none = none
fits (some n) = if leb n 4294967295 then some n else none

-- strconv.ParseUint(s, 8, 32)
unfoldable pub parse_octal : Text → Option ℕ
unfolding push_octal read_octal fits
parse_octal [] = none
parse_octal (c ∷ s) = fits (read_octal (c ∷ s) (some 0))

-- The mode of a request: its default, or the octal digits that stand in it
unfoldable pub mode_or : ℕ → Option Text → Option ℕ
mode_or mode none = some mode
mode_or mode (some s) = parse_octal s
