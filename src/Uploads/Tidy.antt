-- ===== src/Uploads/Tidy.antt =====
-- What the calls of an upload do to temporary files, and where they extract an archive to.
use popcorn_images.Base.{
  ◌≡◌, refl, Option, none, some, List, [], ◌∷◌, Bool, true, false, ◌&&◌, Text, mem, is_abs, arith,
}
use popcorn_images.Archive.Inside.{all_inside}
use popcorn_images.Files.{
  Failure, Call, open_file, stat_open, remove_all, read_dir, stat, chmod, rename, chown, close_file,
  copy_to, remove, mkdir_all, create_file, create_temp, copy_file, extract, Trace, Os, Reply, ran,
  tried, try,
}
use popcorn_images.Uploads.Archives.{Uploaded, leave_temp}

abbrev pub is_safe : Call → Bool
is_safe (extract dest ops) = is_abs dest && all_inside dest ops
is_safe call = true

-- Each directory that an archive is extracted to is absolute, and holds what that writes to.
abbrev pub all_safe : Trace → Bool
all_safe [] = true
all_safe ((call, o) ∷ t) = is_safe call && all_safe t

-- What a call means for a temporary file: it is made, or os.Remove is called on it
pub data Effect : Type 0 where
  makes calls_remove : Text → Effect
  neither : Effect

abbrev pub effect_of : Call → Option Failure → Effect
effect_of (remove path) o = calls_remove path
effect_of (create_temp path) none = makes path
effect_of call o = neither

abbrev pub by_effect : Effect → (List Text → Bool) → List Text → Bool
by_effect (makes path) rest gone = mem path gone && rest gone
by_effect (calls_remove path) rest gone = rest (path ∷ gone)
by_effect neither rest gone = rest gone

-- On each temporary file that was made os.Remove is called behind that, whatever it answers, or the
-- file is one of those given.
abbrev pub all_remove_called : List Text → Trace → Bool
all_remove_called gone [] = true
all_remove_called gone ((call, o) ∷ t) =
    by_effect (effect_of call o) (λ g. all_remove_called g t) gone

pub record Tidy (gone : List Text) (t : Trace) : Type 0 where
  pub safe : all_safe t ≡ true
  pub clean : all_remove_called gone t ≡ true

-- A call that neither makes nor removes a file, nor extracts
abbrev is_plain : Call → Bool
is_plain (remove path) = false
is_plain (create_temp path) = false
is_plain (extract dest ops) = false
is_plain call = true

plain-Tidy :
    (gone : List Text) (call : Call) (o : Option Failure) (t : Trace)
    → is_plain call ≡ true
    → Tidy gone t
    → Tidy gone ((call, o) ∷ t)
plain-Tidy gone (open_file p) o t h k = record { safe = k.safe; clean = k.clean }
plain-Tidy gone (stat_open p) o t h k = record { safe = k.safe; clean = k.clean }
plain-Tidy gone (close_file p) o t h k = record { safe = k.safe; clean = k.clean }
plain-Tidy gone (copy_to p) o t h k = record { safe = k.safe; clean = k.clean }
plain-Tidy gone (remove_all p) o t h k = record { safe = k.safe; clean = k.clean }
plain-Tidy gone (read_dir p) o t h k = record { safe = k.safe; clean = k.clean }
plain-Tidy gone (stat p) o t h k = record { safe = k.safe; clean = k.clean }
plain-Tidy gone (mkdir_all p m) o t h k = record { safe = k.safe; clean = k.clean }
plain-Tidy gone (create_file p m) o t h k = record { safe = k.safe; clean = k.clean }
plain-Tidy gone (chmod p m) o t h k = record { safe = k.safe; clean = k.clean }
plain-Tidy gone (rename p q) o t h k = record { safe = k.safe; clean = k.clean }
plain-Tidy gone (chown p m n) o t h k = record { safe = k.safe; clean = k.clean }
plain-Tidy gone (copy_file p q) o t h k = record { safe = k.safe; clean = k.clean }
plain-Tidy gone (remove p) o t h k = ground (arith, h)
plain-Tidy gone (create_temp p) o t h k = ground (arith, h)
plain-Tidy gone (extract p q) o t h k = ground (arith, h)

pub no_call-Tidy : Tidy [] []
no_call-Tidy = record { safe = refl; clean = refl }

pub record Cleared (x : Reply Uploaded × Trace) : Type 0 where
  pub tidy : Tidy [] x.1

module _ (os : Os) where
  tried-Tidy :
      (gone : List Text) (call : Call) (on_fail : Failure → Trace → Reply Uploaded × Trace)
      (rest : Trace → Reply Uploaded × Trace) (t : Trace) (o : Option Failure)
      → is_plain call ≡ true
      → Tidy gone t
      → ((t' : Trace) → Tidy gone t' → Cleared (rest t'))
      → ((e : Failure) (t' : Trace) → Tidy gone t' → Cleared (on_fail e t'))
      → Cleared (tried call on_fail rest t o)
  unfolding tried
  tried-Tidy gone call on_fail rest t none h k r f = r _ (plain-Tidy gone call none t h k)
  tried-Tidy gone call on_fail rest t (some e) h k r f = f e _ (plain-Tidy gone call (some e) t h k)

  pub try-Tidy :
      (gone : List Text) (call : Call) (on_fail : Failure → Trace → Reply Uploaded × Trace)
      (rest : Trace → Reply Uploaded × Trace) (t : Trace)
      → is_plain call ≡ true
      → Tidy gone t
      → ((t' : Trace) → Tidy gone t' → Cleared (rest t'))
      → ((e : Failure) (t' : Trace) → Tidy gone t' → Cleared (on_fail e t'))
      → Cleared (try os call on_fail rest t)
  unfolding try
  try-Tidy gone call on_fail rest t h k r f = tried-Tidy gone call on_fail rest t _ h k r f

  pub ran-Tidy :
      (gone : List Text) (call : Call) (t : Trace)
      → is_plain call ≡ true
      → Tidy gone t
      → Tidy gone (ran os call t)
  unfolding ran
  ran-Tidy gone call t h k = plain-Tidy gone call _ t h k

  pub leave_temp-Tidy :
      (tmp : Text) (r : Reply Uploaded) (t : Trace)
      → Tidy (tmp ∷ []) t
      → Cleared (leave_temp os tmp r t)
  unfolding leave_temp ran
  leave_temp-Tidy tmp r t k = record { tidy = record { safe = k.safe; clean = k.clean } }

pub created-Tidy :
    (gone : List Text) (tmp : Text) (t : Trace)
    → mem tmp gone ≡ true
    → Tidy gone t
    → Tidy gone ((create_temp tmp, none) ∷ t)
created-Tidy gone tmp t m k = record { safe = k.safe; clean = rw (m, k.clean) refl }

tried_temp-Tidy :
    (os : Os) (gone : List Text) (tmp : Text) (on_fail : Failure → Trace → Reply Uploaded × Trace)
    (rest : Trace → Reply Uploaded × Trace) (t : Trace) (o : Option Failure)
    → Tidy gone t
    → (Tidy gone t → Cleared (rest ((create_temp tmp, none) ∷ t)))
    → ((e : Failure)
        → Tidy gone ((create_temp tmp, some e) ∷ t)
        → Cleared (on_fail e ((create_temp tmp, some e) ∷ t)))
    → Cleared (tried (create_temp tmp) on_fail rest t o)
unfolding tried
tried_temp-Tidy os gone tmp on_fail rest t none k r f = r k
tried_temp-Tidy os gone tmp on_fail rest t (some e) k r f =
    f e (record { safe = k.safe; clean = k.clean })

pub try_temp-Tidy :
    (os : Os) (gone : List Text) (tmp : Text) (on_fail : Failure → Trace → Reply Uploaded × Trace)
    (rest : Trace → Reply Uploaded × Trace) (t : Trace)
    → Tidy gone t
    → (Tidy gone t → Cleared (rest ((create_temp tmp, none) ∷ t)))
    → ((e : Failure) (t' : Trace) → Tidy gone t' → Cleared (on_fail e t'))
    → Cleared (try os (create_temp tmp) on_fail rest t)
unfolding try
try_temp-Tidy os gone tmp on_fail rest t k r f =
    tried_temp-Tidy os gone tmp on_fail rest t _ k r (λ e. f e _)
