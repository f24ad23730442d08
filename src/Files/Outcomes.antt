-- ===== src/Files/Outcomes.antt =====
-- How a call of the operating system leads to the status of a reply.
use popcorn_images.Base.{
  ◌≡◌, refl, Option, none, some, [], ◌∷◌, Bool, true, false, Text, if◌then◌else◌,
}
use popcorn_images.Files.{
  Failure, not_exist, other, Call, Trace, Os, Reply, ran, tried, try, failed, missing_or,
}
use popcorn_images.Files.Requests.{Request, status, fulfilled, missing, is_ignored, expected}

tried-Holds :
    {A : Type 0} (P : Reply A × Trace → Type 0) (call : Call)
    (on_fail : Failure → Trace → Reply A × Trace) (rest : Trace → Reply A × Trace) (t : Trace)
    (o : Option Failure)
    → P (rest ((call, none) ∷ t))
    → ((e : Failure) → P (on_fail e ((call, some e) ∷ t)))
    → P (tried call on_fail rest t o)
unfolding tried
tried-Holds P call on_fail rest t none k f = k
tried-Holds P call on_fail rest t (some e) k f = f e

pub record Reports (A : Type 0) (os : Os) (request : Request) (x : Reply A × Trace) : Type 0 where
  pub reported : status x.0 ≡ expected os request x.1

module _ (os : Os) where
  pub try-Reports :
      (A : Type 0) (request : Request) (call : Call) (on_fail : Failure → Trace → Reply A × Trace)
      (rest : Trace → Reply A × Trace) (t : Trace)
      → Reports A os request (rest ((call, none) ∷ t))
      → ((e : Failure) → Reports A os request (on_fail e ((call, some e) ∷ t)))
      → Reports A os request (try os call on_fail rest t)
  unfolding try
  try-Reports A request call on_fail rest t k f =
      tried-Holds (Reports A os request) call on_fail rest t _ k f

  pub missing-Reports :
      (A : Type 0) (request : Request) (call : Call) (m n : Text)
      → is_ignored call ≡ false
      → missing call ≡ 404
      → (e : Failure) → Reports A os request (missing_or m n e ((call, some e) ∷ []))
  unfolding missing_or status
  missing-Reports A request call m n i h not_exist = record { reported = rw (i, h) refl }
  missing-Reports A request call m n i h (other e) = record { reported = rw i refl }

  pub failed-Reports :
      (A : Type 0) (request : Request) (call : Call) (m : Text) (t : Trace)
      → is_ignored call ≡ false
      → missing call ≡ 500
      → (e : Failure) → Reports A os request (failed m e ((call, some e) ∷ t))
  unfolding failed status
  failed-Reports A request call m t i h not_exist = record { reported = rw (i, h) refl }
  failed-Reports A request call m t i h (other e) = record { reported = rw i refl }

  pub ran-Reports :
      (A : Type 0) (request : Request) (call : Call) (r : Reply A) (t : Trace)
      → is_ignored call ≡ true
      → ((t' : Trace) → fulfilled os request t' ≡ fulfilled os request t)
      → Reports A os request (r, t)
      → Reports A os request (r, ran os call t)
  unfolding ran
  ran-Reports A request call r t i f k = ran-by (os.outcome t call)
    where
      ran-by : (o : Option Failure) → Reports A os request (r, (call, o) ∷ t)
      ran-by none = record { reported = rw (f ((call, none) ∷ t)) k.reported }
      ran-by (some e) = record { reported = rw (i, f ((call, some e) ∷ t)) k.reported }

  pub if_ran-Reports :
      (A : Type 0) (request : Request) (call : Call) (r : Reply A) (t : Trace) (b : Bool)
      → is_ignored call ≡ true
      → ((t' : Trace) → fulfilled os request t' ≡ fulfilled os request t)
      → Reports A os request (r, t)
      → Reports A os request (r, if b then ran os call t else t)
  if_ran-Reports A request call r t true i f k = ran-Reports A request call r t i f k
  if_ran-Reports A request call r t false i f k = k
