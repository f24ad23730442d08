-- ===== src/Computer/Triple.antt =====
-- Triples for actions: what holds of the history before an action, behind one that returns and
-- behind one that fails.
use popcorn_images.Base.{
  ℤ, pos, ◌≡◌, ◌≢◌, Option, none, some, List, ◌∷◌, Bool, true, false, Text, Error, ltb_ℤ,
  if◌then◌else◌, Bool-cases, inl, inr,
}
use popcorn_images.Computer.{
  Xdo, xdo, slept, History, Point, Env, Answer, done, failed, ActionError, Result, ok, err, M,
  ◌>>=◌, resume, pure, fail, cleaned, on_failure, deferred, finally, run, execute,
  sleep_with_context, current_resolution, check_bounds, answered, slept_well, resolved,
}

err-not-ok : {A : Type 0} {e : ActionError} {a : A} → ◌≢◌ {A = Result A} (err e) (ok a)
err-not-ok p = cc p

pub data Returns {A : Type 0} (Q : A → History → Type 0) (R : History → Type 0)
    : Result A × History → Type 0 where
  returns : {a : A} {h : History} → Q a h → Returns Q R (ok a, h)
  fails : {e : ActionError} {h : History} → R h → Returns Q R (err e, h)

abbrev pub Triple :
    {A : Type 0} → (History → Type 0) → M A → (A → History → Type 0) → (History → Type 0) → Type 0
Triple P m Q R = (h : History) → P h → Returns Q R (m h)

module _ {A B : Type 0} {Q : A → History → Type 0} {Q' : B → History → Type 0}
    {R : History → Type 0} where
  resume-Returns :
      (f : A → M B) {r : Result A × History}
      → ((a : A) → Triple (Q a) (f a) Q' R)
      → Returns Q R r
      → Returns Q' R (resume f r)
  resume-Returns f k (returns {a} {h} q) = k a h q
  resume-Returns f k (fails x) = fails x

  pub bind_rule :
      {P : History → Type 0} (m : M A) (f : A → M B)
      → Triple P m Q R
      → ((a : A) → Triple (Q a) (f a) Q' R)
      → Triple P (m >>= f) Q' R
  bind_rule m f t k h p = resume-Returns f k (t h p)

module _ {A : Type 0} {Q : A → History → Type 0} {R S : History → Type 0}
    (f : History → History) where
  cleaned-Returns :
      {r : Result A × History}
      → ((h : History) → R h → S (f h))
      → Returns Q R r
      → Returns Q S (cleaned f r)
  cleaned-Returns k (returns q) = returns q
  cleaned-Returns k (fails {e} {h} x) = fails (k h x)

  pub on_failure_rule :
      {P : History → Type 0} (m : M A)
      → Triple P m Q R
      → ((h : History) → R h → S (f h))
      → Triple P (on_failure f m) Q S
  on_failure_rule m t k h p = cleaned-Returns k (t h p)

module _ {A : Type 0} {Q Q' : A → History → Type 0} {R S : History → Type 0}
    (f : History → History) where
  deferred-Returns :
      {r : Result A × History}
      → ((a : A) (h : History) → Q a h → Q' a (f h))
      → ((h : History) → R h → S (f h))
      → Returns Q R r
      → Returns Q' S (deferred f r)
  deferred-Returns k l (returns {a} {h} q) = returns (k a h q)
  deferred-Returns k l (fails {e} {h} x) = fails (l h x)

  pub finally_rule :
      {P : History → Type 0} (m : M A)
      → Triple P m Q R
      → ((a : A) (h : History) → Q a h → Q' a (f h))
      → ((h : History) → R h → S (f h))
      → Triple P (finally f m) Q' S
  finally_rule m t k l h p = deferred-Returns k l (t h p)

module _ {A : Type 0} {Q Q' : A → History → Type 0} {R : History → Type 0} where
  pub weaken_Returns :
      {r : Result A × History}
      → ((a : A) (h : History) → Q a h → Q' a h)
      → Returns Q R r
      → Returns Q' R r
  weaken_Returns k (returns {a} {h} q) = returns (k a h q)
  weaken_Returns k (fails x) = fails x

-- What holds behind an action that returned.
pub returned :
    {Q R : History → Type 0} {r : Result (Unit {0}) × History}
    → Returns (λ a. Q) R r
    → r.0 ≡ ok tt
    → Q r.1
returned (returns q) e = q
returned (fails x) e = elim (err-not-ok e) [ ]

-- A predicate that holds behind an action, however it ends.
module _ {A : Type 0} {S : History → Type 0} where
  pub settled : {r : Result A × History} → Returns (λ a h. S h) S r → S r.1
  settled (returns q) = q
  settled (fails x) = x

run-Returns :
    {Q R : History → Type 0} (cs : List Xdo) (e : Text → ActionError) (h : History) (x : Answer)
    → Q (xdo cs ∷ h)
    → R (xdo cs ∷ h)
    → Returns (λ out. Q) R (answered e x (xdo cs ∷ h))
unfolding answered
run-Returns cs e h (done out) q r = returns q
run-Returns cs e h (failed out) q r = fails r

module _ (env : Env) {P Q R : History → Type 0} where
  pub run_rule :
      (cs : List Xdo) (e : Text → ActionError)
      → ((h : History) → P h → Q (xdo cs ∷ h))
      → ((h : History) → P h → R (xdo cs ∷ h))
      → Triple P (run env cs e) (λ out. Q) R
  unfolding run
  run_rule cs e k l h p = run-Returns cs e h (env.xdotool h cs) (k h p) (l h p)

  pub execute_rule :
      (cs : List Xdo) (e : Text → ActionError)
      → ((h : History) → P h → Q (xdo cs ∷ h))
      → ((h : History) → P h → R (xdo cs ∷ h))
      → Triple P (execute env cs e) (λ a. Q) R
  execute_rule cs e k l =
      bind_rule (run env cs e) (λ out. pure tt) (run_rule cs e k l) (λ a h q. returns q)

module _ (env : Env) {P : History → Type 0}
    (sleeps : (ms : ℤ) (h : History) → P h → P (slept ms ∷ h)) where
  slept-Returns :
      (e : Error → ActionError) (h : History) (x : Option Error)
      → P h
      → Returns (λ a. P) P (slept_well e x h)
  unfolding slept_well
  slept-Returns e h none p = returns p
  slept-Returns e h (some x) p = fails p

  pub sleep_rule :
      (ms : ℤ) (e : Error → ActionError) → Triple P (sleep_with_context env ms e) (λ a. P) P
  unfolding sleep_with_context
  sleep_rule ms e h p = elim (Bool-cases (ltb_ℤ (pos 0) ms)) [
    | inl c ↦ rw c (slept-Returns e (slept ms ∷ h) (env.interrupted h) (sleeps ms h p))
    | inr c ↦ rw c (returns p)
  ]

module _ {P : History → Type 0} where
  pub pure_rule : {A : Type 0} {R : History → Type 0} (a : A) → Triple P (pure a) (λ x. P) R
  pure_rule a h p = returns p

  pub fail_rule : {A : Type 0} {Q : A → History → Type 0} (e : ActionError) → Triple P (fail e) Q P
  fail_rule e h p = fails p

  pub if_rule :
      {A : Type 0} {Q : A → History → Type 0} {R : History → Type 0} (b : Bool) (m n : M A)
      → Triple P m Q R
      → Triple P n Q R
      → Triple P (if b then m else n) Q R
  if_rule true m n t u = t
  if_rule false m n t u = u

  resolved-Returns : (env : Env) (x : Option Point) → Triple P (resolved env x) (λ a. P) P
  unfolding resolved
  resolved-Returns env none h p = fails p
  resolved-Returns env (some q) h p = returns p

  pub resolution_rule : (env : Env) → Triple P (current_resolution env) (λ a. P) P
  unfolding current_resolution
  resolution_rule env h p = resolved-Returns env (env.resolution h) h p

  pub bounds_rule : (p screen : Point) → Triple P (check_bounds p screen) (λ a. P) P
  unfolding check_bounds
  bounds_rule (x, y) (w, height) = search (if_rule, fail_rule, pure_rule)
