-- ===== src/ScaleToZero/Oncer.antt =====
-- Oncer of lib/scaletozero/scaletozero.go, over any history of calls.
use popcorn_images.Base.{◌≡◌, List, [], ◌∷◌, Option, true, Error, arith}
use popcorn_images.ScaleToZero.{Controller, Once, once_disable, once_enable}

pub data Call : Type 0 where
  disables enables : Call

module _ {W : Type 0} (ctrl : Controller W) where
  pub call : Call → Once → W → Option Error × Once × W
  call disables o w = once_disable ctrl o w
  call enables o w = once_enable ctrl o w

  pub calls : List Call → Once → W → Once × W
  calls [] o w = (o, w)
  calls (c ∷ cs) o w = let (e, o', w') = call c o w in calls cs o' w'

  abbrev Disabled : Option Error → Once → Type 0
  Disabled e o = (o.disabled_once ≡ true) × (o.disable_err ≡ e)

  abbrev Enabled : Option Error → Once → Type 0
  Enabled e o = (o.enabled_once ≡ true) × (o.enable_err ≡ e)

  call-keeps :
      (e : Option Error) (c : Call) (o : Once) (w : W)
      → (Disabled e o → Disabled e (call c o w).1) × (Enabled e o → Enabled e (call c o w).1)
  unfolding call once_disable once_enable
  call-keeps e disables o w = (λ d. ground arith, λ d. ground arith)
  call-keeps e enables o w = (λ d. ground arith, λ d. ground arith)

  calls-keeps :
      (e : Option Error) (cs : List Call) (o : Once) (w : W)
      → (Disabled e o → Disabled e (calls cs o w).0) × (Enabled e o → Enabled e (calls cs o w).0)
  unfolding calls
  calls-keeps e [] o w = (λ d. d, λ d. d)
  calls-keeps e (c ∷ cs) o w =
      let rest = calls-keeps e cs (call c o w).1 (call c o w).2 in
      let one = call-keeps e c o w in (λ d. rest.0 (one.0 d), λ d. rest.1 (one.1 d))

  first-done :
      (o : Once) (w : W)
      → Disabled (call disables o w).0 (call disables o w).1
        × Enabled (call enables o w).0 (call enables o w).1
  unfolding call once_disable once_enable
  first-done o w = (ground arith, ground arith)

  done-repeats :
      (e : Option Error) (o : Once) (w : W)
      → (Disabled e o → call disables o w ≡ (e, o, w))
        × (Enabled e o → call enables o w ≡ (e, o, w))
  unfolding call once_disable once_enable
  done-repeats e o w = (λ d. ground arith, λ d. ground arith)

  -- The oncer and the controller's state after one call and then a history of calls.
  abbrev pub later : Call → List Call → Once → W → Once × W
  later c cs o w = calls cs (call c o w).1 (call c o w).2

  -- After a Disable or an Enable, and any history of calls behind it, the same call again returns
  -- the error of the first, and touches neither the oncer nor the controller behind it.
  pub call-repeats :
      (c : Call) (cs : List Call) (o : Once) (w : W)
      → call c (later c cs o w).0 (later c cs o w).1
        ≡ ((call c o w).0, (later c cs o w).0, (later c cs o w).1)
  call-repeats disables cs o w =
      (done-repeats (call disables o w).0 _ _).0
        ((calls-keeps (call disables o w).0 cs _ _).0 (first-done o w).0)
  call-repeats enables cs o w =
      (done-repeats (call enables o w).0 _ _).1
        ((calls-keeps (call enables o w).0 cs _ _).1 (first-done o w).1)
