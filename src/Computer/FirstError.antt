-- ===== src/Computer/FirstError.antt =====
-- BatchComputerAction stops at the first action that fails.
use mathlib.Core.List.{append-nil}
use popcorn_images.Base.{ℕ, ◌+◌, ◌≡◌, refl, sym, ap, ◌∙◌, some, List, [], ◌∷◌, ◌++◌, length, arith}
use popcorn_images.Computer.{History, Env, ok}
use popcorn_images.Computer.Batch.{
  ComputerAction, ok_200, perform, perform_all, labelled, responded, batch_computer_action,
}

-- The actions succeed one after the other, from a history to a history.
pub data Performed (env : Env) : List ComputerAction → History → History → Type 0 where
  none_left : {h : History} → Performed env [] h h
  next :
      {a : ComputerAction} {as' : List ComputerAction} {h h' h'' : History}
      → perform env a h ≡ (ok tt, h')
      → Performed env as' h' h''
      → Performed env (a ∷ as') h h''

module _ (env : Env) where
  perform_all_nil : (i : ℕ) (h : History) → perform_all env i [] h ≡ (ok tt, h)
  unfolding perform_all
  perform_all_nil i h = refl

  perform_all-append :
      (i : ℕ) {xs : List ComputerAction} (ys : List ComputerAction) {h h' : History}
      → Performed env xs h h'
      → perform_all env i (xs ++ ys) h ≡ perform_all env (i + length xs) ys h'
  unfolding perform_all labelled
  perform_all-append i ys (none_left {h}) = ap (λ n. perform_all env n ys h) (omega arith)
  perform_all-append i ys (next {a} {as'} {h} {h'} {h''} e p) =
      rw e (perform_all-append (i + 1) ys p ∙ ap (λ n. perform_all env n ys h'') (omega arith))

  -- Actions that succeed are answered with status 200, behind the last of them.
  pub batch_computer_action-succeeds :
      (a : ComputerAction) (as' : List ComputerAction) {h h' : History}
      → Performed env (a ∷ as') h h'
      → batch_computer_action env (some (a ∷ as')) h ≡ (ok_200, h')
  unfolding batch_computer_action responded
  batch_computer_action-succeeds a as' {h} {h'} p = ap responded (
      ap (λ (l : List ComputerAction). perform_all env 0 l h) (sym (append-nil (a ∷ as')))
      ∙ perform_all-append 0 [] p
      ∙ perform_all_nil (0 + length (a ∷ as')) h')
