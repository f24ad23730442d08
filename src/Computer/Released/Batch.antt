-- ===== src/Computer/Released/Batch.antt =====
-- The handlers of the actions and BatchComputerAction release the keys that they hold.
use mathlib.Core.List.{Memᴰ}
use popcorn_images.Base.{
  ℕ, ◌+◌, ℤ, pos, ◌≡◌, ◌≢◌, refl, ◌∙◌, ap, Option, none, some, List, [], ◌∷◌, ◌++◌, Bool, true,
  false, Text, codes, text_eq, mem, ltb_ℤ, Error,
}
use popcorn_images.Computer.{
  History, Env, failed, validation, M, Result, ok, err, keydowns, keys_of, Kill, killed, no_process,
  kill_failed,
}
use popcorn_images.Computer.Triple.{
  Triple, Returns, returns, fails, bind_rule, settled, sleep_rule, fail_rule, pure_rule, if_rule,
}
use popcorn_images.Computer.Mouse.{MoveMouseRequest, do_move_mouse}
use popcorn_images.Computer.Keys.{do_type_text, do_press_key, do_scroll}
use popcorn_images.Computer.Drag.{do_drag_mouse}
use popcorn_images.Computer.Click.{do_click_mouse, do_set_cursor, do_sleep, hide, start, kill_old}
use popcorn_images.Computer.Batch.{
  ComputerAction, required, perform, perform_all, labelled, responded, batch_computer_action,
}
use popcorn_images.Computer.Released.{Up, is_down}
use popcorn_images.Computer.Released.Keys.{do_type_text-Up, do_press_key-Up, do_scroll-Up}
use popcorn_images.Computer.Released.Mouse.{do_move_mouse-Up, do_click_mouse-Up}
use popcorn_images.Computer.Released.Drag.{do_drag_mouse-Up}

-- The keys that the move of an action holds.
abbrev pub move_keys : Option MoveMouseRequest → List Text
move_keys none = []
move_keys (some m) = keys_of m.move_hold_keys

pub responded-history : (r : Result (Unit {0}) × History) → (responded r).1 ≡ r.1
unfolding responded
responded-history (ok a, h) = refl
responded-history (err e, h) = refl

abbrev pub actions_of : Option (List ComputerAction) → List ComputerAction
actions_of none = []
actions_of (some as') = as'

module _ (env : Env) (k : Text) where
  required-Up :
      {A : Type 0} (action : A → M (Unit {0})) (name : Text) (o : Option A)
      → ((a : A) → Triple (Up k) (action a) (λ x. Up k) (Up k))
      → Triple (Up k) (required action name o) (λ x. Up k) (Up k)
  unfolding required
  required-Up action name none t = fail_rule _
  required-Up action name (some a) t = t a

  start-Up : (o : Option Error) → Triple (Up k) (start o) (λ a. Up k) (Up k)
  unfolding start
  start-Up none h p = returns p
  start-Up (some e) h p = fails p

  kill-Up : (o : Kill) → Triple (Up k) (kill_old o) (λ a. Up k) (Up k)
  unfolding kill_old
  kill-Up killed h p = returns p
  kill-Up no_process h p = returns p
  kill-Up kill_failed h p = fails p

  pub do_set_cursor-Up :
      (hidden : Bool) → Triple (Up k) (do_set_cursor env hidden) (λ a. Up k) (Up k)
  unfolding do_set_cursor hide
  do_set_cursor-Up true =
      bind_rule _ _ (λ h p. kill-Up (env.pkill h) h p) (λ a h p. start-Up (env.unclutter h) h p)
  do_set_cursor-Up false = bind_rule _ _ (λ h p. kill-Up (env.pkill h) h p) (λ a h p. returns p)

  do_sleep-Up : (ms : ℤ) → Triple (Up k) (do_sleep env ms) (λ a. Up k) (Up k)
  unfolding do_sleep
  do_sleep-Up ms =
      if_rule (ltb_ℤ ms (pos 0)) _ _ (fail_rule _)
        (if_rule (ltb_ℤ (pos 30000) ms) _ _ (fail_rule _) (sleep_rule env (λ d h p. p) ms _))

  move-Up :
      (o : Option MoveMouseRequest)
      → ((h : History) (out : Text)
          → mem k (move_keys o) ≡ true
          → env.xdotool h (keydowns (move_keys o)) ≢ failed out)
      → Triple (Up k) (required (do_move_mouse env) (codes "move_mouse") o) (λ a. Up k) (Up k)
  unfolding required
  move-Up none fine = fail_rule _
  move-Up (some m) fine = do_move_mouse-Up env k m fine

  pub perform-Up :
      (a : ComputerAction)
      → ((h : History) (out : Text)
          → mem k (move_keys a.move_mouse) ≡ true
          → env.xdotool h (keydowns (move_keys a.move_mouse)) ≢ failed out)
      → Triple (Up k) (perform env a) (λ x. Up k) (Up k)
  unfolding perform
  perform-Up a fine =
      if_rule (text_eq a.kind (codes "click_mouse")) _ _
        (required-Up (do_click_mouse env) (codes "click_mouse") a.click_mouse
          (do_click_mouse-Up env k))
        (if_rule (text_eq a.kind (codes "move_mouse")) _ _ (move-Up a.move_mouse fine) (
          if_rule (text_eq a.kind (codes "type_text")) _ _
            (required-Up (do_type_text env) (codes "type_text") a.type_text (do_type_text-Up env k))
            (if_rule (text_eq a.kind (codes "press_key")) _ _
              (required-Up (do_press_key env) (codes "press_key") a.press_key
                (do_press_key-Up env k))
              (if_rule (text_eq a.kind (codes "scroll")) _ _
                (required-Up (do_scroll env) (codes "scroll") a.scroll (do_scroll-Up env k))
                (if_rule (text_eq a.kind (codes "drag_mouse")) _ _
                  (required-Up (do_drag_mouse env) (codes "drag_mouse") a.drag_mouse
                    (do_drag_mouse-Up env k))
                  (if_rule (text_eq a.kind (codes "set_cursor")) _ _
                    (required-Up (do_set_cursor env) (codes "set_cursor") a.set_cursor
                      do_set_cursor-Up)
                    (if_rule (text_eq a.kind (codes "sleep")) _ _
                      (required-Up (do_sleep env) (codes "sleep") a.sleep do_sleep-Up)
                      (fail_rule (validation (codes "unsupported action type: " ++ a.kind))))))))))

  labelled-Up :
      (i : ℕ) (a : ComputerAction) {r : Result (Unit {0}) × History}
      → Returns (λ x. Up k) (Up k) r
      → Returns (λ x. Up k) (Up k) (labelled i a r)
  unfolding labelled
  labelled-Up i a (returns p) = returns p
  labelled-Up i a (fails p) = fails p

  perform_all-Up :
      (i : ℕ) (as' : List ComputerAction)
      → ((a : ComputerAction)
          → Memᴰ a as'
          → (h : History) (out : Text) → mem k (move_keys a.move_mouse) ≡ true
          → env.xdotool h (keydowns (move_keys a.move_mouse)) ≢ failed out)
      → Triple (Up k) (perform_all env i as') (λ x. Up k) (Up k)
  unfolding perform_all
  perform_all-Up i [] fine = pure_rule tt
  perform_all-Up i (a ∷ as') fine =
      bind_rule _ _ (λ h p. labelled-Up i a (perform-Up a (fine a (Memᴰ.head refl)) h p))
        (λ x. perform_all-Up (i + 1) as' (λ b m. fine b (Memᴰ.tail m)))

  -- A key that is up before a batch is up behind it, whatever its actions are, whatever fails and
  -- wherever the batch stops, if xdotool carries out the commands of each run and never reports a
  -- failure of the run that presses the modifiers of a move with this key among them.
  pub batch_computer_action-Up :
      (body : Option (List ComputerAction)) (h : History)
      → ((a : ComputerAction)
          → Memᴰ a (actions_of body)
          → (h' : History) (out : Text) → mem k (move_keys a.move_mouse) ≡ true
          → env.xdotool h' (keydowns (move_keys a.move_mouse)) ≢ failed out)
      → is_down k h ≡ false
      → is_down k (batch_computer_action env body h).1 ≡ false
  unfolding batch_computer_action
  batch_computer_action-Up none h fine p = p
  batch_computer_action-Up (some []) h fine p = p
  batch_computer_action-Up (some (a ∷ as')) h fine p =
      ap (is_down k) (responded-history (perform_all env 0 (a ∷ as') h))
      ∙ settled (perform_all-Up 0 (a ∷ as') fine h p)
