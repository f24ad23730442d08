-- ===== src/Computer/Batch.antt =====
-- The handlers of cmd/api/api/computer.go: one action each, and BatchComputerAction.
use popcorn_images.Base.{
  ℕ, ◌+◌, ℤ, pos, Option, none, some, List, [], ◌∷◌, ◌++◌, Bool, Text, codes, itoa, text_eq,
  if◌then◌else◌,
}
use popcorn_images.Computer.{
  History, Env, ActionError, validation, execution, M, Result, ok, err, ◌>>◌, pure, fail,
}
use popcorn_images.Computer.Keys.{
  TypeTextRequest, PressKeyRequest, ScrollRequest, do_type_text, do_press_key, do_scroll,
}
use popcorn_images.Computer.Mouse.{MoveMouseRequest, do_move_mouse}
use popcorn_images.Computer.Click.{ClickMouseRequest, do_click_mouse, do_set_cursor, do_sleep}
use popcorn_images.Computer.Drag.{DragMouseRequest, do_drag_mouse}

pub record ComputerAction : Type 0 where
  pub kind : Text
  pub click_mouse : Option ClickMouseRequest
  pub move_mouse : Option MoveMouseRequest
  pub type_text : Option TypeTextRequest
  pub press_key : Option PressKeyRequest
  pub scroll : Option ScrollRequest
  pub drag_mouse : Option DragMouseRequest
  pub set_cursor : Option Bool
  pub sleep : Option ℤ

pub data Response : Type 0 where
  ok_200 : Response
  bad_request_400 internal_error_500 : Text → Response

answer : ActionError → Text → Response
answer (validation m) msg = bad_request_400 msg
answer (execution m) msg = internal_error_500 msg

unfoldable pub message : ActionError → Text
message (validation m) = m
message (execution m) = m

unfoldable pub responded : Result (Unit {0}) × History → Response × History
unfolding answer message
responded (ok a, h) = (ok_200, h)
responded (err e, h) = (answer e (message e), h)

-- The handlers MoveMouse, ClickMouse, TypeText, PressKey, Scroll, DragMouse and SetCursor
unfoldable pub handle : {A : Type 0} → (A → M (Unit {0})) → Option A → History → Response × History
unfolding responded
handle action none h = (bad_request_400 (codes "request body is required"), h)
handle action (some body) h = responded (action body h)

unfoldable pub required : {A : Type 0} → (A → M (Unit {0})) → Text → Option A → M (Unit {0})
required action name none =
    fail (validation (name ++ (codes " field is required when type is " ++ name)))
required action name (some body) = action body

unfoldable pub batch_error : ℕ → ComputerAction → ActionError → ActionError
batch_error i a (validation m) =
    validation
      (codes "actions[" ++ (itoa (pos i) ++ (codes "] (" ++ (a.kind ++ (codes "): " ++ m)))))
batch_error i a (execution m) =
    execution
      (codes "actions[" ++ (itoa (pos i) ++ (codes "] (" ++ (a.kind ++ (codes "): " ++ m)))))

unfoldable pub labelled :
    ℕ → ComputerAction → Result (Unit {0}) × History → Result (Unit {0}) × History
unfolding batch_error
labelled i a (ok x, h) = (ok x, h)
labelled i a (err e, h) = (err (batch_error i a e), h)

module _ (env : Env) where
  -- The switch on the type of an action.
  unfoldable pub perform : ComputerAction → M (Unit {0})
  unfolding required
  perform a =
      if text_eq a.kind (codes "click_mouse")
      then required (do_click_mouse env) (codes "click_mouse") a.click_mouse
      else if text_eq a.kind (codes "move_mouse")
      then required (do_move_mouse env) (codes "move_mouse") a.move_mouse
      else if text_eq a.kind (codes "type_text")
      then required (do_type_text env) (codes "type_text") a.type_text
      else if text_eq a.kind (codes "press_key")
      then required (do_press_key env) (codes "press_key") a.press_key
      else if text_eq a.kind (codes "scroll")
      then required (do_scroll env) (codes "scroll") a.scroll
      else if text_eq a.kind (codes "drag_mouse")
      then required (do_drag_mouse env) (codes "drag_mouse") a.drag_mouse
      else if text_eq a.kind (codes "set_cursor")
      then required (do_set_cursor env) (codes "set_cursor") a.set_cursor
      else if text_eq a.kind (codes "sleep")
      then required (do_sleep env) (codes "sleep") a.sleep
      else fail (validation (codes "unsupported action type: " ++ a.kind))

  -- The loop of BatchComputerAction.
  unfoldable pub perform_all : ℕ → List ComputerAction → M (Unit {0})
  perform_all i [] = pure tt
  perform_all i (a ∷ as') =
      let rest = perform_all (i + 1) as' in (λ h. labelled i a (perform a h)) >> rest

  -- BatchComputerAction
  unfoldable pub batch_computer_action : Option (List ComputerAction) → History → Response × History
  unfolding responded
  batch_computer_action none h = (bad_request_400 (codes "request body is required"), h)
  batch_computer_action (some []) h =
      (bad_request_400 (codes "actions must contain at least one action"), h)
  batch_computer_action (some (a ∷ as')) h = responded (perform_all 0 (a ∷ as') h)
