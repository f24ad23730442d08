-- ===== src/Computer/Handlers.antt =====
-- The handlers of cmd/api/api/computer.go for one input action each, and GetMousePosition.
use popcorn_images.Base.{
  ◌≡◌, ◌≢◌, ap, ◌∙◌, Option, none, some, List, [], ◌∷◌, Bool, true, false, Text, codes, mem,
}
use popcorn_images.Computer.{
  xdo, getmouselocation, History, Point, Env, Answer, done, failed, M, keydowns,
}
use popcorn_images.Computer.Triple.{Triple, settled}
use popcorn_images.Computer.Position.{parse_mouse_position}
use popcorn_images.Computer.Keys.{
  TypeTextRequest, PressKeyRequest, ScrollRequest, do_type_text, do_press_key, do_scroll,
}
use popcorn_images.Computer.Mouse.{MoveMouseRequest, do_move_mouse}
use popcorn_images.Computer.Click.{ClickMouseRequest, do_click_mouse, do_set_cursor}
use popcorn_images.Computer.Drag.{DragMouseRequest, do_drag_mouse}
use popcorn_images.Computer.Batch.{Response, handle}
use popcorn_images.Computer.Released.{Up, is_down}
use popcorn_images.Computer.Released.Keys.{do_type_text-Up, do_press_key-Up, do_scroll-Up}
use popcorn_images.Computer.Released.Mouse.{do_move_mouse-Up, do_click_mouse-Up}
use popcorn_images.Computer.Released.Drag.{do_drag_mouse-Up}
use popcorn_images.Computer.Released.Batch.{move_keys, responded-history, do_set_cursor-Up}

-- A request of one of the endpoints, with its body if it has one.
pub data InputRequest : Type 0 where
  move_mouse_request : Option MoveMouseRequest → InputRequest
  click_mouse_request : Option ClickMouseRequest → InputRequest
  type_text_request : Option TypeTextRequest → InputRequest
  set_cursor_request : Option Bool → InputRequest
  press_key_request : Option PressKeyRequest → InputRequest
  scroll_request : Option ScrollRequest → InputRequest
  drag_mouse_request : Option DragMouseRequest → InputRequest

pub data PositionResponse : Type 0 where
  position_200 : Point → PositionResponse
  position_error_500 : Text → PositionResponse

module _ (env : Env) where
  -- MoveMouse
  move_mouse : Option MoveMouseRequest → History → Response × History
  move_mouse body h = handle (do_move_mouse env) body h

  -- ClickMouse
  click_mouse : Option ClickMouseRequest → History → Response × History
  click_mouse body h = handle (do_click_mouse env) body h

  -- TypeText
  type_text : Option TypeTextRequest → History → Response × History
  type_text body h = handle (do_type_text env) body h

  -- SetCursor
  set_cursor : Option Bool → History → Response × History
  set_cursor body h = handle (do_set_cursor env) body h

  -- PressKey
  press_key : Option PressKeyRequest → History → Response × History
  press_key body h = handle (do_press_key env) body h

  -- Scroll
  scroll : Option ScrollRequest → History → Response × History
  scroll body h = handle (do_scroll env) body h

  -- DragMouse
  drag_mouse : Option DragMouseRequest → History → Response × History
  drag_mouse body h = handle (do_drag_mouse env) body h

  unfoldable pub respond : InputRequest → History → Response × History
  unfolding move_mouse click_mouse type_text set_cursor press_key scroll drag_mouse
  respond (move_mouse_request body) = move_mouse body
  respond (click_mouse_request body) = click_mouse body
  respond (type_text_request body) = type_text body
  respond (set_cursor_request body) = set_cursor body
  respond (press_key_request body) = press_key body
  respond (scroll_request body) = scroll body
  respond (drag_mouse_request body) = drag_mouse body

  position : Option Point → PositionResponse
  position none = position_error_500 (codes "failed to parse mouse position from xdotool output")
  position (some p) = position_200 p

  located : Answer → PositionResponse
  unfolding position
  located (failed out) = position_error_500 (codes "failed to get mouse position")
  located (done out) = position (parse_mouse_position out)

  -- GetMousePosition
  unfoldable pub get_mouse_position : History → PositionResponse × History
  unfolding located
  get_mouse_position h =
      (located (env.xdotool h (getmouselocation ∷ [])), xdo (getmouselocation ∷ []) ∷ h)

-- The keys that the move of a request holds.
abbrev pub moving_keys : InputRequest → List Text
moving_keys (move_mouse_request body) = move_keys body
moving_keys other = []

module _ (env : Env) (k : Text) where
  handle-Up :
      {A : Type 0} (action : A → M (Unit {0})) (body : Option A) (h : History)
      → ((a : A) → Triple (Up k) (action a) (λ x. Up k) (Up k))
      → Up k h
      → Up k (handle action body h).1
  unfolding handle
  handle-Up action none h t p = p
  handle-Up action (some a) h t p =
      ap (is_down k) (responded-history (action a h)) ∙ settled (t a h p)

  move_mouse-Up :
      (body : Option MoveMouseRequest) (h : History)
      → ((h' : History) (out : Text)
          → mem k (move_keys body) ≡ true
          → env.xdotool h' (keydowns (move_keys body)) ≢ failed out)
      → Up k h
      → Up k (move_mouse env body h).1
  unfolding move_mouse handle
  move_mouse-Up none h fine p = p
  move_mouse-Up (some m) h fine p =
      ap (is_down k) (responded-history (do_move_mouse env m h))
      ∙ settled (do_move_mouse-Up env k m fine h p)

  -- A key that is up before a request for one input action is up behind it, whatever the request is
  -- and whatever fails, if xdotool carries out the commands of each run and, where the request is a
  -- move that holds this key, never reports a failure of the run that presses its modifiers.
  pub respond-Up :
      (r : InputRequest) (h : History)
      → ((h' : History) (out : Text)
          → mem k (moving_keys r) ≡ true
          → env.xdotool h' (keydowns (moving_keys r)) ≢ failed out)
      → is_down k h ≡ false
      → is_down k (respond env r h).1 ≡ false
  unfolding respond
  respond-Up (move_mouse_request body) h fine p = move_mouse-Up body h fine p
  respond-Up (click_mouse_request body) h fine p =
      handle-Up (do_click_mouse env) body h (do_click_mouse-Up env k) p
  respond-Up (type_text_request body) h fine p =
      handle-Up (do_type_text env) body h (do_type_text-Up env k) p
  respond-Up (set_cursor_request body) h fine p =
      handle-Up (do_set_cursor env) body h (do_set_cursor-Up env k) p
  respond-Up (press_key_request body) h fine p =
      handle-Up (do_press_key env) body h (do_press_key-Up env k) p
  respond-Up (scroll_request body) h fine p =
      handle-Up (do_scroll env) body h (do_scroll-Up env k) p
  respond-Up (drag_mouse_request body) h fine p =
      handle-Up (do_drag_mouse env) body h (do_drag_mouse-Up env k) p
