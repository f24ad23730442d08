-- ===== src/Computer/Examples.antt =====
-- Runs of the theorems on input actions at concrete requests.
use popcorn_images.Base.{
  ℤ, pos, negsuc, ◌≡◌, ◌≢◌, ◌↔◌, ◌-ℤ◌, refl, none, some, List, [], ◌∷◌, true, false, Text, codes,
  mem,
}
use popcorn_images.Computer.{
  History, Env, done, failed, killed, ok, keydowns, current_resolution, check_bounds, run,
}
use popcorn_images.Computer.Mouse.{same_point, clamp_points}
use popcorn_images.Computer.Drag.{
  DragMouseRequest, do_drag_mouse, begin_drag, finish_drag, do_drag_mouse_linear, linear_commands,
  step_commands, path_steps, generate_relative_steps, relative_loop,
}
use popcorn_images.Computer.Batch.{ComputerAction, batch_computer_action}
use popcorn_images.Computer.Released.{is_down}
use popcorn_images.Computer.Released.Batch.{batch_computer_action-Up}
use popcorn_images.Computer.Pointer.{pointer}
use popcorn_images.Computer.Dragging.{do_drag_mouse-pointer, coordinates, last_entry}
use popcorn_images.Computer.Position.{parse_mouse_position}
use popcorn_images.Computer.Reading.{shell_output, parse_mouse_position-shell_output}
use popcorn_images.Computer.Clamping.{all_on, clamp_points-bounds}

-- xdotool that always succeeds on a screen of 1024 by 768; sleeps are interrupted at once.
abbrev calm : Env
calm = record {
  xdotool = λ h cs. done (codes "X=10\nY=20\n");
  resolution = λ h. some (pos 1024, pos 768);
  interrupted = λ h. none;
  cancelled = λ h. false;
  pkill = λ h. killed;
  unclutter = λ h. none;
  move_points = λ p q o. p ∷ q ∷ [];
  drag_points = λ ps q o. ps;
  jitter = λ h. pos 2;
  drag_jitter = λ n. pos 10;
}

abbrev hurried : Env
hurried = record {
  xdotool = λ h cs. done (codes "X=10\nY=20\n");
  resolution = λ h. some (pos 1024, pos 768);
  interrupted = λ h. some (codes "context canceled");
  cancelled = λ h. false;
  pkill = λ h. killed;
  unclutter = λ h. none;
  move_points = λ p q o. p ∷ q ∷ [];
  drag_points = λ ps q o. ps;
  jitter = λ h. pos 2;
  drag_jitter = λ n. pos 10;
}

abbrev shift : Text
shift = codes "shift"

abbrev long_press : ComputerAction
long_press = record {
  kind = codes "press_key";
  click_mouse = none;
  move_mouse = none;
  type_text = none;
  press_key =
      some (record {
        duration = some (pos 500);
        hold_keys = some (shift ∷ []);
        keys = codes "a" ∷ [];
      });
  scroll = none;
  drag_mouse = none;
  set_cursor = none;
  sleep = none;
}

abbrev pause : ℤ → ComputerAction
pause ms = record {
  kind = codes "sleep";
  click_mouse = none;
  move_mouse = none;
  type_text = none;
  press_key = none;
  scroll = none;
  drag_mouse = none;
  set_cursor = none;
  sleep = some ms;
}

abbrev path : List (List ℤ)
path = (pos 10 ∷ pos 10 ∷ []) ∷ (pos 13 ∷ pos 11 ∷ []) ∷ (pos 4 ∷ pos 30 ∷ []) ∷ []

abbrev linear_drag : DragMouseRequest
linear_drag = record {
  drag_button = none;
  drag_delay = none;
  drag_duration_ms = none;
  drag_hold_keys = some (shift ∷ []);
  path = path;
  drag_smooth = some false;
  step_delay_ms = none;
  steps_per_segment = some (pos 2);
}

no_failure : (out out' : Text) → done out ≢ failed out'
no_failure out out' e = cc e

batch_computer_action-Up_example :
    is_down shift (batch_computer_action hurried (some (long_press ∷ [])) []).1 ≡ false
batch_computer_action-Up_example =
    batch_computer_action-Up hurried shift (some (long_press ∷ [])) []
      (λ a m h out held. no_failure (codes "X=10\nY=20\n") out) refl

drag_succeeds : (do_drag_mouse calm linear_drag []).0 ≡ ok tt
unfolding do_drag_mouse current_resolution check_bounds begin_drag run finish_drag
    do_drag_mouse_linear linear_commands step_commands path_steps generate_relative_steps same_point
    ◌-ℤ◌ relative_loop
drag_succeeds = refl

do_drag_mouse-pointer_example :
    coordinates (pointer (pos 0, pos 0) (do_drag_mouse calm linear_drag []).1) ≡ last_entry path
do_drag_mouse-pointer_example =
    do_drag_mouse-pointer calm (pos 0, pos 0) linear_drag [] refl drag_succeeds

clamp_points-bounds_example :
    (all_on (pos 1024, pos 768) (clamp_points (pos 1024, pos 768) ((negsuc 9, pos 800) ∷ []))
      ≡ true)
    × ((clamp_points (pos 1024, pos 768) ((negsuc 9, pos 800) ∷ []) ≡ (negsuc 9, pos 800) ∷ [])
        ↔ (all_on (pos 1024, pos 768) ((negsuc 9, pos 800) ∷ []) ≡ true))
clamp_points-bounds_example = clamp_points-bounds 1023 767 ((negsuc 9, pos 800) ∷ [])

abbrev failing : Env
failing = record {
  xdotool = λ h cs. failed (codes "no display");
  resolution = λ h. some (pos 1024, pos 768);
  interrupted = λ h. none;
  cancelled = λ h. false;
  pkill = λ h. killed;
  unclutter = λ h. none;
  move_points = λ p q o. p ∷ q ∷ [];
  drag_points = λ ps q o. ps;
  jitter = λ h. pos 2;
  drag_jitter = λ n. pos 10;
}

nothing_moves :
    (h : History) (out : Text) → mem shift [] ≡ true → failing.xdotool h (keydowns []) ≢ failed out
unfolding mem
nothing_moves h out e f = cc e

parse_mouse_position-shell_output_example :
    parse_mouse_position (shell_output (pos 100, negsuc 6) (codes "SCREEN=0"))
    ≡ some (pos 100, negsuc 6)
parse_mouse_position-shell_output_example =
    parse_mouse_position-shell_output (pos 100) (negsuc 6) (codes "SCREEN=0") refl refl
