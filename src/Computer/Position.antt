-- ===== src/Computer/Position.antt =====
-- parseMousePosition of cmd/api/api/computer.go. The messages of its errors are left out.
use popcorn_images.Base.{
  ℕ, ℤ, pos, negsuc, ◌≡◌, refl, Option, none, some, is_some, List, [], ◌∷◌, ◌&&◌, ◌==◌, Text, codes,
  text_eq, is_empty, trim_space, split, atoi, or_else, if◌then◌else◌,
}
use popcorn_images.Computer.{Point}

put_front : ℕ → Option (Text × Text) → Option (Text × Text)
put_front c none = none
put_front c (some (a, b)) = some (c ∷ a, b)

-- strings.SplitN(line, "=", 2): the two parts, if there are two
unfoldable pub split_equals : Text → Option (Text × Text)
unfolding put_front
split_equals [] = none
split_equals (c ∷ s) = if c == b'=' then some ([], s) else put_front c (split_equals s)

unfoldable pub set_part : Option ℤ × Option ℤ → Option (Text × Text) → Option ℤ × Option ℤ
set_part found none = found
set_part (x, y) (some (name, value)) =
    if text_eq name (codes "X")
    then (or_else (atoi value) x, y)
    else if text_eq name (codes "Y")
    then (x, or_else (atoi value) y)
    else (x, y)

-- The loop over the lines, with what x and y are found so far.
unfoldable pub read_lines : List Text → Option ℤ × Option ℤ → Option ℤ × Option ℤ
unfolding set_part
read_lines [] found = found
read_lines (line ∷ lines) found =
    let found' = set_part found (split_equals (trim_space line)) in
    if is_some found'.0 && is_some found'.1 then found' else read_lines lines found'

unfoldable pub both : Option ℤ × Option ℤ → Option Point
both (some x, some y) = some (x, y)
both other = none

-- parseMousePosition
unfoldable pub parse_mouse_position : Text → Option Point
unfolding both
parse_mouse_position output =
    if is_empty (trim_space output)
    then none
    else both (read_lines (split (trim_space output) 10) (none, none))

parse_mouse_position-shell :
    parse_mouse_position (codes "X=100\nY=-7\nSCREEN=0\n") ≡ some (pos 100, negsuc 6)
unfolding parse_mouse_position read_lines split_equals trim_space split is_empty text_eq atoi
parse_mouse_position-shell = refl
