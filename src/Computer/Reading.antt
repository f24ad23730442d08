-- ===== src/Computer/Reading.antt =====
-- parseMousePosition of cmd/api/api/computer.go reads what xdotool getmouselocation --shell prints.
use mathlib.Core.List.{append-nil}
use popcorn_images.Base.{
  is_free, cut-part, cut-rest, ℕ, ℤ, ◌≡◌, refl, sym, ap, ◌∙◌, none, some, List, [], ◌∷◌, ◌++◌, Bool,
  true, false, ◌&&◌, ◌==◌, ◌⊎◌, inl, inr, leb, Text, text_eq, is_empty, is_space, trim_left,
  trim_right, trim_space, cut, split, itoa, atoi-itoa, is_int64, all_plain, all_plain-itoa, arith,
  Bool-cases,
}
use popcorn_images.Computer.{Point}
use popcorn_images.Computer.Position.{
  parse_mouse_position, read_lines, set_part, split_equals, both,
}

abbrev line_feed : ℕ
line_feed = 10

-- NAME=value
abbrev line : ℕ → ℤ → Text
line name z = name ∷ b'=' ∷ itoa z

-- What xdotool prints: the two coordinates, each in its line, and more.
abbrev pub shell_output : Point → Text → Text
shell_output (x, y) more = line b'X' x ++ (line_feed ∷ line b'Y' y ++ line_feed ∷ more)

-- Printable and no space.
abbrev all_solid : Text → Bool
all_solid [] = true
all_solid (c ∷ s) = (leb 33 c && leb c 126) && all_solid s

all_solid-plain : (s : Text) → all_plain s ≡ true → all_solid s ≡ true
all_solid-plain [] h = refl
all_solid-plain (c ∷ s) h = ground (arith, h, all_solid-plain s)

all_solid-line :
    (name : ℕ) (z : ℤ) → leb 33 name && leb name 126 ≡ true → all_solid (line name z) ≡ true
all_solid-line name z h = ground (arith, h, all_solid-plain (itoa z) (all_plain-itoa z))

solid_no_space : (c : ℕ) → leb 33 c && leb c 126 ≡ true → is_space c ≡ false
unfolding is_space
solid_no_space c h = ground (arith, h)

trim_right-solid : (s t : Text) → all_solid s ≡ true → trim_right (s ++ t) ≡ s ++ trim_right t
unfolding trim_right
trim_right-solid [] t h = refl
trim_right-solid (c ∷ s) t h = ground (arith, h, solid_no_space c, trim_right-solid s t)

trim_right-keeps :
    (c : ℕ) (s : Text) → is_empty (trim_right s) ≡ false → trim_right (c ∷ s) ≡ c ∷ trim_right s
unfolding trim_right
trim_right-keeps c s h = rw h refl

trim_right-cases :
    (c : ℕ) (s : Text) → (trim_right (c ∷ s) ≡ []) ⊎ (trim_right (c ∷ s) ≡ c ∷ trim_right s)
unfolding trim_right
trim_right-cases c s = elim (Bool-cases (is_empty (trim_right s) && is_space c)) [
  | inl e ↦ inl (rw e refl)
  | inr e ↦ inr (rw e refl)
]

trim_left-solid : (c : ℕ) (s : Text) → leb 33 c && leb c 126 ≡ true → trim_left (c ∷ s) ≡ c ∷ s
unfolding trim_left
trim_left-solid c s h = rw (solid_no_space c h) refl

trim_space-line :
    (name : ℕ) (z : ℤ) → leb 33 name && leb name 126 ≡ true → trim_space (line name z) ≡ line name z
unfolding trim_space trim_right
trim_space-line name z h =
    let e : trim_right (line name z) ≡ line name z =
      ap trim_right (sym (append-nil (line name z)))
      ∙ trim_right-solid (line name z) [] (all_solid-line name z h)
      ∙ append-nil (line name z) in
    ap trim_left e ∙ trim_left-solid name (b'=' ∷ itoa z) h

solid_is_free : (s : Text) → all_solid s ≡ true → is_free line_feed s ≡ true
solid_is_free [] h = refl
solid_is_free (c ∷ s) h = ground (arith, h, solid_is_free s)

line-is_free :
    (name : ℕ) (z : ℤ) → leb 33 name && leb name 126 ≡ true → is_free line_feed (line name z) ≡ true
line-is_free name z h = solid_is_free (line name z) (all_solid-line name z h)

split_equals-line :
    (name : ℕ) (z : ℤ)
    → (name == b'=') ≡ false
    → split_equals (line name z) ≡ some (name ∷ [], itoa z)
unfolding split_equals
split_equals-line name z h = rw h refl

read_lines-shell :
    (x y : ℤ) (more : List Text)
    → is_int64 x ≡ true
    → is_int64 y ≡ true
    → read_lines (line b'X' x ∷ line b'Y' y ∷ more) (none, none) ≡ (some x, some y)
unfolding read_lines set_part text_eq
read_lines-shell x y more h k =
    rw
      (
        trim_space-line b'X' x refl,
        trim_space-line b'Y' y refl,
        split_equals-line b'X' x refl,
        split_equals-line b'Y' y refl,
        atoi-itoa x h,
        atoi-itoa y k,
      )
      refl

-- The output without the white space behind it.
trimmed : ℤ → ℤ → Text → Text
trimmed x y more = line b'X' x ++ (line_feed ∷ line b'Y' y ++ trim_right (line_feed ∷ more))

trim_right-shell :
    (x y : ℤ) (more : Text) → trim_right (shell_output (x, y) more) ≡ trimmed x y more
unfolding trimmed
trim_right-shell x y more =
    let second = line b'Y' y ++ line_feed ∷ more in
    let e : trim_right second ≡ line b'Y' y ++ trim_right (line_feed ∷ more) =
      trim_right-solid (line b'Y' y) (line_feed ∷ more) (all_solid-line b'Y' y refl) in
    let filled : is_empty (trim_right second) ≡ false = unfold is_empty in ap is_empty e in
    trim_right-solid (line b'X' x) (line_feed ∷ second) (all_solid-line b'X' x refl)
    ∙ ap (λ (t : Text). line b'X' x ++ t)
        (trim_right-keeps line_feed second filled ∙ ap (λ (t : Text). line_feed ∷ t) e)

second_line :
    (y : ℤ) (t r : Text)
    → (t ≡ []) ⊎ (t ≡ line_feed ∷ r)
    → (rest : List Text) × (cut line_feed [] (line b'Y' y ++ t) ≡ line b'Y' y ∷ rest)
second_line y t r (inl e) = (
  [],
  ap (λ (u : Text). cut line_feed [] (line b'Y' y ++ u)) e
      ∙ ap (cut line_feed []) (append-nil (line b'Y' y))
      ∙ cut-rest line_feed [] (line b'Y' y) (line-is_free b'Y' y refl),
)
second_line y t r (inr e) = (
  cut line_feed [] r,
  ap (λ (u : Text). cut line_feed [] (line b'Y' y ++ u)) e
      ∙ cut-part line_feed [] (line b'Y' y) r (line-is_free b'Y' y refl),
)

read_lines-trimmed :
    (x y : ℤ) (more : Text)
    → is_int64 x ≡ true
    → is_int64 y ≡ true
    → read_lines (split (trimmed x y more) line_feed) (none, none) ≡ (some x, some y)
unfolding trimmed split
read_lines-trimmed x y more h k =
    let second =
      second_line y (trim_right (line_feed ∷ more)) (trim_right more)
        (trim_right-cases line_feed more) in
    ap (λ ls. read_lines ls (none, none))
      (cut-part line_feed [] (line b'X' x) (line b'Y' y ++ trim_right (line_feed ∷ more))
          (line-is_free b'X' x refl)
        ∙ ap (λ ls. line b'X' x ∷ ls) second.1)
    ∙ read_lines-shell x y second.0 h k

trim_space-shell :
    (x y : ℤ) (more : Text) → trim_space (shell_output (x, y) more) ≡ trimmed x y more
unfolding trim_space
trim_space-shell x y more =
    ap trim_left (trim_right-shell x y more) ∙ (unfold trimmed in trim_left-solid b'X' _ refl)

trimmed-filled : (x y : ℤ) (more : Text) → is_empty (trimmed x y more) ≡ false
unfolding trimmed is_empty
trimmed-filled x y more = refl

-- What xdotool prints of a position, the coordinates in the range of int and whatever stands
-- behind them, is read as this position.
pub parse_mouse_position-shell_output :
    (x y : ℤ) (more : Text)
    → is_int64 x ≡ true
    → is_int64 y ≡ true
    → parse_mouse_position (shell_output (x, y) more) ≡ some (x, y)
unfolding parse_mouse_position both
parse_mouse_position-shell_output x y more h k =
    rw (trim_space-shell x y more, trimmed-filled x y more, read_lines-trimmed x y more h k) refl
