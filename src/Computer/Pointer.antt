-- ===== src/Computer/Pointer.antt =====
-- Where the commands of a drag and of a move leave the pointer.
use popcorn_images.Base.{
  ℕ, zero, suc, ◌+◌, ◌<◌, ℤ, pos, negsuc, ◌≡◌, refl, sym, ap, ◌∙◌, Option, none, some, List, [],
  ◌∷◌, ◌++◌, Bool, true, false, ltb_ℤ, ◌+ℤ◌, ◌-ℤ◌, +ℤ_assoc, +ℤ_zero, +ℤ_reach, scale, round_div,
  round_div_exact, scale_zero, if◌then◌else◌, arith, Bool-cases, inl, inr, ltb,
}
use popcorn_images.Computer.{
  Xdo, mousemove, mousemove_relative, mousemove_marked, sleep, xdo, History, Point, Env,
}
use popcorn_images.Computer.Mouse.{same_point, relative}
use popcorn_images.Computer.Drag.{
  DragMouseRequest, relative_loop, generate_relative_steps, path_steps, step_command, step_commands,
  linear_commands, smooth_commands, segment_steps,
}

-- The pointer behind commands, each of them carried out, on a screen with no edge in its way.
abbrev pub moved : Point → List Xdo → Point
moved p [] = p
moved p (mousemove x y ∷ cs) = moved (x, y) cs
moved p (mousemove_relative x y ∷ cs) = moved (p.0 +ℤ x, p.1 +ℤ y) cs
moved p (mousemove_marked x y ∷ cs) = moved (p.0 +ℤ x, p.1 +ℤ y) cs
moved p (c ∷ cs) = moved p cs

abbrev pub pointer : Point → History → Point
pointer p [] = p
pointer p (xdo cs ∷ h) = moved (pointer p h) cs
pointer p (op ∷ h) = pointer p h

abbrev pub travel : Point → List Point → Point
travel p [] = p
travel p (d ∷ ds) = travel (p.0 +ℤ d.0, p.1 +ℤ d.1) ds

abbrev pub last_of : Point → List Point → Point
last_of p [] = p
last_of p (q ∷ ps) = last_of q ps

travel-append : (p : Point) (xs ys : List Point) → travel p (xs ++ ys) ≡ travel (travel p xs) ys
travel-append p [] ys = refl
travel-append p (d ∷ xs) ys = travel-append (p.0 +ℤ d.0, p.1 +ℤ d.1) xs ys

pub moved-append : (p : Point) (xs ys : List Xdo) → moved p (xs ++ ys) ≡ moved (moved p xs) ys
moved-append p [] ys = refl
moved-append p (mousemove x y ∷ xs) ys = moved-append (x, y) xs ys
moved-append p (mousemove_relative x y ∷ xs) ys = moved-append (p.0 +ℤ x, p.1 +ℤ y) xs ys
moved-append p (mousemove_marked x y ∷ xs) ys = moved-append (p.0 +ℤ x, p.1 +ℤ y) xs ys
moved-append p (x ∷ xs) ys = moved-append p xs ys

module _ (dx dy : ℤ) (steps : ℕ) where
  reached : ℤ → ℤ → ℕ → Point
  reached a b j = (a +ℤ round_div (scale j dx) steps, b +ℤ round_div (scale j dy) steps)

  on : (a c d : ℤ) → a +ℤ c +ℤ (d -ℤ c) ≡ a +ℤ d
  on a c d = +ℤ_assoc a c (d -ℤ c) ∙ ap (λ z. a +ℤ z) (+ℤ_reach c d)

  travel-relative_loop :
      (a b : ℤ) (left j : ℕ)
      → travel (reached a b j) (
          relative_loop left
            (j + 1)
            (dx, dy)
            steps
            (round_div (scale j dx) steps, round_div (scale j dy) steps))
        ≡ reached a b (j + left)
  unfolding relative_loop reached
  travel-relative_loop a b zero j = ap (reached a b) (omega arith)
  travel-relative_loop a b (suc left) j =
      ap
        (λ (p : Point). travel p (
          relative_loop left (j + 1 + 1) (dx, dy) steps
            (round_div (scale (j + 1) dx) steps, round_div (scale (j + 1) dy) steps)))
        (λ i. (
          on a (round_div (scale j dx) steps) (round_div (scale (j + 1) dx) steps) i,
          on b (round_div (scale j dy) steps) (round_div (scale (j + 1) dy) steps) i,
        ))
      ∙ travel-relative_loop a b left (j + 1)
      ∙ ap (reached a b) (omega arith)

round_div_zero : (z : ℤ) (steps : ℕ) → 0 < steps → round_div (scale 0 z) steps ≡ pos 0
round_div_zero z steps h =
    ap (λ w. round_div w steps) (scale_zero steps z) ∙ round_div_exact steps (pos 0) h

same_axis : (x x' : ℤ) → ltb_ℤ x x' ≡ false → ltb_ℤ x' x ≡ false → x ≡ x'
same_axis (pos m) (pos n) h k = ground arith
same_axis (pos m) (negsuc n) h k = ground arith
same_axis (negsuc m) (pos n) h k = ground arith
same_axis (negsuc m) (negsuc n) h k = ground arith

same_point_sound : (p q : Point) → same_point p q ≡ true → p ≡ q
unfolding same_point
same_point_sound (x, y) (x', y') h = λ i.
    (same_axis x x' (ground arith) (ground arith) i, same_axis y y' (ground arith) (ground arith) i)

still_axis : (x x' : ℤ) → x' -ℤ x ≡ pos 0 → x ≡ x'
still_axis x x' e = sym (+ℤ_zero x) ∙ ap (λ z. x +ℤ z) (sym e) ∙ +ℤ_reach x x'

module _ (steps : ℕ) (some_steps : 0 < steps) where
  from_axis : (x z : ℤ) → x ≡ x +ℤ round_div (scale 0 z) steps
  from_axis x z = sym (+ℤ_zero x) ∙ ap (λ w. x +ℤ w) (sym (round_div_zero z steps some_steps))

  to_axis : (x x' : ℤ) → x +ℤ round_div (scale (0 + steps) (x' -ℤ x)) steps ≡ x'
  to_axis x x' =
      ap (λ n. x +ℤ round_div (scale n (x' -ℤ x)) steps) (omega arith)
      ∙ ap (λ w. x +ℤ w) (round_div_exact steps (x' -ℤ x) some_steps)
      ∙ +ℤ_reach x x'

  travel-whole :
      (x y x' y' : ℤ)
      → travel (x, y) (relative_loop steps 1 (x' -ℤ x, y' -ℤ y) steps (pos 0, pos 0)) ≡ (x', y')
  unfolding reached
  travel-whole x y x' y' =
      let d : Point = (x' -ℤ x, y' -ℤ y) in
      (λ i.
        travel (from_axis x (x' -ℤ x) i, from_axis y (y' -ℤ y) i)
          (relative_loop steps 1 d steps (
            sym (round_div_zero (x' -ℤ x) steps some_steps) i,
            sym (round_div_zero (y' -ℤ y) steps some_steps) i,
          )))
      ∙ travel-relative_loop (x' -ℤ x) (y' -ℤ y) steps x y steps 0
      ∙ (λ i. (to_axis x x' i, to_axis y y' i))

  -- The steps of a segment make up its whole way.
  pub travel-generate_relative_steps :
      (x y x' y' : ℤ) → travel (x, y) (generate_relative_steps (x' -ℤ x, y' -ℤ y) steps) ≡ (x', y')
  unfolding generate_relative_steps
  travel-generate_relative_steps x y x' y' =
      elim (Bool-cases (same_point (x' -ℤ x, y' -ℤ y) (pos 0, pos 0))) [
        | inl c ↦ rw c (
            let e = same_point_sound (x' -ℤ x, y' -ℤ y) (pos 0, pos 0) c in
            λ i. (
              still_axis x x' (ap (λ (p : Point). p.0) e) i,
              still_axis y y' (ap (λ (p : Point). p.1) e) i,
            ))
        | inr c ↦ rw c (travel-whole x y x' y')
      ]

  travel-path_steps :
      (p : Point) (ps : List Point) → travel p (path_steps steps p ps) ≡ last_of p ps
  unfolding path_steps
  travel-path_steps p [] = refl
  travel-path_steps (x, y) ((x', y') ∷ ps) =
      travel-append (x, y) (generate_relative_steps (x' -ℤ x, y' -ℤ y) steps)
        (path_steps steps (x', y') ps)
      ∙ ap (λ (p : Point). travel p (path_steps steps (x', y') ps))
          (travel-generate_relative_steps x y x' y')
      ∙ travel-path_steps (x', y') ps

moved-step :
    (p d : Point) (cs : List Xdo)
    → moved p (step_command d ∷ cs) ≡ moved (p.0 +ℤ d.0, p.1 +ℤ d.1) cs
unfolding step_command
moved-step p (dx, dy) cs = ground arith

moved-step_commands :
    (delay : ℤ) (total i : ℕ) (p : Point) (ds : List Point)
    → moved p (step_commands delay total i ds) ≡ travel p ds
unfolding step_commands
moved-step_commands delay total i p [] = refl
moved-step_commands delay total i p (d ∷ ds) =
    let q : Point = (p.0 +ℤ d.0, p.1 +ℤ d.1) in
    moved-step p d _ ∙ ground (arith, moved-step_commands delay total (i + 1) q ds)

segment_steps-positive : (o : Option ℤ) → 0 < segment_steps o
unfolding segment_steps
segment_steps-positive none = omega arith
segment_steps-positive (some (pos n)) = ground arith
segment_steps-positive (some (negsuc n)) = ground arith

-- The commands of a linear drag bring the pointer from the first point to the last.
pub moved-linear_commands :
    (body : DragMouseRequest) (start : Point) (rest : List Point)
    → moved start (linear_commands body start rest) ≡ last_of start rest
unfolding linear_commands
moved-linear_commands body start rest =
    moved-step_commands _ _ 0 start _
    ∙ travel-path_steps (segment_steps body.steps_per_segment)
        (segment_steps-positive body.steps_per_segment) start rest

moved_paused :
    (p : Point) (b : Bool) (ms : ℤ) (cs : List Xdo)
    → moved p (if b then sleep ms ∷ cs else cs) ≡ moved p cs
moved_paused p true ms cs = refl
moved_paused p false ms cs = refl

-- So do those of a smooth drag, with the points of its trajectory.
pub moved-smooth_commands :
    (env : Env) (total i : ℕ) (p : Point) (ps : List Point)
    → moved p (smooth_commands env total i p ps) ≡ last_of p ps
unfolding smooth_commands relative
moved-smooth_commands env total i p [] = refl
moved-smooth_commands env total i (x, y) ((x', y') ∷ ps) =
    let rest = smooth_commands env total (i + 1) (x', y') ps in
    let ih = moved-smooth_commands env total (i + 1) (x', y') ps in
    elim (Bool-cases (same_point (x, y) (x', y'))) [
      | inl c ↦ rw c (ap (λ (p : Point). moved p rest) (same_point_sound (x, y) (x', y') c) ∙ ih)
      | inr c ↦ rw c (
          moved_paused _ (ltb i total) _ rest
          ∙ (λ j. moved (+ℤ_reach x x' j, +ℤ_reach y y' j) rest)
          ∙ ih)
    ]
