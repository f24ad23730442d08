-- ===== src/Computer/Clamping.antt =====
-- clampPoints of cmd/api/api/computer.go and the checks of a point.
use popcorn_images.Base.{
  ℕ, suc, ℤ, pos, negsuc, ◌≡◌, refl, sym, ap, ◌∙◌, List, [], ◌∷◌, Bool, true, not, ◌&&◌, ◌↔◌, ltb_ℤ,
  ◌-ℤ◌, arith,
}
use popcorn_images.Computer.{Point}
use popcorn_images.Computer.Mouse.{clamp_axis, clamp_point, clamp_points}

-- A coordinate on an axis of a screen.
abbrev pub is_within : ℤ → ℤ → Bool
is_within size v = not (ltb_ℤ v (pos 0)) && ltb_ℤ v size

abbrev pub is_on : Point → Point → Bool
is_on screen p = is_within screen.0 p.0 && is_within screen.1 p.1

abbrev pub all_on : Point → List Point → Bool
all_on screen [] = true
all_on screen (p ∷ ps) = is_on screen p && all_on screen ps

clamp_axis-within : (w : ℕ) (v : ℤ) → is_within (pos (suc w)) (clamp_axis v (pos (suc w))) ≡ true
unfolding clamp_axis ◌-ℤ◌
clamp_axis-within w (pos n) = ground arith
clamp_axis-within w (negsuc n) = ground arith

clamp_axis_same :
    (w : ℕ) (v : ℤ) → is_within (pos (suc w)) v ≡ true → clamp_axis v (pos (suc w)) ≡ v
unfolding clamp_axis ◌-ℤ◌
clamp_axis_same w (pos n) h = ground arith
clamp_axis_same w (negsuc n) h = ground arith

-- The points of a trajectory are brought onto the screen.
pub clamp_points_on :
    (w h : ℕ) (ps : List Point)
    → all_on (pos (suc w), pos (suc h)) (clamp_points (pos (suc w), pos (suc h)) ps) ≡ true
unfolding clamp_points clamp_point
clamp_points_on w h [] = refl
clamp_points_on w h ((x, y) ∷ ps) =
    ground (arith, clamp_axis-within w x, clamp_axis-within h y, clamp_points_on w h ps)

-- Points that are on the screen stay as they are.
pub clamp_points_same :
    (w h : ℕ) (ps : List Point)
    → all_on (pos (suc w), pos (suc h)) ps ≡ true
    → clamp_points (pos (suc w), pos (suc h)) ps ≡ ps
unfolding clamp_points clamp_point
clamp_points_same w h [] e = refl
clamp_points_same w h ((x, y) ∷ ps) e =
    let ex = clamp_axis_same w x (ground (arith, e)) in
    let ey = clamp_axis_same h y (ground (arith, e)) in
    λ i. (ex i, ey i) ∷ clamp_points_same w h ps (ground (arith, e)) i

-- Clamping brings every point onto a screen that is not empty, and it leaves a list of points as it
-- is exactly when all of them are on the screen.
pub clamp_points-bounds :
    (w h : ℕ) (ps : List Point)
    → (all_on (pos (suc w), pos (suc h)) (clamp_points (pos (suc w), pos (suc h)) ps) ≡ true)
      × ((clamp_points (pos (suc w), pos (suc h)) ps ≡ ps)
          ↔ (all_on (pos (suc w), pos (suc h)) ps ≡ true))
clamp_points-bounds w h ps = (
  clamp_points_on w h ps,
  (
    λ e. ap (all_on (pos (suc w), pos (suc h))) (sym e) ∙ clamp_points_on w h ps,
    clamp_points_same w h ps,
  ),
)
