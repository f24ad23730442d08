-- ===== src/Display/Reported.antt =====
-- The resolution that the server reports is the last one that was asked for.
use popcorn_images.Base.{
  ℕ, ℤ, pos, negsuc, ◌≡◌, refl, Option, none, some, is_some, List, [], ◌∷◌, Bool, true, false,
  arith, ltb_ℤ, Bool-cases, inl, inr,
}
use popcorn_images.Display.{
  Size, Holder, nobody, background, synchronous, Display, Event, fast, locked, sync_locked, resized,
  same_size, matches, set_override, check_override, lock_background, lock_sync, finish, step, run,
  get_current_resolution,
}

-- What a resize of Xvfb makes the last request: a synchronous one that returned nil. Without an
-- override a failed one may leave Xvfb at any size.
abbrev finished_size : Holder → Bool → Bool → Size → Size → Size
finished_size nobody fine overridden left last = last
finished_size (background z) fine overridden left last = last
finished_size (synchronous z) true overridden left last = z
finished_size (synchronous z) false true left last = last
finished_size (synchronous z) false false left last = left

abbrev pub asked : Display → Size → Event → Size
asked d last (fast size rate) = size
asked d last (resized fine left) = finished_size d.holder fine (is_some d.override) left last
asked d last e = last

abbrev pub last_asked : Display → Size → List Event → Size
last_asked d last [] = last
last_asked d last (e ∷ es) = last_asked (step d e) (asked d last e) es

abbrev pub IsRequested : Size → Holder → Type 0
IsRequested left nobody = Unit
IsRequested left (background z) = left ≡ z
IsRequested left (synchronous z) = left ≡ z

-- Each resize for which resizeXvfb returns nil leaves Xvfb at the size that was requested.
abbrev pub AreKept : Display → List Event → Type 0
AreKept d [] = Unit
AreKept d (resized true left ∷ es) =
    IsRequested left d.holder × AreKept (step d (resized true left)) es
AreKept d (e ∷ es) = AreKept (step d e) es

abbrev holds_background : Holder → Bool
holds_background (background z) = true
holds_background h = false

record Tracks (d : Display) (last : Size) : Type 0 where
  reported : get_current_resolution d ≡ last
  pending : holds_background d.holder ≡ true → is_some d.override ≡ true

same_axis : (x x' : ℤ) → ltb_ℤ x x' ≡ false → ltb_ℤ x' x ≡ false → x ≡ x'
same_axis (pos m) (pos n) h k = ground arith
same_axis (pos m) (negsuc n) h k = ground arith
same_axis (negsuc m) (pos n) h k = ground arith
same_axis (negsuc m) (negsuc n) h k = ground arith

same_size_sound : (a b : Size) → same_size a b ≡ true → a ≡ b
unfolding same_size
same_size_sound a b h =
    let w = same_axis a.width b.width (ground (arith, h)) (ground (arith, h)) in
    let e = same_axis a.height b.height (ground (arith, h)) (ground (arith, h)) in
    λ i. record { width = w i; height = e i }

background-Tracks :
    (d : Display) (last size left : Size)
    → d.holder ≡ background size
    → left ≡ size
    → Tracks d last
    → Tracks (finish true left (background size) d) last
unfolding finish get_current_resolution
background-Tracks d last size left b q t = background-found d.override refl
  where
    background-found :
        (o : Option (Size × ℤ))
        → d.override ≡ o
        → Tracks (finish true left (background size) d) last
    background-found none e = record {
      reported = ground (arith, b, e, t.pending);
      pending = ground arith;
    }
    background-found (some (z, rate)) e = elim (Bool-cases (same_size z size)) [
      | inl m ↦ record {
        reported = ground (arith, e, m, q, t.reported, same_size_sound z size m);
        pending = ground arith;
      }
      | inr m ↦ record { reported = ground (arith, e, m, t.reported); pending = ground arith }
    ]

failed-Tracks :
    (d : Display) (last left : Size) (h : Holder)
    → d.holder ≡ h
    → Tracks d last
    → Tracks (finish false left h d) (finished_size h false (is_some d.override) left last)
unfolding finish get_current_resolution
failed-Tracks d last left h b t = failed-found h d.override b refl
  where
    failed-found :
        (h : Holder) (o : Option (Size × ℤ))
        → d.holder ≡ h
        → d.override ≡ o
        → Tracks (finish false left h d) (finished_size h false (is_some d.override) left last)
    failed-found nobody o b e = t
    failed-found (background z) o b e = record {
      reported = ground (arith, b, e, t.pending, t.reported);
      pending = ground arith;
    }
    failed-found (synchronous z) none b e = record {
      reported = ground (arith, e);
      pending = ground arith;
    }
    failed-found (synchronous z) (some (y, rate)) b e = record {
      reported = ground (arith, e, t.reported);
      pending = ground arith;
    }

fine-Tracks :
    (d : Display) (last left : Size) (h : Holder)
    → d.holder ≡ h
    → IsRequested left h
    → Tracks d last
    → Tracks (finish true left h d) (finished_size h true (is_some d.override) left last)
unfolding finish get_current_resolution
fine-Tracks d last left nobody b q t = t
fine-Tracks d last left (background size) b q t = background-Tracks d last size left b q t
fine-Tracks d last left (synchronous size) b q t = record { reported = q; pending = ground arith }

check-Tracks :
    (d : Display) (last : Size) (o : Option Size) (rest : List Size)
    → Tracks d last
    → Tracks (check_override (o, rest) d) last
unfolding check_override get_current_resolution
check-Tracks d last none rest t = t
check-Tracks d last (some size) rest t = elim (Bool-cases (matches size d.override)) [
  | inl m ↦ rw m (record { reported = t.reported; pending = λ h. ground (arith, m) })
  | inr m ↦ rw m (record { reported = t.reported; pending = t.pending })
]

lock-Tracks :
    (d : Display) (last : Size) (i : ℕ) (h : Holder)
    → Tracks d last
    → Tracks (lock_background i h d) last
unfolding lock_background
lock-Tracks d last i nobody t = check-Tracks d last _ _ t
lock-Tracks d last i (background z) t = t
lock-Tracks d last i (synchronous z) t = t

sync-Tracks :
    (d : Display) (last size : Size) (h : Holder) → Tracks d last → Tracks (lock_sync size h d) last
unfolding lock_sync get_current_resolution
sync-Tracks d last size nobody t = record { reported = t.reported; pending = ground arith }
sync-Tracks d last size (background z) t = t
sync-Tracks d last size (synchronous z) t = t

set-Tracks : (d : Display) (last size : Size) (rate : ℤ) → Tracks (set_override size rate d) size
unfolding get_current_resolution set_override
set-Tracks d last size rate = record { reported = refl; pending = λ h. refl }

run-Tracks :
    (d : Display) (last : Size) (es : List Event)
    → AreKept d es
    → Tracks d last
    → Tracks (run d es) (last_asked d last es)
unfolding run step
run-Tracks d last [] k t = t
run-Tracks d last (fast size rate ∷ es) k t =
    run-Tracks (step d (fast size rate)) size es k (set-Tracks d last size rate)
run-Tracks d last (locked i ∷ es) k t =
    run-Tracks (step d (locked i)) last es k (lock-Tracks d last i d.holder t)
run-Tracks d last (sync_locked size ∷ es) k t =
    run-Tracks (step d (sync_locked size)) last es k (sync-Tracks d last size d.holder t)
run-Tracks d last (resized true left ∷ es) (q, k) t =
    run-Tracks (step d (resized true left)) _ es k (fine-Tracks d last left d.holder refl q t)
run-Tracks d last (resized false left ∷ es) k t =
    run-Tracks (step d (resized false left)) _ es k (failed-Tracks d last left d.holder refl t)

-- From a display with no resize under way, after any fast and synchronous resizes and any moves of
-- the background resizes, in any order and whichever of them fail, where each resize of Xvfb for
-- which resizeXvfb returns nil leaves Xvfb at the requested size: the resolution that the server
-- reports is that of the resize that took effect last, a fast one when it set the override and a
-- synchronous one when resizeXvfb returned nil for it, or else, of a synchronous one that failed
-- with no override set, the size that it left Xvfb with. A background resize never changes it.
pub run-reported :
    (d : Display) (es : List Event)
    → d.holder ≡ nobody
    → AreKept d es
    → get_current_resolution (run d es) ≡ last_asked d (get_current_resolution d) es
run-reported d es idle kept =
    (run-Tracks d (get_current_resolution d) es kept
      (record { reported = refl; pending = ground (arith, idle) })).reported
