-- ===== src/Display/Budget.antt =====
-- What a new segment may still use of the limits of its recording.
use popcorn_images.Base.{
  ℕ, ℤ, pos, negsuc, ◌*◌, ◌/◌, ◌+◌, ◌-◌, ◌-ℤ◌, ◌≤◌, ◌<◌, ◌≡◌, ◌==◌, ◌++◌, refl, Option, none, some,
  Bool, true, false, ◌||◌, ◌&&◌, Text, Error, codes, join_path, leb, leb_ℤ, ltb_ℤ, ltb, arith,
  Bool-cases, inl, inr, if-Holds, if◌then◌else◌, is_some,
}
use popcorn_images.Recorder.Arguments.{Params, validate, require, check_duration}
use popcorn_images.Display.Segments.{
  StoppedRecordingInfo, seconds, megabytes, remaining, adjust_duration, adjust_size, segment_size,
  adjust_params,
}

-- What is left of a limit in seconds, with the nanoseconds that are used: together less than a
-- second over the limit, and not under it; or 1, which is at least what is left.
abbrev pub seconds_left : ℕ → ℤ → ℤ → Bool
seconds_left used (pos limit) (pos r) =
    leb (limit * 1000000000) (r * 1000000000 + used)
    && (ltb (r * 1000000000 + used) (limit * 1000000000 + 1000000000) || (r == 1))
seconds_left used (negsuc k) (pos r) = r == 1
seconds_left used limit (negsuc k) = false

-- What is left of a limit in megabytes, with the bytes that are used: together not over the limit,
-- and less than a megabyte under it; or 1.
abbrev pub megabytes_left : ℕ → ℤ → ℤ → Bool
megabytes_left used (pos limit) (pos r) =
    ltb (limit * 1048576) (r * 1048576 + used + 1048576)
    && (leb (r * 1048576 + used) (limit * 1048576) || (r == 1))
megabytes_left used (negsuc k) (pos r) = r == 1
megabytes_left used limit (negsuc k) = false

-- Without a limit there is none; where it is not known what is used the limit stays.
abbrev pub Keeps : (ℕ → ℤ → ℤ → Bool) → Option ℕ → Option ℤ → Option ℤ → Type 0
Keeps left none limit value = value ≡ limit
Keeps left (some used) none value = value ≡ none
Keeps left (some used) (some limit) value = (r : ℤ) × (value ≡ some r) × (left used limit r ≡ true)

-- The nanoseconds that the recording ran
abbrev pub elapsed : StoppedRecordingInfo → Option ℕ
elapsed info = if ltb 0 info.end_time then some (info.end_time - info.start_time) else none

-- The bytes of its file
abbrev pub file_size : (Text → Option ℕ) → Text → Option Text → Option ℕ
file_size stat id none = none
file_size stat id (some dir) = stat (join_path dir (id ++ codes ".mp4"))

seconds_bounds :
    (used : ℕ)
    → (used / 1000000000 * 1000000000 ≤ used) × (used < used / 1000000000 * 1000000000 + 1000000000)
seconds_bounds used = (omega arith, omega arith)

megabytes_bounds :
    (used : ℕ)
    → (used ≤ (used + 1048575) / 1048576 * 1048576)
      × ((used + 1048575) / 1048576 * 1048576 < used + 1048576)
megabytes_bounds used = (omega arith, omega arith)

left_seconds :
    (used q : ℕ) (limit : ℤ)
    → q * 1000000000 ≤ used
    → used < q * 1000000000 + 1000000000
    → seconds_left used limit (remaining limit (pos q)) ≡ true
unfolding remaining ◌-ℤ◌
left_seconds used q (pos limit) l u = ground (arith, l, u)
left_seconds used q (negsuc k) l u = ground arith

left_megabytes :
    (used q : ℕ) (limit : ℤ)
    → used ≤ q * 1048576
    → q * 1048576 < used + 1048576
    → megabytes_left used limit (remaining limit (pos q)) ≡ true
unfolding remaining ◌-ℤ◌
left_megabytes used q (pos limit) l u = ground (arith, l, u)
left_megabytes used q (negsuc k) l u = ground arith

remaining-positive : (limit used : ℤ) → leb_ℤ (remaining limit used) (pos 0) ≡ false
unfolding remaining
remaining-positive limit used =
    if-Holds (λ r. leb_ℤ r (pos 0) ≡ false) (ltb_ℤ (limit -ℤ used) (pos 1)) _ _ (λ c. refl)
      (λ c. ground (arith, c))

require_map :
    {A : Type 0} (o o' : Option A) (e : Error) (rest rest' : Option Error)
    → is_some o' ≡ is_some o
    → (rest ≡ none → rest' ≡ none)
    → require o e rest ≡ none
    → require o' e rest' ≡ none
unfolding require
require_map none o' e rest rest' s k h = ground (arith, h)
require_map (some a) none e rest rest' s k h = ground (arith, s)
require_map (some a) (some b) e rest rest' s k h = k h

adjust_size-is_some : (size : Option ℕ) (o : Option ℤ) → is_some (adjust_size size o) ≡ is_some o
unfolding adjust_size
adjust_size-is_some size none = refl
adjust_size-is_some none (some limit) = refl
adjust_size-is_some (some n) (some limit) = refl

adjust_duration-check :
    (begun ended : ℕ) (o : Option ℤ)
    → check_duration o ≡ none
    → check_duration (adjust_duration begun ended o) ≡ none
unfolding adjust_duration check_duration
adjust_duration-check begun ended none h = refl
adjust_duration-check begun ended (some limit) h = elim (Bool-cases (ltb 0 ended)) [
  | inl c ↦ rw (c, remaining-positive limit (seconds begun ended)) refl
  | inr c ↦ rw c h
]

adjust_params-validate :
    (stat : Text → Option ℕ) (info : StoppedRecordingInfo)
    → validate info.params ≡ none
    → validate (adjust_params stat info) ≡ none
unfolding validate adjust_params
adjust_params-validate stat info h =
    let p : Params = info.params in
    require_map p.output_dir p.output_dir _ _ _ refl
      (require_map p.frame_rate p.frame_rate _ _ _ refl (
        require_map p.display_num p.display_num _ _ _ refl (
          require_map p.max_size_in_mb _ _ _ _ (adjust_size-is_some _ p.max_size_in_mb)
            (adjust_duration-check info.start_time info.end_time p.max_duration_in_seconds))))
      h

adjust_duration-Keeps :
    (begun ended : ℕ) (o : Option ℤ)
    → (0 < ended → begun ≤ ended)
    → Keeps seconds_left
        (if ltb 0 ended then some (ended - begun) else none)
        o
        (adjust_duration begun ended o)
unfolding adjust_duration seconds
adjust_duration-Keeps begun ended none h = elim (Bool-cases (ltb 0 ended)) [
  | inl c ↦ rw c refl
  | inr c ↦ rw c refl
]
adjust_duration-Keeps begun ended (some limit) h = elim (Bool-cases (ltb 0 ended)) [
  | inl c ↦
      let (l, u) = seconds_bounds (ended - begun) in
      let b : leb begun ended ≡ true = ground (arith, h, c) in
      rw (c, b) (_, refl, left_seconds (ended - begun) _ limit l u)
  | inr c ↦ rw c refl
]

adjust_size-Keeps :
    (size : Option ℕ) (o : Option ℤ) → Keeps megabytes_left size o (adjust_size size o)
unfolding adjust_size megabytes
adjust_size-Keeps none none = refl
adjust_size-Keeps none (some limit) = refl
adjust_size-Keeps (some n) none = refl
adjust_size-Keeps (some n) (some limit) =
    let (l, u) = megabytes_bounds n in
    (remaining limit (megabytes n), refl, left_megabytes n _ limit l u)

file_size-Keeps :
    (stat : Text → Option ℕ) (id : Text) (dir : Option Text) (o : Option ℤ)
    → Keeps megabytes_left (file_size stat id dir) o (adjust_size (segment_size stat id dir) o)
unfolding segment_size
file_size-Keeps stat id none o = adjust_size-Keeps none o
file_size-Keeps stat id (some dir) o =
    adjust_size-Keeps (stat (join_path dir (id ++ codes ".mp4"))) o

-- For a stopped recording with valid parameters, whose end, if it is known, is not before its start:
-- the parameters of a new segment are valid. Its limit of the duration, in seconds, with the
-- nanoseconds that the stopped recording ran, is the limit that the recording had or less than a
-- second over it, or it is 1 where at most a second is left. Its limit of the size, in megabytes,
-- with the bytes of the file of the stopped recording, is the limit that the recording had or less
-- than a megabyte under it, or it is 1 where less than two are left. A limit stays as it was where
-- the end or the size is not known, and there is none where there was none.
pub adjust_params-within :
    (stat : Text → Option ℕ) (info : StoppedRecordingInfo)
    → validate info.params ≡ none
    → (0 < info.end_time → info.start_time ≤ info.end_time)
    → (validate (adjust_params stat info) ≡ none)
      × Keeps seconds_left
          (elapsed info)
          info.params.max_duration_in_seconds
          (adjust_params stat info).max_duration_in_seconds
      × Keeps megabytes_left
          (file_size stat info.id info.params.output_dir)
          info.params.max_size_in_mb
          (adjust_params stat info).max_size_in_mb
unfolding adjust_params
adjust_params-within stat info h ordered = (
  adjust_params-validate stat info h,
  adjust_duration-Keeps info.start_time info.end_time info.params.max_duration_in_seconds ordered,
  file_size-Keeps stat info.id info.params.output_dir info.params.max_size_in_mb,
)
