-- ===== src/Recorder/Arguments.antt =====
-- The recording parameters of lib/recorder/ffmpeg.go and ffmpeg's command line. A pointer field is
-- an `Option`; a nil dereference in `ffmpegArgs` is a panic.
use popcorn_images.Base.{
  ℤ, pos, leb_ℤ, itoa, ◌≡◌, refl, Option, none, some, List, [], ◌∷◌, ◌++◌, Text, Error, codes,
  if◌then◌else◌, false, arith, ◌≢◌, Option-cases, inl, inr,
}

pub record Params : Type 0 where
  pub frame_rate : Option ℤ
  pub display_num : Option ℤ
  pub max_size_in_mb : Option ℤ
  pub max_duration_in_seconds : Option ℤ
  pub output_dir : Option Text

unfoldable pub check_duration : Option ℤ → Option Error
check_duration none = none
check_duration (some d) =
    if leb_ℤ d (pos 0) then some (codes "max duration must be greater than 0 seconds") else none

unfoldable pub require {ℓ} : {A : Type ℓ} → Option A → Error → Option Error → Option Error
require none e rest = some e
require (some a) e rest = rest

-- (p FFmpegRecordingParams) Validate
unfoldable pub validate : Params → Option Error
unfolding require check_duration
validate p = require p.output_dir (codes "output directory is required") (
    require p.frame_rate (codes "frame rate is required") (
      require p.display_num (codes "display number is required") (
        require p.max_size_in_mb (codes "max size in MB is required")
          (check_duration p.max_duration_in_seconds))))

abbrev override {ℓ} : {A : Type ℓ} → Option A → Option A → Option A
override config none = config
override config (some v) = some v

-- mergeFFmpegRecordingParams
unfoldable pub merge : Params → Params → Params
merge config overrides = record {
  frame_rate = override config.frame_rate overrides.frame_rate;
  display_num = override config.display_num overrides.display_num;
  max_size_in_mb = override config.max_size_in_mb overrides.max_size_in_mb;
  max_duration_in_seconds =
      override config.max_duration_in_seconds overrides.max_duration_in_seconds;
  output_dir = override config.output_dir overrides.output_dir;
}

-- runtime.GOOS
pub data Platform : Type 0 where
  darwin linux : Platform
  unsupported : Text → Platform

-- What a function that may fail or panic does.
pub data Outcome (A : Type 0) : Type 0 where
  ok : A → Outcome A
  err : Error → Outcome A
  panics : Outcome A

abbrev deref : {A B : Type 0} → Option A → (A → Outcome B) → Outcome B
deref none f = panics
deref (some a) f = f a

-- X11 screen capture; AVFoundation on darwin, with no audio
pub linux_input : ℤ → ℤ → List Text
linux_input rate display =
    codes "-f"
    ∷ codes "x11grab"
    ∷ codes "-framerate"
    ∷ itoa rate
    ∷ codes "-i"
    ∷ (codes ":" ++ itoa display)
    ∷ []

pub darwin_input : ℤ → ℤ → List Text
darwin_input rate display =
    codes "-f"
    ∷ codes "avfoundation"
    ∷ codes "-framerate"
    ∷ itoa rate
    ∷ codes "-pixel_format"
    ∷ codes "nv12"
    ∷ codes "-i"
    ∷ (itoa display ++ codes ":none")
    ∷ []

input_args : Platform → Params → Outcome (List Text)
input_args darwin p =
    deref p.frame_rate λ rate. deref p.display_num λ display. ok (darwin_input rate display)
input_args linux p =
    deref p.frame_rate λ rate. deref p.display_num λ display. ok (linux_input rate display)
input_args (unsupported name) p = err (codes "unsupported platform: " ++ name)

unfoldable pub output_args : ℤ → List Text
output_args max_size =
    codes "-c:v"
    ∷ codes "libx264"
    ∷ codes "-profile:v"
    ∷ codes "high"
    ∷ codes "-pix_fmt"
    ∷ codes "yuv420p"
    ∷ codes "-use_wallclock_as_timestamps"
    ∷ codes "1"
    ∷ codes "-reset_timestamps"
    ∷ codes "1"
    ∷ codes "-avoid_negative_ts"
    ∷ codes "make_zero"
    ∷ codes "-movflags"
    ∷ codes "+frag_keyframe+empty_moov"
    ∷ codes "-frag_duration"
    ∷ codes "2000000"
    ∷ codes "-fs"
    ∷ (itoa max_size ++ codes "M")
    ∷ codes "-y"
    ∷ []

unfoldable pub duration_args : Option ℤ → List Text
duration_args none = []
duration_args (some d) = codes "-t" ∷ itoa d ∷ []

abbrev bind : {A B : Type 0} → Outcome A → (A → Outcome B) → Outcome B
bind (ok a) f = f a
bind (err e) f = err e
bind panics f = panics

-- ffmpegArgs
unfoldable pub ffmpeg_args : Platform → Params → Text → Outcome (List Text)
unfolding input_args output_args duration_args
ffmpeg_args os p output_path = bind (input_args os p) λ input. deref p.max_size_in_mb λ max_size.
    ok (
      input
      ++ (output_args max_size ++ (duration_args p.max_duration_in_seconds ++ output_path ∷ [])))

-- The value is the first one where there is one, and the second one otherwise.
abbrev pub IsFirst {ℓ} : {A : Type ℓ} → Option A → Option A → Option A → Type ℓ
IsFirst {A} first second value =
    ((a : A) → first ≡ some a → value ≡ some a) × (first ≡ none → value ≡ second)

override-IsFirst {ℓ} : {A : Type ℓ} (config o : Option A) → IsFirst o config (override config o)
override-IsFirst config none = (λ a e. ground (arith, e), λ e. refl)
override-IsFirst config (some v) = (λ a e. e, λ e. ground (arith, e))

-- Where the configured parameters pass Validate and the duration among the overrides, if any, is
-- positive, the merged parameters pass it, and each of the five is the override where there is one
-- and the configured one otherwise.
pub merge-validate :
    (config overrides : Params)
    → validate config ≡ none
    → ((d : ℤ) → overrides.max_duration_in_seconds ≡ some d → leb_ℤ d (pos 0) ≡ false)
    → (validate (merge config overrides) ≡ none)
      × IsFirst overrides.frame_rate config.frame_rate (merge config overrides).frame_rate
      × IsFirst overrides.display_num config.display_num (merge config overrides).display_num
      × IsFirst overrides.max_size_in_mb config.max_size_in_mb
          (merge config overrides).max_size_in_mb
      × IsFirst overrides.max_duration_in_seconds config.max_duration_in_seconds
          (merge config overrides).max_duration_in_seconds
      × IsFirst overrides.output_dir config.output_dir (merge config overrides).output_dir
unfolding validate merge
merge-validate config overrides h positive = (
  elim (Option-cases overrides.max_duration_in_seconds) [
    | inl e ↦ ground arith
    | inr (d, e) ↦ ground (arith, positive d e)
  ],
  override-IsFirst config.frame_rate overrides.frame_rate,
  override-IsFirst config.display_num overrides.display_num,
  override-IsFirst config.max_size_in_mb overrides.max_size_in_mb,
  override-IsFirst config.max_duration_in_seconds overrides.max_duration_in_seconds,
  override-IsFirst config.output_dir overrides.output_dir,
)

option_value {ℓ} : {A : Type ℓ} (o : Option A) → o ≢ none → (a : A) × (o ≡ some a)
option_value none h = absurd (h refl)
option_value (some a) h = (a, refl)

-- Parameters that pass Validate give a command line on linux: no pointer is nil when it is read.
-- It is the capture of the configured display at the configured rate, the fixed output arguments
-- with the size limit, a duration limit if there is one, and the output path at the end. On a
-- platform other than linux and darwin an error says so.
pub ffmpeg_args-linux :
    (p : Params) (output_path : Text)
    → validate p ≡ none
    → ((rate : ℤ) × (display : ℤ) × (size : ℤ) × (p.frame_rate ≡ some rate)
        × (p.display_num ≡ some display)
        × (p.max_size_in_mb ≡ some size)
        × (ffmpeg_args linux p output_path
            ≡ ok (
                linux_input rate display
                ++ (output_args size
                    ++ (duration_args p.max_duration_in_seconds ++ output_path ∷ [])))))
      × ((name : Text)
          → ffmpeg_args (unsupported name) p output_path
            ≡ err (codes "unsupported platform: " ++ name))
unfolding validate ffmpeg_args
ffmpeg_args-linux p output_path h =
    let (rate, er) = option_value p.frame_rate (λ e. ground arith) in
    let (display, ed) = option_value p.display_num (λ e. ground arith) in
    let (size, es) = option_value p.max_size_in_mb (λ e. ground arith) in
    ((rate, display, size, er, ed, es, ground arith), λ name. refl)
