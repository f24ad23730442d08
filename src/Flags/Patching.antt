-- ===== src/Flags/Patching.antt =====
-- What PatchChromiumFlags leaves in the flags file.
use popcorn_images.Base.{
  ◌≢◌, ◌≡◌, refl, Option, none, some, List, [], ◌∷◌, Text, Error, ◌⊎◌, inl, inr,
  trim_space-trim_space, arith,
}
use popcorn_images.Json.{decode_items-encode_texts, members, sets}
use popcorn_images.Policy.{Write, open_failed, write_failed, written}
use popcorn_images.Flags.{merge_flags}
use popcorn_images.Flags.File.{
  FlagsFile, garbage, Result, ok, err, normalize, decode_flags, read_optional_flag_file,
  write_flag_file, write_chromium_flags, merge_and_write_chromium_flags, Response, updated,
  internal_error, check_flags, patch_chromium_flags, merge_read, written_tokens, patch_checked,
  restarted,
}

normalize-normalize : (ts : List Text) → normalize (normalize ts) ≡ normalize ts
unfolding normalize
normalize-normalize [] = refl
normalize-normalize (t ∷ ts) = ground (arith, normalize-normalize ts, trim_space-trim_space t)

-- What is written reads back, normalized.
read-write :
    (ts : List Text) (f : FlagsFile)
    → read_optional_flag_file (write_flag_file written ts f).1 ≡ ok (normalize ts)
unfolding read_optional_flag_file write_flag_file decode_flags members sets
read-write ts f = rw (decode_items-encode_texts, normalize-normalize) refl

-- The file reads as before it, merged with these flags and normalized.
abbrev pub IsMerged : List Text → FlagsFile → FlagsFile → Type 0
IsMerged flags f f' =
    (existing : List Text) × (read_optional_flag_file f ≡ ok existing)
    × (read_optional_flag_file f' ≡ ok (normalize (merge_flags existing flags)))

-- How the flags file before and after a request answer to the response.
abbrev pub Patched : List Text → FlagsFile → FlagsFile → Response → Type 0
Patched flags f f' updated = IsMerged flags f f'
Patched flags f f' (internal_error e) = (f' ≡ f) ⊎ ((f' ≡ garbage) ⊎ IsMerged flags f f')
Patched flags f f' other = f' ≡ f

abbrev Written : List Text → FlagsFile → Result × FlagsFile → Type 0
Written flags f (ok ts, f') = IsMerged flags f f'
Written flags f (err e, f') = (f' ≡ f) ⊎ ((f' ≡ garbage) ⊎ IsMerged flags f f')

merge_read-Written :
    (mkdir : Option Error) (w : Write) (flags : List Text) (f : FlagsFile) (r : Result)
    → read_optional_flag_file f ≡ r
    → Written flags f (merge_read mkdir w flags r f)
unfolding merge_read written_tokens write_chromium_flags write_flag_file
merge_read-Written mkdir w flags f (err e) h = inl refl
merge_read-Written (some e) w flags f (ok ts) h = inl refl
merge_read-Written none written flags f (ok ts) h =
    (ts, h, unfold write_flag_file in read-write (merge_flags ts flags) f)
merge_read-Written none (open_failed e) flags f (ok ts) h = inl refl
merge_read-Written none (write_failed e) flags f (ok ts) h = inr (inl refl)

restarted-Patched :
    (answer : Option Error) (flags : List Text) (f : FlagsFile) (r : Result × FlagsFile)
    → Written flags f r
    → Patched flags f (restarted answer r).1 (restarted answer r).0
unfolding restarted
restarted-Patched answer flags f (err e, f') w = w
restarted-Patched none flags f (ok ts, f') w = w
restarted-Patched (some e) flags f (ok ts, f') w = inr (inr w)

check_flags-refuses : (fs : List Text) → check_flags fs ≢ some updated
unfolding check_flags
check_flags-refuses [] h = ground arith
check_flags-refuses (flag ∷ fs) h = ground (arith, check_flags-refuses fs)

check_flags-Patched :
    (fs flags : List Text) (f : FlagsFile) (r : Response)
    → check_flags fs ≡ some r
    → Patched flags f f r
check_flags-Patched fs flags f updated h = absurd (check_flags-refuses fs h)
check_flags-Patched fs flags f (internal_error e) h = inl refl
check_flags-Patched fs flags f other h = refl

-- The flags of a request.
abbrev pub flags_of : Option (List Text) → List Text
flags_of none = []
flags_of (some flags) = flags

-- Whatever the operating system and the restart answer: a request that is refused leaves the flags
-- file as it was. After one that is answered with success the file reads as the flags that it read
-- as before, merged with those of the request, each trimmed. After one that fails it is as it was,
-- or half written and no JSON, or it is merged (and the restart has failed).
pub patch_chromium_flags-Patched :
    (mkdir : Option Error) (w : Write) (restart : Option Error) (body : Option (List Text))
    (f : FlagsFile)
    → Patched
        (flags_of body)
        f
        (patch_chromium_flags mkdir w restart body f).1
        (patch_chromium_flags mkdir w restart body f).0
unfolding patch_chromium_flags patch_checked merge_and_write_chromium_flags
patch_chromium_flags-Patched mkdir w restart none f = refl
patch_chromium_flags-Patched mkdir w restart (some []) f = refl
patch_chromium_flags-Patched mkdir w restart (some (flag ∷ flags)) f =
    checked (check_flags (flag ∷ flags)) refl
  where
    checked :
        (c : Option Response)
        → check_flags (flag ∷ flags) ≡ c
        → Patched
            (flag ∷ flags)
            f
            (patch_checked mkdir w restart (flag ∷ flags) c f).1
            (patch_checked mkdir w restart (flag ∷ flags) c f).0
    checked none h =
        restarted-Patched restart (flag ∷ flags) f _
          (merge_read-Written mkdir w (flag ∷ flags) f (read_optional_flag_file f) refl)
    checked (some r) h = check_flags-Patched (flag ∷ flags) (flag ∷ flags) f r h
