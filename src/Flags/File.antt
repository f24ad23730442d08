-- ===== src/Flags/File.antt =====
-- The flags file of lib/chromiumflags/chromiumflags.go, and mergeAndWriteChromiumFlags and
-- PatchChromiumFlags of cmd/api/api/chromium.go. What the operating system and the restart answer is
-- an argument.
use popcorn_images.Base.{
  ◌>>=◌, Option, none, some, List, [], ◌∷◌, ◌++◌, Bool, true, false, not, Text, Error, codes, Assoc,
  is_empty, has_prefix, trim_prefix, trim_space, if◌then◌else◌,
}
use popcorn_images.Json.{
  Json, null, array, object, end, field, members, encode_texts, decode_items, sets,
}
use popcorn_images.Policy.{Write, open_failed, write_failed, written}
use popcorn_images.Flags.{load_prefix, merge_flags}

-- /chromium/flags: missing, not readable, white space, no JSON, or JSON.
pub data FlagsFile : Type 0 where
  missing blank garbage : FlagsFile
  unreadable : Error → FlagsFile
  contents : Json → FlagsFile

pub data FlagsError : Type 0 where
  read_error mkdir_error write_error restart_error : Error → FlagsError
  parse_error missing_flags : FlagsError

pub data Result : Type 0 where
  ok : List Text → Result
  err : FlagsError → Result

-- The loops that trim tokens and drop the empty ones.
unfoldable pub normalize : List Text → List Text
normalize [] = []
normalize (t ∷ ts) =
    let rest = normalize ts in if is_empty (trim_space t) then rest else trim_space t ∷ rest

decode_flags_value : Json → Option (Option (List Text))
decode_flags_value null = some none
decode_flags_value (array js) = decode_items js >>= λ ts. some (some ts)
decode_flags_value other = none

-- json.Unmarshal into a FlagsFile; the inner `none` is the nil slice
unfoldable pub decode_flags : Assoc Json → Option (List Text) → Option (Option (List Text))
unfolding decode_flags_value
decode_flags [] flags = some flags
decode_flags ((k, v) ∷ fs) flags =
    (if sets k (codes "flags") then decode_flags_value v else some flags) >>= decode_flags fs

read_decoded : Option (Option (List Text)) → Result
read_decoded none = err parse_error
read_decoded (some none) = err missing_flags
read_decoded (some (some ts)) = ok (normalize ts)

read_json : Json → Result
unfolding read_decoded
read_json null = err missing_flags
read_json (object fs) = read_decoded (decode_flags (members fs) none)
read_json other = err parse_error

-- ReadOptionalFlagFile
unfoldable pub read_optional_flag_file : FlagsFile → Result
unfolding read_json
read_optional_flag_file missing = ok []
read_optional_flag_file blank = ok []
read_optional_flag_file garbage = err parse_error
read_optional_flag_file (unreadable e) = err (read_error e)
read_optional_flag_file (contents j) = read_json j

-- WriteFlagFile
unfoldable pub write_flag_file : Write → List Text → FlagsFile → Option FlagsError × FlagsFile
write_flag_file written ts f =
    (none, contents (object (field (codes "flags") (array (encode_texts (normalize ts))) end)))
write_flag_file (open_failed e) ts f = (some (write_error e), f)
write_flag_file (write_failed e) ts f = (some (write_error e), garbage)

-- writeChromiumFlags; the argument in front is what os.MkdirAll answers
unfoldable pub write_chromium_flags :
    Option Error → Write → List Text → FlagsFile → Option FlagsError × FlagsFile
unfolding write_flag_file
write_chromium_flags none w ts f = write_flag_file w ts f
write_chromium_flags (some e) w ts f = (some (mkdir_error e), f)

unfoldable pub written_tokens : List Text → Option FlagsError × FlagsFile → Result × FlagsFile
written_tokens ts (none, f) = (ok ts, f)
written_tokens ts (some e, f) = (err e, f)

unfoldable pub merge_read :
    Option Error → Write → List Text → Result → FlagsFile → Result × FlagsFile
unfolding written_tokens
merge_read mkdir w new_tokens (err e) f = (err e, f)
merge_read mkdir w new_tokens (ok existing) f =
    let merged = merge_flags existing new_tokens in
    written_tokens merged (write_chromium_flags mkdir w merged f)

-- mergeAndWriteChromiumFlags
unfoldable pub merge_and_write_chromium_flags :
    Option Error → Write → List Text → FlagsFile → Result × FlagsFile
unfolding merge_read
merge_and_write_chromium_flags mkdir w new_tokens f =
    merge_read mkdir w new_tokens (read_optional_flag_file f) f

-- MergeExtensionPath, with whether the loop has found the flag
unfoldable pub merge_extension_loop : Text → Bool → List Text → List Text
merge_extension_loop ext found [] = if found then [] else (load_prefix ++ ext) ∷ []
merge_extension_loop ext found (arg ∷ args) =
    if has_prefix arg load_prefix
    then (load_prefix ++ (trim_prefix arg load_prefix ++ (codes "," ++ ext)))
      ∷ merge_extension_loop ext true args
    else arg ∷ merge_extension_loop ext found args

unfoldable pub merge_extension_path : List Text → Text → List Text
merge_extension_path args ext = merge_extension_loop ext false args

pub data Response : Type 0 where
  body_required flag_required empty_flag updated : Response
  invalid_flag : Text → Response
  internal_error : FlagsError → Response

-- The first flag that is not well formed.
unfoldable pub check_flags : List Text → Option Response
check_flags [] = none
check_flags (flag ∷ flags) =
    let rest = check_flags flags in
    if is_empty (trim_space flag)
    then some empty_flag
    else if not (has_prefix (trim_space flag) (codes "--"))
    then some (invalid_flag flag)
    else rest

unfoldable pub restarted : Option Error → Result × FlagsFile → Response × FlagsFile
restarted answer (err e, f) = (internal_error e, f)
restarted none (ok ts, f) = (updated, f)
restarted (some e) (ok ts, f) = (internal_error (restart_error e), f)

unfoldable pub patch_checked :
    Option Error
    → Write
    → Option Error
    → List Text
    → Option Response
    → FlagsFile
    → Response × FlagsFile
unfolding restarted
patch_checked mkdir w restart flags (some r) f = (r, f)
patch_checked mkdir w restart flags none f =
    restarted restart (merge_and_write_chromium_flags mkdir w flags f)

-- PatchChromiumFlags
unfoldable pub patch_chromium_flags :
    Option Error → Write → Option Error → Option (List Text) → FlagsFile → Response × FlagsFile
unfolding patch_checked
patch_chromium_flags mkdir w restart none f = (body_required, f)
patch_chromium_flags mkdir w restart (some []) f = (flag_required, f)
patch_chromium_flags mkdir w restart (some (flag ∷ flags)) f =
    patch_checked mkdir w restart (flag ∷ flags) (check_flags (flag ∷ flags)) f
