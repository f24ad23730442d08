-- ===== src/Flags.antt =====
-- lib/chromiumflags/chromiumflags.go: Chromium's flags as tokens, the merge of two token streams,
-- and the flags file. Of cmd/api/api/chromium.go: mergeAndWriteChromiumFlags and the checks of
-- PatchChromiumFlags.
pub mod Merging
pub mod Members
pub mod File
pub mod Patching
mod Examples
use popcorn_images.Base.{
  ℕ, Option, none, some, List, [], ◌∷◌, ◌++◌, Bool, true, false, not, ◌&&◌, ◌||◌, Text, Error,
  codes, text_eq, is_empty, has_prefix, trim_prefix, trim_space, fields, split, join, mem,
  if◌then◌else◌,
}

-- parseFlags
unfoldable pub parse_flags : Text → List Text
parse_flags input = fields (trim_space input)

-- The loop of appendCSVInto over the parts.
unfoldable pub append_parts : List Text → List Text → List Text
append_parts dst [] = dst
append_parts dst (part ∷ parts) =
    append_parts (if is_empty (trim_space part) then dst else dst ++ trim_space part ∷ []) parts

-- appendCSVInto
unfoldable pub append_csv_into : List Text → Text → List Text
append_csv_into dst csv = append_parts dst (split csv b',')

abbrev pub load_prefix : Text
load_prefix = codes "--load-extension="

abbrev pub except_prefix : Text
except_prefix = codes "--disable-extensions-except="

abbrev pub disable_flag : Text
disable_flag = codes "--disable-extensions"

-- What parseTokenStream fills; an empty disable_all is that no token set it.
pub record Buckets : Type 0 where
  pub load : List Text
  pub except : List Text
  pub disable_all : Text
  pub non_ext : List Text

abbrev pub no_buckets : Buckets
no_buckets = record { load = []; except = []; disable_all = []; non_ext = [] }

unfoldable pub parse_token : Text → Buckets → Buckets
parse_token tok b =
    if has_prefix tok load_prefix
    then record b { load = append_csv_into b.load (trim_prefix tok load_prefix) }
    else if has_prefix tok except_prefix
    then record b { except = append_csv_into b.except (trim_prefix tok except_prefix) }
    else if text_eq tok disable_flag
    then record b { disable_all = tok }
    else record b { non_ext = b.non_ext ++ tok ∷ [] }

-- parseTokenStream
unfoldable pub parse_token_stream : List Text → Buckets → Buckets
parse_token_stream [] b = b
parse_token_stream (tok ∷ tokens) b = parse_token_stream tokens (parse_token tok b)

-- The loop of union and the last one of MergeFlags: out holds just the texts that seen holds.
unfoldable pub keep_new : List Text → List Text → List Text
keep_new out [] = out
keep_new out (v ∷ vs) =
    keep_new (if is_empty v then out else if mem v out then out else out ++ v ∷ []) vs

unfoldable pub union : List Text → List Text → List Text
union base rt = keep_new [] (base ++ rt)

unfoldable pub merged_load : Buckets → Buckets → List Text
merged_load base rt = union (union (union base.load rt.load) base.except) rt.except

unfoldable pub no_texts : List Text → Bool
no_texts [] = true
no_texts (t ∷ ts) = false

unfoldable pub load_flag : List Text → List Text
load_flag [] = []
load_flag (p ∷ ps) = (load_prefix ++ join (p ∷ ps) (codes ",")) ∷ []

unfoldable pub ext_flags : Buckets → Buckets → List Text
unfolding load_flag no_texts
ext_flags base rt =
    if not (is_empty rt.disable_all)
    then rt.disable_all ∷ []
    else if not (is_empty base.disable_all) && (no_texts rt.load && no_texts rt.except)
    then base.disable_all ∷ []
    else load_flag (merged_load base rt)

-- MergeFlags
unfoldable pub merge_flags : List Text → List Text → List Text
merge_flags base_tokens runtime_tokens =
    let base = parse_token_stream base_tokens no_buckets in
    let rt = parse_token_stream runtime_tokens no_buckets in
    keep_new [] ((base.non_ext ++ rt.non_ext) ++ ext_flags base rt)

-- MergeFlagsWithRuntimeTokens
unfoldable pub merge_flags_with_runtime_tokens : Text → List Text → List Text
merge_flags_with_runtime_tokens base_flags runtime_tokens =
    merge_flags (parse_flags base_flags) runtime_tokens
