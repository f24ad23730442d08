-- ===== src/Flags/Examples.antt =====
-- The theorems on the flags at concrete tokens and files.
use popcorn_images.Base.{
  ◌≡◌, refl, none, some, List, [], ◌∷◌, not, ◌&&◌, ◌||◌, Text, codes, is_empty, has_prefix, text_eq,
  trim_space, trim_prefix, split, join, mem, if◌then◌else◌,
}
use popcorn_images.Policy.{written}
use popcorn_images.Flags.{
  append_parts, append_csv_into, parse_token, parse_token_stream, keep_new, union, merged_load,
  ext_flags, merge_flags,
}
use popcorn_images.Flags.Members.{IsUnique, paths, is_ordinary}
use popcorn_images.Flags.Merging.{disables, loads, merge_flags-mem}
use popcorn_images.Flags.File.{
  missing, merge_extension_loop, merge_extension_path, patch_chromium_flags,
}
use popcorn_images.Flags.Patching.{Patched, patch_chromium_flags-Patched}

abbrev base_tokens : List Text
base_tokens = codes "--headless" ∷ codes "--load-extension=/a,/b" ∷ []

abbrev runtime_tokens : List Text
runtime_tokens =
    codes "--headless" ∷ codes "--disable-extensions-except=/b, /c" ∷ codes "--mute" ∷ []

merge_flags-tokens :
    merge_flags base_tokens runtime_tokens
    ≡ codes "--headless" ∷ codes "--mute" ∷ codes "--load-extension=/a,/b,/c" ∷ []
unfolding merge_flags parse_token_stream parse_token append_csv_into append_parts keep_new union
    merged_load ext_flags has_prefix text_eq trim_space is_empty mem split trim_prefix join
merge_flags-tokens = refl

merge_extension_path-twice :
    merge_extension_path (codes "--load-extension=/a" ∷ codes "--mute" ∷ []) (codes "/b")
    ≡ codes "--load-extension=/a,/b" ∷ codes "--mute" ∷ []
unfolding merge_extension_path merge_extension_loop has_prefix trim_prefix
merge_extension_path-twice = refl

merge_flags-mem_example :
    (ps : List Text) × IsUnique ps
    × ((p : Text)
        → mem p ps
          ≡ not (is_empty p) && (mem p (paths base_tokens) || mem p (paths runtime_tokens)))
    × ((v : Text)
        → mem v (merge_flags base_tokens runtime_tokens) ≡ (
            if is_ordinary v
            then not (is_empty v) && (mem v base_tokens || mem v runtime_tokens)
            else if disables base_tokens runtime_tokens
            then text_eq (codes "--disable-extensions") v
            else loads ps v))
merge_flags-mem_example = merge_flags-mem base_tokens runtime_tokens

patch_chromium_flags-Patched_example :
    Patched runtime_tokens missing
      (patch_chromium_flags none written none (some runtime_tokens) missing).1
      (patch_chromium_flags none written none (some runtime_tokens) missing).0
patch_chromium_flags-Patched_example =
    patch_chromium_flags-Patched none written none (some runtime_tokens) missing
