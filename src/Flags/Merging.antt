-- ===== src/Flags/Merging.antt =====
-- What MergeFlags emits.
use popcorn_images.Base.{
  ◌≡◌, refl, ◌∙◌, List, [], ◌∷◌, ◌++◌, Bool, true, false, not, ◌&&◌, ◌||◌, Text, codes, text_eq,
  text_eq_iff, is_empty, has_prefix, has_prefix-append, join, mem, mem-append, if◌then◌else◌, arith,
  subst,
}
use popcorn_images.Flags.{
  load_prefix, disable_flag, Buckets, no_buckets, parse_token_stream, merged_load, no_texts,
  load_flag, ext_flags, merge_flags, union,
}
use popcorn_images.Flags.Members.{
  IsUnique, keep_new-IsUnique, mem-keep_new, paths, is_ordinary, mem-non_ext, disable_all-mem,
  no_texts-buckets, mem-merged_load,
}

-- Extensions are disabled: by the runtime, or by the base where the runtime names no extension.
abbrev pub disables : List Text → List Text → Bool
disables base rt = mem disable_flag rt || (mem disable_flag base && no_texts (paths rt))

-- The token that loads these extensions, if there are any.
abbrev pub loads : List Text → Text → Bool
loads ps v = not (no_texts ps) && text_eq (load_prefix ++ join ps (codes ",")) v

mem-load_flag : (ps : List Text) (v : Text) → mem v (load_flag ps) ≡ loads ps v
unfolding load_flag no_texts mem
mem-load_flag [] v = refl
mem-load_flag (p ∷ ps) v = ground arith

mem-ext_flags :
    (base rt : List Text) (v : Text)
    → mem v (ext_flags (parse_token_stream base no_buckets) (parse_token_stream rt no_buckets)) ≡ (
        if disables base rt
        then text_eq disable_flag v
        else loads
            (merged_load (parse_token_stream base no_buckets) (parse_token_stream rt no_buckets))
            v)
unfolding ext_flags mem is_empty no_texts
mem-ext_flags base rt v = ground (
  arith,
  disable_all-mem base no_buckets,
  disable_all-mem rt no_buckets,
  no_texts-buckets rt no_buckets,
  mem-load_flag
      (merged_load (parse_token_stream base no_buckets) (parse_token_stream rt no_buckets)) v,
)

-- The merge of two token streams emits no empty token and none twice.
pub merge_flags-IsUnique : (base rt : List Text) → IsUnique (merge_flags base rt)
unfolding merge_flags
merge_flags-IsUnique base rt = keep_new-IsUnique [] _ tt

load-is_ordinary : (ps : List Text) (v : Text) → loads ps v ≡ true → is_ordinary v ≡ false
load-is_ordinary ps v h = ground (
  arith,
  text_eq_iff (load_prefix ++ join ps (codes ",")) v,
  has_prefix-append load_prefix (join ps (codes ",")),
)

load-not_empty : (ps : List Text) (v : Text) → loads ps v ≡ true → is_empty v ≡ false
unfolding is_empty text_eq
load-not_empty ps [] h = ground arith
load-not_empty ps (c ∷ v) h = refl

disable_flag-is_ordinary :
    (v : Text) → text_eq disable_flag v ≡ true → (is_ordinary v ≡ false) × (is_empty v ≡ false)
unfolding is_empty has_prefix text_eq
disable_flag-is_ordinary v h =
    subst (λ t. (is_ordinary t ≡ false) × (is_empty t ≡ false)) ((text_eq_iff disable_flag v).0 h)
      (refl, refl)

merged_load-IsUnique : (b r : Buckets) → IsUnique (merged_load b r)
unfolding merged_load union
merged_load-IsUnique b r = keep_new-IsUnique [] _ tt

-- The paths after a merge are, without repetitions, those that a token of either stream names with
-- --load-extension or --disable-extensions-except. A token is emitted just if it is an ordinary
-- one of either stream and not empty; or --disable-extensions, where the runtime stream has it, or
-- the base stream has it and no token of the runtime stream, --load-extension or
-- --disable-extensions-except, names a path; or, where that is not so and there are paths, the
-- --load-extension token of all of them. No other extension token is emitted.
pub merge_flags-mem :
    (base rt : List Text)
    → (ps : List Text) × IsUnique ps
      × ((p : Text) → mem p ps ≡ not (is_empty p) && (mem p (paths base) || mem p (paths rt)))
      × ((v : Text)
          → mem v (merge_flags base rt) ≡ (
              if is_ordinary v
              then not (is_empty v) && (mem v base || mem v rt)
              else if disables base rt
              then text_eq disable_flag v
              else loads ps v))
unfolding merge_flags mem
merge_flags-mem base rt =
    let b = parse_token_stream base no_buckets in
    let r = parse_token_stream rt no_buckets in
    let ps = merged_load b r in
    (
      ps,
      merged_load-IsUnique b r,
      λ p. mem-merged_load p base rt,
      λ v.
          mem-keep_new v [] ((b.non_ext ++ r.non_ext) ++ ext_flags b r)
          ∙ ground (
            arith,
            mem-append v (b.non_ext ++ r.non_ext) (ext_flags b r),
            mem-append v b.non_ext r.non_ext,
            mem-non_ext v base no_buckets,
            mem-non_ext v rt no_buckets,
            mem-ext_flags base rt v,
            text_eq_iff disable_flag v,
            load-is_ordinary ps v,
            load-not_empty ps v,
            disable_flag-is_ordinary v,
          ),
    )
