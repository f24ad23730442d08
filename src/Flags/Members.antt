-- ===== src/Flags/Members.antt =====
-- What the loops of chromiumflags.go collect, by membership.
use popcorn_images.Base.{
  ◌≡◌, refl, ◌∙◌, List, [], ◌∷◌, ◌++◌, Bool, true, false, not, ◌&&◌, ◌||◌, Text, text_eq,
  text_eq_iff, is_empty, has_prefix, trim_prefix, trim_space, split, mem, mem-append, if◌then◌else◌,
  arith, Bool-cases, inl, inr,
}
use popcorn_images.Flags.{
  append_parts, append_csv_into, load_prefix, except_prefix, disable_flag, Buckets, no_buckets,
  parse_token, parse_token_stream, keep_new, union, merged_load, no_texts,
}

-- A list without empty texts and without repetitions.
abbrev pub IsUnique : List Text → Type 0
IsUnique [] = Unit
IsUnique (v ∷ vs) = (is_empty v ≡ false) × (mem v vs ≡ false) × IsUnique vs

snoc-IsUnique :
    (v : Text) (vs : List Text)
    → is_empty v ≡ false
    → mem v vs ≡ false
    → IsUnique vs
    → IsUnique (vs ++ v ∷ [])
unfolding mem
snoc-IsUnique v [] e n u = (e, refl, tt)
snoc-IsUnique v (w ∷ vs) e n (f, m, u) = (
  f,
  mem-append w vs (v ∷ []) ∙ ground (arith, text_eq_iff v w, text_eq_iff w v),
  snoc-IsUnique v vs e (ground arith) u,
)

pub keep_new-IsUnique : (out vs : List Text) → IsUnique out → IsUnique (keep_new out vs)
unfolding keep_new
keep_new-IsUnique out [] u = u
keep_new-IsUnique out (v ∷ vs) u =
    keep_new-IsUnique (if is_empty v then out else if mem v out then out else out ++ v ∷ []) vs
      (ground (arith, snoc-IsUnique v out))

pub mem-keep_new :
    (v : Text) (out vs : List Text)
    → mem v (keep_new out vs) ≡ mem v out || (not (is_empty v) && mem v vs)
unfolding keep_new mem
mem-keep_new v out [] = ground arith
mem-keep_new v out (w ∷ vs) =
    mem-keep_new v (if is_empty w then out else if mem w out then out else out ++ w ∷ []) vs
    ∙ ground (arith, mem-append v out (w ∷ []), text_eq_iff w v)

-- The paths that a token names, and those that a stream names.
abbrev pub paths_of : Text → List Text
paths_of tok =
    if has_prefix tok load_prefix
    then append_csv_into [] (trim_prefix tok load_prefix)
    else if has_prefix tok except_prefix
    then append_csv_into [] (trim_prefix tok except_prefix)
    else []

abbrev pub paths : List Text → List Text
paths [] = []
paths (tok ∷ tokens) = paths_of tok ++ paths tokens

-- A token that has nothing to do with extensions.
abbrev pub is_ordinary : Text → Bool
is_ordinary tok =
    not (has_prefix tok load_prefix)
    && (not (has_prefix tok except_prefix) && not (text_eq tok disable_flag))

mem-append_parts :
    (p : Text) (dst parts : List Text)
    → mem p (append_parts dst parts) ≡ mem p dst || mem p (append_parts [] parts)
unfolding append_parts mem
mem-append_parts p dst [] = ground arith
mem-append_parts p dst (part ∷ parts) = elim (Bool-cases (is_empty (trim_space part))) [
  | inl e ↦ rw e (mem-append_parts p dst parts)
  | inr e ↦ rw e (
      mem-append_parts p (dst ++ trim_space part ∷ []) parts
      ∙ ground (
        arith,
        mem-append p dst (trim_space part ∷ []),
        mem-append_parts p (trim_space part ∷ []) parts,
      ))
]

pub mem-non_ext :
    (v : Text) (tokens : List Text) (b : Buckets)
    → mem v (parse_token_stream tokens b).non_ext
      ≡ mem v b.non_ext || (is_ordinary v && mem v tokens)
unfolding parse_token_stream parse_token mem
mem-non_ext v [] b = ground arith
mem-non_ext v (tok ∷ tokens) b = ground (
  arith,
  mem-non_ext v tokens (parse_token tok b),
  mem-append v b.non_ext (tok ∷ []),
  text_eq_iff tok v,
)

disable_flag-plain :
    (tok : Text)
    → text_eq tok disable_flag ≡ true
    → (has_prefix tok load_prefix ≡ false) × (has_prefix tok except_prefix ≡ false)
unfolding has_prefix
disable_flag-plain tok h = rw ((text_eq_iff tok disable_flag).0 h) (refl, refl)

pub disable_all-mem :
    (tokens : List Text) (b : Buckets)
    → (parse_token_stream tokens b).disable_all
      ≡ (if mem disable_flag tokens then disable_flag else b.disable_all)
unfolding parse_token_stream parse_token mem
disable_all-mem [] b = refl
disable_all-mem (tok ∷ tokens) b =
    disable_all-mem tokens (parse_token tok b)
    ∙ ground (arith, text_eq_iff tok disable_flag, disable_flag-plain tok)

mem-buckets :
    (p : Text) (tokens : List Text) (b : Buckets)
    → mem p (parse_token_stream tokens b).load || mem p (parse_token_stream tokens b).except
      ≡ (mem p b.load || mem p b.except) || mem p (paths tokens)
unfolding parse_token_stream parse_token append_csv_into mem
mem-buckets p [] b = ground arith
mem-buckets p (tok ∷ tokens) b =
    mem-buckets p tokens (parse_token tok b)
    ∙ ground (
      arith,
      mem-append p (paths_of tok) (paths tokens),
      mem-append_parts p b.load (split (trim_prefix tok load_prefix) b','),
      mem-append_parts p b.except (split (trim_prefix tok except_prefix) b','),
    )

no_texts-append : (xs ys : List Text) → no_texts (xs ++ ys) ≡ no_texts xs && no_texts ys
unfolding no_texts
no_texts-append [] ys = refl
no_texts-append (x ∷ xs) ys = refl

no_texts-append_parts :
    (dst parts : List Text)
    → no_texts (append_parts dst parts) ≡ no_texts dst && no_texts (append_parts [] parts)
unfolding append_parts no_texts
no_texts-append_parts dst [] = ground arith
no_texts-append_parts dst (part ∷ parts) = elim (Bool-cases (is_empty (trim_space part))) [
  | inl e ↦ rw e (no_texts-append_parts dst parts)
  | inr e ↦ rw e (
      no_texts-append_parts (dst ++ trim_space part ∷ []) parts
      ∙ ground (
        arith,
        no_texts-append dst (trim_space part ∷ []),
        no_texts-append_parts (trim_space part ∷ []) parts,
      ))
]

pub no_texts-buckets :
    (tokens : List Text) (b : Buckets)
    → no_texts (parse_token_stream tokens b).load && no_texts (parse_token_stream tokens b).except
      ≡ (no_texts b.load && no_texts b.except) && no_texts (paths tokens)
unfolding parse_token_stream parse_token append_csv_into
no_texts-buckets [] b = unfold no_texts in ground arith
no_texts-buckets (tok ∷ tokens) b =
    no_texts-buckets tokens (parse_token tok b)
    ∙ ground (
      arith,
      no_texts-append (paths_of tok) (paths tokens),
      no_texts-append_parts b.load (split (trim_prefix tok load_prefix) b','),
      no_texts-append_parts b.except (split (trim_prefix tok except_prefix) b','),
    )

pub mem-merged_load :
    (p : Text) (base rt : List Text)
    → mem p (merged_load (parse_token_stream base no_buckets) (parse_token_stream rt no_buckets))
      ≡ not (is_empty p) && (mem p (paths base) || mem p (paths rt))
unfolding merged_load union mem
mem-merged_load p base rt =
    let b = parse_token_stream base no_buckets in
    let r = parse_token_stream rt no_buckets in
    let u = keep_new [] (b.load ++ r.load) in
    let w = keep_new [] (u ++ b.except) in
    ground (
      arith,
      mem-keep_new p [] (b.load ++ r.load),
      mem-append p b.load r.load,
      mem-keep_new p [] (u ++ b.except),
      mem-append p u b.except,
      mem-keep_new p [] (w ++ r.except),
      mem-append p w r.except,
      mem-buckets p base no_buckets,
      mem-buckets p rt no_buckets,
    )
