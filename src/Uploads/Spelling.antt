-- ===== src/Uploads/Spelling.antt =====
-- The spellings of a field of UploadFiles mean the same.
use popcorn_images.Base.{
  ℕ, pos, ◌≡◌, refl, some, [], ◌∷◌, ◌++◌, Bool, true, false, ◌==◌, Text, codes, text_eq, itoa,
  atoi-itoa, is_int64, is_digit, is_free, cut-part, all_digits, all_digits-itoa, atoi, split, cut,
  arith, has_prefix, trim_prefix,
}
use popcorn_images.Process.Command.{cut_at, put_front}
use popcorn_images.Uploads.Fields.{
  natural, with_index, ends_in, drop_last, unbracket, bracketed, is_field, dotted,
  parse_index_and_field,
}

digit-differs : (sep c : ℕ) → is_digit c ≡ true → is_digit sep ≡ false → (c == sep) ≡ false
digit-differs sep c d h = ground (arith, d, h)

cut_at-digits :
    (sep : ℕ) (s t : Text)
    → all_digits s ≡ true
    → is_digit sep ≡ false
    → cut_at sep (s ++ sep ∷ t) ≡ some (s, t)
unfolding cut_at put_front
cut_at-digits sep [] t p h = ground arith
cut_at-digits sep (c ∷ s) t p h =
    rw (digit-differs sep c (ground (arith, p)) h, cut_at-digits sep s t (ground (arith, p)) h) refl

digits-is_free :
    (sep : ℕ) (s : Text) → all_digits s ≡ true → is_digit sep ≡ false → is_free sep s ≡ true
digits-is_free sep [] p h = refl
digits-is_free sep (c ∷ s) p h = ground (arith, p, digit-differs sep c, h, digits-is_free sep s)

-- The spellings with an index and brackets, or with dots
abbrev pub dot_name : Text → Text → Text
dot_name index field = codes "files[" ++ (index ++ (codes "]." ++ field))

abbrev pub bracket_name : Text → Text → Text
bracket_name index field = codes "files[" ++ (index ++ (codes "][" ++ (field ++ codes "]")))

abbrev pub dots_name : Text → Text → Text
dots_name index field = codes "files." ++ (index ++ (codes "." ++ field))

module _ (n : ℕ) (small : is_int64 (pos n) ≡ true) where
  index-natural : natural (atoi (itoa (pos n))) ≡ some n
  unfolding natural
  index-natural = rw (atoi-itoa (pos n) small) refl

  -- Behind the bracket of the index
  bracketed-index :
      (rest field : Text)
      → unbracket (trim_prefix rest (codes ".")) ≡ field
      → bracketed (cut_at b']' (itoa (pos n) ++ b']' ∷ rest)) ≡ some (n, field)
  unfolding bracketed with_index
  bracketed-index rest field h =
      rw (cut_at-digits b']' (itoa (pos n)) rest (all_digits-itoa n) refl, index-natural, h) refl

  dot_name-index :
      (field : Text)
      → unbracket field ≡ field
      → parse_index_and_field (dot_name (itoa (pos n)) field) ≡ some (n, field)
  unfolding parse_index_and_field is_field has_prefix trim_prefix text_eq
  dot_name-index field h = bracketed-index (codes "." ++ field) field h

  bracket_name-index :
      (field : Text)
      → unbracket (codes "[" ++ (field ++ codes "]")) ≡ field
      → parse_index_and_field (bracket_name (itoa (pos n)) field) ≡ some (n, field)
  unfolding parse_index_and_field is_field has_prefix trim_prefix text_eq
  bracket_name-index field h = bracketed-index (codes "[" ++ (field ++ codes "]")) field h

  dotted-index :
      (field : Text)
      → cut b'.' [] field ≡ field ∷ []
      → dotted (split (dots_name (itoa (pos n)) field) b'.') ≡ some (n, field)
  unfolding dotted split with_index
  dotted-index field h =
      rw
        (
          cut-part b'.' [] (codes "files") (itoa (pos n) ++ b'.' ∷ field) refl,
          cut-part b'.' [] (itoa (pos n)) field
              (digits-is_free b'.' (itoa (pos n)) (all_digits-itoa n) refl),
          h,
          index-natural,
        )
        refl

  dots_name-index :
      (field : Text)
      → cut b'.' [] field ≡ field ∷ []
      → parse_index_and_field (dots_name (itoa (pos n)) field) ≡ some (n, field)
  unfolding parse_index_and_field is_field has_prefix text_eq
  dots_name-index field h = dotted-index field h

  spellings :
      (field : Text)
      → unbracket field ≡ field
      → unbracket (codes "[" ++ (field ++ codes "]")) ≡ field
      → cut b'.' [] field ≡ field ∷ []
      → (parse_index_and_field (dot_name (itoa (pos n)) field) ≡ some (n, field))
        × (parse_index_and_field (bracket_name (itoa (pos n)) field) ≡ some (n, field))
        × (parse_index_and_field (dots_name (itoa (pos n)) field) ≡ some (n, field))
  spellings field d b p =
      (dot_name-index field d, bracket_name-index field b, dots_name-index field p)

abbrev pub field_name : Bool → Text
field_name true = codes "file"
field_name false = codes "dest_path"

-- For an index that fits in 64 bits, printed in digits, and the field "file" or "dest_path": the
-- three spellings files[n].field, files[n][field] and files.n.field are read as this index and
-- field.
pub parse_index_and_field-spellings :
    (n : ℕ) (is_file : Bool)
    → is_int64 (pos n) ≡ true
    → (parse_index_and_field (dot_name (itoa (pos n)) (field_name is_file))
        ≡ some (n, field_name is_file))
      × (parse_index_and_field (bracket_name (itoa (pos n)) (field_name is_file))
          ≡ some (n, field_name is_file))
      × (parse_index_and_field (dots_name (itoa (pos n)) (field_name is_file))
          ≡ some (n, field_name is_file))
unfolding unbracket ends_in drop_last cut
parse_index_and_field-spellings n true small = spellings n small (codes "file") refl refl refl
parse_index_and_field-spellings n false small = spellings n small (codes "dest_path") refl refl refl
