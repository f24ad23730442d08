-- ===== src/Json.antt =====
-- JSON values as package encoding/json decodes and encodes them, and the folding of member names
-- under which it finds a struct's field.
use popcorn_images.Base.{
  ℕ, ℤ, ◌-◌, ◌≡◌, refl, Option, none, some, List, [], ◌∷◌, Bool, ◌&&◌, map, Text, Assoc, text_eq,
  leb, ◌==◌, if◌then◌else◌, arith,
}

-- A float64 that is equal to float64(int(f)) is whole.
pub data Number : Type 0 where
  whole : ℤ → Number
  fraction : Text → Number

mutual
  pub data Json : Type 0 where
    null : Json
    bool : Bool → Json
    number : Number → Json
    string : Text → Json
    array : Items → Json
    object : Fields → Json

  pub data Items : Type 0 where
    nil : Items
    cons : Json → Items → Items

  pub data Fields : Type 0 where
    end : Fields
    field : Text → Json → Fields → Fields

unfoldable pub members : Fields → Assoc Json
members end = []
members (field k v fs) = (k, v) ∷ members fs

unfoldable pub to_fields : Assoc Json → Fields
to_fields [] = end
to_fields ((k, v) ∷ fs) = field k v (to_fields fs)

pub members-to_fields : (fs : Assoc Json) → members (to_fields fs) ≡ fs
unfolding members to_fields
members-to_fields [] = refl
members-to_fields ((k, v) ∷ fs) = ground (arith, members-to_fields fs)

-- []string
unfoldable pub encode_texts : List Text → Items
encode_texts [] = nil
encode_texts (t ∷ ts) = cons (string t) (encode_texts ts)

push : Option Text → Option (List Text) → Option (List Text)
push (some t) (some ts) = some (t ∷ ts)
push (some t) none = none
push none ts = none

-- A string; null leaves the old value.
unfoldable pub decode_text : Text → Json → Option Text
decode_text old null = some old
decode_text old (string t) = some t
decode_text old other = none

unfoldable pub decode_items : Items → Option (List Text)
unfolding push decode_text
decode_items nil = some []
decode_items (cons j js) = push (decode_text [] j) (decode_items js)

-- A slice of strings; null makes it nil, which reads as empty.
unfoldable pub decode_texts : Json → Option (List Text)
unfolding decode_items
decode_texts null = some []
decode_texts (array js) = decode_items js
decode_texts other = none

pub decode_items-encode_texts : (ts : List Text) → decode_items (encode_texts ts) ≡ some ts
unfolding decode_items encode_texts
decode_items-encode_texts [] = refl
decode_items-encode_texts (t ∷ ts) = ground (arith, decode_items-encode_texts ts)

-- foldRune on the characters that fold to an ASCII letter: the lower case, the long s and the
-- Kelvin sign.
fold_char : ℕ → ℕ
fold_char c =
    if leb b'a' c && leb c b'z'
    then c - 32
    else if c == 0x17F
    then b'S'
    else if c == 0x212A
    then b'K'
    else c

-- foldName
unfoldable pub fold_name : Text → Text
unfolding fold_char
fold_name = map fold_char

-- A member of this name sets the field of that name.
unfoldable pub sets : Text → Text → Bool
unfolding fold_name text_eq
sets key name = text_eq (fold_name key) (fold_name name)
