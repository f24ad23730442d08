-- ===== src/Uploads/Fields.antt =====
-- parseIndexAndField of UploadFiles: the spellings of a form field, and what they have in common.
use popcorn_images.Base.{
  ℕ, pos, negsuc, ℤ, Option, none, some, List, [], ◌∷◌, Bool, false, ◌&&◌, ◌||◌, not, ◌==◌, Text,
  codes, text_eq, has_prefix, trim_prefix, split, atoi, if◌then◌else◌,
}
use popcorn_images.Process.Command.{cut_at}

-- The index of a file and its field
abbrev pub Field : Type 0
Field = Option (ℕ × Text)

unfoldable pub natural : Option ℤ → Option ℕ
natural none = none
natural (some (pos n)) = some n
natural (some (negsuc n)) = none

unfoldable pub with_index : Text → Option ℕ → Field
with_index field none = none
with_index field (some n) = some (n, field)

unfoldable pub ends_in : ℕ → Text → Bool
ends_in d [] = false
ends_in d (c ∷ []) = c == d
ends_in d (c ∷ e ∷ s) = ends_in d (e ∷ s)

unfoldable pub drop_last : Text → Text
drop_last [] = []
drop_last (c ∷ []) = []
drop_last (c ∷ e ∷ s) = c ∷ drop_last (e ∷ s)

-- The text between brackets, or the text itself
unfoldable pub unbracket : Text → Text
unfolding ends_in drop_last
unbracket [] = []
unbracket (c ∷ s) = if (c == b'[') && ends_in b']' s then drop_last s else c ∷ s

-- What stands behind "files[": the index, a bracket and the field
unfoldable pub bracketed : Option (Text × Text) → Field
unfolding natural with_index unbracket
bracketed none = none
bracketed (some (index, rest)) =
    with_index (unbracket (trim_prefix rest (codes "."))) (natural (atoi index))

unfoldable pub is_field : Text → Bool
is_field field = text_eq field (codes "file") || text_eq field (codes "dest_path")

-- The parts of a name with dots
unfoldable pub dotted : List Text → Field
unfolding natural with_index is_field
dotted (files ∷ field ∷ []) = if is_field field then some (0, field) else none
dotted (files ∷ index ∷ field ∷ []) = with_index field (natural (atoi index))
dotted parts = none

-- parseIndexAndField
unfoldable pub parse_index_and_field : Text → Field
unfolding bracketed dotted is_field
parse_index_and_field name =
    if is_field name
    then some (0, name)
    else if not (has_prefix name (codes "files"))
    then none
    else if has_prefix name (codes "files[")
    then bracketed (cut_at b']' (trim_prefix name (codes "files[")))
    else if has_prefix name (codes "files.")
    then dotted (split name b'.')
    else none
