-- ===== src/Uploads.antt =====
-- The uploads and downloads of cmd/api/api/fs.go. A multipart body is the list of its parts, where
-- none is a part that cannot be read.
pub mod Fields
pub mod Archives
pub mod Several
pub mod Downloads
pub mod Tidy
pub mod Zipping
pub mod Removed
pub mod Spelling
mod Examples
use popcorn_images.Base.{
  Option, none, some, List, [], ◌∷◌, Bool, not, ◌||◌, Text, is_empty, has_prefix, trim_space,
  is_abs, if◌then◌else◌,
}

-- Its form name, and its content, unless reading them fails
pub record Part : Type 0 where
  pub name : Text
  pub content : Option Text

abbrev pub Body : Type 0
Body = List (Option Part)

unfoldable pub check_dest : Text → Option Text
check_dest dest = if is_empty dest || not (is_abs dest) then none else some dest

-- A dest_path part: an absolute path without the space around it
unfoldable pub dest_of : Text → Option Text
unfolding check_dest
dest_of content = check_dest (trim_space content)

-- strings.Contains
unfoldable pub contains : Text → Text → Bool
contains [] sub = is_empty sub
contains (c ∷ s) sub = has_prefix (c ∷ s) sub || contains s sub
