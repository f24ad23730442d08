-- ===== src/Base/FilePath.antt =====
-- The parts of Go's package path/filepath that the program calls, for Unix: Clean, Join,
-- Base, Dir and IsAbs.
use Prim.Native.Nat.{ℕ}
use mathlib.Core.Path.{◌≡◌, refl}
use mathlib.Core.Bool.{Bool, true, false}
use mathlib.Core.List.{List, [], ◌∷◌, ◌++◌, reverse}
use popcorn_images.Base.Tests.{◌==◌, if◌then◌else◌}
use popcorn_images.Base.Strings.{Text, codes, text_eq, is_empty, has_prefix}

-- strings.Split by one character: the part that is read so far, then the rest.
unfoldable pub cut : ℕ → Text → Text → List Text
cut sep part [] = part ∷ []
cut sep part (c ∷ s) = elim (c == sep) [
  | true ↦ part ∷ cut sep [] s
  | false ↦ cut sep (part ++ c ∷ []) s
]

unfoldable pub split : Text → ℕ → List Text
unfolding cut
split s sep = cut sep [] s

-- strings.Join
unfoldable pub join : List Text → Text → Text
join [] sep = []
join (p ∷ []) sep = p
join (p ∷ q ∷ ps) sep = p ++ (sep ++ join (q ∷ ps) sep)

abbrev dot_dot : Text
dot_dot = codes ".."

-- One path element on top of the elements that are kept, the last one first.
unfoldable pub enter : Bool → List Text → Text → List Text
enter rooted [] part =
    if is_empty part
    then []
    else if text_eq part (codes ".")
    then []
    else if text_eq part dot_dot
    then (if rooted then [] else dot_dot ∷ [])
    else part ∷ []
enter rooted (top ∷ kept) part =
    if is_empty part
    then top ∷ kept
    else if text_eq part (codes ".")
    then top ∷ kept
    else if text_eq part dot_dot
    then (if text_eq top dot_dot then dot_dot ∷ top ∷ kept else kept)
    else part ∷ top ∷ kept

unfoldable pub enter_all : Bool → List Text → List Text → List Text
enter_all rooted kept [] = kept
enter_all rooted kept (part ∷ parts) = enter_all rooted (enter rooted kept part) parts

or_dot : Text → Text
or_dot [] = codes "."
or_dot (c ∷ s) = c ∷ s

-- filepath.Clean
unfoldable pub clean : Text → Text
unfolding split enter_all enter or_dot join text_eq is_empty has_prefix
clean path =
    let rooted = has_prefix path (codes "/") in
    let body = join (reverse (enter_all rooted [] (split path b'/'))) (codes "/") in
    if rooted then codes "/" ++ body else or_dot body

-- filepath.Join of two elements
unfoldable pub join_path : Text → Text → Text
unfolding clean
join_path [] [] = []
join_path [] (c ∷ name) = clean (c ∷ name)
join_path (c ∷ dir) [] = clean (c ∷ dir)
join_path (c ∷ dir) (d ∷ name) = clean ((c ∷ dir) ++ (codes "/" ++ d ∷ name))

join_path-up : join_path (codes "/tmp/./rec/") (codes "../a//b.mp4") ≡ codes "/tmp/a/b.mp4"
unfolding join_path
join_path-up = refl

join_path-relative : join_path (codes ".") (codes "default.mp4") ≡ codes "default.mp4"
unfolding join_path
join_path-relative = refl

-- The last part that is not empty
last_part : Text → List Text → Text
last_part last [] = last
last_part last (part ∷ parts) = last_part (if is_empty part then last else part) parts

-- filepath.Base
unfoldable pub base : Text → Text
unfolding last_part split
base [] = codes "."
base (c ∷ s) = last_part (codes "/") (split (c ∷ s) b'/')

-- The text up to its last slash
up_to_slash : Text → Text
up_to_slash [] = []
up_to_slash (c ∷ s) =
    let rest = up_to_slash s in
    if is_empty rest then (if c == b'/' then c ∷ [] else []) else c ∷ rest

-- filepath.Dir
unfoldable pub dir_name : Text → Text
unfolding up_to_slash
dir_name path = clean (up_to_slash path)

-- filepath.IsAbs
unfoldable pub is_abs : Text → Bool
is_abs path = has_prefix path (codes "/")

base-slashes : base (codes "/a/bc//") ≡ codes "bc"
unfolding base is_empty
base-slashes = refl

dir_name-file : dir_name (codes "/a//b/c") ≡ codes "/a/b"
unfolding dir_name clean
dir_name-file = refl
