-- ===== src/Process/Credentials.antt =====
-- As whom a command of cmd/api/api/process.go runs.
use popcorn_images.Base.{ℕ, ◌≡◌, Option, some, Bool, true, Text, ◌⊎◌}
use popcorn_images.Process.Command.{User, System, parse_uint, user_of, is_true}

-- Root by the flag, or the uid of an entry of the user database.
abbrev pub Runs : System → Option Bool → Text → ℕ → ℕ → Type 0
Runs os as_root name u g =
    ((is_true as_root ≡ true) × (u ≡ 0) × (g ≡ 0))
    ⊎ ((user : User) × (user_of os name ≡ some user) × (parse_uint user.uid ≡ some u))
