-- ===== src/Process/Exits.antt =====
-- What requests see of a spawned process behind its exit.
use popcorn_images.Base.{ℤ, ◌≡◌, some, false}
use popcorn_images.Process.{Handle}
use popcorn_images.Process.Table.{is_waiting}

-- The process has exited with this code.
abbrev Exited : ℤ → Handle → Type 0
Exited code h = (h.exit_code ≡ some code) × (is_waiting h.waiter ≡ false)
