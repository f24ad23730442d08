-- ===== src/ScaleToZero.antt =====
-- lib/scaletozero/scaletozero.go: the controllers that keep the instance awake. A controller is
-- its two operations over a state `W`; the methods of a wrapper work on the wrapper's own state.
-- The context arguments only reach the logger.
pub mod Oncer
pub mod Middleware
pub mod Control
pub mod Examples
use popcorn_images.Base.{
  ℕ, ◌+◌, ◌-◌, Option, none, some, List, ◌∷◌, Bool, true, false, not, ◌||◌, Error, ltb,
  if◌then◌else◌,
}

pub record Controller (W : Type 0) : Type 0 where
  pub disable : W → Option Error × W
  pub enable : W → Option Error × W

-- os.Stat fails because the file is missing, or otherwise.
pub data StatError : Type 0 where
  not_exist : StatError
  other : Error → StatError

-- What the operating system answers during one call of `write`.
pub record Answers : Type 0 where
  pub stat_err : Option StatError
  pub open_err : Option Error
  pub write_err : Option Error

-- The control file is a device: `commands` are the characters that it has taken, newest first.
pub record Device : Type 0 where
  pub calls : ℕ
  pub commands : List ℕ

write_opened : Option Error → Device → ℕ → Option Error × Device
write_opened (some e) d char = (some e, d)
write_opened none d char = (none, record d { commands = char ∷ d.commands })

open_file : Answers → Option Error → Device → ℕ → Option Error × Device
open_file a (some e) d char = (some e, d)
open_file a none d char = write_opened a.write_err d char

stat_file : Answers → Option StatError → Device → ℕ → Option Error × Device
stat_file a (some not_exist) d char = (none, d)
stat_file a (some (other e)) d char = (some e, d)
stat_file a none d char = open_file a a.open_err d char

module _ (answers : ℕ → Answers) where
  -- (c *unikraftCloudController) write
  pub write : Device → ℕ → Option Error × Device
  unfolding stat_file open_file write_opened
  write d char =
      let a = answers d.calls in stat_file a a.stat_err (record d { calls = d.calls + 1 }) char

  pub unikraft : Controller Device
  unikraft = record { disable = λ d. write d b'+'; enable = λ d. write d b'-' }

pub record Once : Type 0 where
  pub disabled_once : Bool
  pub enabled_once : Bool
  pub disable_err : Option Error
  pub enable_err : Option Error

-- NewOncer
abbrev pub new_oncer : Once
new_oncer = record {
  disabled_once = false;
  enabled_once = false;
  disable_err = none;
  enable_err = none;
}

pub record Debounce (W : Type 0) : Type 0 where
  pub inner : W
  pub disabled : Bool
  pub active_count : ℕ

module _ {W : Type 0} (ctrl : Controller W) where
  -- (o *Oncer) Disable: the error, the oncer and the controller's state behind it
  unfoldable pub once_disable : Once → W → Option Error × Once × W
  once_disable o w =
      if o.disabled_once
      then (o.disable_err, o, w)
      else let (e, w') = ctrl.disable w in
        (e, record o { disabled_once = true; disable_err = e }, w')

  -- (o *Oncer) Enable
  unfoldable pub once_enable : Once → W → Option Error × Once × W
  once_enable o w =
      if o.enabled_once
      then (o.enable_err, o, w)
      else let (e, w') = ctrl.enable w in (e, record o { enabled_once = true; enable_err = e }, w')

  settle_disable : Debounce W → Option Error × W → Option Error × Debounce W
  settle_disable c (some e, w) = (some e, record c { inner = w; active_count = c.active_count - 1 })
  settle_disable c (none, w) = (none, record c { inner = w; disabled = true })

  -- (c *DebouncedController) Disable; the mutex makes it one step
  unfoldable pub disable : Debounce W → Option Error × Debounce W
  unfolding settle_disable
  disable c =
      let counted = record c { active_count = c.active_count + 1 } in
      if c.disabled then (none, counted) else settle_disable counted (ctrl.disable c.inner)

  settle_enable : Debounce W → Option Error × W → Option Error × Debounce W
  settle_enable c (some e, w) = (some e, record c { inner = w })
  settle_enable c (none, w) = (none, record c { inner = w; disabled = false })

  -- (c *DebouncedController) Enable
  unfoldable pub enable : Debounce W → Option Error × Debounce W
  unfolding settle_enable
  enable c =
      let released : Debounce W = record c {
        active_count = if ltb 0 c.active_count then c.active_count - 1 else c.active_count;
      } in
      if ltb 0 released.active_count || not c.disabled
      then (none, released)
      else settle_enable released (ctrl.enable c.inner)

  -- NewDebouncedController
  unfoldable pub debounced : Controller (Debounce W)
  debounced = record { disable = disable; enable = enable }
