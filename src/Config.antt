-- ===== src/Config.antt =====
-- cmd/config/config.go: the configuration. The environment is read by package envconfig, whose
-- answer, a configuration or an error, is an argument.
mod Examples
use popcorn_images.Base.{
  ℕ, ℤ, pos, ltb_ℤ, ◌≤◌, ◌≡◌, Option, none, some, [], ◌∷◌, ◌++◌, Bool, true, false, ◌||◌, Text,
  Error, codes, itoa, is_empty, if◌then◌else◌,
}

pub record Config : Type 0 where
  pub port : ℤ
  pub frame_rate : ℤ
  pub display_num : ℤ
  pub max_size_in_mb : ℤ
  pub output_dir : Text
  pub path_to_ffmpeg : Text
  pub dev_tools_proxy_port : ℤ
  pub log_cdp_messages : Bool
  pub chrome_driver_proxy_port : ℤ
  pub chrome_driver_upstream_addr : Text
  pub dev_tools_proxy_addr : Text
  pub teek_url : Text
  pub teet_url : Text
  pub attestor_url : Text

pub data ConfigError : Type 0 where
  environment : Error → ConfigError
  output_dir_required display_num_range frame_rate_range max_size_range : ConfigError
  ffmpeg_path_required upstream_addr_required proxy_addr_required : ConfigError

unfoldable pub validate : Config → Option ConfigError
validate config =
    if is_empty config.output_dir
    then some output_dir_required
    else if ltb_ℤ config.display_num (pos 0)
    then some display_num_range
    else if ltb_ℤ config.frame_rate (pos 0) || ltb_ℤ (pos 20) config.frame_rate
    then some frame_rate_range
    else if ltb_ℤ config.max_size_in_mb (pos 0) || ltb_ℤ (pos 1000) config.max_size_in_mb
    then some max_size_range
    else if is_empty config.path_to_ffmpeg
    then some ffmpeg_path_required
    else if is_empty config.chrome_driver_upstream_addr
    then some upstream_addr_required
    else if is_empty config.dev_tools_proxy_addr
    then some proxy_addr_required
    else none

pub data Loaded : Type 0 where
  ok : Config → Loaded
  err : ConfigError → Loaded

-- The address of the DevTools proxy, from its port if there is none.
unfoldable pub with_address : Config → Config
with_address config = record config {
  dev_tools_proxy_addr =
      if is_empty config.dev_tools_proxy_addr
      then codes "127.0.0.1:" ++ itoa config.dev_tools_proxy_port
      else config.dev_tools_proxy_addr;
}

checked : Option ConfigError → Config → Loaded
checked none config = ok config
checked (some e) config = err e

-- Load
unfoldable pub load : Loaded → Loaded
unfolding checked
load (err e) = err e
load (ok config) = checked (validate (with_address config)) (with_address config)

abbrev IsUpTo : ℕ → ℤ → Type 0
IsUpTo bound n = (m : ℕ) × (n ≡ pos m) × (m ≤ bound)

-- The values that the server runs with.
abbrev pub IsUsable : Config → Type 0
IsUsable config =
    (is_empty config.output_dir ≡ false)
    × ((m : ℕ) × (config.display_num ≡ pos m))
    × IsUpTo 20 config.frame_rate
    × IsUpTo 1000 config.max_size_in_mb
    × (is_empty config.path_to_ffmpeg ≡ false)
    × (is_empty config.chrome_driver_upstream_addr ≡ false)

-- The address as the comment on the field has it: derived from the port if none is given.
abbrev pub proxy_address : ℤ → Text → Text
proxy_address port [] = codes "127.0.0.1:" ++ itoa port
proxy_address port (c ∷ given) = c ∷ given
