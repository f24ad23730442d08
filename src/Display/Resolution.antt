-- ===== src/Display/Resolution.antt =====
-- How cmd/api/api/display.go reads and sets a resolution: xrandr and supervisorctl by ProcessExec,
-- Chromium by CDP, and Neko. The record Outside answers for them.
use popcorn_images.Base.{
  ℕ, ℤ, pos, ◌+◌, Option, none, some, List, [], ◌∷◌, ◌++◌, Bool, not, ◌&&◌, Text, Error, codes,
  is_empty, trim_space, split, itoa, atoi, ltb_ℤ, leb_ℤ, if◌then◌else◌,
}
use popcorn_images.Process.Command.{
  ExecResponse, exec_200, exec_bad_request_400, exec_error_500, cut_at, is_true,
}
use popcorn_images.Display.{Size}

-- A session of Neko, with its state if there is one
pub record Session : Type 0 where
  pub has_state : Bool
  pub is_connected : Option Bool
  pub is_watching : Option Bool

pub record Outside : Type 0 where
  pub getenv : Text → Text
  -- the output of xrandr, unless the command fails
  pub xrandr : Option Text
  -- int(ParseFloat(s, 64))
  pub parse_rate : Text → Option ℤ
  pub sessions : Option (List Session)
  -- the configuration file of Xvfb is there
  pub marker : Bool
  -- ProcessExec of a command by bash -lc, behind the commands before
  pub exec : List Text → Text → ExecResponse
  pub decode_b64 : Text → Option Text
  pub upstream_url : Text
  pub dial : Option Error
  pub set_metrics : Size → Option Error
  pub change_screen : Size → ℤ → Option Error
  -- the size that Xvfb runs with behind the commands of resizeXvfb for a size
  pub xvfb_after : Size → Size

pub data Parsed : Type 0 where
  resolution : Size → ℤ → Parsed
  unreadable : Error → Parsed

-- resolveDisplayFromEnv
unfoldable pub or_display : Text → Text → Text
or_display [] other = other
or_display (c ∷ v) other = codes ":" ++ c ∷ v

unfoldable pub resolve_display_from_env : (Text → Text) → Text
unfolding or_display
resolve_display_from_env getenv =
    or_display (trim_space (getenv (codes "KERNEL_IMAGES_API_DISPLAY_NUM")))
      (or_display (trim_space (getenv (codes "DISPLAY_NUM"))) (codes ":1"))

unfoldable pub rate_or : Option ℤ → ℤ
rate_or none = pos 60
rate_or (some r) = r

unfoldable pub with_size : Text → Text → Option ℤ → Option ℤ → ℤ → Parsed
with_size w h none height rate = unreadable (codes "failed to parse width '" ++ (w ++ codes "'"))
with_size w h (some width) none rate =
    unreadable (codes "failed to parse height '" ++ (h ++ codes "'"))
with_size w h (some width) (some height) rate =
    resolution (record { width = width; height = height }) rate

-- The height with or without a rate behind an underscore
unfoldable pub with_rate : (Text → Option ℤ) → Text → Text → Option (Text × Text) → Parsed
unfolding with_size rate_or
with_rate parse_rate w h none = with_size w h (atoi w) (atoi h) (pos 60)
with_rate parse_rate w h (some (height, rate)) =
    with_size w height (atoi w) (atoi height) (rate_or (parse_rate rate))

unfoldable pub of_parts : (Text → Option ℤ) → Text → List Text → Parsed
unfolding with_rate
of_parts parse_rate out (w ∷ h ∷ []) = with_rate parse_rate w h (cut_at b'_' h)
of_parts parse_rate out parts = unreadable (codes "unexpected xrandr output format: " ++ out)

-- What getCurrentResolutionFromXrandr makes of the output
unfoldable pub parse_resolution : (Text → Option ℤ) → Text → Parsed
unfolding of_parts
parse_resolution parse_rate out = of_parts parse_rate (trim_space out) (split (trim_space out) b'x')

unfoldable pub of_xrandr : (Text → Option ℤ) → Option Text → Parsed
unfolding parse_resolution
of_xrandr parse_rate none = unreadable (codes "failed to execute xrandr command")
of_xrandr parse_rate (some out) = parse_resolution parse_rate out

-- getActiveNekoSessions
unfoldable pub count_live : List Session → ℕ
unfolding is_true
count_live [] = 0
count_live (x ∷ xs) =
    (if x.has_state && (is_true x.is_connected && is_true x.is_watching) then 1 else 0)
    + count_live xs

unfoldable pub active_neko_sessions : Option (List Session) → ℕ
unfolding count_live
active_neko_sessions none = 0
active_neko_sessions (some xs) = count_live xs

-- isNekoEnabled is a comparison; setResolutionViaNeko has 60 for a rate that is not positive.
unfoldable pub set_resolution_via_neko : Outside → Size → ℤ → Option Error
set_resolution_via_neko o size rate =
    failed (o.change_screen size (if leb_ℤ rate (pos 0) then pos 60 else rate))
  where
    failed : Option Error → Option Error
    failed none = none
    failed (some e) = some (codes "failed to change screen configuration: " ++ e)

unfoldable pub or_default : Text → Text
or_default [] = codes "xrandr returned non-zero exit code"
or_default (c ∷ s) = c ∷ s

unfoldable pub stderr_of : Option Text → Text
unfolding or_default
stderr_of none = or_default []
stderr_of (some s) = or_default (trim_space s)

is_zero : ℤ → Bool
is_zero z = leb_ℤ z (pos 0) && leb_ℤ (pos 0) z

-- The outcome of xrandr
unfoldable pub xrandr_outcome : (Text → Option Text) → ExecResponse → Option Error
unfolding stderr_of is_zero
xrandr_outcome decode (exec_200 code out err) =
    if is_zero code then none else some (codes "xrandr failed: " ++ stderr_of (decode err))
xrandr_outcome decode (exec_bad_request_400 m) = some (codes "bad request: " ++ m)
xrandr_outcome decode (exec_error_500 m) = some (codes "internal error: " ++ m)

by_x : Size → Text
by_x size = itoa size.width ++ (codes "x" ++ itoa size.height)

unfoldable pub xrandr_command : Size → ℤ → Text
unfolding by_x
xrandr_command size rate =
    if ltb_ℤ (pos 0) rate
    then codes "xrandr --output default --mode "
      ++ (by_x size ++ (codes "_" ++ (itoa rate ++ codes ".00")))
    else codes "xrandr -s " ++ by_x size

-- setResolutionXorgViaXrandr
unfoldable pub set_resolution_via_xrandr : Outside → Size → ℤ → Option Error
unfolding xrandr_outcome xrandr_command
set_resolution_via_xrandr o size rate =
    xrandr_outcome o.decode_b64 (o.exec [] (xrandr_command size rate))

-- Only an answer 200 with an exit code that is not zero counts as a failure.
unfoldable pub exits_badly : ExecResponse → Bool
unfolding is_zero
exits_badly (exec_200 code out err) = not (is_zero code)
exits_badly r = Bool.false

abbrev remove_env : Text
remove_env = codes "sed -i '/^environment=/d' /etc/supervisor/conf.d/services/xvfb.conf"

unfoldable pub add_env : Size → Text
add_env size =
    codes "sed -i '/\\[program:xvfb\\]/a environment=WIDTH=\""
    ++ (itoa size.width
        ++ (codes "\",HEIGHT=\""
            ++ (itoa size.height
                ++ codes
                    "\",DPI=\"96\",DISPLAY=\":1\"' /etc/supervisor/conf.d/services/xvfb.conf")))

abbrev reload : Text
reload = codes "supervisorctl reread && supervisorctl update"

abbrev restart_xvfb : Text
restart_xvfb = codes "supervisorctl restart xvfb"

-- resizeXvfb, with the commands that it ran, the newest in front
unfoldable pub resize_xvfb : Outside → Size → Option Error × List Text
unfolding exits_badly add_env
resize_xvfb o size =
    let configured = add_env size ∷ remove_env ∷ [] in
    let restarted = restart_xvfb ∷ reload ∷ configured in
    if exits_badly (o.exec (remove_env ∷ []) (add_env size))
    then (some (codes "failed to update xvfb config"), configured)
    else if exits_badly (o.exec (reload ∷ configured) restart_xvfb)
    then (some (codes "Xvfb restart failed"), restarted)
    else (none, codes "sleep 2" ∷ restarted)

unfoldable pub metrics_set : Option Error → Option Error → Option Error
metrics_set (some e) r = some (codes "failed to connect to devtools: " ++ e)
metrics_set none none = none
metrics_set none (some e) = some (codes "CDP setDeviceMetricsOverride: " ++ e)

-- setViewportViaCDP
unfoldable pub set_viewport_via_cdp : Outside → Size → Option Error
unfolding metrics_set
set_viewport_via_cdp o size =
    if is_empty o.upstream_url
    then some (codes "devtools upstream not available")
    else metrics_set o.dial (o.set_metrics size)
