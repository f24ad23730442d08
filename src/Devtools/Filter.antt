-- ===== src/Devtools/Filter.antt =====
-- The filter of the restricted endpoint in lib/devtoolsproxy/proxy.go: createAllowedCommandsMap and
-- the direction from client to upstream of pumpWithCDPFilter. A text message is JSON or not; the
-- arguments of the pump say which messages come and how the writes to the upstream end.
use popcorn_images.Base.{
  Option, none, some, List, [], ◌∷◌, Text, Error, codes, Assoc, lookup, insert, is_empty, mem,
  if◌then◌else◌,
}
use popcorn_images.Json.{Json, string, object, members}

-- createAllowedCommandsMap
abbrev pub allowed_commands : List Text
allowed_commands =
    codes "Input.enable"
    ∷ codes "Input.insertText"
    ∷ codes "Input.dispatchKeyEvent"
    ∷ codes "Input.dispatchMouseEvent"
    ∷ codes "Input.dispatchTouchEvent"
    ∷ codes "Emulation.setDeviceMetricsOverride"
    ∷ codes "Emulation.setVisibleSize"
    ∷ codes "Emulation.setTouchEmulationEnabled"
    ∷ codes "Emulation.clearDeviceMetricsOverride"
    ∷ codes "DOM.enable"
    ∷ codes "DOM.getNodeForLocation"
    ∷ codes "DOM.describeNode"
    ∷ codes "Browser.getVersion"
    ∷ codes "Target.setAutoAttach"
    ∷ codes "Target.attachToTarget"
    ∷ codes "Target.closeTarget"
    ∷ codes "Target.getTargets"
    ∷ codes "Page.enable"
    ∷ codes "Page.reload"
    ∷ []

-- A websocket message.
pub data Message : Type 0 where
  binary not_json : Text → Message
  json : Json → Message

pub data Verdict : Type 0 where
  forward blocked : Verdict
  replied : Json → Verdict

-- json.Unmarshal into a map; of a repeated member the last one stays
unfoldable pub decode_map : Assoc Json → Assoc Json → Assoc Json
decode_map [] m = m
decode_map ((k, v) ∷ fs) m = decode_map fs (insert k v m)

unfoldable pub reply : Option Json → Verdict
reply none = blocked
reply (some id) = replied id

unfoldable pub check_method : List Text → Option Json → Option Json → Verdict
unfolding reply
check_method allowed (some (string method)) id =
    if is_empty method then forward else if mem method allowed then forward else reply id
check_method allowed other id = forward

-- What the filter does with a message: to the upstream, dropped, or dropped with an error response
-- to the client that has the id.
unfoldable pub filter_message : List Text → Message → Verdict
unfolding check_method
filter_message allowed (binary t) = forward
filter_message allowed (not_json t) = forward
filter_message allowed (json (object fs)) =
    let m = decode_map (members fs) [] in
    check_method allowed (lookup (codes "method") m) (lookup (codes "id") m)
filter_message allowed (json other) = forward

unfoldable pub deliver :
    Verdict → Message → Option Error → List Message × List Json → List Message × List Json
deliver forward msg none (sent, replies) = (msg ∷ sent, replies)
deliver forward msg (some e) rest = ([], [])
deliver blocked msg w rest = rest
deliver (replied id) msg w (sent, replies) = (sent, id ∷ replies)

-- pumpWithCDPFilter, client to upstream: the messages that are written to the upstream and the ids
-- of the error responses. Beside each message stands how its write to the upstream ends.
unfoldable pub pump : List Text → List (Message × Option Error) → List Message × List Json
unfolding deliver
pump allowed [] = ([], [])
pump allowed ((msg, w) ∷ rest) = deliver (filter_message allowed msg) msg w (pump allowed rest)
