-- ===== src/Devtools/Examples.antt =====
-- The theorems on the proxy at concrete events and messages.
use popcorn_images.Base.{
  ◌≡◌, refl, Option, none, some, List, [], ◌∷◌, Text, Error, codes, text_eq, is_empty, lookup,
  insert, mem,
}
use popcorn_images.Json.{string, object, to_fields, members}
use popcorn_images.Devtools.Upstream.{
  new_upstream_manager, set_current, subscribe, receive, cancel, Event, found, subscribed,
  cancelled, received, step, run,
}
use popcorn_images.Devtools.Latest.{AreLatest, run-AreLatest}
use popcorn_images.Devtools.Filter.{
  Message, json, allowed_commands, pump, filter_message, decode_map,
}
use popcorn_images.Devtools.Filtering.{handled, permitted, refused, pump-permitted}

-- The second subscriber misses the first URL, and gets the newest of the other two.
abbrev events : List Event
events =
    subscribed
    ∷ found (codes "ws://a")
    ∷ subscribed
    ∷ received 0
    ∷ found (codes "ws://b")
    ∷ found (codes "ws://c")
    ∷ cancelled 0
    ∷ []

run-events : (run events new_upstream_manager).current_url ≡ codes "ws://c"
unfolding run step set_current subscribe receive cancel text_eq is_empty
run-events = refl

run-AreLatest_example :
    AreLatest (run events new_upstream_manager).current_url (run events new_upstream_manager).subs
run-AreLatest_example = run-AreLatest events

abbrev message : Text → Message
message method =
    json (object (to_fields ((codes "id", string method) ∷ (codes "method", string method) ∷ [])))

abbrev messages : List (Message × Option Error)
messages =
    (message (codes "Page.reload"), none)
    ∷ (message (codes "Runtime.evaluate"), none)
    ∷ (message (codes "Page.enable"), some (codes "closed"))
    ∷ (message (codes "Page.reload"), none)
    ∷ []

pump-messages :
    pump allowed_commands messages
    ≡ (message (codes "Page.reload") ∷ [], string (codes "Runtime.evaluate") ∷ [])
unfolding pump filter_message decode_map members to_fields lookup insert text_eq is_empty mem
pump-messages = refl

pump-permitted_example : pump allowed_commands messages ≡ (
  permitted allowed_commands (handled allowed_commands messages),
  refused allowed_commands (handled allowed_commands messages),
)
pump-permitted_example = pump-permitted allowed_commands messages
