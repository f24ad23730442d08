-- ===== src/Devtools/Latest.antt =====
-- The latest URL wins: what the channels of the subscribers hold.
use popcorn_images.Base.{
  ℕ, ◌≡◌, refl, none, some, List, [], ◌∷◌, ◌++◌, true, false, not, ◌&&◌, Text, text_eq, is_empty,
  ◌⊎◌, inl, inr, Bool-cases, ◌==◌, Option-cases,
}
use popcorn_images.Devtools.Upstream.{
  Channel, UpstreamManager, new_upstream_manager, broadcast, broadcast_all, try_send, drain,
  set_current, subscribe, cancel, receive, Event, found, subscribed, cancelled, received, step, run,
  close, close_all, taken, receive_from,
}

-- The channel holds the URL, or its subscriber knows it already.
abbrev pub IsLatest : Text → Channel → Type 0
IsLatest url ch = (ch.buffer ≡ some url) ⊎ ((ch.buffer ≡ none) × (ch.known ≡ url))

abbrev pub AreLatest : Text → List Channel → Type 0
AreLatest url [] = Unit
AreLatest url (ch ∷ chs) = ((ch.is_open ≡ false) ⊎ IsLatest url ch) × AreLatest url chs

broadcast-AreLatest : (url : Text) (chs : List Channel) → AreLatest url (broadcast_all url chs)
unfolding broadcast_all broadcast try_send drain
broadcast-AreLatest url [] = tt
broadcast-AreLatest url (ch ∷ chs) = (
  elim (Bool-cases ch.is_open) [
    | inr c ↦ inl (rw c refl)
    | inl o ↦ elim (Option-cases ch.buffer) [
      | inl b ↦ inr (inl (rw (o, b) refl))
      | inr (stale, b) ↦ inr (inl (rw (o, b) refl))
    ]
  ],
  broadcast-AreLatest url chs,
)

subscribe-AreLatest :
    (url : Text) (n : ℕ) (chs : List Channel)
    → AreLatest url chs
    → AreLatest url (chs ++ record { id = n; buffer = none; is_open = true; known = url } ∷ [])
subscribe-AreLatest url n [] l = (inr (inr (refl, refl)), tt)
subscribe-AreLatest url n (ch ∷ chs) (a, l) = (a, subscribe-AreLatest url n chs l)

close-AreLatest :
    (url : Text) (n : ℕ) (chs : List Channel) → AreLatest url chs → AreLatest url (close_all n chs)
unfolding close_all close
close-AreLatest url n [] l = tt
close-AreLatest url n (ch ∷ chs) (a, l) = (
  elim (Bool-cases (ch.id == n)) [ inl e ↦ inl (rw e refl) | inr e ↦ rw e a ],
  close-AreLatest url n chs l,
)

taken-IsLatest :
    (url : Text) (ch : Channel)
    → (ch.is_open ≡ false) ⊎ IsLatest url ch
    → ((taken ch).is_open ≡ false) ⊎ IsLatest url (taken ch)
unfolding taken
taken-IsLatest url ch (inl c) = elim (Option-cases ch.buffer) [
  | inl b ↦ inl (rw b c)
  | inr (x, b) ↦ inl (rw b c)
]
taken-IsLatest url ch (inr (inl b)) = inr (inr (rw b (refl, refl)))
taken-IsLatest url ch (inr (inr (b, k))) = inr (inr (rw b (refl, k)))

receive-AreLatest :
    (url : Text) (n : ℕ) (chs : List Channel)
    → AreLatest url chs
    → AreLatest url (receive_from n chs)
unfolding receive_from
receive-AreLatest url n [] l = tt
receive-AreLatest url n (ch ∷ chs) (a, l) = elim (Bool-cases (ch.id == n)) [
  | inl e ↦ rw e (taken-IsLatest url ch a, receive-AreLatest url n chs l)
  | inr e ↦ rw e (a, receive-AreLatest url n chs l)
]

step-AreLatest :
    (e : Event) (u : UpstreamManager)
    → AreLatest u.current_url u.subs
    → AreLatest (step e u).current_url (step e u).subs
unfolding step set_current subscribe cancel receive
step-AreLatest (found url) u l =
    elim (Bool-cases (not (is_empty url) && not (text_eq url u.current_url))) [
      | inl c ↦ rw c (broadcast-AreLatest url u.subs)
      | inr c ↦ rw c l
    ]
step-AreLatest subscribed u l = subscribe-AreLatest u.current_url u.next_id u.subs l
step-AreLatest (cancelled n) u l = close-AreLatest u.current_url n u.subs l
step-AreLatest (received n) u l = receive-AreLatest u.current_url n u.subs l

run_from-AreLatest :
    (es : List Event) (u : UpstreamManager)
    → AreLatest u.current_url u.subs
    → AreLatest (run es u).current_url (run es u).subs
unfolding run
run_from-AreLatest [] u l = l
run_from-AreLatest (e ∷ es) u l = run_from-AreLatest es (step e u) (step-AreLatest e u l)

-- After any updates, subscriptions, cancellations and receives, the channel of every subscriber
-- that has not cancelled holds the current URL, or is empty and its subscriber knows the current
-- URL: from its last receive or, if it has received nothing, from the time that it subscribed.
pub run-AreLatest :
    (es : List Event)
    → AreLatest (run es new_upstream_manager).current_url (run es new_upstream_manager).subs
run-AreLatest es = run_from-AreLatest es new_upstream_manager tt
