-- ===== src/Watches/Soundness.antt =====
-- What is true of each watch, and that offering an event keeps it.
use mathlib.Core.List.{append_assoc, append-nil, nil-sublist}
use mathlib.Core.List.{Sublist as IsSublist}
use mathlib.Core.List.Sublist
use popcorn_images.Base.{
  sym, base, if-Holds, ◌&&◌, ◌≤◌, ◌+◌, ◌≡◌, refl, Option, none, some, List, [], ◌∷◌, ◌++◌, Bool,
  true, false, ◌||◌, not, Text, Error, length, ltb, arith, Bool-cases, inl, inr, if◌then◌else◌,
}
use popcorn_images.Watches.{
  EventType, FileSystemEvent, Visit, Forwarder, forwarding, closing, draining, finished, Watch,
  close, is_create, offer, follow, forward,
}

abbrev pub behind_close : Forwarder → Bool
behind_close forwarding = false
behind_close closing = false
behind_close f = true

abbrev pub behind_delete : Forwarder → Bool
behind_delete draining = true
behind_delete finished = true
behind_delete f = false

abbrev pub is_finished : Forwarder → Bool
is_finished finished = true
is_finished f = false

pub record Sound (w : Watch) : Type 0 where
  pub closed_once : w.closes ≡ (if w.close_once then 1 else 0)
  pub channel_closed_once : w.events_closed ≡ (if is_finished w.forwarder then 1 else 0)
  pub no_panic : w.panicked ≡ false
  pub unlisted_closed : (w.listed || w.close_once) ≡ true
  pub goroutine_closed : (not (behind_close w.forwarder) || w.close_once) ≡ true
  pub goroutine_unlisted : (not (behind_delete w.forwarder) || not w.listed) ≡ true
  pub bounded : length w.events ≤ 100
  pub in_order : IsSublist (w.taken ++ w.events) w.offered

pub length-snoc :
    (es : List FileSystemEvent) (e : FileSystemEvent) → length (es ++ e ∷ []) ≡ length es + 1
length-snoc [] e = refl
length-snoc (x ∷ es) e = ground (arith, length-snoc es e)

pub close-Sound : (w : Watch) → Sound w → Sound (close w)
unfolding close
close-Sound w s =
    if-Holds Sound w.close_once _ _ (λ c. s)
      (λ c. record {
        closed_once = ground (arith, c, s.closed_once);
        channel_closed_once = s.channel_closed_once;
        no_panic = s.no_panic;
        unlisted_closed = ground arith;
        goroutine_closed = ground arith;
        goroutine_unlisted = s.goroutine_unlisted;
        bounded = s.bounded;
        in_order = s.in_order;
      })

pub offered-Sublist :
    (e : FileSystemEvent) (w : Watch)
    → IsSublist (w.taken ++ w.events) w.offered
    → IsSublist
        (w.taken ++ (if ltb (length w.events) 100 then w.events ++ e ∷ [] else w.events))
        (w.offered ++ e ∷ [])
offered-Sublist e w s =
    let k : IsSublist ((w.taken ++ w.events) ++ []) (w.offered ++ e ∷ []) =
      Sublist.append s (nil-sublist (e ∷ [])) in
    elim (Bool-cases (ltb (length w.events) 100)) [
      | inl c ↦
          rw (c, sym (append_assoc w.taken w.events (e ∷ []))) (Sublist.append s (Sublist.refl _))
      | inr c ↦ rw c (rw (append-nil (w.taken ++ w.events)) at k)
    ]

pub offer-Sound :
    (e : FileSystemEvent) (w : Watch) → w.forwarder ≡ forwarding → Sound w → Sound (offer e w)
unfolding offer
offer-Sound e w f s = record {
  closed_once = s.closed_once;
  channel_closed_once = s.channel_closed_once;
  no_panic = ground (arith, f, s.no_panic, s.channel_closed_once);
  unlisted_closed = s.unlisted_closed;
  goroutine_closed = s.goroutine_closed;
  goroutine_unlisted = s.goroutine_unlisted;
  bounded = ground (arith, length-snoc w.events e, s.bounded);
  in_order = offered-Sublist e w s.in_order;
}

pub follow-Sound :
    (add : Text → Option Error) (e : FileSystemEvent) (visits : List Visit) (w : Watch)
    → Sound w
    → Sound (follow add e visits w)
unfolding follow
follow-Sound add e visits w s =
    if-Holds Sound (w.recursive && (is_create e.kind && e.is_dir)) _ _
      (λ c. record {
        closed_once = s.closed_once;
        channel_closed_once = s.channel_closed_once;
        no_panic = s.no_panic;
        unlisted_closed = s.unlisted_closed;
        goroutine_closed = s.goroutine_closed;
        goroutine_unlisted = s.goroutine_unlisted;
        bounded = s.bounded;
        in_order = s.in_order;
      })
      (λ c. s)

pub forward-Sound :
    (add : Text → Option Error) (t : Option EventType) (path : Text) (is_dir : Bool)
    (visits : List Visit) (w : Watch)
    → w.forwarder ≡ forwarding
    → Sound w
    → Sound (forward add t path is_dir visits w)
unfolding forward
forward-Sound add none path is_dir visits w f s = s
forward-Sound add (some kind) path is_dir visits w f s =
    let e : FileSystemEvent = record {
      kind = kind;
      path = path;
      name = base path;
      is_dir = is_dir;
    } in
    follow-Sound add e visits (offer e w) (offer-Sound e w f s)
