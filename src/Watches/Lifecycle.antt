-- ===== src/Watches/Lifecycle.antt =====
-- A watch is closed once, its channel too, and nothing is sent on the closed channel.
use mathlib.Core.List.{append_assoc}
use mathlib.Core.List.Sublist
use popcorn_images.Base.{
  sym, if-Holds, ◌≡◌, refl, Option, none, some, List, [], ◌∷◌, Bool, true, false, Text, Error, Each,
  adjust-Each, cons-Each, ltb, lookup, arith,
}
use popcorn_images.Watches.{
  FileSystemEvent, Op, Visit, Forwarder, forwarding, closing, forgetting, draining, finished, Watch,
  Event, started, notified, ended, broken, deferred, stopped, streamed, close, event_type,
  is_forwarding, notify, leave, end, defer, stop, take_first, Watches, new_watch, register, step,
  run,
}
use popcorn_images.Watches.Soundness.{Sound, close-Sound, forward-Sound}

is_forwarding_sound : (f : Forwarder) → is_forwarding f ≡ true → f ≡ forwarding
is_forwarding_sound forwarding h = refl
is_forwarding_sound closing h = ground arith
is_forwarding_sound forgetting h = ground arith
is_forwarding_sound draining h = ground arith
is_forwarding_sound finished h = ground arith

notify-Sound :
    (add : Text → Option Error) (op : Op) (path : Text) (is_dir : Bool) (visits : List Visit)
    (w : Watch)
    → Sound w
    → Sound (notify add op path is_dir visits w)
unfolding notify
notify-Sound add op path is_dir visits w s =
    if-Holds Sound (is_forwarding w.forwarder) _ _
      (λ f. forward-Sound add (event_type op) path is_dir visits w (is_forwarding_sound _ f) s)
      (λ f. s)

leave-Sound : (w : Watch) → Sound w → Sound (leave w)
unfolding leave
leave-Sound w s =
    if-Holds Sound (is_forwarding w.forwarder) _ _
      (λ f. record {
        closed_once = s.closed_once;
        channel_closed_once = ground (arith, is_forwarding_sound _ f, s.channel_closed_once);
        no_panic = s.no_panic;
        unlisted_closed = s.unlisted_closed;
        goroutine_closed = refl;
        goroutine_unlisted = refl;
        bounded = s.bounded;
        in_order = s.in_order;
      })
      (λ f. s)

end-Sound : (w : Watch) → Sound w → Sound (end w)
unfolding end
end-Sound w s = if-Holds Sound (ltb 0 w.closes) _ _ (λ c. leave-Sound w s) (λ c. s)

close-closed : (w : Watch) → (close w).close_once ≡ true
unfolding close
close-closed w = ground arith

close-events_closed : (w : Watch) → (close w).events_closed ≡ w.events_closed
unfolding close
close-events_closed w = ground arith

defer-Sound : (w : Watch) (f : Forwarder) → w.forwarder ≡ f → Sound w → Sound (defer f w)
unfolding defer
defer-Sound w forwarding e s = s
defer-Sound w closing e s =
    let c = close-Sound w s in
    record {
      closed_once = c.closed_once;
      channel_closed_once = rw (close-events_closed w, s.channel_closed_once, e) refl;
      no_panic = c.no_panic;
      unlisted_closed = c.unlisted_closed;
      goroutine_closed = rw (close-closed w) refl;
      goroutine_unlisted = refl;
      bounded = c.bounded;
      in_order = c.in_order;
    }
defer-Sound w forgetting e s = record {
  closed_once = s.closed_once;
  channel_closed_once = ground (arith, e, s.channel_closed_once);
  no_panic = s.no_panic;
  unlisted_closed = ground (arith, e, s.goroutine_closed);
  goroutine_closed = ground (arith, e, s.goroutine_closed);
  goroutine_unlisted = refl;
  bounded = s.bounded;
  in_order = s.in_order;
}
defer-Sound w draining e s = record {
  closed_once = s.closed_once;
  channel_closed_once = ground (arith, e, s.channel_closed_once);
  no_panic = ground (arith, e, s.no_panic, s.channel_closed_once);
  unlisted_closed = s.unlisted_closed;
  goroutine_closed = ground (arith, e, s.goroutine_closed);
  goroutine_unlisted = ground (arith, e, s.goroutine_unlisted);
  bounded = s.bounded;
  in_order = s.in_order;
}
defer-Sound w finished e s = s

unlist-Sound : (w : Watch) → Sound w → Sound (close (record w { listed = false }))
unfolding close
unlist-Sound w s =
    if-Holds Sound w.close_once _ _
      (λ c. record {
        closed_once = s.closed_once;
        channel_closed_once = s.channel_closed_once;
        no_panic = s.no_panic;
        unlisted_closed = c;
        goroutine_closed = s.goroutine_closed;
        goroutine_unlisted = ground arith;
        bounded = s.bounded;
        in_order = s.in_order;
      })
      (λ c. record {
        closed_once = ground (arith, c, s.closed_once);
        channel_closed_once = s.channel_closed_once;
        no_panic = s.no_panic;
        unlisted_closed = refl;
        goroutine_closed = ground arith;
        goroutine_unlisted = ground arith;
        bounded = s.bounded;
        in_order = s.in_order;
      })

stop-Sound : (w : Watch) → Sound w → Sound (stop w)
unfolding stop
stop-Sound w s = if-Holds Sound w.listed _ _ (λ l. unlist-Sound w s) (λ l. s)

take_first-Sound :
    (w : Watch) (es : List FileSystemEvent) → w.events ≡ es → Sound w → Sound (take_first es w)
unfolding take_first
take_first-Sound w [] h s = s
take_first-Sound w (e ∷ es) h s = record {
  closed_once = s.closed_once;
  channel_closed_once = s.channel_closed_once;
  no_panic = s.no_panic;
  unlisted_closed = s.unlisted_closed;
  goroutine_closed = s.goroutine_closed;
  goroutine_unlisted = s.goroutine_unlisted;
  bounded = ground (arith, h, s.bounded);
  in_order = rw (append_assoc w.taken (e ∷ []) es, sym h) s.in_order;
}

new_watch-Sound :
    (path : Text) (recursive : Bool) (dirs : List Text) → Sound (new_watch path recursive dirs)
new_watch-Sound path recursive dirs = record {
  closed_once = refl;
  channel_closed_once = refl;
  no_panic = refl;
  unlisted_closed = refl;
  goroutine_closed = refl;
  goroutine_unlisted = refl;
  bounded = omega arith;
  in_order = Sublist.refl [];
}

register-Sound :
    (id : Text) (w : Watch) (o : Option Watch) (ws : Watches)
    → Sound w
    → Each Sound ws
    → Each Sound (register id w o ws)
unfolding register
register-Sound id w none ws s h = cons-Each Sound id w ws s h
register-Sound id w (some v) ws s h = h

module _ (add : Text → Option Error) where
  pub step-Sound : (ws : Watches) (e : Event) → Each Sound ws → Each Sound (step add ws e)
  unfolding step
  step-Sound ws (started id path recursive dirs) h =
      register-Sound id _ (lookup id ws) ws (new_watch-Sound path recursive dirs) h
  step-Sound ws (notified id op path is_dir visits) h =
      adjust-Each Sound id _ ws (notify-Sound add op path is_dir visits) h
  step-Sound ws (ended id) h = adjust-Each Sound id _ ws end-Sound h
  step-Sound ws (broken id) h = adjust-Each Sound id _ ws leave-Sound h
  step-Sound ws (deferred id) h =
      adjust-Each Sound id _ ws (λ w s. defer-Sound w w.forwarder refl s) h
  step-Sound ws (stopped id) h = adjust-Each Sound id _ ws stop-Sound h
  step-Sound ws (streamed id) h =
      adjust-Each Sound id _ ws (λ w s. take_first-Sound w w.events refl s) h

  pub run_from-Sound : (ws : Watches) (es : List Event) → Each Sound ws → Each Sound (run add ws es)
  unfolding run
  run_from-Sound ws [] h = h
  run_from-Sound ws (e ∷ es) h = run_from-Sound (step add ws e) es (step-Sound ws e h)

pub no_watch-Each : Each Sound []
unfolding lookup
no_watch-Each k w h = ground (arith, h)

-- From no watches, after any starts and stops of watches, events of fsnotify, moves of the
-- forwarding goroutines and reads of streams, in any order, each watch is sound: its watcher is
-- closed once at most, and is when s.watches no longer has it; its channel is closed once at most,
-- behind the delete, and nothing is sent on it then; it holds 100 events at most; and what streams
-- have taken and what it holds are events that were offered, in their order and each once.
pub run-Sound :
    (add : Text → Option Error) (es : List Event) (id : Text) (w : Watch)
    → lookup id (run add [] es) ≡ some w
    → Sound w
run-Sound add es = run_from-Sound add [] es no_watch-Each
