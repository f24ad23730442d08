-- ===== src/Watches/Stopping.antt =====
-- What becomes of a watch that is stopped.
use popcorn_images.Base.{
  ℕ, ◌≤◌, ◌-◌, ◌+◌, ◌≡◌, refl, Option, none, some, List, [], ◌∷◌, true, false, Text, text_eq,
  text_eq_sound, Error, lookup, At, adjust_same-At, Each, arith, Bool-cases, inl, inr, if-Holds,
  codes, ltb,
}
use popcorn_images.Watches.{
  Forwarder, forwarding, closing, forgetting, draining, finished, Watch, Event, started, notified,
  ended, broken, deferred, stopped, streamed, close, is_forwarding, leave, end, stop, Watches, step,
  run,
}
use popcorn_images.Watches.Soundness.{Sound}
use popcorn_images.Watches.Lifecycle.{step-Sound, run_from-Sound, no_watch-Each}
use popcorn_images.Watches.Requests.{
  stop_fs_watch, stop_204, stop_not_found_404, stream_fs_events, stream_not_found_404, is_listed,
}
use popcorn_images.Watches.Unlisted.{
  Gone, close-Gone, defer_once-Gone, deferrals, rank, run-Gone, step-Gone, weaken-Gone,
}

deferred-Gone :
    (add : Text → Option Error) (id : Text) (n : ℕ) (j : Text) (ws : Watches)
    → n ≤ 3
    → text_eq j id ≡ true
    → At (Gone n) id ws
    → At (Gone (n - 1)) id (step add ws (deferred j))
unfolding step
deferred-Gone add id n j ws b c a = rw (text_eq_sound j id c) (
    adjust_same-At (Gone n) id (Gone (n - 1)) _ ws (λ w g. defer_once-Gone n w w.forwarder b refl g)
      a)

module _ (add : Text → Option Error) (id : Text) (m : ℕ) where
  -- A step of the goroutine of the watch takes one off; no event adds one.
  run_down-Gone :
      (n : ℕ) (ws : Watches) (es : List Event)
      → n ≤ 3
      → n ≤ m + deferrals id es
      → At (Gone n) id ws
      → At (Gone m) id (run add ws es)
  unfolding run
  run_down-Gone n ws [] b h a = weaken-Gone id m n ws (ground (arith, h)) a
  run_down-Gone n ws (started j path recursive dirs ∷ es) b h a =
      run_down-Gone n _ es b h (step-Gone n add id ws (started j path recursive dirs) a)
  run_down-Gone n ws (notified j op path is_dir visits ∷ es) b h a =
      run_down-Gone n _ es b h (step-Gone n add id ws (notified j op path is_dir visits) a)
  run_down-Gone n ws (ended j ∷ es) b h a =
      run_down-Gone n _ es b h (step-Gone n add id ws (ended j) a)
  run_down-Gone n ws (broken j ∷ es) b h a =
      run_down-Gone n _ es b h (step-Gone n add id ws (broken j) a)
  run_down-Gone n ws (stopped j ∷ es) b h a =
      run_down-Gone n _ es b h (step-Gone n add id ws (stopped j) a)
  run_down-Gone n ws (streamed j ∷ es) b h a =
      run_down-Gone n _ es b h (step-Gone n add id ws (streamed j) a)
  run_down-Gone n ws (deferred j ∷ es) b h a = elim (Bool-cases (text_eq j id)) [
    | inl c ↦
        run_down-Gone (n - 1) _ es (ground (arith, b)) (ground (arith, h, c))
          (deferred-Gone add id n j ws b c a)
    | inr c ↦ run_down-Gone n _ es b (ground (arith, h, c)) (step-Gone n add id ws (deferred j) a)
  ]

leave_now-Gone : (w : Watch) → Gone 4 w → Gone 3 (leave w)
unfolding leave Gone
leave_now-Gone w g =
    if-Holds (Gone 3) (is_forwarding w.forwarder) _ _ (λ f. (g.0, omega arith))
      (λ f. (g.0, still_ended w.forwarder f))
  where
    still_ended : (f : Forwarder) → is_forwarding f ≡ false → rank f ≤ 3
    still_ended forwarding h = ground (arith, h)
    still_ended closing h = omega arith
    still_ended forgetting h = omega arith
    still_ended draining h = omega arith
    still_ended finished h = omega arith

-- Out of s.watches, and its watcher closed
abbrev Stopped : Watch → Type 0
Stopped w = (Gone 4 w) × (w.close_once ≡ true)

-- That the watcher is closed lets the goroutine leave its loop.
end_now-Gone : (w : Watch) → Sound w → Stopped w → Gone 3 (end w)
unfolding end
end_now-Gone w s (g, c) =
    if-Holds (Gone 3) (ltb 0 w.closes) _ _ (λ k. leave_now-Gone w g)
      (λ k. absurd (ground (arith, k, c, s.closed_once)))

stop_now-closed : (w : Watch) → w.listed ≡ true → (stop w).close_once ≡ true
unfolding stop close
stop_now-closed w l = ground (arith, l)

stop_now-Gone : (w : Watch) → Gone 4 (stop w)
unfolding stop Gone close
stop_now-Gone w =
    if-Holds (Gone 4) w.listed _ _ (λ l. close-Gone 4 _ (refl, any_rank w.forwarder))
      (λ l. (l, any_rank w.forwarder))
  where
    any_rank : (f : Forwarder) → rank f ≤ 4
    any_rank forwarding = omega arith
    any_rank closing = omega arith
    any_rank forgetting = omega arith
    any_rank draining = omega arith
    any_rank finished = omega arith

-- The watch of the id is in the store, whatever its state.
found-At :
    (id : Text) (ws : Watches) (o : Option Watch)
    → lookup id ws ≡ o
    → is_listed o ≡ true
    → At (λ w. w.listed ≡ true) id ws
unfolding is_listed
found-At id ws none e h = ground (arith, h)
found-At id ws (some w) e h = record { value = w; found = e; has = h }

stop_fs_watch-Stopped :
    (add : Text → Option Error) (id : Text) (ws : Watches)
    → is_listed (lookup id ws) ≡ true
    → At Stopped id (stop_fs_watch add id ws).1
unfolding stop_fs_watch step
stop_fs_watch-Stopped add id ws h = rw h (
    adjust_same-At (λ w. w.listed ≡ true) id Stopped stop ws
      (λ w l. (stop_now-Gone w, stop_now-closed w l)) (found-At id ws _ refl h))

stop_fs_watch-Gone :
    (add : Text → Option Error) (id : Text) (ws : Watches)
    → is_listed (lookup id ws) ≡ true
    → At (Gone 4) id (stop_fs_watch add id ws).1
stop_fs_watch-Gone add id ws h =
    let a = stop_fs_watch-Stopped add id ws h in
    record { value = a.value; found = a.found; has = a.has.0 }

is_listed-Gone :
    (id : Text) (n : ℕ) (ws : Watches) → At (Gone n) id ws → is_listed (lookup id ws) ≡ false
unfolding is_listed Gone
is_listed-Gone id n ws a = rw a.found a.has.0

answered_stop-is_listed :
    (add : Text → Option Error) (id : Text) (ws : Watches)
    → (stop_fs_watch add id ws).0 ≡ stop_204
    → is_listed (lookup id ws) ≡ true
unfolding stop_fs_watch
answered_stop-is_listed add id ws h = ground (arith, h)

-- Once a stop of a watch is answered 204, whatever happens then, each request for its events and
-- each further stop of it is answered 404, and such a stop changes nothing.
pub stop_fs_watch-for_good :
    (add : Text → Option Error) (id : Text) (ws : Watches) (es : List Event)
    → (stop_fs_watch add id ws).0 ≡ stop_204
    → (stream_fs_events id (run add (stop_fs_watch add id ws).1 es)
        ≡ stream_not_found_404 (codes "watch not found"))
      × (stop_fs_watch add id (run add (stop_fs_watch add id ws).1 es)
          ≡ (stop_not_found_404 (codes "watch not found"), run add (stop_fs_watch add id ws).1 es))
unfolding stream_fs_events stop_fs_watch
stop_fs_watch-for_good add id ws es h =
    let l = answered_stop-is_listed add id ws h in
    let g = is_listed-Gone id 4 _ (run-Gone 4 add id _ es (stop_fs_watch-Gone add id ws l)) in
    (rw g refl, rw g refl)

-- The goroutine is at its end, and the watcher and the channel are closed, once each.
pub record Ended (w : Watch) : Type 0 where
  pub done : w.forwarder ≡ finished
  pub watcher_closed : w.closes ≡ 1
  pub channel_closed : w.events_closed ≡ 1
  pub no_panic : w.panicked ≡ false

no_rank : (f : Forwarder) → rank f ≤ 0 → f ≡ finished
no_rank forwarding h = ground (arith, h)
no_rank closing h = ground (arith, h)
no_rank forgetting h = ground (arith, h)
no_rank draining h = ground (arith, h)
no_rank finished h = refl

finished-Ended : (w : Watch) → Gone 0 w → Sound w → Ended w
unfolding Gone
finished-Ended w g s =
    let f = no_rank w.forwarder g.1 in
    record {
      done = f;
      watcher_closed = ground (arith, f, s.closed_once, s.goroutine_closed);
      channel_closed = ground (arith, f, s.channel_closed_once);
      no_panic = s.no_panic;
    }

stop_fs_watch-Each :
    (add : Text → Option Error) (id : Text) (ws : Watches)
    → is_listed (lookup id ws) ≡ true
    → Each Sound ws
    → Each Sound (stop_fs_watch add id ws).1
unfolding stop_fs_watch
stop_fs_watch-Each add id ws l h = rw l (step-Sound add ws (stopped id) h)

end_now-At :
    (add : Text → Option Error) (id : Text) (ws : Watches)
    → Each Sound ws
    → At Stopped id ws
    → At (Gone 3) id (step add ws (ended id))
unfolding step
end_now-At add id ws h a =
    adjust_same-At (λ w. Sound w × Stopped w) id (Gone 3) end ws (λ w (s, p). end_now-Gone w s p)
      (record { value = a.value; found = a.found; has = (h id a.value a.found, a.has) })

-- Whatever the server did before, when a stop of a watch is answered 204, its goroutine then
-- receives from fsnotify's channels, which it finds closed if the watcher has been closed, and after
-- that, among any other events, makes three steps: it is at its end, and the watcher and the channel
-- of events have been closed, once each.
pub stop_fs_watch-Ended :
    (add : Text → Option Error) (id : Text) (before es : List Event)
    → (stop_fs_watch add id (run add [] before)).0 ≡ stop_204
    → 3 ≤ deferrals id es
    → At Ended id (run add (stop_fs_watch add id (run add [] before)).1 (ended id ∷ es))
unfolding run
stop_fs_watch-Ended add id before es h d =
    let ws : Watches = run add [] before in
    let l = answered_stop-is_listed add id ws h in
    let all = stop_fs_watch-Each add id ws l (run_from-Sound add [] before no_watch-Each) in
    let ended_at =
      end_now-At add id (stop_fs_watch add id ws).1 all (stop_fs_watch-Stopped add id ws l) in
    let gone = run_down-Gone add id 0 3 _ es (omega arith) (ground (arith, d)) ended_at in
    let sound = run_from-Sound add _ (ended id ∷ es) all in
    record {
      value = gone.value;
      found = gone.found;
      has = finished-Ended gone.value gone.has (sound id gone.value gone.found);
    }
