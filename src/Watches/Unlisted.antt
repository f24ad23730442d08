-- ===== src/Watches/Unlisted.antt =====
-- A watch that is no longer listed, by the steps that its goroutine has in front of it.
use popcorn_images.Base.{
  base, ltb, ◌&&◌, ℕ, ◌≤◌, ◌-◌, ◌+◌, ◌≡◌, refl, Option, none, some, List, [], ◌∷◌, Bool, true,
  false, Text, text_eq, Error, lookup, At, adjust-At, cons-At, arith, if-Holds, if◌then◌else◌,
}
use popcorn_images.Watches.{
  EventType, FileSystemEvent, Op, Visit, Forwarder, forwarding, closing, forgetting, draining,
  finished, Watch, Event, started, notified, ended, broken, deferred, stopped, streamed, close,
  event_type, offer, follow, forward, is_forwarding, notify, leave, end, defer, stop, take_first,
  Watches, register, step, run, is_create,
}

-- How many steps the goroutine has in front of it
abbrev pub rank : Forwarder → ℕ
rank forwarding = 4
rank closing = 3
rank forgetting = 2
rank draining = 1
rank finished = 0

unfoldable pub Gone : ℕ → Watch → Type 0
Gone n w = (w.listed ≡ false) × (rank w.forwarder ≤ n)

abbrev pub deferrals : Text → List Event → ℕ
deferrals id [] = 0
deferrals id (deferred j ∷ es) = (if text_eq j id then 1 else 0) + deferrals id es
deferrals id (e ∷ es) = deferrals id es

module _ (n : ℕ) where
  pub close-Gone : (w : Watch) → Gone n w → Gone n (close w)
  unfolding close Gone
  close-Gone w g = if-Holds (Gone n) w.close_once _ _ (λ c. g) (λ c. (g.0, g.1))

  pub follow-Gone :
      (add : Text → Option Error) (e : FileSystemEvent) (visits : List Visit) (w : Watch)
      → Gone n w
      → Gone n (follow add e visits w)
  unfolding follow Gone
  follow-Gone add e visits w g =
      if-Holds (Gone n) (w.recursive && (is_create e.kind && e.is_dir)) _ _ (λ c. (g.0, g.1))
        (λ c. g)

  pub offer-Gone : (e : FileSystemEvent) (w : Watch) → Gone n w → Gone n (offer e w)
  unfolding offer Gone
  offer-Gone e w g = (g.0, g.1)

  pub forward-Gone :
      (add : Text → Option Error) (t : Option EventType) (path : Text) (is_dir : Bool)
      (visits : List Visit) (w : Watch)
      → Gone n w
      → Gone n (forward add t path is_dir visits w)
  unfolding forward
  forward-Gone add none path is_dir visits w g = g
  forward-Gone add (some kind) path is_dir visits w g =
      let e : FileSystemEvent = record {
        kind = kind;
        path = path;
        name = base path;
        is_dir = is_dir;
      } in
      follow-Gone add e visits (offer e w) (offer-Gone e w g)

  pub notify-Gone :
      (add : Text → Option Error) (op : Op) (path : Text) (is_dir : Bool) (visits : List Visit)
      (w : Watch)
      → Gone n w
      → Gone n (notify add op path is_dir visits w)
  unfolding notify
  notify-Gone add op path is_dir visits w g =
      if-Holds (Gone n) (is_forwarding w.forwarder) _ _
        (λ f. forward-Gone add (event_type op) path is_dir visits w g) (λ f. g)

  pub leave-Gone : (w : Watch) → Gone n w → Gone n (leave w)
  unfolding leave Gone
  leave-Gone w g =
      if-Holds (Gone n) (is_forwarding w.forwarder) _ _ (λ f. (g.0, ended-rank w.forwarder f g.1))
        (λ f. g)
    where
      ended-rank : (f : Forwarder) → is_forwarding f ≡ true → rank f ≤ n → 3 ≤ n
      ended-rank forwarding h r = omega arith
      ended-rank closing h r = omega arith
      ended-rank forgetting h r = ground arith
      ended-rank draining h r = ground arith
      ended-rank finished h r = ground arith

  pub end-Gone : (w : Watch) → Gone n w → Gone n (end w)
  unfolding end
  end-Gone w g = if-Holds (Gone n) (ltb 0 w.closes) _ _ (λ c. leave-Gone w g) (λ c. g)

  pub defer-Gone : (w : Watch) (f : Forwarder) → w.forwarder ≡ f → Gone n w → Gone n (defer f w)
  unfolding defer Gone
  defer-Gone w forwarding e g = g
  defer-Gone w closing e g = let c = close-Gone w g in (c.0, ground (arith, rw e at g.1))
  defer-Gone w forgetting e g = (refl, ground (arith, rw e at g.1))
  defer-Gone w draining e g = (g.0, omega arith)
  defer-Gone w finished e g = g

  pub stop-Gone : (w : Watch) → Gone n w → Gone n (stop w)
  unfolding stop Gone
  stop-Gone w g = ground (arith, g.0, g.1)

  pub take_first-Gone :
      (w : Watch) (es : List FileSystemEvent) → Gone n w → Gone n (take_first es w)
  unfolding take_first Gone
  take_first-Gone w [] g = g
  take_first-Gone w (e ∷ es) g = (g.0, g.1)

  pub register-Gone :
      (id j : Text) (w : Watch) (o : Option Watch) (ws : Watches)
      → lookup j ws ≡ o
      → At (Gone n) id ws
      → At (Gone n) id (register j w o ws)
  unfolding register
  register-Gone id j w none ws e a = cons-At (Gone n) id j w ws e a
  register-Gone id j w (some v) ws e a = a

  pub step-Gone :
      (add : Text → Option Error) (id : Text) (ws : Watches) (e : Event)
      → At (Gone n) id ws
      → At (Gone n) id (step add ws e)
  unfolding step
  step-Gone add id ws (started j path recursive dirs) a = register-Gone id j _ _ ws refl a
  step-Gone add id ws (notified j op path is_dir visits) a =
      adjust-At (Gone n) id j _ ws (notify-Gone add op path is_dir visits) a
  step-Gone add id ws (ended j) a = adjust-At (Gone n) id j _ ws end-Gone a
  step-Gone add id ws (broken j) a = adjust-At (Gone n) id j _ ws leave-Gone a
  step-Gone add id ws (deferred j) a =
      adjust-At (Gone n) id j _ ws (λ w g. defer-Gone w w.forwarder refl g) a
  step-Gone add id ws (stopped j) a = adjust-At (Gone n) id j _ ws stop-Gone a
  step-Gone add id ws (streamed j) a =
      adjust-At (Gone n) id j _ ws (λ w g. take_first-Gone w w.events g) a

  pub run-Gone :
      (add : Text → Option Error) (id : Text) (ws : Watches) (es : List Event)
      → At (Gone n) id ws
      → At (Gone n) id (run add ws es)
  unfolding run
  run-Gone add id ws [] a = a
  run-Gone add id ws (e ∷ es) a = run-Gone add id (step add ws e) es (step-Gone add id ws e a)

  pub defer_once-Gone :
      (w : Watch) (f : Forwarder) → n ≤ 3 → w.forwarder ≡ f → Gone n w → Gone (n - 1) (defer f w)
  unfolding defer Gone
  defer_once-Gone w forwarding b e g = absurd (ground (arith, rw e at g.1))
  defer_once-Gone w closing b e g = let c = close-Gone w g in (c.0, ground (arith, rw e at g.1))
  defer_once-Gone w forgetting b e g = (refl, ground (arith, rw e at g.1))
  defer_once-Gone w draining b e g = (g.0, ground (arith, rw e at g.1))
  defer_once-Gone w finished b e g = (g.0, rw e (omega arith))

pub weaken-Gone :
    (id : Text) (m n : ℕ) (ws : Watches) → n ≤ m → At (Gone n) id ws → At (Gone m) id ws
unfolding Gone
weaken-Gone id m n ws h a = record {
  value = a.value;
  found = a.found;
  has = (a.has.0, ground (arith, h, a.has.1));
}
