-- ===== src/Agent/Watches/Life/Single.antt =====
-- The goroutines of one volume, and the watch at its key.
use mathlib.Core.List.{Memᴰ}
use simple_volume.Base.{
  ℕ, ◌≡◌, refl, sym, ap, ◌≢◌, ◌∙◌, inl, inr, Bool, true, false, ◌∷◌, Option, none, some, contains,
  length, eqb, if◌then◌else◌, All-map, arith, Bool-cases, Option-cases, nat_eq,
}
use simple_volume.Base.Int.{ℤ}
use simple_volume.Base.Dict.{lookup, insert, lookup-insert_same}
use simple_volume.Base.Sorting.{All-Memᴰ}
use simple_volume.Text.{Text, text_eq, is_empty}
use simple_volume.Time.{Time}
use simple_volume.Agent.Watches.{
  WatchStartRequest, WatchStatus, ManagedWatch, Goroutine, WatchManager, no_watches, StartError,
  volume_required, source_required, target_required, Started, start, started, refused,
  start_targets, start_with, missing_url, install, watch_key, new_status, new_config, stop, stop_at,
  stopped_status,
}
use simple_volume.Agent.Watches.Sink.{
  Report, delivery_success, delivery_error, unconfirmed_delivery, watch_stopped, record_report,
  report_to,
}
use simple_volume.Agent.Watches.Sink.Delivery.{with_status, report_to-current, report_to-stale}
use simple_volume.Agent.Watches.Life.{
  Step, starting, stopping, reporting, Reachable, at_first, then_step, Accounted, WellFormed,
}
use simple_volume.Agent.Watches.Life.Kept.{
  updated, changed, some_inj, key_at-bounded, contains-cons, contains-rest, same_key,
  updated-WellFormed,
}
use simple_volume.Agent.Watches.Life.Replaced.{installed, installed-WellFormed}

not_refused :
    (b : Bool) (e : StartError) (x : Started) (s : WatchStatus) (n : WatchManager)
    → (if b then refused e else x) ≡ started s n
    → x ≡ started s n
not_refused true e x s n h = absurd cc
not_refused false e x s n h = h

started-manager : {s t : WatchStatus} {m n : WatchManager} → started s m ≡ started t n → m ≡ n
started-manager h = cc

start_with-installs :
    (debounce : Option ℤ) (r : WatchStartRequest) (now : Time) (s : WatchStatus)
    (m n : WatchManager)
    → start_with debounce r now m ≡ started s n
    → (d : ℤ) × (n ≡ install r d now m)
unfolding start_with
start_with-installs none r now s m n h = absurd cc
start_with-installs (some d) r now s m n h = (d, sym (started-manager h))

start_targets-installs :
    (parse_duration : Text → Option ℤ) (missing : Option ℕ) (r : WatchStartRequest) (now : Time)
    (s : WatchStatus) (m n : WatchManager)
    → start_targets parse_duration missing r now m ≡ started s n
    → (d : ℤ) × (n ≡ install r d now m)
unfolding start_targets
start_targets-installs parse_duration (some i) r now s m n h = absurd cc
start_targets-installs parse_duration none r now s m n h = start_with-installs _ r now s m n h

-- A start that is not refused installs a watch.
pub start-installs :
    (parse_duration : Text → Option ℤ) (r : WatchStartRequest) (now : Time) (s : WatchStatus)
    (m n : WatchManager)
    → start parse_duration r now m ≡ started s n
    → (d : ℤ) × (n ≡ install r d now m)
unfolding start
start-installs parse_duration r now s m n h =
    start_targets-installs parse_duration (missing_url 0 r.targets) r now s m n (
      not_refused (eqb (length r.targets) 0) target_required _ s n (
        not_refused (is_empty r.source.web_dav_url) source_required _ s n
          (not_refused (is_empty r.volume) volume_required _ s n h)))

install-WellFormed :
    (r : WatchStartRequest) (debounce : ℤ) (now : Time) (m : WatchManager)
    → WellFormed m
    → WellFormed (install r debounce now m)
unfolding install installed
install-WellFormed r debounce now m h =
    let key = watch_key r.namespace r.volume in
    let pointer = length m.goroutines in
    installed-WellFormed m key (lookup key m.watches)
      (record { pointer = pointer; status = new_status r now })
      (record { key = key; pointer = pointer; config = new_config r debounce }) h refl refl refl
      refl

cancelled-WellFormed :
    (m : WatchManager) (key : Text) (w : ManagedWatch)
    → WellFormed m
    → lookup key m.watches ≡ some w
    → w.status.running ≡ false
    → WellFormed (record m { cancelled = w.pointer ∷ m.cancelled })
cancelled-WellFormed m key w h e k = record {
  placed = h.placed;
  bounded = (key_at-bounded w.pointer m.goroutines key (h.known key w e), h.bounded);
  known = h.known;
  accounted =
      All-map
        (λ g a. elim a [
          | inl c ↦ inl (contains-cons g.pointer w.pointer m.cancelled c)
          | inr v ↦ inr v
        ])
        m.goroutines h.accounted;
  stopped = λ j v f c. elim (contains-rest v.pointer w.pointer m.cancelled c) [
    | inl p ↦
        let same : v ≡ w =
          some_inj
            (sym f ∙ ap (λ x. lookup x m.watches) (same_key m j key v w h f e (sym p)) ∙ e) in
        rw same k
    | inr p ↦ h.stopped j v f p
  ];
}

stopped_status-running : (now : Time) (s : WatchStatus) → (stopped_status now s).running ≡ false
unfolding stopped_status
stopped_status-running now s = refl

stop_at-WellFormed :
    (key : Text) (now : Time) (existing : Option ManagedWatch) (m : WatchManager)
    → WellFormed m
    → lookup key m.watches ≡ existing
    → WellFormed (stop_at key now existing m).1
unfolding stop_at updated changed
stop_at-WellFormed key now none m h e = h
stop_at-WellFormed key now (some w) m h e =
    let status = stopped_status now w.status in
    let halted : status.running ≡ false = stopped_status-running now w.status in
    cancelled-WellFormed (record m { watches = insert key (with_status w status) m.watches }) key
      (with_status w status) (updated-WellFormed m key w status h e (λ _. halted))
      (lookup-insert_same key (with_status w status) m.watches) halted

record_report-running :
    (report : Report) (s : WatchStatus)
    → s.running ≡ false
    → (record_report report s).running ≡ false
unfolding record_report stopped_status
record_report-running (delivery_success _ _ _) s h = h
record_report-running (delivery_error _ _) s h = h
record_report-running (unconfirmed_delivery _ _ _) s h = h
record_report-running (watch_stopped _ _) s h = refl

pub eqb-true : (a b : ℕ) → eqb a b ≡ true → a ≡ b
eqb-true a b h = ground (arith)

pub eqb-false : (a b : ℕ) → eqb a b ≡ false → a ≢ b
eqb-false a b h = ground (arith)

report_to-WellFormed :
    (key : Text) (pointer : ℕ) (report : Report) (m : WatchManager)
    → WellFormed m
    → WellFormed (report_to key pointer report m)
unfolding updated changed
report_to-WellFormed key pointer report m h = elim (Option-cases (lookup key m.watches)) [
  | inl e ↦ rw (report_to-stale key pointer report m (λ w f. absurd cc)) h
  | inr (w, e) ↦ elim (Bool-cases (eqb w.pointer pointer)) [
    | inl f ↦
        let same : w.pointer ≡ pointer = eqb-true w.pointer pointer f in
        let kept : contains m.cancelled w.pointer ≡ true
            → (record_report report w.status).running ≡ false =
          λ c. record_report-running report w.status (h.stopped key w e c) in
        rw (report_to-current key pointer report m w e same)
          (updated-WellFormed m key w (record_report report w.status) h e kept)
    | inr f ↦
        let other : (v : ManagedWatch) → lookup key m.watches ≡ some v → v.pointer ≢ pointer =
          λ v l p. eqb-false w.pointer pointer f (ap (λ x. x.pointer) (some_inj (sym e ∙ l)) ∙ p) in
        rw (report_to-stale key pointer report m other) h
  ]
]

no_watches-WellFormed : WellFormed no_watches
unfolding lookup
no_watches-WellFormed = record {
  placed = tt;
  bounded = tt;
  known = λ key w h. absurd cc;
  accounted = tt;
  stopped = λ key w h c. absurd cc;
}

Step-WellFormed : {m n : WatchManager} → Step m n → WellFormed m → WellFormed n
unfolding stop
Step-WellFormed {m} {n} (starting parse_duration r now s e) h =
    let (d, f) = start-installs parse_duration r now s m n e in
    rw f (install-WellFormed r d now m h)
Step-WellFormed {m} (stopping namespace volume now) h =
    stop_at-WellFormed (watch_key namespace volume) now
      (lookup (watch_key namespace volume) m.watches) m h refl
Step-WellFormed {m} (reporting g report _) h = report_to-WellFormed g.key g.pointer report m h

pub Reachable-WellFormed : (m : WatchManager) → Reachable m → WellFormed m
Reachable-WellFormed _ at_first = no_watches-WellFormed
Reachable-WellFormed _ (then_step {m} r s) = Step-WellFormed s (Reachable-WellFormed m r)

live :
    (m : WatchManager) (g : Goroutine)
    → contains m.cancelled g.pointer ≡ false
    → Accounted m g
    → (w : ManagedWatch) × (lookup g.key m.watches ≡ some w) × (w.pointer ≡ g.pointer)
live m g h (inl c) = absurd cc
live m g h (inr v) = v

-- Whatever starts, stops and reports came before: a goroutine that is not cancelled is that of the
-- watch at its volume's key; two goroutines of one volume that are not cancelled have one pointer; and a
-- watch that is cancelled is not reported as running.
pub Reachable-single :
    (m : WatchManager)
    → Reachable m
    → ((g : Goroutine)
        → Memᴰ g m.goroutines
        → contains m.cancelled g.pointer ≡ false
        → (w : ManagedWatch) × (lookup g.key m.watches ≡ some w) × (w.pointer ≡ g.pointer))
      × ((g k : Goroutine)
          → Memᴰ g m.goroutines
          → Memᴰ k m.goroutines
          → g.key ≡ k.key
          → contains m.cancelled g.pointer ≡ false
          → contains m.cancelled k.pointer ≡ false
          → g.pointer ≡ k.pointer)
      × ((key : Text) (w : ManagedWatch)
          → lookup key m.watches ≡ some w
          → contains m.cancelled w.pointer ≡ true
          → w.status.running ≡ false)
Reachable-single m r =
    let h : WellFormed m = Reachable-WellFormed m r in
    let at_key : (g : Goroutine)
        → Memᴰ g m.goroutines
        → contains m.cancelled g.pointer ≡ false
        → (w : ManagedWatch) × (lookup g.key m.watches ≡ some w) × (w.pointer ≡ g.pointer) =
      λ g i c. live m g c (All-Memᴰ (Accounted m) g m.goroutines h.accounted i) in
    (
      at_key,
      λ g k i j e c d.
          let (v, l, p) = at_key g i c in
          let (w, n, q) = at_key k j d in
          let same : v ≡ w = some_inj (sym l ∙ ap (λ x. lookup x m.watches) e ∙ n) in
          sym p ∙ ap (λ x. x.pointer) same ∙ q,
      h.stopped,
    )
