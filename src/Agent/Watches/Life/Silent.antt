-- ===== src/Agent/Watches/Life/Silent.antt =====
-- The reports of a watch that was replaced.
use simple_volume.Base.{
  ℕ, ◌≡◌, refl, sym, ap, ◌≢◌, ◌∙◌, ◌<◌, inl, inr, List, Option, none, some, length, eqb, arith,
  Bool-cases, Option-cases,
}
use simple_volume.Base.Int.{ℤ}
use simple_volume.Base.Dict.{lookup, insert, found_after_insert}
use simple_volume.Text.{Text, text_eq}
use simple_volume.Time.{Time}
use simple_volume.Agent.Watches.{
  WatchStartRequest, WatchStatus, ManagedWatch, WatchManager, start, started, install, watch_key,
  new_status, stop, stop_at, stopped_status,
}
use simple_volume.Agent.Watches.Sink.{Report, record_report, report_to, report_all}
use simple_volume.Agent.Watches.Sink.Delivery.{
  with_status, report_to-current, report_to-stale, report_all-stale,
}
use simple_volume.Agent.Watches.Life.{
  Step, starting, stopping, reporting, Reachable, Steps, no_step, one_more, WellFormed,
}
use simple_volume.Agent.Watches.Life.Kept.{some_inj, key_at-bounded}
use simple_volume.Agent.Watches.Life.Single.{
  start-installs, Reachable-WellFormed, eqb-true, eqb-false,
}

-- The pointer is older than that of the watch at the key, and than any new one.
record Older (p : ℕ) (key : Text) (m : WatchManager) : Type 0 where
  created : p < length m.goroutines
  replaced : (v : ManagedWatch) → lookup key m.watches ≡ some v → p < v.pointer

same_pointer :
    (p : ℕ) (key j : Text) (m : WatchManager) (w : ManagedWatch) (status : WatchStatus)
    → Older p key m
    → lookup j m.watches ≡ some w
    → (v : ManagedWatch) → lookup key (insert j (with_status w status) m.watches) ≡ some v
    → p < v.pointer
same_pointer p key j m w status h e v f =
    elim (found_after_insert key j (with_status w status) v m.watches f) [
      | inl (a, b) ↦ rw b (h.replaced w (ap (λ x. lookup x m.watches) a ∙ e))
      | inr (a, b) ↦ h.replaced v b
    ]

install-Older :
    (p : ℕ) (key : Text) (r : WatchStartRequest) (debounce : ℤ) (now : Time) (m : WatchManager)
    → Older p key m
    → Older p key (install r debounce now m)
unfolding install
install-Older p key r debounce now m h = record {
  created = omega (arith, h.created);
  replaced = λ v f.
      elim (found_after_insert key (watch_key r.namespace r.volume)
        (record { pointer = length m.goroutines; status = new_status r now }) v m.watches f) [
          | inl (a, b) ↦ rw b h.created
          | inr (a, b) ↦ h.replaced v b
        ];
}

stop_at-Older :
    (p : ℕ) (key j : Text) (now : Time) (existing : Option ManagedWatch) (m : WatchManager)
    → Older p key m
    → lookup j m.watches ≡ existing
    → Older p key (stop_at j now existing m).1
unfolding stop_at
stop_at-Older p key j now none m h e = h
stop_at-Older p key j now (some w) m h e = record {
  created = h.created;
  replaced = same_pointer p key j m w (stopped_status now w.status) h e;
}

report_to-Older :
    (p : ℕ) (key j : Text) (pointer : ℕ) (report : Report) (m : WatchManager)
    → Older p key m
    → Older p key (report_to j pointer report m)
report_to-Older p key j pointer report m h = elim (Option-cases (lookup j m.watches)) [
  | inl e ↦ rw (report_to-stale j pointer report m (λ w f. absurd cc)) h
  | inr (w, e) ↦ elim (Bool-cases (eqb w.pointer pointer)) [
    | inl f ↦ rw (report_to-current j pointer report m w e (eqb-true w.pointer pointer f)) (record {
      created = h.created;
      replaced = same_pointer p key j m w (record_report report w.status) h e;
    })
    | inr f ↦
        let other : (v : ManagedWatch) → lookup j m.watches ≡ some v → v.pointer ≢ pointer =
          λ v l q. eqb-false w.pointer pointer f (ap (λ x. x.pointer) (some_inj (sym e ∙ l)) ∙ q) in
        rw (report_to-stale j pointer report m other) h
  ]
]

Step-Older : {m n : WatchManager} (p : ℕ) (key : Text) → Step m n → Older p key m → Older p key n
unfolding stop
Step-Older {m} {n} p key (starting parse_duration r now s e) h =
    let (d, f) = start-installs parse_duration r now s m n e in
    rw f (install-Older p key r d now m h)
Step-Older {m} p key (stopping namespace volume now) h =
    stop_at-Older p key (watch_key namespace volume) now
      (lookup (watch_key namespace volume) m.watches) m h refl
Step-Older {m} p key (reporting g report _) h = report_to-Older p key g.key g.pointer report m h

Steps-Older : {m n : WatchManager} (p : ℕ) (key : Text) → Steps m n → Older p key m → Older p key n
Steps-Older p key no_step h = h
Steps-Older p key (one_more s more) h = Steps-Older p key more (Step-Older p key s h)

-- The pointer of the watch that a start replaces.
install-replaces :
    (r : WatchStartRequest) (debounce : ℤ) (now : Time) (m : WatchManager) (w : ManagedWatch)
    → WellFormed m
    → lookup (watch_key r.namespace r.volume) m.watches ≡ some w
    → Older w.pointer (watch_key r.namespace r.volume) (install r debounce now m)
unfolding install
install-replaces r debounce now m w h e =
    let key = watch_key r.namespace r.volume in
    let bound : w.pointer < length m.goroutines =
      key_at-bounded w.pointer m.goroutines key (h.known key w e) in
    record {
      created = omega (arith, bound);
      replaced = λ v f.
          elim (found_after_insert key key
            (record { pointer = length m.goroutines; status = new_status r now }) v m.watches f) [
              | inl (a, b) ↦ rw b bound
              | inr (a, b) ↦ absurd (a refl)
            ];
    }

-- Once a start has replaced the watch of its volume, what the old watch's goroutine still reports
-- changes nothing: not then, and not after any further starts, stops and reports.
pub replaced_watch_silent :
    (parse_duration : Text → Option ℤ) (r : WatchStartRequest) (now : Time) (s : WatchStatus)
    (m n later : WatchManager) (w : ManagedWatch) (reports : List Report)
    → Reachable m
    → lookup (watch_key r.namespace r.volume) m.watches ≡ some w
    → start parse_duration r now m ≡ started s n
    → Steps n later
    → report_all (watch_key r.namespace r.volume) w.pointer reports later ≡ later
replaced_watch_silent parse_duration r now s m n later w reports reached e f steps =
    let key = watch_key r.namespace r.volume in
    let (d, g) = start-installs parse_duration r now s m n f in
    let first : Older w.pointer key n =
      rw g (install-replaces r d now m w (Reachable-WellFormed m reached) e) in
    let h : Older w.pointer key later = Steps-Older w.pointer key steps first in
    report_all-stale key w.pointer reports later (λ v l p. omega (arith, h.replaced v l, p))
