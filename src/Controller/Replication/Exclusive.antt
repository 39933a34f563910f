-- ===== src/Controller/Replication/Exclusive.antt =====
-- The full syncs of one volume that run at a time.
use simple_volume.Base.{
  ℕ, ◌≡◌, refl, sym, ap, ◌≢◌, Bool, true, false, not, ◌&&◌, ◌||◌, List, [], ◌∷◌, ◌++◌, ◌==◌, All,
  All-map, contains, any, arith, Bool-cases, inl, inr,
}
use simple_volume.Base.Sorting.{All-zip}
use simple_volume.Base.Dict.{contains-keep, get_or}
use simple_volume.Text.{Text, text_eq, codes, has_prefix, is_empty}
use simple_volume.Controller.Failover.{add_entry}
use simple_volume.Controller.Replication.Syncs.{
  SyncState, key_prefix, start_epoch, note_active_node, is_busy, try_start_volume_full_sync,
  finish_sync, remember_completed, remember_watch, remember_scheduled,
}
use simple_volume.Controller.Replication.Jobs.{
  Job, Kind, Phase, manual, startup, scheduled, Advance, fails, manual_done, scheduled_done,
  is_stale, is_current, records, watch_fails, watch_starts, watch_remembered, Machine, Step, notes,
  watches, starts, advances, ends, Run, done, step, initial, key_of_job, sync_key, schedule_key,
  new_job,
}

-- No two jobs are of the same volume or have the same key.
abbrev pub Apart : Job → Job → Type 0
Apart i j = (i.volume_key ≢ j.volume_key) × (key_of_job i ≢ key_of_job j)

abbrev pub AllApart : List Job → Type 0
AllApart [] = Unit
AllApart (j ∷ jobs) = All (Apart j) jobs × AllApart jobs

pub record Exclusive (m : Machine) : Type 0 where
  pub registered : All (λ j. contains m.state.running_syncs (key_of_job j) ≡ true) m.jobs
  pub apart : AllApart m.jobs

has_prefix-append : (s t : Text) → has_prefix (s ++ t) s ≡ true
unfolding has_prefix
has_prefix-append [] t = refl
has_prefix-append (c ∷ s) t = ground (arith, has_prefix-append s t)

has_prefix-longer : (s t p : Text) → has_prefix s p ≡ true → has_prefix (s ++ t) p ≡ true
unfolding has_prefix
has_prefix-longer s t [] h = refl
has_prefix-longer [] t (d ∷ p) h = cc h
has_prefix-longer (c ∷ s) t (d ∷ p) h = ground (arith, has_prefix-longer s t p)

sync_key-has_prefix :
    (key : Text) (kind : Kind) → has_prefix (sync_key key kind) (key_prefix key) ≡ true
unfolding sync_key schedule_key
sync_key-has_prefix key manual = has_prefix-append (key_prefix key) _
sync_key-has_prefix key (startup signature) = has_prefix-append (key_prefix key) _
sync_key-has_prefix key (scheduled schedule day) =
    has_prefix-longer (schedule_key key schedule ++ codes ":") day (key_prefix key) (
      has_prefix-longer (schedule_key key schedule) (codes ":") (key_prefix key)
        (has_prefix-append (key_prefix key) schedule))

any-contains :
    (p : Text → Bool) (k : Text) (xs : List Text)
    → contains xs k ≡ true
    → p k ≡ true
    → any p xs ≡ true
unfolding any
any-contains p k [] h e = cc h
any-contains p k (x ∷ xs) h e = ground (arith, any-contains p k xs)

-- While the volume is not busy, no running key has its prefix.
free_prefix :
    (key k : Text) (s : SyncState)
    → is_busy key s ≡ false
    → contains s.running_syncs k ≡ true
    → has_prefix k (key_prefix key) ≡ false
unfolding is_busy
free_prefix key k s free running = elim (Bool-cases (has_prefix k (key_prefix key))) [
  | inl e ↦ absurd (
      let busy = any-contains (λ i. has_prefix i (key_prefix key)) k s.running_syncs running e in
      cc (busy, free))
  | inr e ↦ e
]

module _ {ℓ} (P : Job → Type ℓ) where
  All-replace :
      (before after : List Job) (i j : Job)
      → (P i → P j)
      → All P (before ++ i ∷ after)
      → All P (before ++ j ∷ after)
  All-replace [] after i j f h = (f h.0, h.1)
  All-replace (b ∷ before) after i j f h = (h.0, All-replace before after i j f h.1)

  All-remove :
      (before after : List Job) (j : Job) → All P (before ++ j ∷ after) → All P (before ++ after)
  All-remove [] after j h = h.1
  All-remove (b ∷ before) after j h = (h.0, All-remove before after j h.1)

  All-middle : (before after : List Job) (j : Job) → All P (before ++ j ∷ after) → P j
  All-middle [] after j h = h.0
  All-middle (b ∷ before) after j h = All-middle before after j h.1

AllApart-replace :
    (before after : List Job) (j : Job) (p : Phase)
    → AllApart (before ++ j ∷ after)
    → AllApart (before ++ record j { phase = p } ∷ after)
AllApart-replace [] after j p h = h
AllApart-replace (b ∷ before) after j p h = (
  All-replace (Apart b) before after j (record j { phase = p }) (λ a. a) h.0,
  AllApart-replace before after j p h.1,
)

AllApart-remove :
    (before after : List Job) (j : Job)
    → AllApart (before ++ j ∷ after)
    → AllApart (before ++ after)
AllApart-remove [] after j h = h.1
AllApart-remove (b ∷ before) after j h =
    (All-remove (Apart b) before after j h.0, AllApart-remove before after j h.1)

AllApart-others :
    (before after : List Job) (j : Job)
    → AllApart (before ++ j ∷ after)
    → All (λ i. key_of_job i ≢ key_of_job j) (before ++ after)
AllApart-others [] after j h = All-map (λ i a e. a.1 (sym e)) after h.0
AllApart-others (b ∷ before) after j h =
    ((All-middle (Apart b) before after j h.0).1, AllApart-others before after j h.1)

-- The operations on the other maps leave the running syncs alone.
running-note_active_node :
    (key node : Text) (s : SyncState)
    → (note_active_node key node s).running_syncs ≡ s.running_syncs
unfolding note_active_node start_epoch
running-note_active_node key node s =
    let previous = get_or [] key s.last_active_node in
    elim (Bool-cases (not (is_empty previous) && not (previous == node))) [
      | inl e ↦ rw e refl
      | inr e ↦ rw e refl
    ]

running-Advance :
    (s : SyncState) (j : Job) (t : SyncState) (p : Phase)
    → Advance s j t p
    → t.running_syncs ≡ s.running_syncs
unfolding remember_completed remember_watch remember_scheduled
running-Advance s j t p (fails _) = refl
running-Advance s j t p (manual_done _ _) = refl
running-Advance s j t p (scheduled_done _ _) = refl
running-Advance s j t p (is_stale _ _ _) = refl
running-Advance s j t p (is_current _ _ _) = refl
running-Advance s j t p (records _) = refl
running-Advance s j t p (watch_fails _) = refl
running-Advance s j t p (watch_starts _) = refl
running-Advance s j t p (watch_remembered _ _) = refl

-- A change of the maps that leaves the running syncs alone.
Exclusive-same :
    (s t : SyncState) (jobs : List Job)
    → t.running_syncs ≡ s.running_syncs
    → Exclusive (record { state = s; jobs = jobs })
    → Exclusive (record { state = t; jobs = jobs })
Exclusive-same s t jobs e h = record {
  registered = All-map (λ j r. rw e r) jobs h.registered;
  apart = h.apart;
}

started_running :
    (key k : Text) (s t : SyncState)
    → try_start_volume_full_sync key k s ≡ (true, t)
    → (is_busy key s ≡ false) × (t.running_syncs ≡ add_entry k s.running_syncs)
unfolding try_start_volume_full_sync
started_running key k s t h = elim (Bool-cases (is_busy key s)) [
  | inl e ↦ let g : false ≡ true = ap (λ (r : Bool × SyncState). r.0) (rw e at h) in cc g
  | inr e ↦ (e, sym (ap (λ (r : Bool × SyncState). r.1.running_syncs) (rw e at h)))
]

contains-added :
    (k i : Text) (xs : List Text) → contains (add_entry k xs) i ≡ (i == k || contains xs i)
unfolding add_entry
contains-added k i xs = ground arith

Exclusive-starts :
    (key node : Text) (kind : Kind) (epoch : ℕ) (s t : SyncState) (jobs : List Job)
    → try_start_volume_full_sync key (sync_key key kind) s ≡ (true, t)
    → Exclusive (record { state = s; jobs = jobs })
    → Exclusive (record { state = t; jobs = new_job key kind node epoch ∷ jobs })
Exclusive-starts key node kind epoch s t jobs started h =
    let (free, added) = started_running key (sync_key key kind) s t started in
    record {
      registered = (
        rw added (
            ground (arith, contains-added (sync_key key kind) (sync_key key kind) s.running_syncs)),
        All-map
            (λ j r.
              rw added
                (ground (arith, contains-added (sync_key key kind) (key_of_job j) s.running_syncs)))
            jobs h.registered,
      );
      apart = (
        All-map
            (λ j r.
              let other = free_prefix key (key_of_job j) s free r in
              let own = sync_key-has_prefix j.volume_key j.kind in
              (λ e. cc (own, other, e), λ e. cc (sync_key-has_prefix key kind, other, e)))
            jobs h.registered,
        h.apart,
      );
    }

still_running :
    (s : SyncState) (k i : Text)
    → contains s.running_syncs i ≡ true
    → i ≢ k
    → contains (finish_sync k s).running_syncs i ≡ true
unfolding finish_sync
still_running s k i h other = ground (arith, contains-keep s.running_syncs k i)

Exclusive-ends :
    (s : SyncState) (before after : List Job) (j : Job)
    → Exclusive (record { state = s; jobs = before ++ j ∷ after })
    → Exclusive (record { state = finish_sync (key_of_job j) s; jobs = before ++ after })
unfolding finish_sync
Exclusive-ends s before after j h = record {
  registered =
      All-map (λ i r. still_running s (key_of_job j) (key_of_job i) r.0 r.1) (before ++ after)
        (All-zip (λ i. contains s.running_syncs (key_of_job i) ≡ true)
          (λ i. key_of_job i ≢ key_of_job j) (before ++ after)
          (All-remove _ before after j h.registered) (AllApart-others before after j h.apart));
  apart = AllApart-remove before after j h.apart;
}

Exclusive-Step : (m n : Machine) → Step m n → Exclusive m → Exclusive n
unfolding remember_watch
Exclusive-Step m n (notes key node s jobs) h =
    Exclusive-same s (note_active_node key node s) jobs (running-note_active_node key node s) h
Exclusive-Step m n (watches key signature s jobs) h =
    Exclusive-same s (remember_watch key signature s) jobs refl h
Exclusive-Step m n (starts key node kind epoch s t jobs e) h =
    Exclusive-starts key node kind epoch s t jobs e h
Exclusive-Step m n (advances s t before after j p a) h =
    Exclusive-same s t _ (running-Advance s j t p a) (record {
      registered = All-replace _ before after j (record j { phase = p }) (λ r. r) h.registered;
      apart = AllApart-replace before after j p h.apart;
    })
Exclusive-Step m n (ends s before after j e) h = Exclusive-ends s before after j h

-- In every run from the start of the controller, in any interleaving of the background syncs, the
-- running full syncs are of different volumes, and each one has its entry in `runningSyncs`.
pub Run-Exclusive : (m : Machine) → Run initial m → Exclusive m
Run-Exclusive m done = record { registered = tt; apart = tt }
Run-Exclusive m (step {m = l} r s) = Exclusive-Step l m s (Run-Exclusive l r)
