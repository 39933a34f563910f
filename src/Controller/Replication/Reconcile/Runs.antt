-- ===== src/Controller/Replication/Reconcile/Runs.antt =====
-- `reconcileOne` and `TriggerFullSync` against the machine of the full syncs.
use simple_volume.Base.{
  ℕ, ◌≡◌, refl, sym, ap, ◌≢◌, Bool, true, false, not, List, [], ◌∷◌, Option, none, some,
  if◌then◌else◌,
}
use simple_volume.Base.Int.{ℤ}
use simple_volume.Text.{Text, text_eq, trim_space}
use simple_volume.Controller.Replication.{DesiredReplication}
use simple_volume.Controller.Replication.Syncs.{
  SyncState, note_active_node, try_start_volume_full_sync, is_busy,
}
use simple_volume.Controller.Replication.Jobs.{
  manual, startup, scheduled, Job, Machine, Run, done, step, notes, watches, starts, new_job,
  sync_key,
}
use simple_volume.Controller.Replication.Reconcile.{
  StatusAnswer, unavailable, no_watch, answered, WatchAgents, Progress, replication_key,
  start_watch_and_remember, restart_watch, after_status, ensure_watch_started, Reconciled,
  start_full_sync, start_scheduled, run_schedule, after_watch, reconcile_noted, reconcile_one,
  Triggered, triggered, names_required, ManualFullSyncResponse, trigger_started, trigger_one,
  trigger_among, trigger_desired, trigger_full_sync,
}

abbrev at : SyncState → List Job → Machine
at s jobs = record { state = s; jobs = jobs }

-- A new full sync comes first.
abbrev pub with_job : Option Job → List Job → List Job
with_job none jobs = jobs
with_job (some job) jobs = job ∷ jobs

pub Run-append : {l m n : Machine} → Run l m → Run m n → Run l n
Run-append r done = r
Run-append r (step q s) = step (Run-append r q) s

-- If both branches are runs, the choice is.
Run-if :
    {A : Type 0} (b : Bool) (x y : A) (s : SyncState) (jobs : List Job) (end : A → Machine)
    → Run (at s jobs) (end x)
    → Run (at s jobs) (end y)
    → Run (at s jobs) (end (if b then x else y))
Run-if true x y s jobs end h k = h
Run-if false x y s jobs end h k = k

module _ (agents : WatchAgents) (d : DesiredReplication) (jobs : List Job) where
  watched : Bool × Progress → Machine
  watched r = at r.1.sync jobs

  start_watch_and_remember-Run :
      (signature : Text) (p : Progress)
      → Run (at p.sync jobs) (watched (start_watch_and_remember agents d signature p))
  unfolding start_watch_and_remember watched
  start_watch_and_remember-Run signature p =
      Run-if _ _ _ p.sync jobs watched
        (step done (watches (replication_key d) signature p.sync jobs)) done

  restart_watch-Run :
      (signature : Text) (p : Progress)
      → Run (at p.sync jobs) (watched (restart_watch agents d signature p))
  unfolding restart_watch
  restart_watch-Run signature p = start_watch_and_remember-Run signature _

  after_status-Run :
      (signature : Text) (answer : StatusAnswer) (p : Progress)
      → Run (at p.sync jobs) (watched (after_status agents d signature answer p))
  unfolding after_status watched
  after_status-Run signature unavailable p = restart_watch-Run signature p
  after_status-Run signature no_watch p = restart_watch-Run signature p
  after_status-Run signature (answered status) p =
      Run-if (not status.running) _ _ p.sync jobs watched (restart_watch-Run signature p) done

  ensure_watch_started-Run :
      (signature : Text) (p : Progress)
      → Run (at p.sync jobs) (watched (ensure_watch_started agents d signature p))
  unfolding ensure_watch_started
  ensure_watch_started-Run signature p =
      Run-if _ _ _ p.sync jobs watched (after_status-Run signature _ _)
        (restart_watch-Run signature p)

refused_pair :
    (b : Bool) (s t u : SyncState)
    → ◌≡◌ {A = Bool × SyncState} (if b then (false, s) else (true, u)) (false, t)
    → t ≡ s
refused_pair true s t u h = sym (ap (λ x. x.1) h)
refused_pair false s t u h = absurd (let e : true ≡ false = ap (λ x. x.0) h in cc)

refused-same :
    (key name : Text) (s t : SyncState) → try_start_volume_full_sync key name s ≡ (false, t) → t ≡ s
unfolding try_start_volume_full_sync
refused-same key name s t h = refused_pair (is_busy key s) s t _ h

module _ (agents : WatchAgents) (d : DesiredReplication) (jobs : List Job) where
  reconciled : Reconciled → Machine
  reconciled r = at r.progress.sync (with_job r.job jobs)

  start_full_sync-Run :
      (signature : Text) (epoch : ℕ) (r : Bool × SyncState) (p : Progress)
      → try_start_volume_full_sync
          (replication_key d)
          (sync_key (replication_key d) (startup signature))
          p.sync
        ≡ r
      → Run (at p.sync jobs) (reconciled (start_full_sync agents d signature epoch r p))
  unfolding start_full_sync reconciled
  start_full_sync-Run signature epoch (false, s) p h = rw (refused-same _ _ p.sync s h) done
  start_full_sync-Run signature epoch (true, s) p h =
      step done (starts (replication_key d) d.active_node (startup signature) epoch p.sync s jobs h)

  start_scheduled-Run :
      (today : Text) (epoch : ℕ) (r : Bool × SyncState) (p : Progress)
      → try_start_volume_full_sync
          (replication_key d)
          (sync_key (replication_key d) (scheduled d.full_schedule today))
          p.sync
        ≡ r
      → Run (at p.sync jobs) (reconciled (start_scheduled agents d today epoch r p))
  unfolding start_scheduled reconciled
  start_scheduled-Run today epoch (false, s) p h = rw (refused-same _ _ p.sync s h) done
  start_scheduled-Run today epoch (true, s) p h = step done (
      starts (replication_key d) d.active_node (scheduled d.full_schedule today) epoch p.sync s jobs
        h)

  run_schedule-Run :
      (hour minute : ℤ) (today : Text) (epoch : ℕ) (p : Progress)
      → Run (at p.sync jobs) (reconciled (run_schedule agents d hour minute today epoch p))
  unfolding run_schedule reconciled
  run_schedule-Run hour minute today epoch p =
      Run-if _ _ _ p.sync jobs reconciled (start_scheduled-Run today epoch _ p refl) done

  after_watch-Run :
      (hour minute : ℤ) (today : Text) (epoch : ℕ) (r : Bool × Progress)
      → Run (at r.1.sync jobs) (reconciled (after_watch agents d hour minute today epoch r))
  unfolding after_watch reconciled
  after_watch-Run hour minute today epoch (false, p) = done
  after_watch-Run hour minute today epoch (true, p) = run_schedule-Run hour minute today epoch p

  reconcile_noted-Run :
      (hour minute : ℤ) (today : Text) (epoch : ℕ) (signature : Text) (p : Progress)
      → Run
          (at p.sync jobs)
          (reconciled (reconcile_noted agents d hour minute today epoch signature p))
  unfolding reconcile_noted watched reconciled
  reconcile_noted-Run hour minute today epoch signature p =
      Run-if _ _ _ p.sync jobs reconciled (start_full_sync-Run signature epoch _ p refl) (
        Run-append (ensure_watch_started-Run agents d jobs signature p)
          (after_watch-Run hour minute today epoch (ensure_watch_started agents d signature p)))

  -- Whatever the agents answer, and with any full syncs in the background, what `reconcileOne` does to
  -- the maps and the full sync that it starts, if any, are steps of the machine of the full syncs.
  pub reconcile_one-Run :
      (hour minute : ℤ) (today : Text) (p : Progress)
      → (let r = reconcile_one agents d hour minute today p in
          Run
            (record { state = p.sync; jobs = jobs })
            (record { state = r.progress.sync; jobs = with_job r.job jobs }))
  unfolding reconcile_one reconciled
  reconcile_one-Run hour minute today p =
      Run-append (step done (notes (replication_key d) d.active_node p.sync jobs)) (
        reconcile_noted-Run hour minute today _ _
          (record p { sync = note_active_node (replication_key d) d.active_node p.sync }))

triggered-state :
    {q r : ManualFullSyncResponse} {s t : SyncState} {i j : Option Job}
    → triggered q s i ≡ triggered r t j
    → s ≡ t
triggered-state e = cc

triggered-job :
    {q r : ManualFullSyncResponse} {s t : SyncState} {i j : Option Job}
    → triggered q s i ≡ triggered r t j
    → i ≡ j
triggered-job e = cc

trigger_started-Run :
    (d : DesiredReplication) (epoch : ℕ) (r : Bool × SyncState) (s t : SyncState) (jobs : List Job)
    (response : ManualFullSyncResponse) (job : Option Job)
    → try_start_volume_full_sync (replication_key d) (sync_key (replication_key d) manual) s ≡ r
    → trigger_started d epoch r ≡ triggered response t job
    → Run (at s jobs) (at t (with_job job jobs))
unfolding trigger_started
trigger_started-Run d epoch (false, u) s t jobs response job h e =
    let same : u ≡ t = triggered-state e in
    let no_job : none ≡ job = triggered-job e in
    rw (sym no_job, sym same, refused-same _ _ s u h) done
trigger_started-Run d epoch (true, u) s t jobs response job h e =
    let same : u ≡ t = triggered-state e in
    let one_job : some (new_job (replication_key d) manual d.active_node epoch) ≡ job =
      triggered-job e in
    rw (sym one_job, sym same)
      (step done (starts (replication_key d) d.active_node manual epoch s u jobs h))

trigger_one-Run :
    (d : DesiredReplication) (s t : SyncState) (jobs : List Job) (response : ManualFullSyncResponse)
    (job : Option Job)
    → trigger_one d s ≡ triggered response t job
    → Run (at s jobs) (at t (with_job job jobs))
unfolding trigger_one
trigger_one-Run d s t jobs response job h =
    Run-append (step done (notes (replication_key d) d.active_node s jobs)) (
      trigger_started-Run d _ _ (note_active_node (replication_key d) d.active_node s) t jobs
        response job refl h)

triggered-if :
    (b : Bool) (x y : Triggered) (s t : SyncState) (jobs : List Job)
    (response : ManualFullSyncResponse) (job : Option Job)
    → (x ≡ triggered response t job → Run (at s jobs) (at t (with_job job jobs)))
    → (y ≡ triggered response t job → Run (at s jobs) (at t (with_job job jobs)))
    → (if b then x else y) ≡ triggered response t job
    → Run (at s jobs) (at t (with_job job jobs))
triggered-if true x y s t jobs response job h k e = h e
triggered-if false x y s t jobs response job h k e = k e

trigger_among-Run :
    (ds : List DesiredReplication) (namespace claim : Text) (s t : SyncState) (jobs : List Job)
    (response : ManualFullSyncResponse) (job : Option Job)
    → trigger_among ds namespace claim s ≡ triggered response t job
    → Run (at s jobs) (at t (with_job job jobs))
unfolding trigger_among
trigger_among-Run [] namespace claim s t jobs response job h = absurd cc
trigger_among-Run (d ∷ ds) namespace claim s t jobs response job h =
    triggered-if _ _ _ s t jobs response job (trigger_one-Run d s t jobs response job)
      (trigger_among-Run ds namespace claim s t jobs response job) h

trigger_desired-Run :
    (desired : Option (List DesiredReplication)) (namespace claim : Text) (s t : SyncState)
    (jobs : List Job) (response : ManualFullSyncResponse) (job : Option Job)
    → trigger_desired desired namespace claim s ≡ triggered response t job
    → Run (at s jobs) (at t (with_job job jobs))
unfolding trigger_desired
trigger_desired-Run none namespace claim s t jobs response job h = absurd cc
trigger_desired-Run (some ds) namespace claim s t jobs response job h =
    trigger_among-Run ds namespace claim s t jobs response job h

names_required-triggered :
    (response : ManualFullSyncResponse) (t : SyncState) (job : Option Job)
    → names_required ≢ triggered response t job
names_required-triggered response t job e = cc

-- A manual full sync that is answered, started or not, is some steps of the machine of the full syncs.
pub trigger_full_sync-Run :
    (desired : Option (List DesiredReplication)) (namespace claim : Text) (s t : SyncState)
    (jobs : List Job) (response : ManualFullSyncResponse) (job : Option Job)
    → trigger_full_sync desired namespace claim s ≡ triggered response t job
    → Run (record { state = s; jobs = jobs }) (record { state = t; jobs = with_job job jobs })
unfolding trigger_full_sync
trigger_full_sync-Run desired namespace claim s t jobs response job h =
    triggered-if _ names_required _ s t jobs response job
      (λ e. absurd (names_required-triggered response t job e))
      (trigger_desired-Run desired (trim_space namespace) (trim_space claim) s t jobs response job)
      h
