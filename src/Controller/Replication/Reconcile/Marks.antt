-- ===== src/Controller/Replication/Reconcile/Marks.antt =====
-- What `reconcileOne` changes of the failover's state.
use simple_volume.Base.{
  ℕ, ◌≡◌, refl, ◌∙◌, ap, List, Bool, true, false, not, ◌&&◌, [], none, ◌==◌, contains,
  if◌then◌else◌, inl, inr, Bool-cases,
}
use simple_volume.Base.Int.{ℤ}
use simple_volume.Text.{Text, text_eq, is_empty}
use simple_volume.Controller.Api.{Call}
use simple_volume.Time.{Time}
use simple_volume.Controller.Annotations.{volume_key}
use simple_volume.Controller.Failover.{should_backup_before_restore}
use simple_volume.Controller.Options.Laws.{besides-record_watch_freshness}
use simple_volume.Controller.Replication.{DesiredReplication}
use simple_volume.Controller.Replication.Syncs.{
  SyncState, is_busy, start_epoch, note_active_node, try_start_volume_full_sync,
}
use simple_volume.Base.Dict.{Dict, get_or, insert}
use simple_volume.Controller.Options.{should_run_scheduled_full_sync}
use simple_volume.Controller.Replication.Jobs.{startup, scheduled, sync_key, schedule_key}
use simple_volume.Controller.Replication.Reconcile.{
  StatusAnswer, unavailable, no_watch, answered, WatchAgents, Progress, replication_key,
  start_watch_and_remember, restart_watch, after_status, ensure_watch_started, Reconciled,
  start_full_sync, start_scheduled, run_schedule, after_watch, reconcile_noted, reconcile_one,
}

-- Either branch keeps what the choice keeps.
if-keeps :
    {A B : Type 0} (b : Bool) (x y : A) (f : A → B) (z : B)
    → f x ≡ z
    → f y ≡ z
    → f (if b then x else y) ≡ z
if-keeps true x y f z h k = h
if-keeps false x y f z h k = k

abbrev Rest : Type 0
Rest = Dict Text (List Text) × List Call × Dict Text Time × Dict Text Text

-- What is looked at: the failover's state but freshness, and the active nodes.
abbrev pub fixed : Progress → Rest
fixed p = (p.world.demoted, p.world.history, p.world.seen, p.sync.last_active_node)

try_start-nodes :
    (volume_key sync_key : Text) (s : SyncState)
    → (try_start_volume_full_sync volume_key sync_key s).1.last_active_node ≡ s.last_active_node
unfolding try_start_volume_full_sync
try_start-nodes volume_key sync_key s = elim (Bool-cases (is_busy volume_key s)) [
  | inl e ↦ rw e refl
  | inr e ↦ rw e refl
]

notes-nodes :
    (key node : Text) (s : SyncState)
    → (note_active_node key node s).last_active_node ≡ insert key node s.last_active_node
unfolding note_active_node start_epoch
notes-nodes key node s =
    let previous = get_or [] key s.last_active_node in
    elim (Bool-cases (not (is_empty previous) && not (previous == node))) [
      | inl e ↦ rw e refl
      | inr e ↦ rw e refl
    ]

module _ (agents : WatchAgents) (d : DesiredReplication) where
  -- The rest of the world after a call with two results.
  besides_after : Bool × Progress → Rest
  besides_after r = fixed r.1

  besides-start_watch_and_remember :
      (signature : Text) (p : Progress)
      → besides_after (start_watch_and_remember agents d signature p) ≡ fixed p
  unfolding start_watch_and_remember besides_after
  besides-start_watch_and_remember signature p = if-keeps _ _ _ besides_after (fixed p) refl refl

  besides-restart_watch :
      (signature : Text) (p : Progress)
      → besides_after (restart_watch agents d signature p) ≡ fixed p
  unfolding restart_watch
  besides-restart_watch signature p = besides-start_watch_and_remember signature _

  besides-after_status :
      (signature : Text) (answer : StatusAnswer) (p : Progress)
      → besides_after (after_status agents d signature answer p) ≡ fixed p
  unfolding after_status besides_after
  besides-after_status signature unavailable p = besides-restart_watch signature p
  besides-after_status signature no_watch p = besides-restart_watch signature p
  besides-after_status signature (answered status) p =
      if-keeps (not status.running) _ _ besides_after (fixed p) (besides-restart_watch signature p)
        (ap (λ k. (k.0, k.1, k.2, p.sync.last_active_node))
          (besides-record_watch_freshness d status.target_statuses p.world))

  besides-ensure_watch_started :
      (signature : Text) (p : Progress)
      → besides_after (ensure_watch_started agents d signature p) ≡ fixed p
  unfolding ensure_watch_started
  besides-ensure_watch_started signature p =
      if-keeps _ _ _ besides_after (fixed p) (besides-after_status signature _ _)
        (besides-restart_watch signature p)

  besides_reconciled : Reconciled → Rest
  besides_reconciled r = fixed r.progress

  besides-start_full_sync :
      (signature : Text) (epoch : ℕ) (r : Bool × SyncState) (p : Progress)
      → r.1.last_active_node ≡ p.sync.last_active_node
      → besides_reconciled (start_full_sync agents d signature epoch r p) ≡ fixed p
  unfolding start_full_sync besides_reconciled
  besides-start_full_sync signature epoch (false, s) p h =
      ap (λ n. (p.world.demoted, p.world.history, p.world.seen, n)) h
  besides-start_full_sync signature epoch (true, s) p h =
      ap (λ n. (p.world.demoted, p.world.history, p.world.seen, n)) h

  besides-start_scheduled :
      (today : Text) (epoch : ℕ) (r : Bool × SyncState) (p : Progress)
      → r.1.last_active_node ≡ p.sync.last_active_node
      → besides_reconciled (start_scheduled agents d today epoch r p) ≡ fixed p
  unfolding start_scheduled besides_reconciled
  besides-start_scheduled today epoch (false, s) p h =
      ap (λ n. (p.world.demoted, p.world.history, p.world.seen, n)) h
  besides-start_scheduled today epoch (true, s) p h =
      ap (λ n. (p.world.demoted, p.world.history, p.world.seen, n)) h

  besides-idle :
      (succeeded : Bool) (p : Progress)
      → besides_reconciled (record { succeeded = succeeded; progress = p; job = none }) ≡ fixed p
  unfolding besides_reconciled
  besides-idle succeeded p = refl

  besides-run_schedule :
      (hour minute : ℤ) (today : Text) (epoch : ℕ) (p : Progress)
      → besides_reconciled (run_schedule agents d hour minute today epoch p) ≡ fixed p
  unfolding run_schedule
  besides-run_schedule hour minute today epoch p =
      let key = replication_key d in
      let last = get_or [] (schedule_key key d.full_schedule) p.sync.last_scheduled_on in
      let started =
        try_start_volume_full_sync key (sync_key key (scheduled d.full_schedule today)) p.sync in
      if-keeps (should_run_scheduled_full_sync d.full_schedule hour minute && not (last == today)) _
        _ besides_reconciled (fixed p)
        (besides-start_scheduled today epoch started p (try_start-nodes _ _ p.sync))
        (besides-idle true p)

  besides-after_watch :
      (hour minute : ℤ) (today : Text) (epoch : ℕ) (r : Bool × Progress)
      → besides_reconciled (after_watch agents d hour minute today epoch r) ≡ besides_after r
  unfolding after_watch besides_after
  besides-after_watch hour minute today epoch (false, p) = besides-idle false p
  besides-after_watch hour minute today epoch (true, p) =
      besides-run_schedule hour minute today epoch p

  besides-reconcile_noted :
      (hour minute : ℤ) (today : Text) (epoch : ℕ) (signature : Text) (p : Progress)
      → besides_reconciled (reconcile_noted agents d hour minute today epoch signature p) ≡ fixed p
  unfolding reconcile_noted
  besides-reconcile_noted hour minute today epoch signature p =
      let name = sync_key (replication_key d) (startup signature) in
      let started = try_start_volume_full_sync (replication_key d) name p.sync in
      if-keeps (d.full_sync && not (contains p.sync.completed_syncs name)) _ _ besides_reconciled
        (fixed p) (besides-start_full_sync signature epoch started p (try_start-nodes _ _ p.sync))
        (besides-after_watch hour minute today epoch (ensure_watch_started agents d signature p)
          ∙ besides-ensure_watch_started signature p)

  -- A reconciliation of a volume puts down its active node, and else changes nothing of the failover's
  -- state but freshness, and no other volume's active node.
  pub fixed-reconcile_one :
      (hour minute : ℤ) (today : Text) (p : Progress)
      → fixed (reconcile_one agents d hour minute today p).progress ≡ (
        p.world.demoted,
        p.world.history,
        p.world.seen,
        insert (replication_key d) d.active_node p.sync.last_active_node,
      )
  unfolding reconcile_one besides_reconciled
  fixed-reconcile_one hour minute today p =
      besides-reconcile_noted hour minute today _ _
        (record p { sync = note_active_node (replication_key d) d.active_node p.sync })
      ∙ ap (λ n. (p.world.demoted, p.world.history, p.world.seen, n))
          (notes-nodes (replication_key d) d.active_node p.sync)

  -- Whatever the agents answer and report, a reconciliation of a volume neither demotes a node of the
  -- volume nor takes back its demotion.
  pub backup-reconcile_one :
      (node : Text) (hour minute : ℤ) (today : Text) (p : Progress)
      → should_backup_before_restore d.namespace d.volume node
          (reconcile_one agents d hour minute today p).progress.world
        ≡ should_backup_before_restore d.namespace d.volume node p.world
  unfolding should_backup_before_restore
  backup-reconcile_one node hour minute today p =
      ap (λ k. contains (get_or [] (volume_key d.namespace d.volume) k.0) node)
        (fixed-reconcile_one hour minute today p)
