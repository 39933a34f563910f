-- ===== src/Controller/Replication/Confirmed.antt =====
-- When a full sync succeeds, and what it leaves of the marks of other volumes.
use simple_volume.Base.{
  ◌≡◌, refl, ◌≢◌, ◌⊎◌, ◌↔◌, ◌≤◌, ◌<◌, ◌∙◌, ℕ, true, false, List, [], ◌∷◌, map, Option, none, some,
  arith, length,
}
use simple_volume.Base.Int.{ℤ, pos, ◌≤ℤ◌}
use simple_volume.Text.{Text}
use simple_volume.Controller.Annotations.{volume_key}
use simple_volume.Controller.Failover.{record_replica_freshness, should_backup_before_restore}
use simple_volume.Controller.Replication.{
  confirmations, sync_prepared, source_base_path, Agents, DesiredTarget, DesiredReplication, Sent,
  SyncResult, send, after_answer, sync_targets, sync_from, full_sync_targets,
}
use simple_volume.Controller.Replication.Restore.{
  other-mark_restored, backup-record_replica_freshness,
}
use simple_volume.Controller.Api.{World}

-- As many targets as asked for have confirmed, or all of them where there is one.
pub Enough : ℤ → ℕ → ℕ → Type 0
Enough value targets confirmed = (value ≤ℤ pos confirmed) ⊎ ((0 < targets) × (targets ≤ confirmed))

-- The nodes that were asked, the last one first.
abbrev pub onto : List Text → List Text → List Text
onto [] ys = ys
onto (x ∷ xs) ys = onto xs (x ∷ ys)

module _ (agents : Agents) (d : DesiredReplication) (base : Text) where
  after_answer-other :
      (s : Sent) (log : List Sent) (w : World) (namespace volume m : Text)
      → volume_key namespace volume ≢ volume_key d.namespace d.volume
      → should_backup_before_restore namespace volume m (after_answer agents d base s log w)
        ≡ should_backup_before_restore namespace volume m w
  unfolding after_answer
  after_answer-other s log w namespace volume m h =
      let at = agents.clock (s ∷ log) in
      let fresh = record_replica_freshness d.namespace d.volume s.node at true w in
      ground (
        arith,
        backup-record_replica_freshness d.namespace d.volume s.node namespace volume m at true w,
        other-mark_restored d.namespace d.volume s.node namespace volume m fresh h,
      )

  sync_targets-other :
      (targets : List DesiredTarget) (w : World) (log : List Sent) (namespace volume m : Text)
      → volume_key namespace volume ≢ volume_key d.namespace d.volume
      → should_backup_before_restore namespace volume m (sync_targets agents d base targets w log).0
        ≡ should_backup_before_restore namespace volume m w
  unfolding sync_targets
  sync_targets-other [] w log namespace volume m h = refl
  sync_targets-other (target ∷ targets) w log namespace volume m h =
      let s = send agents d base target w log in
      sync_targets-other targets (after_answer agents d base s log w) (s ∷ log) namespace volume m h
      ∙ after_answer-other s log w namespace volume m h

-- What the targets are asked and when that is a success, from the path below which they read.
abbrev pub Outcome : DesiredReplication → Option Text → SyncResult → Type 0
Outcome d none r = (r.succeeded ≡ false) × (r.log ≡ [])
Outcome d (some base) r =
    (map Sent.node r.log ≡ onto (map DesiredTarget.node d.targets) [])
    × ((r.succeeded ≡ true) ↔ Enough d.confirmed_replicas (length d.targets) (confirmations r.log))

sync_prepared-other :
    (agents : Agents) (d : DesiredReplication) (w : World) (base : Option Text)
    (namespace volume m : Text)
    → volume_key namespace volume ≢ volume_key d.namespace d.volume
    → should_backup_before_restore namespace volume m (sync_prepared agents d w base).world
      ≡ should_backup_before_restore namespace volume m w
unfolding sync_prepared sync_from
sync_prepared-other agents d w none namespace volume m h = refl
sync_prepared-other agents d w (some base) namespace volume m h =
    sync_targets-other agents d base d.targets w [] namespace volume m h

-- A full sync of a volume, whatever the agents answer, neither demotes a node of a volume with another
-- key nor takes back its demotion.
pub backup-full_sync_targets :
    (agents : Agents) (d : DesiredReplication) (w : World) (namespace volume m : Text)
    → volume_key namespace volume ≢ volume_key d.namespace d.volume
    → should_backup_before_restore namespace volume m (full_sync_targets agents d w).world
      ≡ should_backup_before_restore namespace volume m w
unfolding full_sync_targets
backup-full_sync_targets agents d w namespace volume m h =
    sync_prepared-other agents d w (source_base_path agents d) namespace volume m h
