-- ===== src/Controller/Replication/Restore.antt =====
-- The backups that a full sync asks for, and the marks of demoted nodes.
use simple_volume.Base.{
  ◌≡◌, refl, ◌≢◌, ap, ◌⊎◌, inl, inr, Bool, true, not, ◌&&◌, List, [], ◌∷◌, Option, none, some,
  Bool-cases, Option-cases, arith, keep, contains, ◌==◌, ◌||◌, any,
}
use simple_volume.Base.Dict.{Dict, contains-keep, lookup, get_or, lookup-insert, lookup-erase}
use simple_volume.Text.{Text, text_eq, is_empty}
use simple_volume.Time.{Time, is_zero_time}
use simple_volume.Controller.Annotations.{volume_key}
use simple_volume.Controller.Failover.{
  record_replica_freshness, should_backup_before_restore, mark_restored,
}
use simple_volume.Controller.Replication.{
  sync_prepared, source_base_path, Agents, DesiredTarget, DesiredReplication, Sent, send,
  full_sync_request, after_answer, sync_targets, sync_from, full_sync_targets,
}
use simple_volume.Controller.Api.{World, Call}

List-cases : (xs : List Text) → (xs ≡ []) ⊎ ((y : Text) × (ys : List Text) × (xs ≡ y ∷ ys))
List-cases [] = inl refl
List-cases (y ∷ ys) = inr (y, ys, refl)

-- The set of a volume's demoted nodes after `MarkRestored`.
demoted-mark_restored :
    (namespace volume n : Text) (w : World)
    → let key = volume_key namespace volume in
      get_or [] key (mark_restored namespace volume n w).demoted
      ≡ keep (λ k. not (k == n)) (get_or [] key w.demoted)
unfolding mark_restored get_or keep
demoted-mark_restored namespace volume n w =
    let key = volume_key namespace volume in
    elim (Option-cases (lookup key w.demoted)) [
      | inl e ↦ rw (e, mark_restored) (rw (e, get_or) refl)
      | inr (nodes, e) ↦ elim (List-cases (keep (λ k. not (k == n)) nodes)) [
        | inl f ↦ rw (e, f, mark_restored) (ground (arith, lookup-erase key key w.demoted))
        | inr (k, ks, f) ↦
            rw (e, f, mark_restored) (ground (arith, lookup-insert key key (k ∷ ks) w.demoted))
      ]
    ]

-- After `MarkRestored`, the node is no longer demoted, and the others are as they were.
pub backup-mark_restored :
    (namespace volume n m : Text) (w : World)
    → should_backup_before_restore namespace volume m (mark_restored namespace volume n w)
      ≡ (should_backup_before_restore namespace volume m w && not (m == n))
unfolding should_backup_before_restore
backup-mark_restored namespace volume n m w =
    let key = volume_key namespace volume in
    rw (demoted-mark_restored namespace volume n w) (contains-keep (get_or [] key w.demoted) n m)

-- The marks of another volume are as they were.
pub other-mark_restored :
    (namespace volume n other_namespace other m : Text) (w : World)
    → volume_key other_namespace other ≢ volume_key namespace volume
    → should_backup_before_restore other_namespace other m (mark_restored namespace volume n w)
      ≡ should_backup_before_restore other_namespace other m w
unfolding should_backup_before_restore mark_restored get_or
other-mark_restored namespace volume n other_namespace other m w h =
    let key = volume_key namespace volume in
    let other_key = volume_key other_namespace other in
    elim (Option-cases (lookup key w.demoted)) [
      | inl e ↦ rw (e, mark_restored) refl
      | inr (nodes, e) ↦ elim (List-cases (keep (λ k. not (k == n)) nodes)) [
        | inl f ↦ rw (e, f, mark_restored) (ground (arith, lookup-erase other_key key w.demoted))
        | inr (k, ks, f) ↦
            rw (e, f, mark_restored)
              (ground (arith, lookup-insert other_key key (k ∷ ks) w.demoted))
      ]
    ]

-- The node confirmed a full sync.
abbrev pub restored : Text → List Sent → Bool
restored n = any (λ s. s.confirmed && s.node == n)

-- What a report of freshness leaves alone: the marks, the calls of the API and the times at which
-- claims were seen.
abbrev pub besides_freshness : World → Dict Text (List Text) × List Call × Dict Text Time
besides_freshness w = (w.demoted, w.history, w.seen)

pub besides_freshness-record :
    (namespace volume node : Text) (at : Time) (healthy : Bool) (w : World)
    → besides_freshness (record_replica_freshness namespace volume node at healthy w)
      ≡ besides_freshness w
unfolding record_replica_freshness
besides_freshness-record namespace volume node at healthy w =
    elim (Bool-cases (is_empty volume || is_empty node || is_zero_time at)) [
      | inl e ↦ rw e refl
      | inr e ↦ rw e refl
    ]

pub backup-record_replica_freshness :
    (namespace volume node other_namespace other m : Text) (at : Time) (healthy : Bool) (w : World)
    → should_backup_before_restore other_namespace other m
        (record_replica_freshness namespace volume node at healthy w)
      ≡ should_backup_before_restore other_namespace other m w
unfolding should_backup_before_restore
backup-record_replica_freshness namespace volume node other_namespace other m at healthy w =
    ap (λ k. contains (get_or [] (volume_key other_namespace other) k.0) m)
      (besides_freshness-record namespace volume node at healthy w)

module _ (agents : Agents) (d : DesiredReplication) (v : World) where
  abbrev backup : Text → World → Bool
  backup = should_backup_before_restore d.namespace d.volume

  -- Each request asks for a backup exactly where its node was demoted at the start and has not
  -- confirmed a full sync since. The log has the last request first.
  abbrev pub BackedUp : List Sent → Type 0
  BackedUp [] = Unit
  BackedUp (s ∷ log) =
      (s.request.backup_existing ≡ (backup s.node v && not (restored s.node log))) × BackedUp log

  -- A node is still demoted exactly where it was and has not confirmed a full sync.
  abbrev pub Tracks : World → List Sent → Type 0
  Tracks w log = (m : Text) → backup m w ≡ (backup m v && not (restored m log))

  after_answer-Tracks :
      (base : Text) (s : Sent) (w : World) (log : List Sent)
      → s.request.backup_existing ≡ backup s.node w
      → Tracks w log
      → Tracks (after_answer agents d base s log w) (s ∷ log)
  unfolding after_answer any
  after_answer-Tracks base s w log h t m =
      let at = agents.clock (s ∷ log) in
      let fresh = record_replica_freshness d.namespace d.volume s.node at true w in
      ground (
        arith,
        h,
        t m,
        backup-record_replica_freshness d.namespace d.volume s.node d.namespace d.volume m at true
            w,
        backup-mark_restored d.namespace d.volume s.node m fresh,
      )

  sync_targets-Tracks :
      (base : Text) (targets : List DesiredTarget) (w : World) (log : List Sent)
      → Tracks w log
      → BackedUp log
      → let done = sync_targets agents d base targets w log in
        Tracks done.0 done.1 × BackedUp done.1
  unfolding sync_targets send full_sync_request
  sync_targets-Tracks base [] w log t b = (t, b)
  sync_targets-Tracks base (target ∷ targets) w log t b =
      let s = send agents d base target w log in
      sync_targets-Tracks base targets (after_answer agents d base s log w) (s ∷ log)
        (after_answer-Tracks base s w log refl t) (t target.node, b)

sync_prepared-BackedUp :
    (agents : Agents) (d : DesiredReplication) (w : World) (base : Option Text)
    → let r = sync_prepared agents d w base in
      Tracks agents d w w [] → Tracks agents d w r.world r.log × BackedUp agents d w r.log
unfolding sync_prepared sync_from
sync_prepared-BackedUp agents d w none start = (start, tt)
sync_prepared-BackedUp agents d w (some base) start =
    sync_targets-Tracks agents d w base d.targets w [] start tt

-- A full sync asks for a backup exactly where the node was demoted and had not confirmed a full sync
-- before, and a node is still demoted exactly where it was and confirmed no full sync. This holds
-- whether the sync succeeds or not.
pub full_sync_targets-BackedUp :
    (agents : Agents) (d : DesiredReplication) (w : World)
    → let r = full_sync_targets agents d w in
      Tracks agents d w r.world r.log × BackedUp agents d w r.log
unfolding full_sync_targets any
full_sync_targets-BackedUp agents d w =
    sync_prepared-BackedUp agents d w (source_base_path agents d) (λ m. ground arith)
