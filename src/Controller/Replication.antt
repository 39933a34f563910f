-- ===== src/Controller/Replication.antt =====
-- internal/controller/replication_controller.go: what is replicated, and the full sync of a volume
-- to its targets.
pub mod Restore
pub mod Confirmed
pub mod Syncs
pub mod Epochs
pub mod Jobs
pub mod Exclusive
pub mod Reconcile
use simple_volume.Base.{
  ℕ, suc, eqb, Bool, true, false, not, ◌&&◌, List, [], ◌∷◌, ◌++◌, Option, none, some, if◌then◌else◌,
  ltb, leb, length,
}
use simple_volume.Base.Int.{ℤ, pos, negsuc, pos_part, ltb_ℤ}
use simple_volume.Text.{Text, codes, text_eq, trim_right, is_empty, trim_space}
use simple_volume.Time.{Time}
use simple_volume.Controller.Failover.{
  record_replica_freshness, should_backup_before_restore, mark_restored,
}
use simple_volume.Controller.Api.{World}

pub data ConsistencyMode : Type 0 where
  shadow live : ConsistencyMode

pub record OwnershipPolicy : Type 0 where
  pub uid : Option ℤ
  pub gid : Option ℤ
  pub file_mode : Option ℕ
  pub dir_mode : Option ℕ

-- A target's node and the address and token of its agent.
pub record DesiredTarget : Type 0 where
  pub node : Text
  pub url : Text
  pub token : Text

pub record DesiredReplication : Type 0 where
  pub namespace : Text
  pub claim_name : Text
  pub volume : Text
  pub active_node : Text
  pub source_url : Text
  pub targets : List DesiredTarget
  pub include_paths : List Text
  pub exclude_paths : List Text
  pub prune_excluded : Bool
  pub required_paths : List Text
  pub ownership : OwnershipPolicy
  pub debounce : Text
  pub full_sync : Bool
  pub full_schedule : Text
  pub consistency_mode : ConsistencyMode
  pub confirmed_replicas : ℤ

-- `agent.FullSyncRequest`.
pub record FullSyncRequest : Type 0 where
  pub namespace : Text
  pub volume : Text
  pub web_dav_url : Text
  pub source_base_path : Text
  pub include_paths : List Text
  pub exclude_paths : List Text
  pub prune_excluded : Bool
  pub required_paths : List Text
  pub ownership : OwnershipPolicy
  pub backup_existing : Bool

unfoldable pub confirmation_threshold : ℤ → ℕ → ℤ
confirmation_threshold value targets =
    if not (ltb_ℤ (pos 0) value)
    then pos 0
    else if ltb 0 targets && ltb_ℤ (pos targets) value
    then pos targets
    else value

-- A request with its target's node and address, and whether the agent confirmed it.
pub record Sent : Type 0 where
  pub node : Text
  pub url : Text
  pub request : FullSyncRequest
  pub confirmed : Bool

-- The agents answer a request from all requests before it, and the clock is read after it.
pub record Agents : Type 0 where
  pub shadow_path : DesiredReplication → Option Text
  pub confirms : List Sent → Text → FullSyncRequest → Bool
  pub clock : List Sent → Time

abbrev full_sync_url : Text → Text
full_sync_url url = trim_right (λ c. eqb c b'/') url ++ codes "/replication/full-sync"

unfoldable pub full_sync_request : DesiredReplication → Text → Bool → FullSyncRequest
full_sync_request d base backup = record {
  namespace = d.namespace;
  volume = d.volume;
  web_dav_url = d.source_url;
  source_base_path = base;
  include_paths = d.include_paths;
  exclude_paths = d.exclude_paths;
  prune_excluded = d.prune_excluded;
  required_paths = d.required_paths;
  ownership = d.ownership;
  backup_existing = backup;
}

module _ (agents : Agents) (d : DesiredReplication) (base : Text) where
  unfoldable pub send : DesiredTarget → World → List Sent → Sent
  unfolding full_sync_request
  send target w log =
      let backup = should_backup_before_restore d.namespace d.volume target.node w in
      let request = full_sync_request d base backup in
      let url = full_sync_url target.url in
      record {
        node = target.node;
        url = url;
        request = request;
        confirmed = agents.confirms log url request;
      }

  -- What follows an answer.
  unfoldable pub after_answer : Sent → List Sent → World → World
  after_answer sent log w =
      if not sent.confirmed
      then w
      else let fresh =
          record_replica_freshness d.namespace d.volume sent.node (agents.clock (sent ∷ log)) true
            w in
        if sent.request.backup_existing
        then mark_restored d.namespace d.volume sent.node fresh
        else fresh

  -- The loop over the targets: the state and the requests so far, the last one first.
  unfoldable pub sync_targets : List DesiredTarget → World → List Sent → World × List Sent
  sync_targets [] w log = (w, log)
  sync_targets (target ∷ targets) w log =
      let sent = send target w log in sync_targets targets (after_answer sent log w) (sent ∷ log)

unfoldable pub confirmations : List Sent → ℕ
confirmations [] = 0
confirmations (s ∷ log) = let rest = confirmations log in if s.confirmed then suc rest else rest

pub record SyncResult : Type 0 where
  pub succeeded : Bool
  pub world : World
  pub log : List Sent

unfoldable pub sync_from : Agents → DesiredReplication → World → Text → SyncResult
unfolding sync_targets
sync_from agents d w base =
    let done = sync_targets agents d base d.targets w [] in
    record {
      succeeded = not (
          ltb_ℤ (pos (confirmations done.1))
            (confirmation_threshold d.confirmed_replicas (length d.targets)));
      world = done.0;
      log = done.1;
    }

-- `prepareShadow`: an empty path is an error.
unfoldable pub prepare_shadow : Agents → DesiredReplication → Option Text
prepare_shadow agents d = elim (agents.shadow_path d) [
  | none ↦ none
  | some base ↦ if is_empty (trim_space base) then none else some base
]

-- The path below which the targets read: with shadow consistency, the source prepares a copy first.
unfoldable pub source_base_path : Agents → DesiredReplication → Option Text
unfolding prepare_shadow
source_base_path agents d = elim d.consistency_mode [
  | live ↦ some []
  | shadow ↦ prepare_shadow agents d
]

unfoldable pub sync_prepared : Agents → DesiredReplication → World → Option Text → SyncResult
sync_prepared agents d w none = record { succeeded = false; world = w; log = [] }
sync_prepared agents d w (some base) = sync_from agents d w base

-- `fullSyncTargets`, while nothing else changes the maps.
unfoldable pub full_sync_targets : Agents → DesiredReplication → World → SyncResult
full_sync_targets agents d w = sync_prepared agents d w (source_base_path agents d)
