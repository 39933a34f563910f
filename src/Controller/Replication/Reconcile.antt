-- ===== src/Controller/Replication/Reconcile.antt =====
-- internal/controller/replication_controller.go: `reconcileOne` with `ensureWatchStarted`, and
-- `TriggerFullSync`, while nothing else changes the maps between their locks.
pub mod Runs
pub mod Marks
use simple_volume.Base.{
  ℕ, Bool, true, false, not, ◌&&◌, ◌||◌, List, [], ◌∷◌, ◌++◌, Option, none, some, eqb, ◌==◌,
  contains, if◌then◌else◌, map, length,
}
use simple_volume.Base.Dict.{get_or}
use simple_volume.Base.Int.{ℤ}
use simple_volume.Text.{
  Text, text_eq, codes, is_empty, has_prefix, trim_right, trim_space, replace_first,
}
use simple_volume.Controller.Api.{World}
use simple_volume.Controller.Replication.{DesiredTarget, DesiredReplication}
use simple_volume.Controller.Replication.Syncs.{
  SyncState, epoch_of, note_active_node, try_start_volume_full_sync, remember_watch,
}
use simple_volume.Controller.Replication.Jobs.{
  Kind, manual, startup, scheduled, Job, new_job, sync_key, schedule_key,
}
use simple_volume.Controller.Options.{should_run_scheduled_full_sync, record_watch_freshness}
use simple_volume.Controller.Signature.{mode_string, epoch_signature}
use simple_volume.Agent.Watches.{TargetRef, WatchStartRequest, WatchStatus}

abbrev pub agent_http_url : Text → Text
agent_http_url ip = codes "http://" ++ ip ++ codes ":8080"

abbrev pub agent_webdav_url : Text → Text
agent_webdav_url ip = codes "http://" ++ ip ++ codes ":8081"

unfoldable pub agent_http_url_from_webdav : Text → Text
unfolding replace_first
agent_http_url_from_webdav url = replace_first (codes ":8081") (codes ":8080") url

-- The requests to the agents. The answer to a stop is only logged.
pub data AgentCall : Type 0 where
  stop_watch watch_status : Text → Text → Text → AgentCall
  start_watch : Text → WatchStartRequest → AgentCall

-- The status of a watch, or that there is none, or an error.
pub data StatusAnswer : Type 0 where
  unavailable no_watch : StatusAnswer
  answered : WatchStatus → StatusAnswer

-- The agents answer a request from the requests before it, the last one first.
pub record WatchAgents : Type 0 where
  pub starts : List AgentCall → AgentCall → Bool
  pub status : List AgentCall → AgentCall → StatusAnswer

-- The maps of the two controllers, and the requests so far.
pub record Progress : Type 0 where
  pub sync : SyncState
  pub world : World
  pub calls : List AgentCall

abbrev pub replication_key : DesiredReplication → Text
replication_key d = d.namespace ++ codes "/" ++ d.volume

abbrev pub trim_slash : Text → Text
trim_slash url = trim_right (λ c. eqb c b'/') url

unfoldable pub stop_replica_watches :
    DesiredReplication → List DesiredTarget → List AgentCall → List AgentCall
stop_replica_watches d [] calls = calls
stop_replica_watches d (t ∷ ts) calls =
    let url = trim_slash t.url ++ codes "/replication/watch/stop" in
    stop_replica_watches d ts (stop_watch url d.namespace d.volume ∷ calls)

abbrev pub target_refs : List DesiredTarget → List TargetRef
target_refs = map (λ t. record { url = t.url; token = t.token })

unfoldable pub watch_start_request : DesiredReplication → WatchStartRequest
unfolding mode_string
watch_start_request d = record {
  namespace = d.namespace;
  volume = d.volume;
  source = record { web_dav_url = d.source_url; user = []; password = [] };
  targets = target_refs d.targets;
  include_paths = d.include_paths;
  exclude_paths = d.exclude_paths;
  ownership = d.ownership;
  debounce = d.debounce;
  consistency_mode = mode_string d.consistency_mode;
  confirmed_replicas = some d.confirmed_replicas;
}

abbrev pub source_agent : DesiredReplication → Text
source_agent d = trim_slash (agent_http_url_from_webdav d.source_url)

module _ (agents : WatchAgents) (d : DesiredReplication) where
  -- Whether the watch was started, and the state after it.
  unfoldable pub start_watch_and_remember : Text → Progress → Bool × Progress
  unfolding watch_start_request remember_watch agent_http_url_from_webdav
  start_watch_and_remember signature p =
      let call =
        start_watch (source_agent d ++ codes "/replication/watch/start") (watch_start_request d) in
      let asked = record p { calls = call ∷ p.calls } in
      let remembered = record asked {
        sync = remember_watch (replication_key d) signature p.sync;
      } in
      if agents.starts p.calls call then (true, remembered) else (false, asked)

  unfoldable pub restart_watch : Text → Progress → Bool × Progress
  unfolding start_watch_and_remember stop_replica_watches
  restart_watch signature p =
      start_watch_and_remember signature
        (record p { calls = stop_replica_watches d d.targets p.calls })

  unfoldable pub after_status : Text → StatusAnswer → Progress → Bool × Progress
  unfolding restart_watch record_watch_freshness
  after_status signature unavailable p = restart_watch signature p
  after_status signature no_watch p = restart_watch signature p
  after_status signature (answered status) p =
      let recorded = record p { world = record_watch_freshness d status.target_statuses p.world } in
      let restarted = restart_watch signature p in
      if not status.running then restarted else (true, recorded)

  unfoldable pub ensure_watch_started : Text → Progress → Bool × Progress
  unfolding after_status restart_watch agent_http_url_from_webdav get_or
  ensure_watch_started signature p =
      let call =
        watch_status (source_agent d ++ codes "/replication/watch/status") d.namespace d.volume in
      let checked =
        after_status signature (agents.status p.calls call) (record p { calls = call ∷ p.calls }) in
      let restarted = restart_watch signature p in
      if get_or [] (replication_key d) p.sync.started_watches == signature
      then checked
      else restarted

-- Without an error or not, with the full sync that was started.
pub record Reconciled : Type 0 where
  pub succeeded : Bool
  pub progress : Progress
  pub job : Option Job

module _ (agents : WatchAgents) (d : DesiredReplication) where
  -- The rest of `reconcileOne` once `tryStartVolumeFullSync` has answered for a start.
  unfoldable pub start_full_sync : Text → ℕ → Bool × SyncState → Progress → Reconciled
  unfolding stop_replica_watches
  start_full_sync signature epoch (false, s) p = record {
    succeeded = true;
    progress = record p { sync = s };
    job = none;
  }
  start_full_sync signature epoch (true, s) p = record {
    succeeded = true;
    progress = record p { sync = s; calls = stop_replica_watches d d.targets p.calls };
    job = some (new_job (replication_key d) (startup signature) d.active_node epoch);
  }

  unfoldable pub start_scheduled : Text → ℕ → Bool × SyncState → Progress → Reconciled
  start_scheduled today epoch (false, s) p = record {
    succeeded = true;
    progress = record p { sync = s };
    job = none;
  }
  start_scheduled today epoch (true, s) p = record {
    succeeded = true;
    progress = record p { sync = s };
    job = some (new_job (replication_key d) (scheduled d.full_schedule today) d.active_node epoch);
  }

  -- The schedule, which is read by the hour, the minute and the day of the local time.
  unfoldable pub run_schedule : ℤ → ℤ → Text → ℕ → Progress → Reconciled
  unfolding start_scheduled should_run_scheduled_full_sync try_start_volume_full_sync get_or
      sync_key
  run_schedule hour minute today epoch p =
      let key = replication_key d in
      let last = get_or [] (schedule_key key d.full_schedule) p.sync.last_scheduled_on in
      let idle : Reconciled = record { succeeded = true; progress = p; job = none } in
      let begun =
        start_scheduled today epoch
          (try_start_volume_full_sync key (sync_key key (scheduled d.full_schedule today)) p.sync)
          p in
      if should_run_scheduled_full_sync d.full_schedule hour minute && not (last == today)
      then begun
      else idle

  unfoldable pub after_watch : ℤ → ℤ → Text → ℕ → Bool × Progress → Reconciled
  unfolding run_schedule
  after_watch hour minute today epoch (false, p) = record {
    succeeded = false;
    progress = p;
    job = none;
  }
  after_watch hour minute today epoch (true, p) = run_schedule hour minute today epoch p

  unfoldable pub reconcile_noted : ℤ → ℤ → Text → ℕ → Text → Progress → Reconciled
  unfolding start_full_sync after_watch ensure_watch_started try_start_volume_full_sync sync_key
  reconcile_noted hour minute today epoch signature p =
      let key = replication_key d in
      let name = sync_key key (startup signature) in
      let begun = start_full_sync signature epoch (try_start_volume_full_sync key name p.sync) p in
      let watched =
        after_watch hour minute today epoch (ensure_watch_started agents d signature p) in
      if d.full_sync && not (contains p.sync.completed_syncs name) then begun else watched

  unfoldable pub reconcile_one : ℤ → ℤ → Text → Progress → Reconciled
  unfolding reconcile_noted note_active_node epoch_signature
  reconcile_one hour minute today p =
      let noted = note_active_node (replication_key d) d.active_node p.sync in
      let epoch = epoch_of (replication_key d) noted in
      reconcile_noted hour minute today epoch (epoch_signature epoch d) (record p { sync = noted })

pub record ManualFullSyncResponse : Type 0 where
  pub namespace : Text
  pub claim_name : Text
  pub volume : Text
  pub active_node : Text
  pub targets : ℕ
  pub started : Bool
  pub reason : Text

-- The errors of `TriggerFullSync`, or its response with the state after it and the full sync that was
-- started.
pub data Triggered : Type 0 where
  names_required unavailable_state target_not_found : Triggered
  triggered : ManualFullSyncResponse → SyncState → Option Job → Triggered

abbrev response_of : DesiredReplication → Bool → Text → ManualFullSyncResponse
response_of d begun reason = record {
  namespace = d.namespace;
  claim_name = d.claim_name;
  volume = d.volume;
  active_node = d.active_node;
  targets = length d.targets;
  started = begun;
  reason = reason;
}

unfoldable pub trigger_started : DesiredReplication → ℕ → Bool × SyncState → Triggered
trigger_started d epoch (false, s) =
    triggered (response_of d false (codes "already-running")) s none
trigger_started d epoch (true, s) =
    triggered (response_of d true (codes "started")) s
      (some (new_job (replication_key d) manual d.active_node epoch))

unfoldable pub trigger_one : DesiredReplication → SyncState → Triggered
unfolding trigger_started note_active_node try_start_volume_full_sync sync_key
trigger_one d s =
    let key = replication_key d in
    let noted = note_active_node key d.active_node s in
    trigger_started d (epoch_of key noted)
      (try_start_volume_full_sync key (sync_key key manual) noted)

-- The first replication of the claim.
unfoldable pub trigger_among : List DesiredReplication → Text → Text → SyncState → Triggered
unfolding trigger_one
trigger_among [] namespace claim s = target_not_found
trigger_among (d ∷ ds) namespace claim s =
    let here = trigger_one d s in
    let rest = trigger_among ds namespace claim s in
    if d.namespace == namespace && d.claim_name == claim then here else rest

-- What is desired is missing when the token or the API could not be read.
unfoldable pub trigger_desired :
    Option (List DesiredReplication) → Text → Text → SyncState → Triggered
unfolding trigger_among
trigger_desired none namespace claim s = unavailable_state
trigger_desired (some ds) namespace claim s = trigger_among ds namespace claim s

unfoldable pub trigger_full_sync :
    Option (List DesiredReplication) → Text → Text → SyncState → Triggered
unfolding trigger_desired trim_space is_empty
trigger_full_sync desired namespace claim s =
    let ns = trim_space namespace in
    let name = trim_space claim in
    if is_empty ns || is_empty name then names_required else trigger_desired desired ns name s
