-- ===== src/Controller/Replication/Jobs.antt =====
-- internal/controller/replication_controller.go: `runFullSync` in the background, as the steps of a
-- machine. Any order of the steps of the running syncs, of new starts and of reports of the active
-- node is a run. A lock is held within one step only.
use simple_volume.Base.{◌≡◌, ℕ, true, false, List, [], ◌∷◌, ◌++◌}
use simple_volume.Text.{Text, codes}
use simple_volume.Controller.Replication.Syncs.{
  SyncState, key_prefix, note_active_node, is_current_active_epoch, try_start_volume_full_sync,
  finish_sync, remember_completed, remember_watch, remember_scheduled,
}

-- What asked for the sync: `TriggerFullSync`, the start of a volume in `reconcileOne` (with the
-- signature of what is desired), or its schedule (with the schedule and the day).
pub data Kind : Type 0 where
  manual : Kind
  startup : Text → Kind
  scheduled : Text → Text → Kind

unfoldable pub schedule_key : Text → Text → Text
schedule_key key schedule = key_prefix key ++ schedule

unfoldable pub sync_key : Text → Kind → Text
unfolding schedule_key
sync_key key manual = key_prefix key ++ codes "manual"
sync_key key (startup signature) = key_prefix key ++ signature
sync_key key (scheduled schedule day) = schedule_key key schedule ++ codes ":" ++ day

-- How far the goroutine is: in `fullSyncTargets`, after its test of the epoch, after its entry in
-- `completedSyncs`, after the start of the watch, or about to run its deferred function.
pub data Phase : Type 0 where
  syncing checked recorded watching finishing : Phase

pub record Job : Type 0 where
  pub volume_key : Text
  pub kind : Kind
  pub active_node : Text
  pub epoch : ℕ
  pub phase : Phase

abbrev pub key_of_job : Job → Text
key_of_job j = sync_key j.volume_key j.kind

-- One step of a running sync. Calls of an agent may fail at any time.
pub data Advance (s : SyncState) (j : Job) : SyncState → Phase → Type 0 where
  fails : j.phase ≡ syncing → Advance s j s finishing
  manual_done : j.phase ≡ syncing → j.kind ≡ manual → Advance s j s finishing
  scheduled_done :
      {schedule day : Text}
      → j.phase ≡ syncing
      → j.kind ≡ scheduled schedule day
      → Advance s j (remember_scheduled (schedule_key j.volume_key schedule) day s) finishing
  is_stale :
      {signature : Text}
      → j.phase ≡ syncing
      → j.kind ≡ startup signature
      → is_current_active_epoch j.volume_key j.active_node j.epoch s ≡ false
      → Advance s j s finishing
  is_current :
      {signature : Text}
      → j.phase ≡ syncing
      → j.kind ≡ startup signature
      → is_current_active_epoch j.volume_key j.active_node j.epoch s ≡ true
      → Advance s j s checked
  records : j.phase ≡ checked → Advance s j (remember_completed (key_of_job j) s) recorded
  watch_fails : j.phase ≡ recorded → Advance s j s finishing
  watch_starts : j.phase ≡ recorded → Advance s j s watching
  watch_remembered :
      {signature : Text}
      → j.phase ≡ watching
      → j.kind ≡ startup signature
      → Advance s j (remember_watch j.volume_key signature s) finishing

pub record Machine : Type 0 where
  pub state : SyncState
  pub jobs : List Job

abbrev pub new_job : Text → Kind → Text → ℕ → Job
new_job key kind node epoch = record {
  volume_key = key;
  kind = kind;
  active_node = node;
  epoch = epoch;
  phase = syncing;
}

pub data Step : Machine → Machine → Type 0 where
  -- `noteActiveNode`.
  notes :
      (key node : Text) (s : SyncState) (jobs : List Job)
      → Step
          (record { state = s; jobs = jobs })
          (record { state = note_active_node key node s; jobs = jobs })
  -- `startWatchAndRemember` of `ensureWatchStarted`.
  watches :
      (key signature : Text) (s : SyncState) (jobs : List Job)
      → Step
          (record { state = s; jobs = jobs })
          (record { state = remember_watch key signature s; jobs = jobs })
  -- `tryStartVolumeFullSync` allows a new goroutine. The node and the epoch are those of an earlier
  -- `noteActiveNode`.
  starts :
      (key node : Text) (kind : Kind) (epoch : ℕ) (s t : SyncState) (jobs : List Job)
      → try_start_volume_full_sync key (sync_key key kind) s ≡ (true, t)
      → Step
          (record { state = s; jobs = jobs })
          (record { state = t; jobs = new_job key kind node epoch ∷ jobs })
  advances :
      (s t : SyncState) (before after : List Job) (j : Job) (p : Phase)
      → Advance s j t p
      → Step
          (record { state = s; jobs = before ++ j ∷ after })
          (record { state = t; jobs = before ++ record j { phase = p } ∷ after })
  -- The deferred function of `runFullSync`.
  ends :
      (s : SyncState) (before after : List Job) (j : Job)
      → j.phase ≡ finishing
      → Step
          (record { state = s; jobs = before ++ j ∷ after })
          (record { state = finish_sync (key_of_job j) s; jobs = before ++ after })

pub data Run : Machine → Machine → Type 0 where
  done : {m : Machine} → Run m m
  step : {l m n : Machine} → Run l m → Step m n → Run l n

-- The controller at its start.
abbrev pub initial : Machine
initial = record {
  state = record {
    started_watches = [];
    completed_syncs = [];
    running_syncs = [];
    last_scheduled_on = [];
    last_active_node = [];
    active_epoch = [];
  };
  jobs = [];
}
