-- ===== src/Tests/Reconcile.antt =====
-- Reconciliations of a volume, manual full syncs, and the signature of what is desired.
use simple_volume.Base.{◌≡◌, refl, true, [], ◌∷◌, none, some, any, arith}
use simple_volume.Base.Dict.{Dict, get_or, lookup, insert}
use simple_volume.Base.Int.{pos}
use simple_volume.Text.{Text, text_eq, codes, is_empty}
use simple_volume.Controller.Failover.{should_backup_before_restore}
use simple_volume.Controller.Annotations.{annotation}
use simple_volume.Controller.Ownership.{
  annotation_owner_uid, annotation_owner_gid, annotation_file_mode, annotation_dir_mode,
  ownership_policy_from_annotations,
}
use simple_volume.Controller.Replication.{OwnershipPolicy}
use simple_volume.Controller.Replication.Syncs.{
  SyncState, try_start_volume_full_sync, note_active_node,
}
use simple_volume.Controller.Replication.Jobs.{Run, Job, manual, initial, new_job, sync_key}
use simple_volume.Controller.Replication.Reconcile.{
  WatchAgents, no_watch, Progress, reconcile_one, trigger_full_sync, triggered,
  ManualFullSyncResponse, agent_http_url_from_webdav,
}
use simple_volume.Controller.Replication.Reconcile.Runs.{
  with_job, reconcile_one-Run, trigger_full_sync-Run,
}
use simple_volume.Controller.Replication.Reconcile.Marks.{backup-reconcile_one}
use simple_volume.Controller.Signature.{
  optional_int64_string, optional_mode_string, ownership_signature,
}
use simple_volume.Controller.Signature.RoundTrip.{ownership_policy_round_trip}
use simple_volume.Tests.Data.{start}
use simple_volume.Tests.Replication.{desired}

abbrev pub agents : WatchAgents
agents = record { starts = λ _ _. true; status = λ _ _. no_watch }

abbrev before : Progress
before = record { sync = initial.state; world = start; calls = [] }

reconcile_one-Run_example :
    (let r = reconcile_one agents desired (pos 3) (pos 0) (codes "2024-05-01") before in
      Run
        (record { state = initial.state; jobs = [] })
        (record { state = r.progress.sync; jobs = with_job r.job [] }))
reconcile_one-Run_example =
    reconcile_one-Run agents desired [] (pos 3) (pos 0) (codes "2024-05-01") before

backup-reconcile_one_example :
    should_backup_before_restore
      (codes "db")
      (codes "pv")
      (codes "a")
      (reconcile_one agents desired (pos 3) (pos 0) (codes "2024-05-01") before).progress.world
    ≡ should_backup_before_restore (codes "db") (codes "pv") (codes "a") start
backup-reconcile_one_example =
    backup-reconcile_one agents desired (codes "a") (pos 3) (pos 0) (codes "2024-05-01") before

abbrev noted : SyncState
noted = note_active_node (codes "db/pv") (codes "c") initial.state

abbrev after : SyncState
after = (try_start_volume_full_sync (codes "db/pv") (sync_key (codes "db/pv") manual) noted).1

abbrev response : ManualFullSyncResponse
response = record {
  namespace = codes "db";
  claim_name = codes "data";
  volume = codes "pv";
  active_node = codes "c";
  targets = 2;
  started = true;
  reason = codes "started";
}

abbrev manual_job : Job
manual_job = new_job (codes "db/pv") manual (codes "c") 0

answers :
    trigger_full_sync (some (desired ∷ [])) (codes " db") (codes "data") initial.state
    ≡ triggered response after (some manual_job)
unfolding trigger_full_sync text_eq any lookup get_or insert is_empty
answers = refl

trigger_full_sync-Run_example :
    Run
      (record { state = initial.state; jobs = [] })
      (record { state = after; jobs = manual_job ∷ [] })
trigger_full_sync-Run_example =
    trigger_full_sync-Run (some (desired ∷ [])) (codes " db") (codes "data") initial.state after []
      response (some manual_job) answers

agent_of_source : agent_http_url_from_webdav (codes "http://c:8081") ≡ codes "http://c:8080"
unfolding agent_http_url_from_webdav is_empty
agent_of_source = refl

abbrev owner : OwnershipPolicy
owner = record { uid = some (pos 1000); gid = none; file_mode = some 420; dir_mode = none }

abbrev owned : Dict Text Text
owned = (annotation_owner_uid, codes "1000") ∷ (annotation_file_mode, codes "644") ∷ []

owner_signature : ownership_signature owner ≡ codes "uid=1000,gid=,fileMode=644,dirMode="
unfolding ownership_signature
owner_signature = refl

owner_annotations :
    (annotation annotation_owner_uid owned ≡ optional_int64_string (some (pos 1000)))
    × (annotation annotation_owner_gid owned ≡ optional_int64_string none)
    × (annotation annotation_file_mode owned ≡ optional_mode_string (some 420))
    × (annotation annotation_dir_mode owned ≡ optional_mode_string none)
unfolding get_or lookup text_eq optional_int64_string optional_mode_string
owner_annotations = (refl, refl, refl, refl)

ownership_policy_round_trip_example : ownership_policy_from_annotations owned ≡ some owner
ownership_policy_round_trip_example =
    ownership_policy_round_trip owner owned (1000, refl, omega arith) tt (omega arith) tt
      owner_annotations.0 owner_annotations.1 owner_annotations.2 owner_annotations.3
