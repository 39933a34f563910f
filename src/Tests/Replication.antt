-- ===== src/Tests/Replication.antt =====
-- Full syncs.
use simple_volume.Base.{
  ◌≡◌, refl, ◌≢◌, ◌<◌, ◌+◌, ◌^◌, true, false, List, [], ◌∷◌, ◌==◌, none, some, length, arith, ap,
  keep, any,
}
use simple_volume.Base.Dict.{get_or, lookup, insert}
use simple_volume.Base.Int.{pos}
use simple_volume.Text.{Text, text_eq, codes, trim_right, is_empty}
use simple_volume.Controller.Failover.{
  add_entry, should_backup_before_restore, mark_restored, record_replica_freshness,
}
use simple_volume.Controller.Replication.{
  Agents, DesiredReplication, live, full_sync_targets, sync_prepared, source_base_path, sync_from,
  confirmations, send, confirmation_threshold, after_answer,
}
use simple_volume.Controller.Replication.Restore.{Tracks, BackedUp, full_sync_targets-BackedUp}
use simple_volume.Controller.Replication.Syncs.{
  SyncState, epoch_of, try_start_volume_full_sync, note_active_node, is_current_active_epoch,
  finish_sync, is_busy,
}
use simple_volume.Controller.Replication.Epochs.{steps, is_current_active_epoch-stale}
use simple_volume.Controller.Replication.Jobs.{
  Machine, Run, Kind, Job, done, step, notes, starts, advances, ends, fails, manual, scheduled,
  sync_key, finishing, new_job, initial,
}
use simple_volume.Controller.Replication.Exclusive.{Exclusive, Run-Exclusive}
use simple_volume.Controller.Api.{World}
use simple_volume.Text.Number.{parse_int}
use simple_volume.Agent.Watches.{TargetStatus, new_target_status}
use simple_volume.Controller.Options.{record_watch_freshness, should_run_scheduled_full_sync}
use simple_volume.Controller.Replication.Confirmed.{backup-full_sync_targets}
use simple_volume.Tests.Data.{start}

-- The agent on `a` confirms, the one on `b` does not.
abbrev agents : Agents
agents = record {
  shadow_path = λ _. none;
  confirms = λ _ url _. url == codes "a/replication/full-sync";
  clock = λ _. 9;
}

abbrev pub desired : DesiredReplication
desired = record {
  namespace = codes "db";
  claim_name = codes "data";
  volume = codes "pv";
  active_node = codes "c";
  source_url = codes "http://c:8081";
  targets =
      record { node = codes "a"; url = codes "a/"; token = [] }
      ∷ record { node = codes "b"; url = codes "b"; token = [] }
      ∷ [];
  include_paths = [];
  exclude_paths = [];
  prune_excluded = false;
  required_paths = [];
  ownership = record { uid = none; gid = none; file_mode = none; dir_mode = none };
  debounce = [];
  full_sync = true;
  full_schedule = [];
  consistency_mode = live;
  confirmed_replicas = pos 1;
}

-- `a` and `b` are demoted.
abbrev demoted_world : World
demoted_world = record start { demoted = (codes "db/pv", codes "a" ∷ codes "b" ∷ []) ∷ [] }

full_sync_targets-BackedUp_example :
    Tracks agents desired demoted_world
      (full_sync_targets agents desired demoted_world).world
      (full_sync_targets agents desired demoted_world).log
    × BackedUp agents desired demoted_world (full_sync_targets agents desired demoted_world).log
full_sync_targets-BackedUp_example = full_sync_targets-BackedUp agents desired demoted_world

-- One confirmation is enough, and `b` is still demoted.
syncs_a :
    ((full_sync_targets agents desired demoted_world).succeeded ≡ true)
    × ((full_sync_targets agents desired demoted_world).world.demoted
        ≡ (codes "db/pv", codes "b" ∷ []) ∷ [])
unfolding full_sync_targets sync_prepared source_base_path sync_from confirmations send text_eq
    trim_right confirmation_threshold after_answer should_backup_before_restore get_or lookup
    mark_restored record_replica_freshness keep insert
syncs_a = (refl, refl)

other_volume : codes "db/other" ≢ codes "db/pv"
other_volume e = omega (arith, ap length e)

-- Another volume's node is demoted as well.
abbrev two_volumes : World
two_volumes = record start {
  demoted = (codes "db/pv", codes "a" ∷ []) ∷ (codes "db/other", codes "a" ∷ []) ∷ [];
}

backup-full_sync_targets_example :
    should_backup_before_restore
      (codes "db")
      (codes "other")
      (codes "a")
      (full_sync_targets agents desired two_volumes).world
    ≡ should_backup_before_restore (codes "db") (codes "other") (codes "a") two_volumes
backup-full_sync_targets_example =
    backup-full_sync_targets agents desired two_volumes (codes "db") (codes "other") (codes "a")
      other_volume

abbrev key : Text
key = codes "db/pv"

abbrev on_a : SyncState
on_a = record initial.state { last_active_node = (key, codes "a") ∷ [] }

active_named : get_or [] key on_a.last_active_node ≢ []
unfolding get_or lookup text_eq
active_named e = omega (arith, ap length e)

active_moves : get_or [] key on_a.last_active_node ≢ codes "bb"
unfolding get_or lookup text_eq
active_moves e = omega (arith, ap length e)

small_epoch : epoch_of key on_a < 2 ^ 64
unfolding get_or lookup
small_epoch = omega arith

-- The volume moves from `a` to `bb` and comes back, and another volume moves meanwhile.
abbrev machine_on_a : Machine
machine_on_a = record { state = on_a; jobs = [] }

abbrev moved : SyncState
moved = note_active_node key (codes "bb") on_a

abbrev other_moved : SyncState
other_moved = note_active_node (codes "db/other") (codes "c") moved

abbrev back : Machine
back = record { state = note_active_node key (codes "a") other_moved; jobs = [] }

comes_back : Run (record { state = moved; jobs = [] }) back
comes_back =
    step (step done (notes (codes "db/other") (codes "c") moved []))
      (notes key (codes "a") other_moved [])

few_steps : steps comes_back + 1 < 2 ^ 64
unfolding steps comes_back
few_steps = omega arith

is_current_active_epoch-stale_example :
    is_current_active_epoch key (get_or [] key on_a.last_active_node) (epoch_of key on_a) back.state
    ≡ false
is_current_active_epoch-stale_example =
    is_current_active_epoch-stale key (codes "bb") machine_on_a back comes_back active_named
      active_moves small_epoch few_steps

-- A manual sync starts, fails and ends; then a scheduled one starts.
abbrev noted : SyncState
noted = note_active_node key (codes "a") initial.state

abbrev first : SyncState
first = (try_start_volume_full_sync key (sync_key key manual) noted).1

abbrev idle : SyncState
idle = finish_sync (sync_key key manual) first

abbrev nightly : Kind
nightly = scheduled (codes "0 3 * * *") (codes "2024-05-01")

abbrev second_sync : SyncState
second_sync = (try_start_volume_full_sync key (sync_key key nightly) idle).1

starts_first : try_start_volume_full_sync key (sync_key key manual) noted ≡ (true, first)
unfolding try_start_volume_full_sync note_active_node is_busy any is_empty get_or lookup
starts_first = refl

starts_second : try_start_volume_full_sync key (sync_key key nightly) idle ≡ (true, second_sync)
unfolding try_start_volume_full_sync finish_sync note_active_node is_busy sync_key text_eq keep
    add_entry any is_empty get_or lookup
starts_second = refl

abbrev manual_job : Job
manual_job = new_job key manual (codes "a") 0

abbrev last : Machine
last = record { state = second_sync; jobs = new_job key nightly (codes "a") 0 ∷ [] }

two_syncs : Run initial last
two_syncs =
    step
      (step
        (step
          (step (step done (notes key (codes "a") initial.state []))
            (starts key (codes "a") manual 0 noted first [] starts_first))
          (advances first first [] [] manual_job finishing (fails refl)))
        (ends first [] [] (record manual_job { phase = finishing }) refl))
      (starts key (codes "a") nightly 0 idle second_sync [] starts_second)

Run-Exclusive_example : Exclusive last
Run-Exclusive_example = Run-Exclusive last two_syncs

abbrev report : List TargetStatus
report = record (new_target_status (codes "a/")) { last_successful_sync = some 8 } ∷ []

reports_a :
    (record_watch_freshness desired report (record start { freshness = [] })).freshness
    ≡ (codes "db/pv", (codes "a", record { last_successful_sync = 8; healthy = true }) ∷ []) ∷ []
unfolding record_watch_freshness record_replica_freshness get_or lookup insert text_eq is_empty
reports_a = refl

at_three : should_run_scheduled_full_sync (codes "5 3 * * *") (pos 3) (pos 5) ≡ true
unfolding should_run_scheduled_full_sync parse_int is_empty
at_three = refl
