-- ===== src/Controller/Replication/Syncs.antt =====
-- internal/controller/replication_controller.go: the maps of `ReplicationController` and the full
-- syncs that run in the background. A map to `bool` that only ever holds `true` is the list of its
-- keys. An epoch is the `int64` counter, as its two's complement of 64 bits.
use simple_volume.Base.{
  ℕ, ◌+◌, ◌%◌, ◌^◌, Bool, true, false, not, ◌&&◌, List, [], ◌++◌, ◌==◌, if◌then◌else◌, eqb, any,
  keep,
}
use simple_volume.Base.Dict.{Dict, get_or, insert, erase}
use simple_volume.Text.{Text, text_eq, codes, is_empty, has_prefix}
use simple_volume.Controller.Failover.{add_entry}

pub record SyncState : Type 0 where
  pub started_watches : Dict Text Text
  pub completed_syncs : List Text
  pub running_syncs : List Text
  pub last_scheduled_on : Dict Text Text
  pub last_active_node : Dict Text Text
  pub active_epoch : Dict Text ℕ

abbrev pub key_prefix : Text → Text
key_prefix key = key ++ codes ":"

abbrev pub epoch_of : Text → SyncState → ℕ
epoch_of key s = get_or 0 key s.active_epoch

-- The active node has moved: a new epoch starts, and what the volume has done before is forgotten.
unfoldable pub start_epoch : Text → SyncState → SyncState
start_epoch key s = record s {
  active_epoch = insert key ((epoch_of key s + 1) % 2 ^ 64) s.active_epoch;
  started_watches = erase key s.started_watches;
  completed_syncs = keep (λ k. not (has_prefix k (key_prefix key))) s.completed_syncs;
}

-- The state after `noteActiveNode`, which returns the epoch in it.
unfoldable pub note_active_node : Text → Text → SyncState → SyncState
note_active_node key node s =
    let previous = get_or [] key s.last_active_node in
    let moved : SyncState =
      if not (is_empty previous) && not (previous == node) then start_epoch key s else s in
    record moved { last_active_node = insert key node moved.last_active_node }

unfoldable pub is_current_active_epoch : Text → Text → ℕ → SyncState → Bool
is_current_active_epoch key node epoch s =
    (get_or [] key s.last_active_node == node) && eqb (epoch_of key s) epoch

-- Whether a full sync of the volume is running.
unfoldable pub is_busy : Text → SyncState → Bool
is_busy volume_key s = any (λ k. has_prefix k (key_prefix volume_key)) s.running_syncs

unfoldable pub try_start_volume_full_sync : Text → Text → SyncState → Bool × SyncState
unfolding is_busy add_entry
try_start_volume_full_sync volume_key sync_key s =
    if is_busy volume_key s
    then (false, s)
    else (true, record s { running_syncs = add_entry sync_key s.running_syncs })

-- The deferred function of `runFullSync`.
unfoldable pub finish_sync : Text → SyncState → SyncState
finish_sync sync_key s = record s {
  running_syncs = keep (λ k. not (k == sync_key)) s.running_syncs;
}

unfoldable pub remember_completed : Text → SyncState → SyncState
unfolding add_entry
remember_completed sync_key s = record s { completed_syncs = add_entry sync_key s.completed_syncs }

unfoldable pub remember_watch : Text → Text → SyncState → SyncState
remember_watch key signature s = record s {
  started_watches = insert key signature s.started_watches;
}

unfoldable pub remember_scheduled : Text → Text → SyncState → SyncState
remember_scheduled schedule_key today s = record s {
  last_scheduled_on = insert schedule_key today s.last_scheduled_on;
}
