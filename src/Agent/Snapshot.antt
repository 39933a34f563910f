-- ===== src/Agent/Snapshot.antt =====
-- internal/agent/watch.go: the difference of two snapshots of the files that are watched.
pub mod Replay
use simple_volume.Base.{
  ℕ, Bool, true, false, not, ◌&&◌, List, [], ◌∷◌, ◌++◌, eqb, ◌==◌, if◌then◌else◌, keep, sort, map,
}
use simple_volume.Base.Dict.{Dict, keys, get_or, has_key}
use simple_volume.Base.Int.{ℤ, pos, eqb_ℤ}
use simple_volume.Text.{Text, text_eq, text_ltb}

pub record WatchedFileState : Type 0 where
  pub size : ℤ
  pub mode : ℕ
  pub mod_time : ℤ
  pub link : Text

-- `==` on the struct.
unfoldable pub same_state : WatchedFileState → WatchedFileState → Bool
same_state a b =
    eqb_ℤ a.size b.size && eqb a.mode b.mode && eqb_ℤ a.mod_time b.mod_time && (a.link == b.link)

-- The zero value, which the lookup of a missing path gives.
abbrev pub zero_state : WatchedFileState
zero_state = record { size = pos 0; mode = 0; mod_time = pos 0; link = [] }

abbrev pub Snapshot : Type 0
Snapshot = Dict Text WatchedFileState

-- The strings "upsert" and "delete", and any other one that a sender may put there.
pub data EventOp : Type 0 where
  upsert delete : EventOp
  other : Text → EventOp

pub record FileEvent : Type 0 where
  pub path : Text
  pub op : EventOp

unfoldable pub is_changed : Snapshot → Snapshot → Text → Bool
unfolding same_state
is_changed previous current path =
    not (same_state (get_or zero_state path previous) (get_or zero_state path current))

unfoldable pub changed_paths : Snapshot → Snapshot → List Text
unfolding is_changed
changed_paths previous current =
    keep (is_changed previous current) (keys current)
    ++ keep (λ path. not (has_key path current)) (keys previous)

unfoldable pub event_at : Snapshot → Text → FileEvent
event_at current path = record { path = path; op = if has_key path current then upsert else delete }

unfoldable pub diff_watched_snapshots : Snapshot → Snapshot → List FileEvent
unfolding changed_paths event_at
diff_watched_snapshots previous current =
    map (event_at current) (sort text_ltb (changed_paths previous current))
