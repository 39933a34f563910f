-- ===== src/Controller/Options.antt =====
-- internal/controller/replication_controller.go: the options of a replication, its schedule, and the
-- freshness that a watch reports.
pub mod Laws
use simple_volume.Base.{
  ℕ, Bool, true, false, not, ◌&&◌, ◌||◌, List, [], ◌∷◌, ◌++◌, Option, none, some, ◌==◌,
  if◌then◌else◌, eqb, length,
}
use simple_volume.Base.Dict.{Dict, get_or, insert}
use simple_volume.Base.Int.{ℤ, pos, ltb_ℤ, eqb_ℤ}
use simple_volume.Text.{Text, codes, text_eq, is_empty, is_space, to_lower, trim_space, split_cons}
use simple_volume.Text.Number.{parse_int}
use simple_volume.Time.{Time}
use simple_volume.Controller.Annotations.{annotation, label_prefix}
use simple_volume.Controller.Failover.{record_replica_freshness}
use simple_volume.Controller.Replication.{
  ConsistencyMode, shadow, live, DesiredTarget, DesiredReplication,
}
use simple_volume.Controller.Api.{World}
use simple_volume.Agent.Watches.{TargetStatus}

abbrev pub annotation_consistency_mode : Text
annotation_consistency_mode = label_prefix ++ codes "/replication-consistency-mode"

abbrev pub annotation_confirmed_replicas : Text
annotation_confirmed_replicas = label_prefix ++ codes "/replication-confirmed-replicas"

unfoldable pub replication_consistency_mode : Dict Text Text → ConsistencyMode
replication_consistency_mode annotations =
    if to_lower (trim_space (annotation annotation_consistency_mode annotations)) == codes "live"
    then live
    else shadow

unfoldable pub confirmed_replicas : Dict Text Text → ℤ
confirmed_replicas annotations =
    let value = trim_space (annotation annotation_confirmed_replicas annotations) in
    if is_empty value
    then pos 1
    else elim (parse_int value) [ none ↦ pos 1 | some n ↦ if ltb_ℤ n (pos 0) then pos 1 else n ]

-- A field goes on in what follows.
unfoldable pub goes_on : Text → Bool
unfolding is_space
goes_on [] = false
goes_on (c ∷ s) = not (is_space c)

-- `strings.Fields`.
unfoldable pub fields : Text → List Text
unfolding is_space goes_on split_cons
fields [] = []
fields (c ∷ s) =
    let rest = fields s in
    if is_space c then rest else if goes_on s then split_cons c rest else (c ∷ []) ∷ rest

unfoldable pub parse_single_cron_number : Text → ℤ → ℤ → Option ℤ
parse_single_cron_number field low high = elim (parse_int field) [
  | none ↦ none
  | some n ↦ if ltb_ℤ n low || ltb_ℤ high n then none else some n
]

-- Whether the field is the number, within its range.
unfoldable pub is_at : Text → ℤ → ℤ → Bool
unfolding parse_single_cron_number
is_at field high now = elim (parse_single_cron_number field (pos 0) high) [
  | none ↦ false
  | some n ↦ eqb_ℤ now n
]

run_at : List Text → ℤ → ℤ → Bool
unfolding is_at
run_at [] hour minute = false
run_at (m ∷ []) hour minute = false
run_at (m ∷ h ∷ more) hour minute =
    eqb (length more) 3 && is_at m (pos 59) minute && is_at h (pos 23) hour

-- The hour and the minute are those of the local time.
unfoldable pub should_run_scheduled_full_sync : Text → ℤ → ℤ → Bool
unfolding fields run_at
should_run_scheduled_full_sync schedule hour minute = run_at (fields schedule) hour minute

-- Of two targets with one address, the later one counts.
unfoldable pub nodes_by_url : List DesiredTarget → Dict Text Text → Dict Text Text
nodes_by_url [] nodes = nodes
nodes_by_url (t ∷ ts) nodes = nodes_by_url ts (insert t.url t.node nodes)

-- One turn of the loop over the statuses. Without a node, the call changes nothing.
unfoldable pub record_status : DesiredReplication → Text → TargetStatus → World → World
record_status d node status w = elim status.last_successful_sync [
  | none ↦ w
  | some at ↦
      if is_empty node
      then w
      else record_replica_freshness d.namespace d.volume node at (is_empty status.last_error) w
]

unfoldable pub record_statuses :
    DesiredReplication → Dict Text Text → List TargetStatus → World → World
unfolding record_status
record_statuses d nodes [] w = w
record_statuses d nodes (s ∷ ss) w =
    record_statuses d nodes ss (record_status d (get_or [] s.url nodes) s w)

unfoldable pub record_watch_freshness : DesiredReplication → List TargetStatus → World → World
unfolding nodes_by_url record_statuses
record_watch_freshness d statuses w = record_statuses d (nodes_by_url d.targets []) statuses w
