-- ===== src/Controller/Options/Laws.antt =====
-- What a report of a watch changes of the failover's state.
use simple_volume.Base.{◌≡◌, refl, ◌∙◌, List, [], ◌∷◌, inl, inr, Bool-cases, Option-cases}
use simple_volume.Base.Dict.{Dict, get_or}
use simple_volume.Text.{Text, text_eq, is_empty}
use simple_volume.Controller.Replication.{DesiredReplication}
use simple_volume.Controller.Replication.Restore.{besides_freshness, besides_freshness-record}
use simple_volume.Agent.Watches.{TargetStatus}
use simple_volume.Controller.Options.{
  nodes_by_url, record_status, record_statuses, record_watch_freshness,
}
use simple_volume.Controller.Api.{World}

besides-record_status :
    (d : DesiredReplication) (node : Text) (s : TargetStatus) (w : World)
    → besides_freshness (record_status d node s w) ≡ besides_freshness w
unfolding record_status
besides-record_status d node s w = elim (Option-cases s.last_successful_sync) [
  | inl e ↦ rw (e, record_status) refl
  | inr (at, e) ↦ elim (Bool-cases (is_empty node)) [
    | inl f ↦ rw (e, f, record_status) refl
    | inr f ↦
        rw (e, f, record_status)
          (besides_freshness-record d.namespace d.volume node at (is_empty s.last_error) w)
  ]
]

besides-record_statuses :
    (d : DesiredReplication) (nodes : Dict Text Text) (statuses : List TargetStatus) (w : World)
    → besides_freshness (record_statuses d nodes statuses w) ≡ besides_freshness w
unfolding record_statuses
besides-record_statuses d nodes [] w = refl
besides-record_statuses d nodes (s ∷ ss) w =
    besides-record_statuses d nodes ss (record_status d (get_or [] s.url nodes) s w)
    ∙ besides-record_status d (get_or [] s.url nodes) s w

-- A report of a watch changes nothing but freshness.
pub besides-record_watch_freshness :
    (d : DesiredReplication) (statuses : List TargetStatus) (w : World)
    → besides_freshness (record_watch_freshness d statuses w) ≡ besides_freshness w
unfolding record_watch_freshness
besides-record_watch_freshness d statuses w =
    besides-record_statuses d (nodes_by_url d.targets []) statuses w
