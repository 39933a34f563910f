-- ===== src/Tests/Failover.antt =====
-- Runs of a failover.
use simple_volume.Base.{
  ◌≡◌, refl, ◌≢◌, not, ◌&&◌, ◌||◌, true, false, List, [], ◌∷◌, ◌==◌, some, ◌*◌, ◌+◌,
}
use simple_volume.Time.{second}
use simple_volume.Base.Dict.{lookup}
use simple_volume.Text.{Text, text_eq, codes, is_empty}
use simple_volume.Controller.Kube.{Pvc}
use simple_volume.Controller.Annotations.{pvc_key, volume_key, failover_node_priority}
use simple_volume.Controller.Selection.{select_failover_target_from_candidates}
use simple_volume.Controller.Failover.{should_backup_before_restore, record_demoted}
use simple_volume.Controller.Failover.Reconcile.{reconcile_pvc, promote}
use simple_volume.Controller.Failover.Grace.{Harmless, GraceOver, reconcile_pvc-waits}
use simple_volume.Controller.Failover.Fencing.{Step, backup-record_demoted}
use simple_volume.Controller.Failover.Eviction.{promote-fences}
use simple_volume.Controller.Api.{World, Result, ok}
use simple_volume.Tests.Data.{
  ints, parse_ten_seconds, cluster, claim, snapshot, start, candidates, stuck_pods,
}

unseen : ¬ GraceOver parse_ten_seconds claim 10 start
unfolding lookup
unseen g = cc (g.1)

reconcile_pvc-waits_example :
    Harmless start (reconcile_pvc ints parse_ten_seconds cluster claim snapshot 10 start).1
reconcile_pvc-waits_example =
    reconcile_pvc-waits ints parse_ten_seconds cluster claim snapshot 10 start unseen

promote-fences_example :
    Step ints parse_ten_seconds cluster claim
      (select_failover_target_from_candidates candidates (failover_node_priority claim)).target_node
      stuck_pods
      start
      (promote ints parse_ten_seconds cluster claim stuck_pods candidates (codes "a") start).1
promote-fences_example =
    promote-fences ints parse_ten_seconds cluster claim stuck_pods candidates (codes "a") start

backup-record_demoted_example :
    should_backup_before_restore
      (codes "db")
      (codes "pv")
      (codes "a")
      (record_demoted claim (codes "a") start)
    ≡ ((not (is_empty (codes "a"))
          && not (is_empty (codes "pv"))
          && volume_key (codes "db") (codes "pv") == volume_key (codes "db") (codes "pv")
          && codes "a" == codes "a")
        || should_backup_before_restore (codes "db") (codes "pv") (codes "a") start)
backup-record_demoted_example =
    backup-record_demoted claim (codes "a") (codes "db") (codes "pv") (codes "a") start

-- Ten seconds later: the replica on `b` is too old, so the volume moves to `c`, the stuck pod is
-- deleted and its node `a` is demoted.
abbrev waited : World
waited = record start { seen = (pvc_key claim, 1) ∷ [] }

abbrev moved : Result (Unit {0}) × World
moved = reconcile_pvc ints parse_ten_seconds cluster claim snapshot (10 * second + 6) waited

moves :
    (moved.0 ≡ ok tt)
    × (moved.1.demoted ≡ (codes "db/pv", codes "a" ∷ []) ∷ [])
    × (moved.1.seen ≡ [])
unfolding simple_volume.Base.option_eq simple_volume.Base.list_dec simple_volume.Base.nat_eq
    simple_volume.Base.keep simple_volume.Base.any simple_volume.Base.insert_sorted
    simple_volume.Base.sort simple_volume.Base.Dict.keys simple_volume.Base.Dict.lookup
    simple_volume.Base.Dict.get_or simple_volume.Base.Dict.has_key simple_volume.Base.Dict.insert
    simple_volume.Base.Dict.erase simple_volume.Base.Dict.dict_equal simple_volume.Text.text_eq
    simple_volume.Text.text_ltb simple_volume.Text.is_empty simple_volume.Text.is_space
    simple_volume.Text.trim_left simple_volume.Text.trim_right simple_volume.Text.trim
    simple_volume.Text.trim_space simple_volume.Text.has_prefix simple_volume.Text.lower
    simple_volume.Text.to_lower simple_volume.Text.replace_char simple_volume.Text.split_cons
    simple_volume.Text.split simple_volume.Text.join simple_volume.Time.sub_time
    simple_volume.Controller.Kube.phase_eq simple_volume.Controller.Kube.resource_eq
    simple_volume.Controller.Resources.add_resource_list
    simple_volume.Controller.Resources.subtract_resource_list
    simple_volume.Controller.Resources.max_resource_list
    simple_volume.Controller.Resources.pod_request
    simple_volume.Controller.Resources.failover_workload_requests
    simple_volume.Controller.Resources.takes_resources
    simple_volume.Controller.Resources.node_available_resources
    simple_volume.Controller.Resources.fits_one
    simple_volume.Controller.Resources.node_fits_requests simple_volume.Controller.Selection.fresher
    simple_volume.Controller.Selection.has_candidate
    simple_volume.Controller.Selection.first_preferred simple_volume.Controller.Selection.freshest
    simple_volume.Controller.Selection.select_failover_target_from_candidates
    simple_volume.Controller.Selection.blocked_nodes simple_volume.Controller.Selection.is_eligible
    simple_volume.Controller.Selection.failover_candidates
    simple_volume.Controller.Selection.select_failover_target
    simple_volume.Controller.Annotations.truthy simple_volume.Controller.Annotations.csv_annotation
    simple_volume.Controller.Annotations.replication_enabled
    simple_volume.Controller.Annotations.failover_enabled
    simple_volume.Controller.Annotations.failover_grace_period
    simple_volume.Controller.Annotations.failover_max_staleness
    simple_volume.Controller.Annotations.failover_node_priority
    simple_volume.Controller.Pods.volumes_use_claim simple_volume.Controller.Pods.ready_condition
    simple_volume.Controller.Pods.pods_using_claim simple_volume.Controller.Pods.ready_agent_pods
    simple_volume.Controller.Pods.ready_node_set simple_volume.Controller.Pods.active_node_from_pods
    simple_volume.Controller.Pods.healthy_claim_pod_node
    simple_volume.Controller.Pods.has_healthy_claim_pod
    simple_volume.Controller.Pods.claim_template_matches
    simple_volume.Controller.Pods.wants_replicas simple_volume.Controller.Pods.workload_uses_claim
    simple_volume.Controller.Pods.stateful_set_uses_claim
    simple_volume.Controller.Pods.daemon_set_uses_claim
    simple_volume.Controller.Labels.is_label_char simple_volume.Controller.Labels.replace_unsafe
    simple_volume.Controller.Labels.is_dash_or_dot simple_volume.Controller.Labels.clean_label_id
    simple_volume.Controller.Labels.volume_label_id simple_volume.Controller.Labels.healthy_label
    simple_volume.Controller.Labels.role_label simple_volume.Controller.Labels.candidate_label
    simple_volume.Controller.Labels.pool_label simple_volume.Controller.Api.recorded
    simple_volume.Controller.Api.ask simple_volume.Controller.Api.write
    simple_volume.Controller.Api.delete simple_volume.Controller.Failover.record_replica_freshness
    simple_volume.Controller.Failover.should_backup_before_restore
    simple_volume.Controller.Failover.mark_restored
    simple_volume.Controller.Failover.freshness_for_pvc
    simple_volume.Controller.Failover.demoted_for_pvc simple_volume.Controller.Failover.add_entry
    simple_volume.Controller.Failover.record_demoted
    simple_volume.Controller.Failover.Storage.promoted_annotations
    simple_volume.Controller.Failover.Storage.patch_labels
    simple_volume.Controller.Failover.Storage.write_annotations
    simple_volume.Controller.Failover.Storage.promote_pvc_state
    simple_volume.Controller.Failover.Storage.read_volume
    simple_volume.Controller.Failover.Storage.promote_volume
    simple_volume.Controller.Failover.Storage.promote_bound
    simple_volume.Controller.Failover.Storage.promote_storage_state
    simple_volume.Controller.Failover.Storage.record_active_node
    simple_volume.Controller.Failover.Storage.send_patch
    simple_volume.Controller.Failover.Storage.patch_nodes
    simple_volume.Controller.Failover.Storage.reconcile_node_labels
    simple_volume.Controller.Failover.Storage.promote_node_label
    simple_volume.Controller.Failover.Storage.workloads_of
    simple_volume.Controller.Failover.Storage.first_consumer
    simple_volume.Controller.Failover.Storage.claim_has_desired_consumer
    simple_volume.Controller.Failover.Reconcile.is_nil
    simple_volume.Controller.Failover.Reconcile.or_text
    simple_volume.Controller.Failover.Reconcile.initial_active_node
    simple_volume.Controller.Failover.Reconcile.evict_one
    simple_volume.Controller.Failover.Reconcile.evict
    simple_volume.Controller.Failover.Reconcile.forget
    simple_volume.Controller.Failover.Reconcile.previous_active_node
    simple_volume.Controller.Failover.Reconcile.promote_to
    simple_volume.Controller.Failover.Reconcile.promote
    simple_volume.Controller.Failover.Reconcile.wait_for_grace
    simple_volume.Controller.Failover.Reconcile.after_grace
    simple_volume.Controller.Failover.Reconcile.circumstances
    simple_volume.Controller.Failover.Reconcile.current_active_node
    simple_volume.Controller.Failover.Reconcile.record_known_node
    simple_volume.Controller.Failover.Reconcile.reconcile_active
    simple_volume.Controller.Failover.Reconcile.reconcile_candidates
    simple_volume.Controller.Failover.Reconcile.reconcile_pods
    simple_volume.Controller.Failover.Reconcile.namespace_pods
    simple_volume.Controller.Failover.Reconcile.reconcile_pvc
    simple_volume.Controller.Failover.Reconcile.reconcile_claims
    simple_volume.Controller.Failover.Reconcile.reconcile
moves = (refl, refl, refl)
