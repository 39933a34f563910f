-- ===== src/Controller/Failover/Reconcile.antt =====
-- internal/controller/failover_controller.go: `Reconcile` and `reconcilePVC`.
use simple_volume.Base.{
  Bool, true, false, not, ◌&&◌, ◌||◌, List, [], ◌∷◌, Option, none, some, ◌==◌, if◌then◌else◌,
  contains, keep, sort, ◌++◌,
}
use simple_volume.Base.Dict.{Dict, lookup, insert, erase, has_key, keys}
use simple_volume.Base.Int.{ℤ, ltb_ℤ}
use simple_volume.Text.{Text, text_eq, text_ltb, is_empty, trim_space}
use simple_volume.Time.{Time, sub_time}
use simple_volume.Controller.Kube.{Quantities, Pod, Pvc, ResourceList}
use simple_volume.Controller.Annotations.{
  annotation, annotation_active_node, annotation_selected_node, failover_enabled,
  failover_grace_period, failover_max_staleness, failover_node_priority, pvc_key,
}
use simple_volume.Controller.Resources.{
  node_fits_requests, failover_workload_requests, node_available_resources,
}
use simple_volume.Controller.Pods.{
  pods_using_claim, ready_agent_pods, ready_node_set, active_node_from_pods, healthy_claim_pod_node,
  has_healthy_claim_pod,
}
use simple_volume.Controller.Selection.{
  Circumstances, FailoverCandidate, failover_candidates, select_failover_target_from_candidates,
}
use simple_volume.Controller.Failover.{freshness_for_pvc, demoted_for_pvc, record_demoted}
use simple_volume.Controller.Failover.Storage.{
  record_active_node, promote_storage_state, reconcile_node_labels, promote_node_label,
  claim_has_desired_consumer,
}
use simple_volume.Controller.Api.{
  list_claims, list_nodes, list_agents, list_all_pods, list_pods, Cluster, failover_blocked, World,
  M, ◌>>=◌, ◌>>◌, pure, fail, modify, ask, delete,
}

unfoldable pub is_nil : {A : Type 0} → List A → Bool
is_nil [] = true
is_nil (_ ∷ _) = false

unfoldable pub or_text : Text → Text → Text
or_text s t = if is_empty s then t else s

first_or_empty : List Text → Text
first_or_empty [] = []
first_or_empty (n ∷ _) = n

module _ (q : Quantities) where
  open q use {Quantity}

  -- The lists that `Reconcile` reads once for all claims.
  pub record Snapshot : Type 0 where
    pub agents : Dict Text (Pod Quantity)
    pub ready_nodes : List Text
    pub available : Dict Text (ResourceList Quantity)

  -- A node that can host the volume first: in the order of the priority list, then by name.
  unfoldable pub initial_active_node : Snapshot → List Text → ResourceList Quantity → Text
  unfolding first_or_empty
  initial_active_node s priority requests =
      let usable = λ (node : Text).
        contains s.ready_nodes node && node_fits_requests q node requests s.available in
      first_or_empty (
        keep (λ node. has_key node s.agents && usable node) priority
        ++ sort text_ltb (keep usable (keys s.agents)))

module _ (q : Quantities) (parse_duration : Text → Option ℤ) where
  open q use {Quantity}

  module _ (cluster : Cluster Quantity) where
    -- The last loop of `reconcilePVC`: the pods that are bound to another node are deleted.
    unfoldable pub evict_one : Pvc → Text → Pod Quantity → M (Unit {0})
    evict_one pvc target pod w =
        if is_empty pod.node_name || pod.node_name == target
        then pure tt w
        else delete cluster pod.namespace pod.name (record_demoted pvc pod.node_name w)

    unfoldable pub evict : Pvc → Text → List (Pod Quantity) → M (Unit {0})
    evict pvc target [] = pure tt
    evict pvc target (pod ∷ pods) = evict_one pvc target pod >> evict pvc target pods

    unfoldable pub forget : Pvc → M (Unit {0})
    forget pvc = modify (λ w. record w { seen = erase (pvc_key pvc) w.seen })

    unfoldable pub previous_active_node : List (Pod Quantity) → Text → Text → Text
    previous_active_node using_claim active_node target =
        let bound = active_node_from_pods using_claim target in
        if is_empty bound && not (is_empty active_node) && not (active_node == target)
        then active_node
        else bound

    unfoldable pub promote_to : Pvc → List (Pod Quantity) → Text → Text → M (Unit {0})
    promote_to pvc using_claim target previous = do
      promote_storage_state cluster pvc target previous
      promote_node_label cluster pvc target
      evict pvc target using_claim
      forget pvc

    -- `reconcilePVC` from the selection of the target.
    unfoldable pub promote :
        Pvc → List (Pod Quantity) → List FailoverCandidate → Text → M (Unit {0})
    promote pvc using_claim candidates active_node =
        let decision =
          select_failover_target_from_candidates candidates (failover_node_priority pvc) in
        if not decision.promote
        then fail failover_blocked
        else promote_to pvc using_claim decision.target_node
            (previous_active_node using_claim active_node decision.target_node)

    -- The grace period starts when the claim is first seen without a healthy pod.
    unfoldable pub wait_for_grace : Pvc → Time → M (Unit {0}) → Option Time → M (Unit {0})
    wait_for_grace pvc now promotion none =
        modify (λ v. record v { seen = insert (pvc_key pvc) now v.seen })
    wait_for_grace pvc now promotion (some first_seen) =
        if ltb_ℤ (sub_time now first_seen) (failover_grace_period parse_duration pvc)
        then pure tt
        else promotion

    -- `reconcilePVC` from the test of the demand.
    unfoldable pub after_grace : Pvc → Time → Bool → Bool → M (Unit {0}) → M (Unit {0})
    after_grace pvc now has_demand has_healthy promotion =
        if not has_demand || has_healthy then forget pvc else λ w.
        wait_for_grace pvc now promotion (lookup (pvc_key pvc) w.seen) w

    unfoldable pub circumstances :
        Pvc → Snapshot q → Time → List (Pod Quantity) → World → Circumstances q
    circumstances pvc s now using_claim w = record {
      pods = using_claim;
      ready_nodes = s.ready_nodes;
      freshness = freshness_for_pvc pvc w;
      demoted = demoted_for_pvc pvc w;
      max_staleness = failover_max_staleness parse_duration pvc;
      now = now;
      requests = failover_workload_requests q using_claim;
      available = s.available;
    }

    -- The node that is active before a failover.
    unfoldable pub current_active_node : Pvc → Snapshot q → List (Pod Quantity) → Bool → Text
    unfolding or_text initial_active_node
    current_active_node pvc s using_claim has_demand =
        or_text (healthy_claim_pod_node using_claim s.ready_nodes) (
          or_text (trim_space (annotation annotation_active_node pvc.annotations)) (
            or_text (trim_space (annotation annotation_selected_node pvc.annotations)) (
              if has_demand
              then initial_active_node q s (failover_node_priority pvc)
                  (failover_workload_requests q using_claim)
              else [])))

    unfoldable pub record_known_node : Pvc → Text → M (Unit {0})
    record_known_node pvc active_node =
        if is_empty active_node then pure tt else record_active_node cluster pvc active_node []

    -- `reconcilePVC` once the active node is known.
    unfoldable pub reconcile_active :
        Pvc
        → Snapshot q
        → Time
        → List (Pod Quantity)
        → List FailoverCandidate
        → Bool
        → Text
        → M (Unit {0})
    reconcile_active pvc s now using_claim candidates has_demand active_node = do
      record_known_node pvc active_node
      reconcile_node_labels cluster pvc active_node candidates
      after_grace pvc now has_demand (has_healthy_claim_pod using_claim s.ready_nodes)
          (promote pvc using_claim candidates active_node)

    -- `reconcilePVC` once the candidates are known.
    unfoldable pub reconcile_candidates :
        Pvc → Snapshot q → Time → List (Pod Quantity) → List FailoverCandidate → M (Unit {0})
    reconcile_candidates pvc s now using_claim candidates = do
      has_demand ← claim_has_desired_consumer cluster pvc (not (is_nil using_claim))
      reconcile_active pvc s now using_claim candidates has_demand
          (current_active_node pvc s using_claim has_demand)

    unfoldable pub reconcile_pods : Pvc → Snapshot q → Time → List (Pod Quantity) → M (Unit {0})
    reconcile_pods pvc s now using_claim w =
        let c = circumstances pvc s now using_claim w in
        reconcile_candidates pvc s now using_claim (failover_candidates q c s.agents) w

    unfoldable pub namespace_pods : Pvc → M (List (Pod Quantity))
    namespace_pods pvc =
        ask (list_pods pvc.namespace) (λ h. cluster.pods h (list_pods pvc.namespace))

    unfoldable pub reconcile_pvc : Pvc → Snapshot q → Time → M (Unit {0})
    reconcile_pvc pvc s now = do
      pods ← namespace_pods pvc
      reconcile_pods pvc s now (pods_using_claim pods pvc.name)

    -- The loop over the claims: an error is logged, and the next claim follows.
    unfoldable pub reconcile_claims : List Pvc → Text → Snapshot q → Time → M (Unit {0})
    reconcile_claims [] storage_class s now w = pure tt w
    reconcile_claims (pvc ∷ pvcs) storage_class s now w =
        reconcile_claims pvcs storage_class s now
          (if failover_enabled pvc storage_class then (reconcile_pvc pvc s now w).1 else w)

    unfoldable pub reconcile : Text → Time → M (Unit {0})
    reconcile storage_class now = do
      pvcs ← ask list_claims cluster.claims
      agents ← ask list_agents (λ h. cluster.pods h list_agents)
      nodes ← ask list_nodes cluster.nodes
      all_pods ← ask list_all_pods (λ h. cluster.pods h list_all_pods)
      reconcile_claims pvcs storage_class
          (record {
            agents = ready_agent_pods agents;
            ready_nodes = ready_node_set nodes;
            available = node_available_resources q nodes all_pods;
          })
          now
