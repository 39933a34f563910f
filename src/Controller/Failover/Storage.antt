-- ===== src/Controller/Failover/Storage.antt =====
-- internal/controller/failover_controller.go: the writes to the API.
use simple_volume.Base.{
  Bool, true, false, not, ◌&&◌, List, [], ◌∷◌, Option, none, some, ◌==◌, if◌then◌else◌, any,
  option_eq,
}
use simple_volume.Base.Dict.{Dict, get_or, insert, erase, has_key, dict_equal}
use simple_volume.Text.{Text, text_eq, codes, is_empty}
use simple_volume.Controller.Kube.{Pvc, Pv, Node, Workload}
use simple_volume.Controller.Annotations.{
  annotation_active_node, annotation_previous_active_node, annotation_selected_node,
}
use simple_volume.Controller.Labels.{role_label, candidate_label}
use simple_volume.Controller.Pods.{
  workload_uses_claim, stateful_set_uses_claim, daemon_set_uses_claim,
}
use simple_volume.Controller.Selection.{FailoverCandidate, has_candidate}
use simple_volume.Controller.Api.{
  Call, list_nodes, list_deployments, list_stateful_sets, list_replica_sets, list_daemon_sets,
  get_claim, update_claim, get_volume, update_volume, patch_node, Cluster, no_bound_volume, M,
  ◌>>=◌, ◌>>◌, pure, fail, ask, write,
}

-- The annotations with the new active node, and the previous one where there is one.
unfoldable pub promoted_annotations : Text → Text → Dict Text Text → Dict Text Text
promoted_annotations target previous annotations =
    let active = insert annotation_active_node target annotations in
    if is_empty previous then active else insert annotation_previous_active_node previous active

-- The labels to change on a node: a value sets the label, `none` removes it.
unfoldable pub patch_labels :
    {Q : Type 0} → Text → Text → Text → (Text → Bool) → Node Q → Dict Text (Option Text)
patch_labels role candidate active is_candidate node =
    let roles =
      if node.name == active && not (is_empty active)
      then (if get_or [] role node.labels == codes "active"
          then []
          else insert role (some (codes "active")) [])
      else (if has_key role node.labels then insert role none [] else []) in
    if is_candidate node.name
    then (if get_or [] candidate node.labels == codes "true"
        then roles
        else insert candidate (some (codes "true")) roles)
    else (if has_key candidate node.labels then insert candidate none roles else roles)

module _ {Q : Type 0} (cluster : Cluster Q) where
  unfoldable pub write_annotations : Dict Text Text → Dict Text Text → Call → M (Unit {0})
  write_annotations old new call = if dict_equal old new then pure tt else write cluster call

  unfoldable pub promote_pvc_state : Pvc → Text → Text → M (Unit {0})
  promote_pvc_state pvc target previous = do
    latest ← ask (get_claim pvc.namespace pvc.name) (λ h. cluster.claim h pvc.namespace pvc.name)
    let new =
        erase annotation_selected_node (promoted_annotations target previous latest.annotations)
    write_annotations latest.annotations new (update_claim (record latest { annotations = new }))

  -- `promoteStorageState` for a bound volume.
  unfoldable pub read_volume : Pvc → M Pv
  read_volume pvc = ask (get_volume pvc.volume_name) (λ h. cluster.volume h pvc.volume_name)

  unfoldable pub promote_volume : Text → Text → Pv → M (Unit {0})
  promote_volume target previous pv =
      let new = promoted_annotations target previous pv.annotations in
      write_annotations pv.annotations new (update_volume (record pv { annotations = new }))

  unfoldable pub promote_bound : Pvc → Text → Text → M (Unit {0})
  promote_bound pvc target previous = do
    pv ← read_volume pvc
    promote_volume target previous pv
    promote_pvc_state pvc target previous

  unfoldable pub promote_storage_state : Pvc → Text → Text → M (Unit {0})
  promote_storage_state pvc target previous =
      if is_empty pvc.volume_name then fail no_bound_volume else promote_bound pvc target previous

  unfoldable pub record_active_node : Pvc → Text → Text → M (Unit {0})
  record_active_node pvc target previous =
      if is_empty pvc.volume_name
      then promote_pvc_state pvc target previous
      else promote_storage_state pvc target previous

  -- An empty patch is not sent.
  unfoldable pub send_patch : Text → Dict Text (Option Text) → M (Unit {0})
  send_patch name [] = pure tt
  send_patch name (l ∷ ls) = write cluster (patch_node name (l ∷ ls))

  -- The loop over the nodes.
  unfoldable pub patch_nodes : Text → Text → Text → (Text → Bool) → List (Node Q) → M (Unit {0})
  patch_nodes role candidate active is_candidate [] = pure tt
  patch_nodes role candidate active is_candidate (node ∷ nodes) =
      send_patch node.name (patch_labels role candidate active is_candidate node)
      >> patch_nodes role candidate active is_candidate nodes

  unfoldable pub reconcile_node_labels : Pvc → Text → List FailoverCandidate → M (Unit {0})
  reconcile_node_labels pvc active candidates = do
    nodes ← ask list_nodes cluster.nodes
    patch_nodes (role_label pvc.namespace pvc.name) (candidate_label pvc.namespace pvc.name) active
        (λ name. has_candidate name candidates) nodes

  unfoldable pub promote_node_label : Pvc → Text → M (Unit {0})
  promote_node_label pvc target = reconcile_node_labels pvc target []

  unfoldable pub workloads_of : Call → M (List Workload)
  workloads_of call = ask call (λ h. cluster.workloads h call)

  -- Each list is asked for only where the ones before it had no consumer.
  unfoldable pub first_consumer : Pvc → List (Call × (Workload → Bool)) → M Bool
  first_consumer pvc [] = pure false
  first_consumer pvc ((call, uses) ∷ more) = do
    workloads ← workloads_of call
    if any uses workloads then pure true else first_consumer pvc more

  unfoldable pub claim_has_desired_consumer : Pvc → Bool → M Bool
  claim_has_desired_consumer pvc has_pods =
      if has_pods
      then pure true
      else first_consumer pvc (
          (list_deployments pvc.namespace, workload_uses_claim pvc.name)
          ∷ (list_stateful_sets pvc.namespace, stateful_set_uses_claim pvc.name)
          ∷ (list_replica_sets pvc.namespace, workload_uses_claim pvc.name)
          ∷ (list_daemon_sets pvc.namespace, daemon_set_uses_claim pvc.name)
          ∷ [])
