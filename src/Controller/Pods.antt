-- ===== src/Controller/Pods.antt =====
-- What internal/controller reads off pods, nodes and workloads.
use simple_volume.Base.{
  Bool, true, false, not, ◌&&◌, ◌||◌, List, [], ◌∷◌, ◌++◌, Option, none, some, ◌==◌, if◌then◌else◌,
  option_eq, contains, any, keep,
}
use simple_volume.Base.Dict.{Dict, insert}
use simple_volume.Base.Int.{ℤ, pos, ltb_ℤ}
use simple_volume.Text.{Text, text_eq, codes, is_empty, has_prefix}
use simple_volume.Controller.Kube.{Volume, Pod, Node, Condition, Workload, running, phase_eq}

-- `podUsesClaim` and `podSpecUsesClaim`, which have the same loop.
unfoldable pub volumes_use_claim : Text → List Volume → Bool
unfolding any
volumes_use_claim claim volumes = any (λ v. v.claim == some claim) volumes

-- A `Ready` condition with status `True`, of a pod or of a node.
unfoldable pub ready_condition : List Condition → Bool
unfolding any
ready_condition conditions = any (λ c. c.is_ready && c.is_true) conditions

module _ {Q : Type 0} where
  unfoldable pub pods_using_claim : List (Pod Q) → Text → List (Pod Q)
  unfolding volumes_use_claim keep
  pods_using_claim pods claim = keep (λ pod. volumes_use_claim claim pod.volumes) pods

  -- The agents by node, the last pod of a node winning.
  unfoldable pub ready_agents_from : List (Pod Q) → Dict Text (Pod Q) → Dict Text (Pod Q)
  ready_agents_from [] out = out
  ready_agents_from (pod ∷ pods) out = ready_agents_from pods (
      if not (pod.phase == running)
        || is_empty pod.node_name
        || is_empty pod.pod_ip
        || not (ready_condition pod.conditions)
      then out
      else insert pod.node_name pod out)

  unfoldable pub ready_agent_pods : List (Pod Q) → Dict Text (Pod Q)
  unfolding ready_agents_from
  ready_agent_pods pods = ready_agents_from pods []

  unfoldable pub ready_node_set : List (Node Q) → List Text
  unfolding ready_condition
  ready_node_set [] = []
  ready_node_set (node ∷ nodes) =
      let rest = ready_node_set nodes in
      if not node.unschedulable && ready_condition node.conditions then node.name ∷ rest else rest

  -- The node of the first pod that is bound to a node other than the promoted one.
  unfoldable pub active_node_from_pods : List (Pod Q) → Text → Text
  active_node_from_pods [] promoted = []
  active_node_from_pods (pod ∷ pods) promoted =
      let rest = active_node_from_pods pods promoted in
      if not (is_empty pod.node_name) && not (pod.node_name == promoted)
      then pod.node_name
      else rest

  unfoldable pub healthy_claim_pod_node : List (Pod Q) → List Text → Text
  healthy_claim_pod_node [] ready = []
  healthy_claim_pod_node (pod ∷ pods) ready =
      let rest = healthy_claim_pod_node pods ready in
      if pod.phase == running && not (is_empty pod.node_name) && contains ready pod.node_name
      then pod.node_name
      else rest

  unfoldable pub has_healthy_claim_pod : List (Pod Q) → List Text → Bool
  unfolding healthy_claim_pod_node
  has_healthy_claim_pod pods ready = not (is_empty (healthy_claim_pod_node pods ready))

unfoldable pub claim_template_matches : Text → Text → List Text → Bool
claim_template_matches claim set_name [] = false
claim_template_matches claim set_name (template ∷ templates) =
    let rest = claim_template_matches claim set_name templates in
    if template == claim || has_prefix claim (template ++ codes "-" ++ set_name ++ codes "-")
    then true
    else rest

-- `desiredReplicas(replicas, 1) > 0`
unfoldable pub wants_replicas : Option ℤ → Bool
wants_replicas none = true
wants_replicas (some n) = ltb_ℤ (pos 0) n

-- A deployment or a replica set that wants a pod with the claim.
unfoldable pub workload_uses_claim : Text → Workload → Bool
unfolding wants_replicas volumes_use_claim
workload_uses_claim claim w =
    wants_replicas w.replicas && volumes_use_claim claim w.template_volumes

unfoldable pub stateful_set_uses_claim : Text → Workload → Bool
unfolding wants_replicas volumes_use_claim claim_template_matches
stateful_set_uses_claim claim w =
    wants_replicas w.replicas
    && (volumes_use_claim claim w.template_volumes
        || claim_template_matches claim w.name w.claim_templates)

unfoldable pub daemon_set_uses_claim : Text → Workload → Bool
unfolding volumes_use_claim
daemon_set_uses_claim claim w = volumes_use_claim claim w.template_volumes
