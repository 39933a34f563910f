-- ===== src/Controller/Desired.antt =====
-- internal/controller/replication_controller.go: `DesiredReplications`. The answers of the API server
-- are arguments. `sort.Slice` may put pods created at one time in any order; here they stay in the
-- order of the list.
pub mod Active
pub mod Agents
pub mod Pass
pub mod Laws
use simple_volume.Base.{
  Bool, true, false, not, ◌&&◌, List, [], ◌∷◌, ◌++◌, Option, none, some, ◌==◌, if◌then◌else◌, ltb,
  keep, sort,
}
use simple_volume.Base.Dict.{Dict, lookup}
use simple_volume.Text.{Text, codes, text_eq, text_ltb, is_empty, trim_space}
use simple_volume.Controller.Kube.{Pod, Pvc, running, phase_eq}
use simple_volume.Controller.Pods.{volumes_use_claim, ready_agent_pods}
use simple_volume.Controller.Annotations.{
  annotation, annotation_active_node, label_prefix, csv_annotation, truthy, replication_enabled,
}
use simple_volume.Controller.Ownership.{
  empty_policy, infer_ownership_from_pod, merge_ownership_policy, ownership_policy_from_annotations,
}
use simple_volume.Controller.Options.{replication_consistency_mode, confirmed_replicas}
use simple_volume.Controller.Replication.{OwnershipPolicy, DesiredTarget, DesiredReplication}
use simple_volume.Controller.Replication.Reconcile.{agent_http_url, agent_webdav_url}

abbrev pub annotation_include_paths : Text
annotation_include_paths = label_prefix ++ codes "/replication-include-paths"

abbrev pub annotation_exclude_paths : Text
annotation_exclude_paths = label_prefix ++ codes "/replication-exclude-paths"

abbrev pub annotation_prune_excluded : Text
annotation_prune_excluded = label_prefix ++ codes "/replication-prune-excluded"

abbrev pub annotation_required_paths : Text
annotation_required_paths = label_prefix ++ codes "/replication-required-paths"

abbrev pub annotation_debounce : Text
annotation_debounce = label_prefix ++ codes "/replication-debounce"

abbrev pub annotation_full_sync_on_start : Text
annotation_full_sync_on_start = label_prefix ++ codes "/replication-full-sync-on-start"

abbrev pub annotation_full_sync_schedule : Text
annotation_full_sync_schedule = label_prefix ++ codes "/replication-full-sync-schedule"

-- What the API server lists: all claims, the agents' pods, and the pods of a claim's namespace.
-- `none` is an error.
pub record Listing (Q : Type 0) : Type 0 where
  pub claims : Option (List Pvc)
  pub agent_pods : Option (List (Pod Q))
  pub pods : Pvc → Option (List (Pod Q))

unfoldable pub first {ℓ} : {A : Type ℓ} → List A → Option A
first [] = none
first (x ∷ xs) = some x

-- The `less` of the two sorts of `DesiredReplications`.
unfoldable pub before_target : DesiredTarget → DesiredTarget → Bool
before_target a b = text_ltb a.node b.node

unfoldable pub before_replication : DesiredReplication → DesiredReplication → Bool
before_replication a b =
    if a.namespace == b.namespace
    then text_ltb a.claim_name b.claim_name
    else text_ltb a.namespace b.namespace

unfoldable pub cons_option {ℓ} : {A : Type ℓ} → Option A → List A → List A
cons_option none xs = xs
cons_option (some x) xs = x ∷ xs

unfoldable pub sorted_replications :
    Option (List DesiredReplication) → Option (List DesiredReplication)
unfolding before_replication
sorted_replications none = none
sorted_replications (some out) = some (sort before_replication out)

module _ {Q : Type 0} where
  unfoldable pub may_be_active : Text → Pod Q → Bool
  unfolding volumes_use_claim
  may_be_active claim pod =
      pod.phase == running && not (is_empty pod.node_name) && volumes_use_claim claim pod.volumes

  unfoldable pub created_before : Pod Q → Pod Q → Bool
  created_before a b = ltb a.created b.created

  unfoldable pub active_pod_for_pvc : List (Pod Q) → Text → Option (Pod Q)
  unfolding first may_be_active created_before
  active_pod_for_pvc pods claim = first (sort created_before (keep (may_be_active claim) pods))

  unfoldable pub active_node_of : Option (Pod Q) → Pvc → Text
  active_node_of none pvc = trim_space (annotation annotation_active_node pvc.annotations)
  active_node_of (some pod) pvc = pod.node_name

  unfoldable pub pod_ownership : Option (Pod Q) → Pvc → OwnershipPolicy
  unfolding infer_ownership_from_pod
  pod_ownership none pvc = empty_policy
  pod_ownership (some pod) pvc = infer_ownership_from_pod pod pvc.name

  -- The loop over the agents, before the sort.
  unfoldable pub targets_from : Dict Text (Pod Q) → Text → Text → List DesiredTarget
  targets_from [] active token = []
  targets_from ((node, pod) ∷ agents) active token =
      let rest = targets_from agents active token in
      if node == active
      then rest
      else record { node = node; url = agent_http_url pod.pod_ip; token = token } ∷ rest

  -- A claim without targets is left out.
  unfoldable pub with_targets :
      Pvc → Text → Pod Q → OwnershipPolicy → List DesiredTarget → Option DesiredReplication
  unfolding replication_consistency_mode confirmed_replicas truthy csv_annotation
  with_targets pvc active source ownership [] = none
  with_targets pvc active source ownership (t ∷ ts) = some (record {
    namespace = pvc.namespace;
    claim_name = pvc.name;
    volume = pvc.volume_name;
    active_node = active;
    source_url = agent_webdav_url source.pod_ip;
    targets = t ∷ ts;
    include_paths = csv_annotation (annotation annotation_include_paths pvc.annotations);
    exclude_paths = csv_annotation (annotation annotation_exclude_paths pvc.annotations);
    prune_excluded = truthy (annotation annotation_prune_excluded pvc.annotations);
    required_paths = csv_annotation (annotation annotation_required_paths pvc.annotations);
    ownership = ownership;
    debounce = trim_space (annotation annotation_debounce pvc.annotations);
    full_sync = truthy (annotation annotation_full_sync_on_start pvc.annotations);
    full_schedule = trim_space (annotation annotation_full_sync_schedule pvc.annotations);
    consistency_mode = replication_consistency_mode pvc.annotations;
    confirmed_replicas = confirmed_replicas pvc.annotations;
  })

  unfoldable pub with_active_node :
      Dict Text (Pod Q) → Text → Pvc → Text → OwnershipPolicy → Option DesiredReplication
  unfolding targets_from before_target with_targets
  with_active_node agents token pvc active ownership =
      if is_empty active then none else elim (lookup active agents) [
        | none ↦ none
        | some source ↦
            with_targets pvc active source ownership
              (sort before_target (targets_from agents active token))
      ]

  -- What the loop does with an enabled claim and the answer for its pods, before what follows it.
  unfoldable pub desired_of_claim :
      Dict Text (Pod Q)
      → Text
      → Pvc
      → Option (List (Pod Q))
      → Option OwnershipPolicy
      → Option (List DesiredReplication)
      → Option (List DesiredReplication)
  unfolding with_active_node active_node_of pod_ownership active_pod_for_pvc merge_ownership_policy
      cons_option
  desired_of_claim agents token pvc none annotated rest = none
  desired_of_claim agents token pvc (some pods) none rest = none
  desired_of_claim agents token pvc (some pods) (some annotated) none = none
  desired_of_claim agents token pvc (some pods) (some annotated) (some rest) =
      let active = active_pod_for_pvc pods pvc.name in
      some (
        cons_option
          (with_active_node agents token pvc (active_node_of active pvc)
            (merge_ownership_policy (pod_ownership active pvc) annotated))
          rest)

  unfoldable pub desired_of_claims :
      Text
      → Text
      → (Pvc → Option (List (Pod Q)))
      → Dict Text (Pod Q)
      → List Pvc
      → Option (List DesiredReplication)
  unfolding replication_enabled desired_of_claim ownership_policy_from_annotations
  desired_of_claims storage_class token pods agents [] = some []
  desired_of_claims storage_class token pods agents (pvc ∷ pvcs) =
      let rest = desired_of_claims storage_class token pods agents pvcs in
      if not (replication_enabled pvc storage_class)
      then rest
      else if is_empty pvc.volume_name
      then rest
      else desired_of_claim agents token pvc (pods pvc)
          (ownership_policy_from_annotations pvc.annotations) rest

  unfoldable pub desired_replications : Text → Text → Listing Q → Option (List DesiredReplication)
  unfolding desired_of_claims sorted_replications ready_agent_pods
  desired_replications storage_class token listing = elim listing.claims [
    | none ↦ none
    | some claims ↦ elim listing.agent_pods [
      | none ↦ none
      | some pods ↦
          sorted_replications
            (desired_of_claims storage_class token listing.pods (ready_agent_pods pods) claims)
    ]
  ]
