-- ===== src/Controller/Resources.antt =====
-- internal/controller/failover_controller.go: what a workload requests and what a node has free.
use simple_volume.Base.{
  Bool, true, false, not, ◌&&◌, ◌||◌, List, [], ◌∷◌, none, some, ◌==◌, if◌then◌else◌,
}
use simple_volume.Base.Dict.{Dict, lookup, get_or, insert}
use simple_volume.Text.{Text, text_eq, is_empty}
use simple_volume.Controller.Kube.{
  Quantities, ResourceName, cpu, memory, resource_eq, ResourceList, Container, Pod, Node, succeeded,
  failed, phase_eq,
}

-- The names that every loop over resources goes through.
abbrev pub resource_names : List ResourceName
resource_names = cpu ∷ memory ∷ []

is_nil {ℓ} : {A : Type ℓ} → List A → Bool
is_nil [] = true
is_nil (_ ∷ _) = false

module _ (q : Quantities) where
  open q use {Quantity, zero_quantity, add, sub, less, is_zero}

  add_each :
      ResourceList Quantity → List ResourceName → ResourceList Quantity → ResourceList Quantity
  add_each source [] target = target
  add_each source (name ∷ names) target = add_each source names (elim (lookup name source) [
    | none ↦ target
    | some quantity ↦
        if is_zero quantity
        then target
        else insert name (add (get_or zero_quantity name target) quantity) target
  ])

  -- The maps are mutated in place in the source; here the new target is returned.
  unfoldable pub add_resource_list :
      ResourceList Quantity → ResourceList Quantity → ResourceList Quantity
  unfolding add_each
  add_resource_list target source = add_each source resource_names target

  subtract_each :
      ResourceList Quantity → List ResourceName → ResourceList Quantity → ResourceList Quantity
  subtract_each source [] target = target
  subtract_each source (name ∷ names) target =
      subtract_each source names (elim (lookup name source) [
        | none ↦ target
        | some quantity ↦ if is_zero quantity then target else elim (lookup name target) [
          | none ↦ target
          | some current ↦ insert name (sub current quantity) target
        ]
      ])

  unfoldable pub subtract_resource_list :
      ResourceList Quantity → ResourceList Quantity → ResourceList Quantity
  unfolding subtract_each
  subtract_resource_list target source = subtract_each source resource_names target

  max_each :
      ResourceList Quantity → List ResourceName → ResourceList Quantity → ResourceList Quantity
  max_each source [] target = target
  max_each source (name ∷ names) target = max_each source names (elim (lookup name source) [
    | none ↦ target
    | some quantity ↦
        if is_zero quantity
        then target
        else if less (get_or zero_quantity name target) quantity
        then insert name quantity target
        else target
  ])

  unfoldable pub max_resource_list :
      ResourceList Quantity → ResourceList Quantity → ResourceList Quantity
  unfolding max_each
  max_resource_list target source = max_each source resource_names target

  add_containers : List (Container Quantity) → ResourceList Quantity → ResourceList Quantity
  add_containers [] out = out
  add_containers (c ∷ cs) out = add_containers cs (add_resource_list out c.requests)

  max_containers : List (Container Quantity) → ResourceList Quantity → ResourceList Quantity
  max_containers [] out = out
  max_containers (c ∷ cs) out = max_containers cs (max_resource_list out c.requests)

  unfoldable pub pod_request : Pod Quantity → ResourceList Quantity
  unfolding add_containers max_containers
  pod_request pod = max_containers pod.init_containers (add_containers pod.containers [])

  add_pods : List (Pod Quantity) → ResourceList Quantity → ResourceList Quantity
  add_pods [] out = out
  add_pods (pod ∷ pods) out = add_pods pods (add_resource_list out (pod_request pod))

  unfoldable pub failover_workload_requests : List (Pod Quantity) → ResourceList Quantity
  unfolding add_pods
  failover_workload_requests pods = add_pods pods []

  -- The two resources of `node.Status.Allocatable`.
  allocatable_each :
      ResourceList Quantity → List ResourceName → ResourceList Quantity → ResourceList Quantity
  allocatable_each source [] out = out
  allocatable_each source (name ∷ names) out =
      allocatable_each source names
        (elim (lookup name source) [ none ↦ out | some quantity ↦ insert name quantity out ])

  node_totals :
      List (Node Quantity) → Dict Text (ResourceList Quantity) → Dict Text (ResourceList Quantity)
  node_totals [] out = out
  node_totals (node ∷ nodes) out =
      node_totals nodes (insert node.name (allocatable_each node.allocatable resource_names []) out)

  -- A pod that is not placed or has ended takes nothing.
  unfoldable pub takes_resources : Pod Quantity → Bool
  takes_resources pod =
      not (is_empty pod.node_name || pod.phase == succeeded || pod.phase == failed)

  subtract_pods :
      List (Pod Quantity) → Dict Text (ResourceList Quantity) → Dict Text (ResourceList Quantity)
  subtract_pods [] out = out
  subtract_pods (pod ∷ pods) out = subtract_pods pods (
      if takes_resources pod
      then elim (lookup pod.node_name out) [
        | none ↦ out
        | some available ↦
            insert pod.node_name (subtract_resource_list available (pod_request pod)) out
      ]
      else out)

  unfoldable pub node_available_resources :
      List (Node Quantity) → List (Pod Quantity) → Dict Text (ResourceList Quantity)
  unfolding node_totals subtract_pods allocatable_each
  node_available_resources nodes pods = subtract_pods pods (node_totals nodes [])

  -- The body of the loop of `nodeFitsRequests` for one resource.
  unfoldable pub fits_one : ResourceList Quantity → ResourceList Quantity → ResourceName → Bool
  fits_one requests free name = elim (lookup name requests) [
    | none ↦ true
    | some requested ↦ if is_zero requested then true else elim (lookup name free) [
      | none ↦ true
      | some amount ↦ if is_zero amount then true else not (less amount requested)
    ]
  ]

  fits_each : ResourceList Quantity → ResourceList Quantity → List ResourceName → Bool
  fits_each requests free [] = true
  fits_each requests free (name ∷ names) =
      fits_one requests free name && fits_each requests free names

  unfoldable pub node_fits_requests :
      Text → ResourceList Quantity → Dict Text (ResourceList Quantity) → Bool
  unfolding fits_each fits_one is_nil
  node_fits_requests node requests available =
      if is_nil requests || is_nil available then true else elim (lookup node available) [
        | none ↦ true
        | some free ↦ if is_nil free then true else fits_each requests free resource_names
      ]
