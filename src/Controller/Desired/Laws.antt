-- ===== src/Controller/Desired/Laws.antt =====
-- The sources and the targets of what is desired.
use mathlib.Core.List.{Memᴰ}
use simple_volume.Base.{
  ◌≡◌, refl, ◌≢◌, inl, inr, true, false, List, [], ◌∷◌, Option, none, some, sort, All, Bool-cases,
  Option-cases, arith,
}
use simple_volume.Base.Sorting.{IsSorted, StrictWeakOrder, sort-IsSorted, All-sort, Memᴰ-into_sort}
use simple_volume.Base.Dict.{lookup}
use simple_volume.Text.{Text, text_eq, is_empty}
use simple_volume.Text.Order.{
  text_ltb_asymm, text_ltb_neg_trans, text_ltb_connected, text_ltb_irrefl,
}
use simple_volume.Controller.Kube.{Pod, Pvc}
use simple_volume.Controller.Pods.{ready_agent_pods}
use simple_volume.Controller.Annotations.{replication_enabled}
use simple_volume.Controller.Replication.{OwnershipPolicy, DesiredTarget, DesiredReplication}
use simple_volume.Controller.Replication.Reconcile.{agent_http_url, agent_webdav_url}
use simple_volume.Controller.Desired.{
  Listing, before_target, before_replication, targets_from, with_targets, with_active_node,
  cons_option, desired_of_claim, desired_of_claims, sorted_replications, desired_replications,
}
use simple_volume.Controller.Desired.Agents.{
  before_target-StrictWeakOrder, Serves, All-lookup, IsTarget, All-targets_from, targets_from-every,
  agents-Serve,
}

-- The claim's volume.
pub IsOf : Pvc → DesiredReplication → Type 0
IsOf pvc d =
    (d.namespace ≡ pvc.namespace) × (d.claim_name ≡ pvc.name) × (d.volume ≡ pvc.volume_name)

-- What is desired comes from an enabled claim that has a volume.
pub IsFrom : Text → List Pvc → DesiredReplication → Type 0
IsFrom storage_class claims d =
    (pvc : Pvc) × Memᴰ pvc claims
    × (replication_enabled pvc storage_class ≡ true)
    × (is_empty pvc.volume_name ≡ false)
    × IsOf pvc d

abbrev Holds : {A : Type 0} → (A → Type 0) → Option A → Type 0
Holds P none = Unit
Holds P (some d) = P d

module _ {Q : Type 0} where
  -- The source is a ready agent on the active node, and the targets are the ready agents of all
  -- other nodes, sorted, of which there is one.
  pub IsPlaced : List (Pod Q) → Text → DesiredReplication → Type 0
  IsPlaced pods token d =
      ((pod : Pod Q) × Serves pods d.active_node pod × (d.source_url ≡ agent_webdav_url pod.pod_ip))
      × (d.targets ≢ [])
      × All (IsTarget pods d.active_node token) d.targets
      × ((node : Text) (pod : Pod Q)
          → node ≢ d.active_node
          → lookup node (ready_agent_pods pods) ≡ some pod
          → Memᴰ (record { node = node; url = agent_http_url pod.pod_ip; token = token }) d.targets)
      × IsSorted before_target d.targets

  with_targets-IsPlaced :
      (pods : List (Pod Q)) (token : Text) (pvc : Pvc) (active : Text) (source : Pod Q)
      (ownership : OwnershipPolicy) (targets : List DesiredTarget)
      → Serves pods active source
      → All (IsTarget pods active token) targets
      → ((node : Text) (pod : Pod Q)
          → node ≢ active
          → lookup node (ready_agent_pods pods) ≡ some pod
          → Memᴰ (record { node = node; url = agent_http_url pod.pod_ip; token = token }) targets)
      → IsSorted before_target targets
      → Holds
          (λ d. IsOf pvc d × IsPlaced pods token d)
          (with_targets pvc active source ownership targets)
  unfolding with_targets IsPlaced IsOf
  with_targets-IsPlaced pods token pvc active source ownership [] s a e o = tt
  with_targets-IsPlaced pods token pvc active source ownership (t ∷ ts) s a e o =
      ((refl, refl, refl), ((source, s, refl), (λ q. cc), a, e, o))

  with_active_node-IsPlaced :
      (pods : List (Pod Q)) (token : Text) (pvc : Pvc) (active : Text) (ownership : OwnershipPolicy)
      → Holds
          (λ d. IsOf pvc d × IsPlaced pods token d)
          (with_active_node (ready_agent_pods pods) token pvc active ownership)
  unfolding with_active_node
  with_active_node-IsPlaced pods token pvc active ownership =
      let agents = ready_agent_pods pods in
      elim (Bool-cases (is_empty active)) [
        | inl e ↦ rw e tt
        | inr e ↦ rw e (elim (Option-cases (lookup active agents)) [
          | inl n ↦ rw n tt
          | inr (source, q) ↦ rw q (
              with_targets-IsPlaced pods token pvc active source ownership
                (sort before_target (targets_from agents active token))
                (All-lookup (Serves pods) active source agents (agents-Serve pods) q)
                (All-sort _ before_target _
                  (All-targets_from pods active token agents (agents-Serve pods)))
                (λ node pod n m.
                  Memᴰ-into_sort before_target _ _
                    (targets_from-every active token node pod agents n m))
                (sort-IsSorted before_target before_target-StrictWeakOrder _))
        ])
      ]

  module _ (storage_class token : Text) (pods : List (Pod Q)) where
    -- A desired replication of the claims.
    abbrev IsDesired : List Pvc → DesiredReplication → Type 0
    IsDesired claims d = IsFrom storage_class claims d × IsPlaced pods token d

    All-cons_option :
        (claims : List Pvc) (pvc : Pvc) (d : Option DesiredReplication)
        (rest : List DesiredReplication)
        → Memᴰ pvc claims
        → replication_enabled pvc storage_class ≡ true
        → is_empty pvc.volume_name ≡ false
        → Holds (λ d. IsOf pvc d × IsPlaced pods token d) d
        → All (IsDesired claims) rest
        → All (IsDesired claims) (cons_option d rest)
    unfolding cons_option IsFrom
    All-cons_option claims pvc none rest m e v p h = h
    All-cons_option claims pvc (some d) rest m e v p h = (((pvc, m, e, v, p.0), p.1), h)

    All-desired_of_claim :
        (claims : List Pvc) (pvc : Pvc) (own : Option (List (Pod Q)))
        (annotated : Option OwnershipPolicy) (rest : Option (List DesiredReplication))
        → Memᴰ pvc claims
        → replication_enabled pvc storage_class ≡ true
        → is_empty pvc.volume_name ≡ false
        → Holds (All (IsDesired claims)) rest
        → Holds
            (All (IsDesired claims))
            (desired_of_claim (ready_agent_pods pods) token pvc own annotated rest)
    unfolding desired_of_claim
    All-desired_of_claim claims pvc none annotated rest m e v h = tt
    All-desired_of_claim claims pvc (some own) none rest m e v h = tt
    All-desired_of_claim claims pvc (some own) (some annotated) none m e v h = tt
    All-desired_of_claim claims pvc (some own) (some annotated) (some rest) m e v h =
        All-cons_option claims pvc _ rest m e v (with_active_node-IsPlaced pods token pvc _ _) h

    All-desired_of_claims :
        (claims pvcs : List Pvc) (own : Pvc → Option (List (Pod Q)))
        → ((pvc : Pvc) → Memᴰ pvc pvcs → Memᴰ pvc claims)
        → Holds
            (All (IsDesired claims))
            (desired_of_claims storage_class token own (ready_agent_pods pods) pvcs)
    unfolding desired_of_claims
    All-desired_of_claims claims [] own f = tt
    All-desired_of_claims claims (pvc ∷ pvcs) own f =
        let rest = All-desired_of_claims claims pvcs own (λ p m. f p (Memᴰ.tail m)) in
        elim (Bool-cases (replication_enabled pvc storage_class)) [
          | inr e ↦ rw e rest
          | inl e ↦ elim (Bool-cases (is_empty pvc.volume_name)) [
            | inl v ↦ rw (e, v) rest
            | inr v ↦
                rw (e, v)
                  (All-desired_of_claim claims pvc (own pvc) _ _ (f pvc (Memᴰ.head refl)) e v rest)
          ]
        ]

before_replication-StrictWeakOrder : StrictWeakOrder before_replication
unfolding before_replication
before_replication-StrictWeakOrder = record {
  asymm = λ x y h.
      ground
        (arith, text_ltb_asymm x.claim_name y.claim_name, text_ltb_asymm x.namespace y.namespace);
  neg_trans = λ x y z h k. ground (
    arith,
    text_ltb_neg_trans x.claim_name y.claim_name z.claim_name,
    text_ltb_neg_trans x.namespace y.namespace z.namespace,
    text_ltb_connected x.namespace y.namespace,
    text_ltb_connected y.namespace z.namespace,
    text_ltb_irrefl x.namespace,
  );
}

-- Where the calls of the API server succeed, every desired replication is that of an enabled claim
-- with a volume; its source is a listed ready agent on its active node; it has targets, which are
-- listed ready agents on other nodes, have the given token, and are in the order of their nodes; every
-- other node with an agent is among them; and the replications are in the order of their names.
pub desired_replications_lem :
    {Q : Type 0} (storage_class token : Text) (listing : Listing Q) (claims : List Pvc)
    (pods : List (Pod Q)) (out : List DesiredReplication)
    → listing.claims ≡ some claims
    → listing.agent_pods ≡ some pods
    → desired_replications storage_class token listing ≡ some out
    → All (λ d. IsFrom storage_class claims d × IsPlaced pods token d) out
      × IsSorted before_replication out
unfolding desired_replications sorted_replications
desired_replications_lem storage_class token listing claims pods out c p h =
    let found = desired_of_claims storage_class token listing.pods (ready_agent_pods pods) claims in
    let all =
      All-desired_of_claims storage_class token pods claims claims listing.pods (λ p m. m) in
    elim (Option-cases found) [
      | inl n ↦ let h' = rw (c, p, n) at h in cc
      | inr (rs, q) ↦
          let h' = rw (c, p, q) at h in
          let a = rw q at all in
          let same : sort before_replication rs ≡ out = cc in
          rw (← same) (
            All-sort _ before_replication rs a,
            sort-IsSorted before_replication before_replication-StrictWeakOrder rs,
          )
    ]
