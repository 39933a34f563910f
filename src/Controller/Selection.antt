-- ===== src/Controller/Selection.antt =====
-- internal/controller/failover_controller.go: which node a failover promotes.
pub mod Order
pub mod Choice
pub mod Eligible
use simple_volume.Base.{
  Bool, true, false, not, ◌&&◌, ◌||◌, List, [], ◌∷◌, Option, none, some, ◌==◌, if◌then◌else◌, eqb,
  any, keep, sort, contains,
}
use simple_volume.Base.Dict.{Dict, lookup, get_or}
use simple_volume.Base.Int.{ℤ, pos, ltb_ℤ}
use simple_volume.Text.{Text, text_eq, text_ltb, is_empty}
use simple_volume.Time.{Time, is_zero_time, after, sub_time}
use simple_volume.Controller.Kube.{Quantities, ResourceList, Pod}
use simple_volume.Controller.Resources.{node_fits_requests}

pub record ReplicaFreshness : Type 0 where
  pub last_successful_sync : Time
  pub healthy : Bool

-- The zero value, which a lookup of a missing node gives.
abbrev pub no_freshness : ReplicaFreshness
no_freshness = record { last_successful_sync = 0; healthy = false }

pub record FailoverCandidate : Type 0 where
  pub node : Text
  pub freshness : ReplicaFreshness

pub data Reason : Type 0 where
  preferred_fresh_replica_node fresh_replica_node no_ready_replica_node : Reason

pub record FailoverDecision : Type 0 where
  pub promote : Bool
  pub target_node : Text
  pub reason : Reason

-- The `less` of the sort: fresher first, and by name where equally fresh.
unfoldable pub fresher : FailoverCandidate → FailoverCandidate → Bool
fresher c d =
    if eqb c.freshness.last_successful_sync d.freshness.last_successful_sync
    then text_ltb c.node d.node
    else after c.freshness.last_successful_sync d.freshness.last_successful_sync

-- Whether `byNode` has the node.
unfoldable pub has_candidate : Text → List FailoverCandidate → Bool
has_candidate node [] = false
has_candidate node (c ∷ cs) = node == c.node || has_candidate node cs

-- The loop over the priority list.
unfoldable pub first_preferred : List FailoverCandidate → List Text → Option Text
unfolding has_candidate
first_preferred cs [] = none
first_preferred cs (node ∷ nodes) =
    let rest = first_preferred cs nodes in if has_candidate node cs then some node else rest

unfoldable pub freshest : List FailoverCandidate → FailoverDecision
freshest [] = record { promote = false; target_node = []; reason = no_ready_replica_node }
freshest (c ∷ cs) = record { promote = true; target_node = c.node; reason = fresh_replica_node }

unfoldable pub select_failover_target_from_candidates :
    List FailoverCandidate → List Text → FailoverDecision
unfolding first_preferred fresher freshest
select_failover_target_from_candidates candidates priority =
    elim (first_preferred candidates priority) [
      | some node ↦ record {
        promote = true;
        target_node = node;
        reason = preferred_fresh_replica_node;
      }
      | none ↦ freshest (sort fresher candidates)
    ]

-- `blocked`: the nodes that the given pods are bound to.
unfoldable pub blocked_nodes : {Q : Type 0} → List (Pod Q) → List Text
blocked_nodes [] = []
blocked_nodes (pod ∷ pods) =
    let rest = blocked_nodes pods in if is_empty pod.node_name then rest else pod.node_name ∷ rest

module _ (q : Quantities) where
  open q use {Quantity}

  -- What the loop over the agents takes from outside.
  pub record Circumstances : Type 0 where
    pub pods : List (Pod Quantity)
    pub ready_nodes : List Text
    pub freshness : Dict Text ReplicaFreshness
    pub demoted : List Text
    pub max_staleness : ℤ
    pub now : Time
    pub requests : ResourceList Quantity
    pub available : Dict Text (ResourceList Quantity)

  -- The tests of one round of the loop, in their order; `false` is a `continue`.
  unfoldable pub is_eligible : Circumstances → Text → Bool
  unfolding blocked_nodes
  is_eligible c node =
      let replica = get_or no_freshness node c.freshness in
      if not (contains c.ready_nodes node)
        || contains (blocked_nodes c.pods) node
        || contains c.demoted node
      then false
      else if not replica.healthy || is_zero_time replica.last_successful_sync
      then false
      else if ltb_ℤ (pos 0) c.max_staleness
          && ltb_ℤ c.max_staleness (sub_time c.now replica.last_successful_sync)
      then false
      else node_fits_requests q node c.requests c.available

  unfoldable pub failover_candidates :
      Circumstances → Dict Text (Pod Quantity) → List FailoverCandidate
  unfolding is_eligible
  failover_candidates c [] = []
  failover_candidates c ((node, _) ∷ agents) =
      let rest = failover_candidates c agents in
      if is_eligible c node
      then record { node = node; freshness = get_or no_freshness node c.freshness } ∷ rest
      else rest

  -- `SelectFailoverTarget`: no demoted nodes, no priority and no resource check.
  unfoldable pub select_failover_target :
      List (Pod Quantity)
      → Dict Text (Pod Quantity)
      → List Text
      → Dict Text ReplicaFreshness
      → ℤ
      → Time
      → FailoverDecision
  unfolding failover_candidates select_failover_target_from_candidates
  select_failover_target pods agents ready_nodes freshness max_staleness now =
      let c : Circumstances = record {
        pods = pods;
        ready_nodes = ready_nodes;
        freshness = freshness;
        demoted = [];
        max_staleness = max_staleness;
        now = now;
        requests = [];
        available = [];
      } in
      select_failover_target_from_candidates (failover_candidates c agents) []
