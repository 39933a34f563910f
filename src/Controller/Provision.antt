-- ===== src/Controller/Provision.antt =====
-- internal/controller/provision.go, and internal/csi/controller.go, which calls it.
pub mod Laws
use simple_volume.Base.{
  ℕ, Bool, true, false, not, ◌&&◌, ◌||◌, List, [], ◌∷◌, ◌++◌, map, ◌==◌, if◌then◌else◌, keep, sort,
  take, length,
}
use simple_volume.Base.Int.{ℤ, pos, negsuc, ltb_ℤ, eqb_ℤ}
use simple_volume.Text.{Text, text_eq, text_ltb, is_empty, codes}

pub record AgentStatus : Type 0 where
  pub node : Text
  pub pool : Text
  pub healthy : Bool
  pub free_bytes : ℤ

pub record ProvisionRequest : Type 0 where
  pub namespace : Text
  pub name : Text
  pub storage_pool : Text
  pub size_bytes : ℤ
  pub replica_count : ℤ

pub record ProvisionDecision : Type 0 where
  pub volume_handle : Text
  pub active_node : Text
  pub replica_nodes : List Text

pub data Placement {ℓ} (A : Type ℓ) : Type ℓ where
  placed : A → Placement A
  err_no_eligible_agents : Placement A
  err_name_required : Placement A

-- Whether the loop keeps the agent.
unfoldable pub is_suitable : ProvisionRequest → AgentStatus → Bool
is_suitable req agent =
    if not agent.healthy || is_empty agent.node
    then false
    else if not (is_empty req.storage_pool) && not (agent.pool == req.storage_pool)
    then false
    else not (
        ltb_ℤ (pos 0) req.size_bytes
        && ltb_ℤ (pos 0) agent.free_bytes
        && ltb_ℤ agent.free_bytes req.size_bytes)

-- The `less` of the sort: more free bytes first, then by name.
unfoldable pub roomier : AgentStatus → AgentStatus → Bool
roomier a b =
    if eqb_ℤ a.free_bytes b.free_bytes
    then text_ltb a.node b.node
    else ltb_ℤ b.free_bytes a.free_bytes

-- `replicaCount` after the adjustment.
unfoldable pub replica_total : ℤ → ℕ → ℕ
replica_total (pos n) eligible =
    if ltb_ℤ (pos 0) (pos n) && not (ltb_ℤ (pos eligible) (pos n)) then n else eligible
replica_total (negsuc n) eligible = eligible

-- `eligible[:replicaCount]`, never empty where `eligible` is not: the first one is `replicas[0]`.
unfoldable pub place : ProvisionRequest → List AgentStatus → Placement ProvisionDecision
unfolding replica_total
place req [] = err_no_eligible_agents
place req (a ∷ agents) = placed (record {
  volume_handle = req.namespace ++ codes "/" ++ req.name;
  active_node = a.node;
  replica_nodes =
      map AgentStatus.node
        (take (replica_total req.replica_count (length (a ∷ agents))) (a ∷ agents));
})

unfoldable pub select_initial_placement :
    ProvisionRequest → List AgentStatus → Placement ProvisionDecision
unfolding place is_suitable roomier
select_initial_placement req agents = place req (sort roomier (keep (is_suitable req) agents))

pub record CreateVolumeRequest : Type 0 where
  pub name : Text
  pub namespace : Text
  pub storage_pool : Text
  pub capacity_bytes : ℤ
  pub replica_count : ℤ

pub record CreateVolumeResponse : Type 0 where
  pub volume_handle : Text
  pub capacity_bytes : ℤ
  pub active_node : Text
  pub replica_nodes : List Text

abbrev pub provision_request : CreateVolumeRequest → ProvisionRequest
provision_request req = record {
  namespace = req.namespace;
  name = req.name;
  storage_pool = req.storage_pool;
  size_bytes = req.capacity_bytes;
  replica_count = req.replica_count;
}

unfoldable pub create_volume :
    CreateVolumeRequest → List AgentStatus → Placement CreateVolumeResponse
create_volume req agents =
    if is_empty req.name || is_empty req.namespace
    then err_name_required
    else elim (select_initial_placement (provision_request req) agents) [
      | err_name_required ↦ err_name_required
      | err_no_eligible_agents ↦ err_no_eligible_agents
      | placed decision ↦ placed (record {
        volume_handle = decision.volume_handle;
        capacity_bytes = req.capacity_bytes;
        active_node = decision.active_node;
        replica_nodes = decision.replica_nodes;
      })
    ]
