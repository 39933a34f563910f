-- ===== src/Tests/Choice.antt =====
-- The choices of a target, of a promotion and of a first placement.
use mathlib.Core.List.{Perm, Permᴰ, Memᴰ}
use simple_volume.Base.{
  ℕ, arith, inr, ◌≡◌, refl, ◌↔◌, ◌≢◌, true, false, List, [], ◌∷◌, none, some, All, length, keep,
  sort, ap,
}
use simple_volume.Base.Int.{pos, ◌≤ℤ◌}
use simple_volume.Base.Dict.{has_key, lookup, get_or}
use simple_volume.Text.{Text, codes, text_eq, text_ltb, is_empty, trim, replace_char, to_lower}
use simple_volume.Controller.Selection.{
  is_eligible, FailoverDecision, failover_candidates, select_failover_target_from_candidates,
  preferred_fresh_replica_node, has_candidate,
}
use simple_volume.Controller.Selection.Choice.{Chooses, select-Chooses}
use simple_volume.Controller.Selection.Eligible.{
  Eligible, has_candidate-failover_candidates, select-Eligible,
}
use simple_volume.Controller.Selection.Order.{select-candidates_perm}
use simple_volume.Controller.Promotion.{PromotionInput, ReplicaStatus, select_promotion_target}
use simple_volume.Controller.Promotion.Laws.{
  GraceElapsed, Best, select_promotion_target-Best, select_promotion_target_promotes,
}
use simple_volume.Controller.Provision.{
  AgentStatus, ProvisionRequest, ProvisionDecision, placed, err_no_eligible_agents, is_suitable,
  select_initial_placement,
}
use simple_volume.Controller.Provision.Laws.{
  Suitable, Placed, AsMany, select_initial_placement-Placed, select_initial_placement_error,
}
use simple_volume.Time.{Time, sub_time}
use simple_volume.Controller.Resources.{node_fits_requests}
use simple_volume.Controller.Kube.{resource_eq}
use simple_volume.Controller.Labels.{volume_label_id, clean_label_id}
use simple_volume.Controller.Labels.Laws.{LabelId, volume_label_id-LabelId}
use simple_volume.Tests.Data.{ints, agents, swapped_agents, candidates, circumstances_now}

abbrev priority : List Text
priority = codes "x" ∷ codes "b" ∷ []

select-Chooses_example :
    Chooses candidates priority (select_failover_target_from_candidates candidates priority)
select-Chooses_example = select-Chooses candidates priority

-- The replica `c` is fresher, but `b` has priority.
abbrev prefer_b : FailoverDecision
prefer_b = record { promote = true; target_node = codes "b"; reason = preferred_fresh_replica_node }

prefers_b : select_failover_target_from_candidates candidates priority ≡ prefer_b
unfolding select_failover_target_from_candidates text_eq
prefers_b = refl

swapped : Perm agents swapped_agents
swapped = ∣ Permᴰ.swap refl refl ∣₁

select-candidates_perm_example :
    select_failover_target_from_candidates
      (failover_candidates ints circumstances_now agents)
      priority
    ≡ select_failover_target_from_candidates
        (failover_candidates ints circumstances_now swapped_agents)
        priority
select-candidates_perm_example = select-candidates_perm ints circumstances_now priority swapped

-- Both nodes with an agent are eligible.
two_candidates : failover_candidates ints circumstances_now agents ≡ candidates
unfolding failover_candidates text_eq has_key is_eligible node_fits_requests resource_eq is_empty
    get_or sub_time
two_candidates = refl

has_candidate-failover_candidates_example :
    (has_candidate (codes "b") (failover_candidates ints circumstances_now agents) ≡ true)
    ↔ ((has_key (codes "b") agents ≡ true) × Eligible ints circumstances_now (codes "b"))
has_candidate-failover_candidates_example =
    has_candidate-failover_candidates ints circumstances_now (codes "b") agents (λ e. cc)

promotes_b :
    (select_failover_target_from_candidates
      (failover_candidates ints circumstances_now agents)
      priority).promote
    ≡ true
promotes_b = rw (two_candidates, prefers_b) refl

no_unnamed_agent : lookup [] agents ≡ none
unfolding lookup text_eq
no_unnamed_agent = refl

select-Eligible_example :
    (has_key
        (select_failover_target_from_candidates
          (failover_candidates ints circumstances_now agents)
          priority).target_node
        agents
      ≡ true)
    × Eligible ints circumstances_now
        (select_failover_target_from_candidates
          (failover_candidates ints circumstances_now agents)
          priority).target_node
select-Eligible_example =
    select-Eligible ints circumstances_now agents priority no_unnamed_agent promotes_b

volume_label_id-LabelId_example : LabelId (volume_label_id (codes "db") (codes "Data/_Vol"))
volume_label_id-LabelId_example = volume_label_id-LabelId (codes "db") (codes "Data/_Vol")

-- Underscores stay at the ends of an id.
underscores :
    (volume_label_id [] (codes "_x") ≡ codes "_x")
    × (volume_label_id [] (codes "fast_") ≡ codes "fast_")
unfolding volume_label_id is_empty clean_label_id trim replace_char to_lower
underscores = (refl, refl)

-- The active node `a` has been away for ten nanoseconds, five more than the grace period.
abbrev replica_b : ReplicaStatus
replica_b = record { node = codes "b"; healthy = true; last_successful_sync = some 7 }

abbrev input : PromotionInput
input = record {
  promotion = record { automatic = true; max_staleness = pos 20; not_ready_grace_period = pos 5 };
  active_node = codes "a";
  replicas =
      replica_b ∷ record { node = codes "c"; healthy = true; last_successful_sync = some 6 } ∷ [];
  now = 20;
  active_unavailable_since = some 10;
}

promotes : (select_promotion_target input).0.promote ≡ true
unfolding select_promotion_target text_eq sub_time sort keep is_empty
promotes = refl

select_promotion_target-Best_example :
    (input.promotion.automatic ≡ true)
    × ((since : Time) × GraceElapsed input since)
    × ((r : ReplicaStatus) × Best input r
        × ((select_promotion_target input).0.target_node ≡ r.node))
select_promotion_target-Best_example = select_promotion_target-Best input promotes

b_is_not_a : codes "b" ≢ codes "a"
unfolding text_ltb
b_is_not_a e = let f : true ≡ false = ap (text_ltb (codes "a")) e in cc f

elapsed : input.promotion.not_ready_grace_period ≤ℤ sub_time 20 10
unfolding sub_time
elapsed = omega arith

fresh : sub_time 20 7 ≤ℤ pos 20
unfolding sub_time
fresh = omega arith

select_promotion_target_promotes_example :
    ((select_promotion_target input).0.promote ≡ true) × ((select_promotion_target input).1 ≡ none)
select_promotion_target_promotes_example =
    select_promotion_target_promotes input 10 7 replica_b refl (refl, inr elapsed) (Memᴰ.head refl)
      (record {
        named = λ e. cc;
        other = b_is_not_a;
        healthy = refl;
        synced = refl;
        fresh = inr fresh;
      })

abbrev agent : Text → ℕ → AgentStatus
agent node free = record { node = node; pool = codes "ssd"; healthy = true; free_bytes = pos free }

abbrev request : ProvisionRequest
request = record {
  namespace = codes "db";
  name = codes "data";
  storage_pool = codes "ssd";
  size_bytes = pos 50;
  replica_count = pos 2;
}

abbrev pool_agents : List AgentStatus
pool_agents =
    agent (codes "a") 40 ∷ agent (codes "b") 60 ∷ agent (codes "c") 90 ∷ agent (codes "d") 70 ∷ []

abbrev on_c_and_d : ProvisionDecision
on_c_and_d = record {
  volume_handle = codes "db/data";
  active_node = codes "c";
  replica_nodes = codes "c" ∷ codes "d" ∷ [];
}

places : select_initial_placement request pool_agents ≡ placed on_c_and_d
unfolding select_initial_placement text_eq sort keep is_empty
places = refl

select_initial_placement-Placed_example :
    Placed request pool_agents on_c_and_d
    × AsMany
        (pos 2)
        (length (keep (is_suitable request) pool_agents))
        (length on_c_and_d.replica_nodes)
select_initial_placement-Placed_example =
    select_initial_placement-Placed request pool_agents on_c_and_d places

select_initial_placement_error_example :
    (select_initial_placement request pool_agents ≡ err_no_eligible_agents)
    ↔ All (λ a. ¬ Suitable request a) pool_agents
select_initial_placement_error_example = select_initial_placement_error request pool_agents
