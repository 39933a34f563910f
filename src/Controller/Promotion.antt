-- ===== src/Controller/Promotion.antt =====
-- internal/controller/promotion.go, with the types of internal/api/v1alpha1/types.go that it reads.
pub mod Laws
use simple_volume.Base.{
  ℕ, Bool, true, false, not, ◌&&◌, ◌||◌, List, [], ◌∷◌, Option, none, some, ◌==◌, if◌then◌else◌,
  keep, sort,
}
use simple_volume.Base.Int.{ℤ, pos, ltb_ℤ}
use simple_volume.Text.{Text, text_eq, is_empty}
use simple_volume.Time.{Time, after, sub_time}

pub record PromotionSpec : Type 0 where
  pub automatic : Bool
  pub max_staleness : ℤ
  pub not_ready_grace_period : ℤ

pub record ReplicaStatus : Type 0 where
  pub node : Text
  pub healthy : Bool
  pub last_successful_sync : Option Time

pub record PromotionInput : Type 0 where
  pub promotion : PromotionSpec
  pub active_node : Text
  pub replicas : List ReplicaStatus
  pub now : Time
  pub active_unavailable_since : Option Time

pub data PromotionReason : Type 0 where
  automatic_disabled active_still_available grace_period_active : PromotionReason
  no_fresh_replica fresh_replica_available : PromotionReason

pub data PromotionError : Type 0 where
  err_auto_promotion_disabled err_grace_period_active err_no_fresh_replica : PromotionError

pub record PromotionDecision : Type 0 where
  pub promote : Bool
  pub target_node : Text
  pub reason : PromotionReason

-- Whether the loop keeps the replica.
unfoldable pub is_candidate : PromotionInput → ReplicaStatus → Bool
is_candidate input replica =
    if is_empty replica.node || replica.node == input.active_node || not replica.healthy
    then false
    else elim replica.last_successful_sync [
      | none ↦ false
      | some sync ↦ not (
          ltb_ℤ (pos 0) input.promotion.max_staleness
          && ltb_ℤ input.promotion.max_staleness (sub_time input.now sync))
    ]

-- The pointer that the `less` of the sort follows: a candidate has a time, so the case without one
-- does not arise.
abbrev pub sync_time : ReplicaStatus → Time
sync_time r = elim r.last_successful_sync [ none ↦ 0 | some t ↦ t ]

unfoldable pub synced_after : ReplicaStatus → ReplicaStatus → Bool
synced_after r s = after (sync_time r) (sync_time s)

abbrev refuse : PromotionReason → PromotionError → PromotionDecision × Option PromotionError
refuse reason error = (record { promote = false; target_node = []; reason = reason }, some error)

unfoldable pub first_fresh : List ReplicaStatus → PromotionDecision × Option PromotionError
first_fresh [] = refuse no_fresh_replica err_no_fresh_replica
first_fresh (r ∷ rs) =
    (record { promote = true; target_node = r.node; reason = fresh_replica_available }, none)

unfoldable pub select_promotion_target : PromotionInput → PromotionDecision × Option PromotionError
unfolding is_candidate synced_after first_fresh
select_promotion_target input =
    if not input.promotion.automatic
    then refuse automatic_disabled err_auto_promotion_disabled
    else elim input.active_unavailable_since [
      | none ↦ refuse active_still_available err_grace_period_active
      | some since ↦
          if ltb_ℤ (pos 0) input.promotion.not_ready_grace_period
            && ltb_ℤ (sub_time input.now since) input.promotion.not_ready_grace_period
          then refuse grace_period_active err_grace_period_active
          else first_fresh (sort synced_after (keep (is_candidate input) input.replicas))
    ]
