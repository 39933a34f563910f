-- ===== src/Controller/Promotion/Laws.antt =====
-- When a promotion is decided, and on which replica.
use mathlib.Core.List.{Memᴰ}
use simple_volume.Base.{
  ◌≡◌, refl, ◌≢◌, ◌≤◌, ◌↔◌, ◌⊎◌, inl, inr, true, List, [], ◌∷◌, none, some, arith, All,
  Option-cases, keep, sort, All-map,
}
use simple_volume.Base.Int.{pos, ◌≤ℤ◌}
use simple_volume.Base.Sorting.{
  StrictWeakOrder, IsSorted, sort-IsSorted, All-of_sort, Memᴰ-sort, Memᴰ-keep, All-of_keep,
  All-Memᴰ,
}
use simple_volume.Text.Order.{is_empty_iff}
use simple_volume.Time.{Time, sub_time}
use simple_volume.Controller.Promotion.{
  PromotionInput, ReplicaStatus, is_candidate, synced_after, sync_time, first_fresh,
  select_promotion_target,
}

-- A replica that may become active.
pub record Promotable (input : PromotionInput) (r : ReplicaStatus) (sync : Time) : Type 0 where
  pub named : r.node ≢ []
  pub other : r.node ≢ input.active_node
  pub healthy : r.healthy ≡ true
  pub synced : r.last_successful_sync ≡ some sync
  pub fresh :
      (input.promotion.max_staleness ≤ℤ pos 0)
      ⊎ (sub_time input.now sync ≤ℤ input.promotion.max_staleness)

-- The active node has been away for the grace period.
abbrev pub GraceElapsed : PromotionInput → Time → Type 0
GraceElapsed input since =
    (input.active_unavailable_since ≡ some since)
    × ((input.promotion.not_ready_grace_period ≤ℤ pos 0)
        ⊎ (input.promotion.not_ready_grace_period ≤ℤ sub_time input.now since))

candidate-Promotable :
    (input : PromotionInput) (r : ReplicaStatus)
    → is_candidate input r ≡ true
    → (sync : Time) × Promotable input r sync
unfolding is_candidate
candidate-Promotable input r h = elim (Option-cases r.last_successful_sync) [
  | inl e ↦ absurd (ground (arith, e))
  | inr (t, e) ↦ (t, ground (arith, is_empty_iff r.node))
]

Promotable-candidate :
    (input : PromotionInput) (r : ReplicaStatus) (sync : Time)
    → Promotable input r sync
    → is_candidate input r ≡ true
unfolding is_candidate
Promotable-candidate input r sync h = ground (arith, is_empty_iff r.node)

synced_after-StrictWeakOrder : StrictWeakOrder synced_after
unfolding synced_after
synced_after-StrictWeakOrder = record {
  asymm = λ x y h. ground arith;
  neg_trans = λ x y z h k. ground arith;
}

-- The replica is promotable, and no promotable one synced later.
pub record Best (input : PromotionInput) (r : ReplicaStatus) : Type 0 where
  pub listed : Memᴰ r input.replicas
  pub sync : Time
  pub promotable : Promotable input r sync
  pub latest : All (λ s. (t : Time) → Promotable input s t → t ≤ sync) input.replicas

first_fresh-Best :
    (input : PromotionInput) (s : List ReplicaStatus)
    → IsSorted synced_after s
    → ((r : ReplicaStatus) → Memᴰ r s → Memᴰ r input.replicas × (is_candidate input r ≡ true))
    → ((P : ReplicaStatus → Type 0)
        → All P s
        → All (λ r. is_candidate input r ≡ true → P r) input.replicas)
    → ((first_fresh s).1 ≡ none)
    → (r : ReplicaStatus) × Best input r × ((first_fresh s).0.target_node ≡ r.node)
unfolding first_fresh synced_after
first_fresh-Best input [] sorted found back h = cc
first_fresh-Best input (r ∷ s) sorted found back h =
    let (listed, candidate) = found r (Memᴰ.head refl) in
    let (sync, promotable) = candidate-Promotable input r candidate in
    let later =
      back (λ e. sync_time e ≤ sync_time r)
        (ground arith, All-map (λ e k. ground (arith, k)) s sorted.0) in
    (
      r,
      record {
        listed = listed;
        sync = sync;
        promotable = promotable;
        latest =
            All-map
              (λ e k t g.
                ground (arith, k (Promotable-candidate input e t g), g.synced, promotable.synced))
              input.replicas later;
      },
      refl,
    )

abbrev sorted_candidates : PromotionInput → List ReplicaStatus
sorted_candidates input = sort synced_after (keep (is_candidate input) input.replicas)

promotes-first_fresh :
    (input : PromotionInput)
    → (select_promotion_target input).0.promote ≡ true
    → (input.promotion.automatic ≡ true)
      × ((since : Time) × GraceElapsed input since)
      × (select_promotion_target input ≡ first_fresh (sorted_candidates input))
unfolding select_promotion_target
promotes-first_fresh input h = elim (Option-cases input.active_unavailable_since) [
  | inl e ↦ absurd (ground (arith, e))
  | inr (since, e) ↦ (ground (arith, e), (since, (e, ground (arith, e))), ground (arith, e))
]

All-promotable :
    (input : PromotionInput) (P : ReplicaStatus → Type 0)
    → All P (sorted_candidates input)
    → All (λ r. is_candidate input r ≡ true → P r) input.replicas
All-promotable input P h =
    All-of_keep (is_candidate input) P input.replicas (All-of_sort P synced_after _ h)

first_fresh_iff :
    (s : List ReplicaStatus) → ((first_fresh s).0.promote ≡ true) ↔ ((first_fresh s).1 ≡ none)
unfolding first_fresh
first_fresh_iff [] = (λ h. cc, λ h. cc)
first_fresh_iff (r ∷ s) = (λ _. refl, λ _. refl)

-- When a promotion is decided, automatic promotion is on, the grace period is over, and the target
-- is a listed replica that is promotable and than which no promotable one synced later.
pub select_promotion_target-Best :
    (input : PromotionInput)
    → (select_promotion_target input).0.promote ≡ true
    → (input.promotion.automatic ≡ true)
      × ((since : Time) × GraceElapsed input since)
      × ((r : ReplicaStatus) × Best input r
          × ((select_promotion_target input).0.target_node ≡ r.node))
select_promotion_target-Best input h =
    let (automatic, elapsed, e) = promotes-first_fresh input h in
    let found =
      first_fresh-Best input (sorted_candidates input)
        (sort-IsSorted synced_after synced_after-StrictWeakOrder _)
        (λ r m. Memᴰ-keep (is_candidate input) r input.replicas (Memᴰ-sort synced_after r _ m))
        (All-promotable input) ((first_fresh_iff (sorted_candidates input)).0 (rw e at h)) in
    (automatic, elapsed, (found.0, found.1, rw e (found.2)))

none_promotes :
    (input : PromotionInput) (s : List ReplicaStatus)
    → ((P : ReplicaStatus → Type 0)
        → All P s
        → All (λ r. is_candidate input r ≡ true → P r) input.replicas)
    → (r : ReplicaStatus) → Memᴰ r input.replicas
    → is_candidate input r ≡ true
    → ((first_fresh s).0.promote ≡ true) × ((first_fresh s).1 ≡ none)
unfolding first_fresh
none_promotes input [] back r m h =
    absurd (All-Memᴰ (λ e. is_candidate input e ≡ true → ⊥) r input.replicas (back (λ _. ⊥) tt) m h)
none_promotes input (s ∷ ss) back r m h = (refl, refl)

-- Where automatic promotion is on and the grace period is over, a promotable replica is enough for a
-- promotion without an error.
pub select_promotion_target_promotes :
    (input : PromotionInput) (since sync : Time) (r : ReplicaStatus)
    → input.promotion.automatic ≡ true
    → GraceElapsed input since
    → Memᴰ r input.replicas
    → Promotable input r sync
    → ((select_promotion_target input).0.promote ≡ true)
      × ((select_promotion_target input).1 ≡ none)
unfolding select_promotion_target
select_promotion_target_promotes input since sync r automatic elapsed listed promotable = ground (
  arith,
  elapsed.0,
  none_promotes input (sorted_candidates input) (All-promotable input) r listed
      (Promotable-candidate input r sync promotable),
)
