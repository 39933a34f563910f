-- ===== src/Controller/Selection/Choice.antt =====
-- What the choice among the candidates is, stated without sorting.
use mathlib.Core.List.{Memᴰ}
use mathlib.Core.Option.{some-injective}
use simple_volume.Base.{
  ◌≡◌, refl, subst, ◌<◌, ◌⊎◌, true, false, List, [], ◌∷◌, none, some, arith, All, sort, inl, inr,
  Bool-cases, Option-cases, All-map,
}
use simple_volume.Base.Sorting.{IsSorted, sort-IsSorted, All-of_sort, Memᴰ-sort}
use simple_volume.Text.{Text, text_ltb}
use simple_volume.Text.Order.{text_ltb_irrefl}
use simple_volume.Controller.Selection.Order.{fresher-StrictWeakOrder}
use simple_volume.Controller.Selection.{
  FailoverCandidate, FailoverDecision, fresher, has_candidate, first_preferred, freshest,
  select_failover_target_from_candidates, preferred_fresh_replica_node, fresh_replica_node,
  no_ready_replica_node,
}

-- The node is the first of the list that is a candidate.
pub data FirstEligible (cs : List FailoverCandidate) : List Text → Text → Type 0 where
  here :
      {node : Text} {nodes : List Text}
      → has_candidate node cs ≡ true
      → FirstEligible cs (node ∷ nodes) node
  skip :
      {node m : Text} {nodes : List Text}
      → has_candidate node cs ≡ false
      → FirstEligible cs nodes m
      → FirstEligible cs (node ∷ nodes) m

-- `d` synced earlier than `c`, or at the same time and its name is not smaller.
abbrev pub NotFresher : FailoverCandidate → FailoverCandidate → Type 0
NotFresher d c =
    (d.freshness.last_successful_sync < c.freshness.last_successful_sync)
    ⊎ ((d.freshness.last_successful_sync ≡ c.freshness.last_successful_sync)
        × (text_ltb d.node c.node ≡ false))

abbrev pub NonePreferred : List FailoverCandidate → List Text → Type 0
NonePreferred cs = All (λ node. has_candidate node cs ≡ false)

-- The decisions that the documents allow.
pub data Chooses (cs : List FailoverCandidate) (priority : List Text) (d : FailoverDecision)
    : Type 0 where
  preferred :
      (node : Text)
      → FirstEligible cs priority node
      → d ≡ record { promote = true; target_node = node; reason = preferred_fresh_replica_node }
      → Chooses cs priority d
  by_freshness :
      (c : FailoverCandidate)
      → NonePreferred cs priority
      → Memᴰ c cs
      → All (λ e. NotFresher e c) cs
      → d ≡ record { promote = true; target_node = c.node; reason = fresh_replica_node }
      → Chooses cs priority d
  blocked :
      cs ≡ []
      → d ≡ record { promote = false; target_node = []; reason = no_ready_replica_node }
      → Chooses cs priority d

not_fresher : (d c : FailoverCandidate) → fresher d c ≡ false → NotFresher d c
unfolding fresher
not_fresher d c h = ground arith

fresher_refl : (c : FailoverCandidate) → fresher c c ≡ false
unfolding fresher
fresher_refl c = ground (arith, text_ltb_irrefl c.node)

first_preferred-some :
    (cs : List FailoverCandidate) (priority : List Text) {node : Text}
    → first_preferred cs priority ≡ some node
    → FirstEligible cs priority node
unfolding first_preferred
first_preferred-some cs [] h = cc
first_preferred-some cs (p ∷ ps) h = elim (Bool-cases (has_candidate p cs)) [
  | inl e ↦
      let found = rw e at h in subst (FirstEligible cs (p ∷ ps)) (some-injective _ _ found) (here e)
  | inr e ↦ skip e (first_preferred-some cs ps (rw e at h))
]

first_preferred-none :
    (cs : List FailoverCandidate) (priority : List Text)
    → first_preferred cs priority ≡ none
    → NonePreferred cs priority
unfolding first_preferred
first_preferred-none cs [] h = tt
first_preferred-none cs (p ∷ ps) h = ground (arith, first_preferred-none cs ps)

freshest-Chooses :
    (cs s : List FailoverCandidate) (priority : List Text)
    → NonePreferred cs priority
    → IsSorted fresher s
    → ((c : FailoverCandidate) → Memᴰ c s → Memᴰ c cs)
    → ((P : FailoverCandidate → Type 0) → All P s → All P cs)
    → Chooses cs priority (freshest s)
unfolding freshest
freshest-Chooses [] [] priority none_preferred sorted found back = blocked refl refl
freshest-Chooses (c ∷ cs) [] priority none_preferred sorted found back = absurd (back (λ _. ⊥) tt).0
freshest-Chooses cs (c ∷ s) priority none_preferred sorted found back =
    by_freshness c none_preferred (found c (Memᴰ.head refl))
      (back (λ e. NotFresher e c)
        (not_fresher c c (fresher_refl c), All-map (λ d. not_fresher d c) s sorted.0))
      refl

-- The decision is one that the documents allow: the first preferred candidate; with none of them,
-- the freshest candidate, by name among equally fresh ones; with no candidate, none.
pub select-Chooses :
    (cs : List FailoverCandidate) (priority : List Text)
    → Chooses cs priority (select_failover_target_from_candidates cs priority)
unfolding select_failover_target_from_candidates
select-Chooses cs priority = elim (Option-cases (first_preferred cs priority)) [
  | inl e ↦
      rw (e, select_failover_target_from_candidates)
        (freshest-Chooses cs (sort fresher cs) priority (first_preferred-none cs priority e)
          (sort-IsSorted fresher fresher-StrictWeakOrder cs) (λ c m. Memᴰ-sort fresher c cs m)
          (λ P h. All-of_sort P fresher cs h))
  | inr (node, e) ↦
      rw (e, select_failover_target_from_candidates)
        (preferred node (first_preferred-some cs priority e) refl)
]
