-- ===== src/Controller/Provision/Laws.antt =====
-- Where a new volume is placed.
use mathlib.Core.List.{Memᴰ}
use simple_volume.Base.{
  ℕ, zero, suc, ◌≤◌, ◌<◌, ◌≡◌, refl, sym, subst, ap, ◌∙◌, ◌-◌, ◌≢◌, ◌↔◌, ◌⊎◌, inl, inr, Bool, true,
  false, List, [], ◌∷◌, map, arith, All, keep, sort, insert_sorted, take, length, All-map,
}
use simple_volume.Base.Int.{ℤ, pos, negsuc, ◌≤ℤ◌}
use simple_volume.Base.Sorting.{
  StrictWeakOrder, sort-IsSorted, All-of_sort, All-sort, All-keep, Memᴰ-sort, Memᴰ-keep,
  All-of_keep, All-Memᴰ, take_of_sorted, All-take,
}
use simple_volume.Text.Order.{is_empty_iff, text_ltb_asymm, text_ltb_neg_trans}
use simple_volume.Controller.Provision.{
  AgentStatus, ProvisionRequest, ProvisionDecision, placed, err_no_eligible_agents, is_suitable,
  roomier, replica_total, place, select_initial_placement,
}

-- An agent on which the volume may be placed.
pub record Suitable (req : ProvisionRequest) (a : AgentStatus) : Type 0 where
  pub healthy : a.healthy ≡ true
  pub named : a.node ≢ []
  pub in_pool : (req.storage_pool ≡ []) ⊎ (a.pool ≡ req.storage_pool)
  pub has_room :
      (req.size_bytes ≤ℤ pos 0) ⊎ (a.free_bytes ≤ℤ pos 0) ⊎ (req.size_bytes ≤ℤ a.free_bytes)

is_suitable_iff :
    (req : ProvisionRequest) (a : AgentStatus) → (is_suitable req a ≡ true) ↔ Suitable req a
unfolding is_suitable
is_suitable_iff req a = ground (arith, is_empty_iff a.node, is_empty_iff req.storage_pool)

roomier-StrictWeakOrder : StrictWeakOrder roomier
unfolding roomier
roomier-StrictWeakOrder = record {
  asymm = λ x y h. ground (arith, text_ltb_asymm x.node y.node);
  neg_trans = λ x y z h k. ground (arith, text_ltb_neg_trans x.node y.node z.node);
}

-- Of `n` suitable agents, as many as asked for are named, or all of them where none or too many are
-- asked for.
pub AsMany : ℤ → ℕ → ℕ → Type 0
AsMany count n named =
    ((pos named ≡ count) × (named ≤ n))
    ⊎ ((named ≡ n) × ((count ≤ℤ pos 0) ⊎ (pos (suc n) ≤ℤ count)))

replica_total-AsMany : (count : ℤ) (n : ℕ) → AsMany count n (replica_total count n)
unfolding replica_total AsMany
replica_total-AsMany (pos c) n = ground arith
replica_total-AsMany (negsuc c) n = ground arith

replica_total_bounds :
    (count : ℤ) (n : ℕ) → 0 < n → (0 < replica_total count n) × (replica_total count n ≤ n)
unfolding replica_total
replica_total_bounds (pos c) n h = ground arith
replica_total_bounds (negsuc c) n h = ground arith

length-take_le {ℓ} : {A : Type ℓ} (n : ℕ) (xs : List A) → n ≤ length xs → length (take n xs) ≡ n
length-take_le zero xs h = refl
length-take_le (suc n) [] h = absurd (omega arith)
length-take_le (suc n) (x ∷ xs) h = ap suc (length-take_le n xs (omega arith))

roomier_false : (a c : AgentStatus) → roomier a c ≡ false → a.free_bytes ≤ℤ c.free_bytes
unfolding roomier
roomier_false a c h = ground arith

-- What a placement promises.
pub record Placed (req : ProvisionRequest) (agents : List AgentStatus) (d : ProvisionDecision)
    : Type 0 where
  pub active : AgentStatus
  pub others : List AgentStatus
  pub nodes : d.replica_nodes ≡ map AgentStatus.node (active ∷ others)
  pub active_node : d.active_node ≡ active.node
  pub suitable : All (Suitable req) (active ∷ others)
  pub listed : All (λ a. Memᴰ a agents) (active ∷ others)
  pub roomiest :
      All
        (λ a.
          Suitable req a
          → Memᴰ a (active ∷ others) ⊎ All (λ c. a.free_bytes ≤ℤ c.free_bytes) (active ∷ others))
        agents

abbrev ranked : ProvisionRequest → List AgentStatus → List AgentStatus
ranked req agents = sort roomier (keep (is_suitable req) agents)

ranked-Suitable :
    (req : ProvisionRequest) (agents : List AgentStatus) → All (Suitable req) (ranked req agents)
ranked-Suitable req agents =
    All-sort (Suitable req) roomier _
      (All-map (λ a. (is_suitable_iff req a).0) _ (All-keep (is_suitable req) agents))

All-self {ℓ} :
    {A : Type ℓ} (xs ys : List A) → ((a : A) → Memᴰ a xs → Memᴰ a ys) → All (λ a. Memᴰ a ys) xs
All-self [] ys f = tt
All-self (x ∷ xs) ys f = (f x (Memᴰ.head refl), All-self xs ys (λ a m. f a (Memᴰ.tail m)))

ranked_listed :
    (req : ProvisionRequest) (agents : List AgentStatus)
    → All (λ a. Memᴰ a agents) (ranked req agents)
ranked_listed req agents =
    All-self (ranked req agents) agents
      (λ a m. (Memᴰ-keep (is_suitable req) a agents (Memᴰ-sort roomier a _ m)).0)

ranked_first :
    (n : ℕ) (req : ProvisionRequest) (agents : List AgentStatus)
    → All
        (λ a.
          Suitable req a
          → Memᴰ a (take n (ranked req agents))
            ⊎ All (λ c. a.free_bytes ≤ℤ c.free_bytes) (take n (ranked req agents)))
        agents
ranked_first n req agents =
    let first = take n (ranked req agents) in
    let chosen =
      take_of_sorted roomier n (ranked req agents)
        (sort-IsSorted roomier roomier-StrictWeakOrder _) in
    All-map
      (λ a h s. elim (h ((is_suitable_iff req a).1 s)) [
        | inl m ↦ inl m
        | inr r ↦ inr (All-map (λ c. roomier_false a c) first r)
      ])
      agents (All-of_keep (is_suitable req) _ agents (All-of_sort _ roomier _ chosen))

take_pos {ℓ} :
    {A : Type ℓ} (k : ℕ) (a : A) (s : List A) → 0 < k → take k (a ∷ s) ≡ a ∷ take (k - 1) s
take_pos zero a s h = absurd (omega arith)
take_pos (suc k) a s h = rw (let e : suc k - 1 ≡ k = omega arith in e)

length-map {ℓ κ} :
    {A : Type ℓ} {B : Type κ} (f : A → B) (xs : List A) → length (map f xs) ≡ length xs
length-map f [] = refl
length-map f (x ∷ xs) = ap suc (length-map f xs)

place-Placed :
    (req : ProvisionRequest) (agents s : List AgentStatus) (d : ProvisionDecision)
    → ranked req agents ≡ s
    → place req s ≡ placed d
    → Placed req agents d × (length d.replica_nodes ≡ replica_total req.replica_count (length s))
unfolding place
place-Placed req agents [] d e h = cc
place-Placed req agents (a ∷ s) d e h =
    let k = replica_total req.replica_count (length (a ∷ s)) in
    let (more, fewer) = replica_total_bounds req.replica_count (length (a ∷ s)) (omega arith) in
    let same : take k (ranked req agents) ≡ a ∷ take (k - 1) s =
      ap (take k) e ∙ take_pos k a s more in
    let nodes : d.replica_nodes ≡ map AgentStatus.node (take k (a ∷ s)) = cc in
    (
      record {
        active = a;
        others = take (k - 1) s;
        nodes = nodes ∙ ap (map AgentStatus.node) (take_pos k a s more);
        active_node = cc;
        suitable = subst (All (Suitable req)) same (All-take _ k _ (ranked-Suitable req agents));
        listed = subst (All (λ b. Memᴰ b agents)) same (All-take _ k _ (ranked_listed req agents));
        roomiest =
            subst
              (λ t.
                All (λ b. Suitable req b → Memᴰ b t ⊎ All (λ c. b.free_bytes ≤ℤ c.free_bytes) t)
                  agents)
              same (ranked_first k req agents);
      },
      ap length nodes
          ∙ length-map AgentStatus.node (take k (a ∷ s))
          ∙ length-take_le k (a ∷ s) fewer,
    )

length-insert_sorted {ℓ} :
    {A : Type ℓ} (less : A → A → Bool) (x : A) (ys : List A)
    → length (insert_sorted less x ys) ≡ suc (length ys)
unfolding insert_sorted
length-insert_sorted less x [] = refl
length-insert_sorted less x (y ∷ ys) = ground (arith, length-insert_sorted less x ys)

length-sort {ℓ} :
    {A : Type ℓ} (less : A → A → Bool) (xs : List A) → length (sort less xs) ≡ length xs
unfolding sort
length-sort less [] = refl
length-sort less (x ∷ xs) =
    length-insert_sorted less x (sort less xs) ∙ ap suc (length-sort less xs)

-- A placement names suitable agents only: as many as asked for, or all suitable ones where a number
-- that is not positive or larger than theirs is asked for; the active node is the first of them, and no suitable agent that is left out has more free bytes than one that is named.
pub select_initial_placement-Placed :
    (req : ProvisionRequest) (agents : List AgentStatus) (d : ProvisionDecision)
    → select_initial_placement req agents ≡ placed d
    → Placed req agents d
      × AsMany req.replica_count (length (keep (is_suitable req) agents)) (length d.replica_nodes)
unfolding select_initial_placement
select_initial_placement-Placed req agents d h =
    let n = length (keep (is_suitable req) agents) in
    let (placement, total) = place-Placed req agents (ranked req agents) d refl h in
    let same : length d.replica_nodes ≡ replica_total req.replica_count n =
      total ∙ ap (replica_total req.replica_count) (length-sort roomier _) in
    (placement, subst (AsMany req.replica_count n) (sym same) (replica_total-AsMany _ n))

place_error :
    (req : ProvisionRequest) (s : List AgentStatus) → place req s ≡ err_no_eligible_agents → s ≡ []
unfolding place
place_error req [] h = refl
place_error req (a ∷ s) h = cc

-- A placement fails exactly when no agent is suitable.
pub select_initial_placement_error :
    (req : ProvisionRequest) (agents : List AgentStatus)
    → (select_initial_placement req agents ≡ err_no_eligible_agents)
      ↔ All (λ a. ¬ Suitable req a) agents
unfolding select_initial_placement
select_initial_placement_error req agents = (forth, back)
  where
    forth :
        place req (ranked req agents) ≡ err_no_eligible_agents → All (λ a. ¬ Suitable req a) agents
    forth h =
        All-map (λ a k s. k ((is_suitable_iff req a).1 s)) agents
          (All-of_keep (is_suitable req) (λ _. ⊥) agents
            (All-of_sort (λ _. ⊥) roomier _ (subst (All (λ _. ⊥)) (sym (place_error req _ h)) tt)))

    empty :
        (s : List AgentStatus)
        → All (Suitable req) s
        → All (λ a. Memᴰ a agents) s
        → All (λ a. ¬ Suitable req a) agents
        → s ≡ []
    empty [] h m k = refl
    empty (a ∷ s) h m k = absurd (All-Memᴰ (λ a. ¬ Suitable req a) a agents k m.0 h.0)

    back :
        All (λ a. ¬ Suitable req a) agents → place req (ranked req agents) ≡ err_no_eligible_agents
    back k =
        rw (empty (ranked req agents) (ranked-Suitable req agents) (ranked_listed req agents) k)
