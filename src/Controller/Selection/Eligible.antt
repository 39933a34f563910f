-- ===== src/Controller/Selection/Eligible.antt =====
-- Which nodes are candidates.
use mathlib.Core.List.{Memᴰ}
use simple_volume.Base.{
  ◌≡◌, refl, ap, subst, ◌≢◌, ◌↔◌, ◌⊎◌, true, false, List, [], ◌∷◌, none, arith, contains, All,
}
use simple_volume.Base.Dict.{Dict, get_or, has_key, lookup}
use simple_volume.Base.Int.{pos, ◌≤ℤ◌}
use simple_volume.Text.{Text, text_eq}
use simple_volume.Text.Order.{is_empty_iff}
use simple_volume.Time.{sub_time}
use simple_volume.Controller.Kube.{Quantities, Pod}
use simple_volume.Controller.Resources.{node_fits_requests}
use simple_volume.Controller.Selection.{
  no_freshness, FailoverCandidate, Circumstances, has_candidate, blocked_nodes, is_eligible,
  failover_candidates, FailoverDecision, select_failover_target_from_candidates,
}
use simple_volume.Controller.Selection.Choice.{
  FirstEligible, Chooses, preferred, by_freshness, blocked, select-Chooses,
}

blocked_nodes-absent :
    {Q : Type 0} (pods : List (Pod Q)) (node : Text)
    → node ≢ []
    → (contains (blocked_nodes pods) node ≡ false) ↔ All (λ pod. pod.node_name ≢ node) pods
unfolding blocked_nodes
blocked_nodes-absent [] node h = (λ _. tt, λ _. refl)
blocked_nodes-absent (pod ∷ pods) node h =
    ground (arith, is_empty_iff pod.node_name, blocked_nodes-absent pods node h)

module _ (q : Quantities) where
  -- A node to which a failover may move a volume.
  pub record Eligible (c : Circumstances q) (node : Text) : Type 0 where
    pub ready : contains c.ready_nodes node ≡ true
    pub unused : All (λ pod. pod.node_name ≢ node) c.pods
    pub not_demoted : contains c.demoted node ≡ false
    pub healthy : (get_or no_freshness node c.freshness).healthy ≡ true
    pub synced : (get_or no_freshness node c.freshness).last_successful_sync ≢ 0
    pub fresh :
        (c.max_staleness ≤ℤ pos 0)
        ⊎ (sub_time c.now (get_or no_freshness node c.freshness).last_successful_sync
            ≤ℤ c.max_staleness)
    pub fits : node_fits_requests q node c.requests c.available ≡ true

  is_eligible_iff :
      (c : Circumstances q) (node : Text)
      → node ≢ []
      → (is_eligible q c node ≡ true) ↔ Eligible c node
  unfolding is_eligible
  is_eligible_iff c node h = ground (arith, blocked_nodes-absent c.pods node h)

  has_candidate-cons :
      (c : Circumstances q) (n : Text) (agents : Dict Text (Pod q.Quantity))
      → (has_candidate n (failover_candidates q c agents) ≡ true)
        ↔ ((has_key n agents ≡ true) × (is_eligible q c n ≡ true))
  unfolding has_candidate failover_candidates has_key
  has_candidate-cons c n [] = (λ h. cc, λ h. cc)
  has_candidate-cons c n ((j, pod) ∷ agents) = ground (arith, has_candidate-cons c n agents)

  -- A node with a name is a candidate exactly when it has a ready agent and is eligible.
  pub has_candidate-failover_candidates :
      (c : Circumstances q) (node : Text) (agents : Dict Text (Pod q.Quantity))
      → node ≢ []
      → (has_candidate node (failover_candidates q c agents) ≡ true)
        ↔ ((has_key node agents ≡ true) × Eligible c node)
  has_candidate-failover_candidates c node agents h =
      ground (arith, has_candidate-cons c node agents, is_eligible_iff c node h)

  FirstEligible-has_candidate :
      {cs : List FailoverCandidate} {ps : List Text} {m : Text}
      → FirstEligible cs ps m
      → has_candidate m cs ≡ true
  FirstEligible-has_candidate (FirstEligible.here h) = h
  FirstEligible-has_candidate (FirstEligible.skip h r) = FirstEligible-has_candidate r

  Memᴰ-has_candidate :
      (d : FailoverCandidate) {cs : List FailoverCandidate}
      → Memᴰ d cs
      → has_candidate d.node cs ≡ true
  unfolding has_candidate
  Memᴰ-has_candidate d (Memᴰ.head e) = ground (arith, e)
  Memᴰ-has_candidate d (Memᴰ.tail m) = ground (arith, Memᴰ-has_candidate d m)

  Chooses-has_candidate :
      (cs : List FailoverCandidate) (ps : List Text) (d : FailoverDecision)
      → Chooses cs ps d
      → d.promote ≡ true
      → has_candidate d.target_node cs ≡ true
  Chooses-has_candidate cs ps d (preferred m f p) h = rw p (FirstEligible-has_candidate f)
  Chooses-has_candidate cs ps d (by_freshness c n m a p) h = rw p (Memᴰ-has_candidate c m)
  Chooses-has_candidate cs ps d (blocked n p) h = cc (ap FailoverDecision.promote p)

  -- Where every agent has a node, a promoted node has an agent and is eligible: it is ready, no pod of the claim is bound to it,
  -- it is not demoted, its replica is healthy and within the staleness bound, and it passes the code's test
  -- of the requested resources.
  pub select-Eligible :
      (c : Circumstances q) (agents : Dict Text (Pod q.Quantity)) (priority : List Text)
      → lookup [] agents ≡ none
      → let d = select_failover_target_from_candidates (failover_candidates q c agents) priority in
        d.promote ≡ true → (has_key d.target_node agents ≡ true) × Eligible c d.target_node
  unfolding has_key
  select-Eligible c agents priority unnamed h =
      let cs = failover_candidates q c agents in
      let d = select_failover_target_from_candidates cs priority in
      let found = Chooses-has_candidate cs priority d (select-Chooses cs priority) h in
      (has_candidate-failover_candidates c d.target_node agents (λ e.
          not_unnamed
            ((has_candidate-cons c [] agents).0
              (subst (λ n. has_candidate n cs ≡ true) e found)).0)).0
        found
    where
      not_unnamed : has_key [] agents ≡ true → ⊥
      not_unnamed k = ground (arith, k)
