-- ===== src/Controller/Failover/Eviction.antt =====
-- Which pods a promotion deletes.
use mathlib.Core.List.Memᴰ
use mathlib.Core.List.{Memᴰ}
use simple_volume.Base.{
  ◌≡◌, refl, ap, ◌≢◌, inl, inr, true, not, ◌||◌, List, [], ◌∷◌, Option, Bool-cases, arith, ◌==◌,
}
use simple_volume.Text.{Text, text_eq, is_empty}
use simple_volume.Text.Order.{is_empty_iff}
use simple_volume.Controller.Kube.{Quantities, Pod, Pvc}
use simple_volume.Controller.Annotations.{failover_node_priority}
use simple_volume.Controller.Selection.{FailoverCandidate, select_failover_target_from_candidates}
use simple_volume.Base.Int.{ℤ}
use simple_volume.Controller.Failover.{record_demoted, should_backup_before_restore}
use simple_volume.Controller.Failover.Storage.{promote_storage_state, promote_node_label}
use simple_volume.Controller.Failover.Quiet.{promote_storage_state-Quiet, promote_node_label-Quiet}
use simple_volume.Controller.Failover.Reconcile.{evict_one, evict, promote_to, promote, forget}
use simple_volume.Controller.Api.{
  delete_pod, no_bound_volume, Cluster, World, err, delete, recorded,
}
use simple_volume.Controller.Api.Keeps.{Keeps, bind-Keeps, if-Keeps}
use simple_volume.Controller.Failover.Fencing.{
  marked-record_demoted, history-record_demoted, Step, Step-refl, Step-Preorder, Step-more,
  Quiet-Step,
}

module _ (q : Quantities) (parse_duration : Text → Option ℤ) (cluster : Cluster q.Quantity)
    (pvc : Pvc) (target : Text) where
  abbrev Evicts : List (Pod q.Quantity) → World → World → Type 0
  Evicts = Step q parse_duration cluster pvc target

  delete-Step :
      (pod : Pod q.Quantity) (w : World)
      → pvc.volume_name ≢ []
      → pod.node_name ≢ []
      → pod.node_name ≢ target
      → Evicts
          (pod ∷ [])
          w
          (delete cluster pod.namespace pod.name (record_demoted pvc pod.node_name w)).1
  unfolding delete recorded should_backup_before_restore
  delete-Step pod w h bound elsewhere = record {
    adds = record {
      calls = delete_pod pod.namespace pod.name ∷ [];
      added =
          ap (λ c. delete_pod pod.namespace pod.name ∷ c)
            (history-record_demoted pvc pod.node_name w);
      safe = (
        (λ ns n f. record {
          pod = pod;
          listed = Memᴰ.head refl;
          in_namespace = cc;
          named = cc;
          bound = bound;
          elsewhere = elsewhere;
          demoted = ground (arith, marked-record_demoted pvc pod.node_name pod.node_name w h bound);
        }),
        tt,
      );
    };
    still = λ m k. ground (arith, marked-record_demoted pvc pod.node_name m w h bound);
  }

  evict_one-Step :
      (pod : Pod q.Quantity) (w : World)
      → pvc.volume_name ≢ []
      → Evicts (pod ∷ []) w (evict_one q parse_duration cluster pvc target pod w).1
  unfolding evict_one
  evict_one-Step pod w h = elim (Bool-cases (is_empty pod.node_name || pod.node_name == target)) [
    | inl e ↦ rw e (Step-refl q parse_duration cluster pvc target (pod ∷ []) w)
    | inr e ↦ rw e (delete-Step pod w h (ground (arith, is_empty_iff pod.node_name)) (ground arith))
  ]

  only_head :
      (pod : Pod q.Quantity) (pods : List (Pod q.Quantity)) (p : Pod q.Quantity)
      → Memᴰ p (pod ∷ [])
      → Memᴰ p (pod ∷ pods)
  only_head pod pods p (Memᴰ.head e) = Memᴰ.head e
  only_head pod pods p (Memᴰ.tail m) = absurd (Memᴰ.not-nil m)

  evict-Step :
      (pods : List (Pod q.Quantity))
      → pvc.volume_name ≢ []
      → Keeps (Evicts pods) (evict q parse_duration cluster pvc target pods)
  unfolding evict
  evict-Step [] h = Step-refl q parse_duration cluster pvc target []
  evict-Step (pod ∷ pods) h =
      bind-Keeps (Evicts (pod ∷ pods))
        (Step-Preorder q parse_duration cluster pvc target (pod ∷ pods))
        (evict_one q parse_duration cluster pvc target pod) _
        (λ w.
          Step-more q parse_duration cluster pvc target (pod ∷ []) (pod ∷ pods) w _
            (λ p m. only_head pod pods p m) (evict_one-Step pod w h))
        (λ _ w.
          Step-more q parse_duration cluster pvc target pods (pod ∷ pods) w _ (λ p m. Memᴰ.tail m)
            (evict-Step pods h w))

  forget-Step :
      (pods : List (Pod q.Quantity)) → Keeps (Evicts pods) (forget q parse_duration cluster pvc)
  unfolding forget should_backup_before_restore
  forget-Step pods w = record {
    adds = record { calls = []; added = refl; safe = tt };
    still = λ m d. d;
  }

  promote_bound_to-Step :
      (pods : List (Pod q.Quantity)) (previous : Text)
      → pvc.volume_name ≢ []
      → Keeps (Evicts pods) (promote_to q parse_duration cluster pvc pods target previous)
  unfolding promote_to
  promote_bound_to-Step pods previous h =
      let o = Step-Preorder q parse_duration cluster pvc target pods in
      bind-Keeps (Evicts pods) o (promote_storage_state cluster pvc target previous) _
        (λ w.
          Quiet-Step q parse_duration cluster pvc target pods w _
            (promote_storage_state-Quiet cluster pvc target previous w))
        λ _.
          bind-Keeps (Evicts pods) o (promote_node_label cluster pvc target) _
            (λ w.
              Quiet-Step q parse_duration cluster pvc target pods w _
                (promote_node_label-Quiet cluster pvc target w))
            λ _.
              bind-Keeps (Evicts pods) o (evict q parse_duration cluster pvc target pods) _
                (evict-Step pods h) λ _. forget-Step pods

  unbound_fails :
      (pods : List (Pod q.Quantity)) (previous : Text) (w : World)
      → is_empty pvc.volume_name ≡ true
      → promote_to q parse_duration cluster pvc pods target previous w ≡ (err no_bound_volume, w)
  unfolding promote_to promote_storage_state
  unbound_fails pods previous w e = rw e refl

  -- An unbound claim fails before any pod is deleted.
  promote_to-Step :
      (pods : List (Pod q.Quantity)) (previous : Text)
      → Keeps (Evicts pods) (promote_to q parse_duration cluster pvc pods target previous)
  promote_to-Step pods previous w = elim (Bool-cases (is_empty pvc.volume_name)) [
    | inl e ↦
        rw (unbound_fails pods previous w e) (Step-refl q parse_duration cluster pvc target pods w)
    | inr e ↦ promote_bound_to-Step pods previous (ground (arith, is_empty_iff pvc.volume_name)) w
  ]

module _ (q : Quantities) (parse_duration : Text → Option ℤ) (cluster : Cluster q.Quantity) where
  -- Every pod that a promotion deletes is one of the given pods, bound to another node than the
  -- promoted one, and that node is marked for a backup before its next restore. No node loses its
  -- mark. This holds on every path, failed calls included.
  pub promote-fences :
      (pvc : Pvc) (pods : List (Pod q.Quantity)) (candidates : List FailoverCandidate)
      (active : Text) (w : World)
      → Step q parse_duration cluster pvc
          (select_failover_target_from_candidates candidates
            (failover_node_priority pvc)).target_node
          pods
          w
          (promote q parse_duration cluster pvc pods candidates active w).1
  unfolding promote
  promote-fences pvc pods candidates active =
      let decision =
        select_failover_target_from_candidates candidates (failover_node_priority pvc) in
      if-Keeps (Step q parse_duration cluster pvc decision.target_node pods) (not decision.promote)
        _ _ (Step-refl q parse_duration cluster pvc decision.target_node pods)
        (promote_to-Step q parse_duration cluster pvc decision.target_node pods _)
