-- ===== src/Controller/Failover/Grace.antt =====
-- A failover before the grace period is over.
use simple_volume.Base.{
  ◌≡◌, refl, ◌∙◌, inl, inr, Bool, false, not, ◌||◌, List, [], Option, none, some, Bool-cases,
}
use simple_volume.Base.Dict.{lookup}
use simple_volume.Base.Int.{ℤ, ltb_ℤ}
use simple_volume.Text.{Text, text_eq, is_empty}
use simple_volume.Time.{Time, sub_time}
use simple_volume.Controller.Kube.{Quantities, Pod, Pvc}
use simple_volume.Controller.Annotations.{pvc_key, failover_grace_period}
use simple_volume.Controller.Selection.{FailoverCandidate}
use simple_volume.Controller.Failover.Storage.{reconcile_node_labels, claim_has_desired_consumer}
use simple_volume.Controller.Failover.Quiet.{
  NotDelete, Quiet, Quiet-Preorder, ask-Quiet, record_active_node-Quiet,
  reconcile_node_labels-Quiet, claim_has_desired_consumer-Quiet,
}
use simple_volume.Controller.Failover.Reconcile.{
  Snapshot, is_nil, forget, wait_for_grace, after_grace, record_known_node, reconcile_active,
  reconcile_candidates, reconcile_pods, namespace_pods, reconcile_pvc,
}
use simple_volume.Controller.Api.{list_pods, Cluster, World, M, Result, ok, err, resume, ◌>>=◌}
use simple_volume.Controller.Api.Keeps.{Keeps, if-Keeps, Adds, Adds-Preorder}

-- No pod is deleted and no node is demoted.
pub record Harmless (v w : World) : Type 0 where
  pub adds : Adds NotDelete v w
  pub demoted : w.demoted ≡ v.demoted

-- The claim was first seen without a healthy pod, and the grace period has passed since.
abbrev pub GraceOver : (Text → Option ℤ) → Pvc → Time → World → Type 0
GraceOver parse_duration pvc now w =
    (first_seen : Time) × (lookup (pvc_key pvc) w.seen ≡ some first_seen)
    × (ltb_ℤ (sub_time now first_seen) (failover_grace_period parse_duration pvc) ≡ false)

-- Harmless, unless the grace period was over at the start.
record Waits (parse_duration : Text → Option ℤ) (pvc : Pvc) (now : Time) (v w : World)
    : Type 0 where
  waits : ¬ GraceOver parse_duration pvc now v → Harmless v w

Harmless-Quiet : (u v w : World) → Quiet u v → Harmless v w → Harmless u w
Harmless-Quiet u v w h k = record {
  adds = (Adds-Preorder NotDelete).transitive u v w h.adds k.adds;
  demoted = k.demoted ∙ h.demoted;
}

unchanged : (v w : World) → w.history ≡ v.history → w.demoted ≡ v.demoted → Harmless v w
unchanged v w h k = record { adds = record { calls = []; added = h; safe = tt }; demoted = k }

module _ (q : Quantities) (parse_duration : Text → Option ℤ) (cluster : Cluster q.Quantity) where
  abbrev WaitsM : Pvc → Time → {A : Type 0} → M A → Type 0
  WaitsM pvc now m = Keeps (Waits parse_duration pvc now) m

  -- A quiet step leaves the hypothesis of what follows as it was.
  bind-Waits :
      (pvc : Pvc) (now : Time) {A B : Type 0} (m : M A) (f : A → M B)
      → Keeps Quiet m
      → ((a : A) → WaitsM pvc now (f a))
      → WaitsM pvc now (m >>= f)
  bind-Waits pvc now m f h k w = record { waits = go (m w).0 (m w).1 (h w) }
    where
      go :
          (r : Result _) (v : World)
          → Quiet w v
          → ¬ GraceOver parse_duration pvc now w
          → Harmless w (resume r v f).1
      go (ok a) v quiet early =
          Harmless-Quiet w v _ quiet ((k a v).waits (λ g. early (g.0, rw quiet.seen at (g.1), g.2)))
      go (err e) v quiet early = record { adds = quiet.adds; demoted = quiet.demoted }

  wait_for_grace-waits :
      (pvc : Pvc) (now : Time) (promotion : M (Unit {0})) (first : Option Time) (w : World)
      → ¬ (
          (t : Time) × (first ≡ some t)
          × (ltb_ℤ (sub_time now t) (failover_grace_period parse_duration pvc) ≡ false))
      → Harmless w (wait_for_grace q parse_duration cluster pvc now promotion first w).1
  unfolding wait_for_grace
  wait_for_grace-waits pvc now promotion none w h = unchanged w _ refl refl
  wait_for_grace-waits pvc now promotion (some t) w h =
      elim (Bool-cases (ltb_ℤ (sub_time now t) (failover_grace_period parse_duration pvc))) [
        | inl e ↦ rw e (unchanged w w refl refl)
        | inr e ↦ absurd (h (t, refl, e))
      ]

  after_grace-waits :
      (pvc : Pvc) (now : Time) (has_demand has_healthy : Bool) (promotion : M (Unit {0}))
      → WaitsM pvc now
          (after_grace q parse_duration cluster pvc now has_demand has_healthy promotion)
  unfolding after_grace forget
  after_grace-waits pvc now has_demand has_healthy promotion =
      if-Keeps (Waits parse_duration pvc now) (not has_demand || has_healthy) _ _
        (λ w. record { waits = λ _. unchanged w _ refl refl })
        (λ w. record {
          waits = wait_for_grace-waits pvc now promotion (lookup (pvc_key pvc) w.seen) w;
        })

  record_known_node-Quiet :
      (pvc : Pvc) (node : Text) → Keeps Quiet (record_known_node q parse_duration cluster pvc node)
  unfolding record_known_node
  record_known_node-Quiet pvc node =
      if-Keeps Quiet (is_empty node) _ _ Quiet-Preorder.reflexive
        (record_active_node-Quiet cluster pvc node [])

  reconcile_active-waits :
      (pvc : Pvc) (s : Snapshot q) (now : Time) (using_claim : List (Pod q.Quantity))
      (candidates : List FailoverCandidate) (has_demand : Bool) (node : Text)
      → WaitsM pvc now (
          reconcile_active q parse_duration cluster pvc s now using_claim candidates has_demand
            node)
  unfolding reconcile_active
  reconcile_active-waits pvc s now using_claim candidates has_demand node =
      bind-Waits pvc now (record_known_node q parse_duration cluster pvc node) _
        (record_known_node-Quiet pvc node)
        λ _.
          bind-Waits pvc now (reconcile_node_labels cluster pvc node candidates) _
            (reconcile_node_labels-Quiet cluster pvc node candidates)
            λ _. after_grace-waits pvc now has_demand _ _

  reconcile_candidates-waits :
      (pvc : Pvc) (s : Snapshot q) (now : Time) (using_claim : List (Pod q.Quantity))
      (candidates : List FailoverCandidate)
      → WaitsM pvc now
          (reconcile_candidates q parse_duration cluster pvc s now using_claim candidates)
  unfolding reconcile_candidates
  reconcile_candidates-waits pvc s now using_claim candidates =
      bind-Waits pvc now (claim_has_desired_consumer cluster pvc (not (is_nil using_claim))) _
        (claim_has_desired_consumer-Quiet cluster pvc _)
        λ has_demand. reconcile_active-waits pvc s now using_claim candidates has_demand _

  namespace_pods-Quiet : (pvc : Pvc) → Keeps Quiet (namespace_pods q parse_duration cluster pvc)
  unfolding namespace_pods
  namespace_pods-Quiet pvc = ask-Quiet (list_pods pvc.namespace) _ (λ n m e. cc)

  -- Unless the claim was seen without a healthy pod at least a grace period ago, a reconciliation
  -- deletes no pod and demotes no node, whatever the cluster answers.
  pub reconcile_pvc-waits :
      (pvc : Pvc) (s : Snapshot q) (now : Time) (w : World)
      → ¬ GraceOver parse_duration pvc now w
      → Harmless w (reconcile_pvc q parse_duration cluster pvc s now w).1
  unfolding reconcile_pvc reconcile_pods
  reconcile_pvc-waits pvc s now w =
      (bind-Waits pvc now (namespace_pods q parse_duration cluster pvc) _ (namespace_pods-Quiet pvc)
        (λ pods v. reconcile_candidates-waits pvc s now _ _ v) w).waits
