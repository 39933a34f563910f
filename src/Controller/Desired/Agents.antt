-- ===== src/Controller/Desired/Agents.antt =====
-- The ready agents, and the targets among them.
use mathlib.Core.List.{Memᴰ}
use simple_volume.Base.{
  ◌≡◌, refl, sym, ◌≢◌, inl, inr, Bool, true, false, not, ◌&&◌, ◌||◌, List, [], ◌∷◌, some, ◌==◌, All,
  Bool-cases, arith,
}
use simple_volume.Base.Sorting.{StrictWeakOrder}
use simple_volume.Base.Dict.{Dict, lookup, insert}
use simple_volume.Text.{Text, text_eq, is_empty}
use simple_volume.Text.Order.{text_ltb_asymm, text_ltb_neg_trans}
use simple_volume.Controller.Kube.{Pod, running, phase_eq}
use simple_volume.Controller.Pods.{ready_condition, ready_agents_from, ready_agent_pods}
use simple_volume.Controller.Replication.{DesiredTarget}
use simple_volume.Controller.Replication.Reconcile.{agent_http_url}
use simple_volume.Controller.Desired.{before_target, targets_from}

pub before_target-StrictWeakOrder : StrictWeakOrder before_target
unfolding before_target
before_target-StrictWeakOrder = record {
  asymm = λ x y. text_ltb_asymm x.node y.node;
  neg_trans = λ x y z. text_ltb_neg_trans x.node y.node z.node;
}

module _ {Q : Type 0} where
  -- A pod that `readyAgentPods` takes.
  abbrev pub is_ready_agent : Pod Q → Bool
  is_ready_agent pod =
      pod.phase == running
      && not (is_empty pod.node_name)
      && not (is_empty pod.pod_ip)
      && ready_condition pod.conditions

  -- The pod is listed, runs on the node, and is ready there.
  abbrev pub Serves : List (Pod Q) → Text → Pod Q → Type 0
  Serves pods node pod = Memᴰ pod pods × (pod.node_name ≡ node) × (is_ready_agent pod ≡ true)

  abbrev pub Entries : (Text → Pod Q → Type 0) → Dict Text (Pod Q) → Type 0
  Entries P d = All (λ e. P e.0 e.1) d

  All-insert :
      (P : Text → Pod Q → Type 0) (k : Text) (p : Pod Q) (d : Dict Text (Pod Q))
      → P k p
      → Entries P d
      → Entries P (insert k p d)
  unfolding insert
  All-insert P k p [] h a = (h, tt)
  All-insert P k p ((j, w) ∷ d) h a = elim (Bool-cases (k == j)) [
    | inl e ↦ rw e (h, a.1)
    | inr e ↦ rw e (a.0, All-insert P k p d h a.1)
  ]

  abbrev skipped : Pod Q → Bool
  skipped pod =
      not (pod.phase == running)
      || is_empty pod.node_name
      || is_empty pod.pod_ip
      || not (ready_condition pod.conditions)

  not_skipped : (pod : Pod Q) → skipped pod ≡ false → is_ready_agent pod ≡ true
  not_skipped pod h = ground arith

  All-ready_agents_from :
      (all pods : List (Pod Q)) (out : Dict Text (Pod Q))
      → ((p : Pod Q) → Memᴰ p pods → Memᴰ p all)
      → Entries (Serves all) out
      → Entries (Serves all) (ready_agents_from pods out)
  unfolding ready_agents_from
  All-ready_agents_from all [] out f a = a
  All-ready_agents_from all (pod ∷ pods) out f a = elim (Bool-cases (skipped pod)) [
    | inl e ↦ rw e (All-ready_agents_from all pods out (λ p m. f p (Memᴰ.tail m)) a)
    | inr e ↦ rw e (
        All-ready_agents_from all pods (insert pod.node_name pod out) (λ p m. f p (Memᴰ.tail m))
          (All-insert (Serves all) pod.node_name pod out
            (f pod (Memᴰ.head refl), refl, not_skipped pod e) a))
  ]

  pub All-lookup :
      (P : Text → Pod Q → Type 0) (k : Text) (p : Pod Q) (d : Dict Text (Pod Q))
      → Entries P d
      → lookup k d ≡ some p
      → P k p
  unfolding lookup
  All-lookup P k p [] a h = cc
  All-lookup P k p ((j, w) ∷ d) a h = elim (Bool-cases (k == j)) [
    | inl e ↦
        let same : (k ≡ j) × (w ≡ p) = (ground (arith), ground (arith)) in
        rw (same.0, sym same.1) a.0
    | inr e ↦ All-lookup P k p d a.1 (ground (arith))
  ]

  -- A target's agent, and that it is not on the active node.
  pub IsTarget : List (Pod Q) → Text → Text → DesiredTarget → Type 0
  IsTarget pods active token t =
      (t.node ≢ active)
      × (t.token ≡ token)
      × ((pod : Pod Q) × Serves pods t.node pod × (t.url ≡ agent_http_url pod.pod_ip))

  pub All-targets_from :
      (pods : List (Pod Q)) (active token : Text) (agents : Dict Text (Pod Q))
      → Entries (Serves pods) agents
      → All (IsTarget pods active token) (targets_from agents active token)
  unfolding targets_from IsTarget
  All-targets_from pods active token [] a = tt
  All-targets_from pods active token ((node, pod) ∷ agents) a =
      let rest = All-targets_from pods active token agents a.1 in
      elim (Bool-cases (node == active)) [
        | inl e ↦ rw e rest
        | inr e ↦ rw e ((ground (arith), refl, (pod, a.0, refl)), rest)
      ]

  -- Every other node that has an agent in the map becomes a target.
  pub targets_from-every :
      (active token node : Text) (pod : Pod Q) (agents : Dict Text (Pod Q))
      → node ≢ active
      → lookup node agents ≡ some pod
      → Memᴰ
          (record { node = node; url = agent_http_url pod.pod_ip; token = token })
          (targets_from agents active token)
  unfolding targets_from lookup
  targets_from-every active token node pod [] n h = cc
  targets_from-every active token node pod ((j, w) ∷ agents) n h = elim (Bool-cases (j == active)) [
    | inl b ↦ rw b (targets_from-every active token node pod agents n (ground (arith)))
    | inr b ↦ rw b (elim (Bool-cases (node == j)) [
      | inl e ↦
          let same : (node ≡ j) × (pod ≡ w) = (ground (arith), ground (arith)) in
          Memᴰ.head (rw (same.0, same.1) refl)
      | inr e ↦ Memᴰ.tail (targets_from-every active token node pod agents n (ground (arith)))
    ])
  ]

  pub agents-Serve : (pods : List (Pod Q)) → Entries (Serves pods) (ready_agent_pods pods)
  unfolding ready_agent_pods
  agents-Serve pods = All-ready_agents_from pods pods [] (λ p m. m) tt
