-- ===== src/Controller/Failover/Quiet.antt =====
-- The steps of a reconciliation that delete no pod and leave the controller's maps alone.
use simple_volume.Base.{◌≡◌, refl, ◌≢◌, ◌∙◌, Bool, List, [], ◌∷◌, Option, All, any}
use simple_volume.Base.Dict.{Dict, dict_equal}
use simple_volume.Text.{Text, text_eq, is_empty}
use simple_volume.Controller.Kube.{Pvc, Pv, Node, Workload}
use simple_volume.Controller.Failover.Storage.{
  send_patch, write_annotations, promote_pvc_state, read_volume, promote_volume, promote_bound,
  promote_storage_state, record_active_node, patch_nodes, reconcile_node_labels, promote_node_label,
  first_consumer, workloads_of, claim_has_desired_consumer,
}
use simple_volume.Controller.Selection.{FailoverCandidate}
use simple_volume.Controller.Api.{
  Call, delete_pod, list_nodes, get_claim, update_claim, get_volume, update_volume, patch_node,
  Cluster, World, ask, write,
}
use simple_volume.Controller.Api.Keeps.{Preorder, Keeps, bind-Keeps, if-Keeps, Adds, Adds-Preorder}

abbrev pub NotDelete : Call → Type 0
NotDelete call = (namespace name : Text) → call ≢ delete_pod namespace name

update_volume-NotDelete : (pv : Pv) → NotDelete (update_volume pv)
update_volume-NotDelete pv n m e = cc

get_volume-NotDelete : (name : Text) → NotDelete (get_volume name)
get_volume-NotDelete name n m e = cc

pub record Quiet (v w : World) : Type 0 where
  pub adds : Adds NotDelete v w
  pub seen : w.seen ≡ v.seen
  pub freshness : w.freshness ≡ v.freshness
  pub demoted : w.demoted ≡ v.demoted

pub Quiet-Preorder : Preorder Quiet
Quiet-Preorder = record {
  reflexive = λ w. record {
    adds = (Adds-Preorder NotDelete).reflexive w;
    seen = refl;
    freshness = refl;
    demoted = refl;
  };
  transitive = λ u v w h k. record {
    adds = (Adds-Preorder NotDelete).transitive u v w h.adds k.adds;
    seen = k.seen ∙ h.seen;
    freshness = k.freshness ∙ h.freshness;
    demoted = k.demoted ∙ h.demoted;
  };
}

pub ask-Quiet :
    {A : Type 0} (call : Call) (f : List Call → Option A)
    → NotDelete call
    → Keeps Quiet (ask call f)
unfolding ask
ask-Quiet call f h w = record {
  adds = record { calls = call ∷ []; added = refl; safe = (h, tt) };
  seen = refl;
  freshness = refl;
  demoted = refl;
}

write-Quiet :
    {Q : Type 0} (cluster : Cluster Q) (call : Call)
    → NotDelete call
    → Keeps Quiet (write cluster call)
unfolding write
write-Quiet cluster call h w = record {
  adds = record { calls = call ∷ []; added = refl; safe = (h, tt) };
  seen = refl;
  freshness = refl;
  demoted = refl;
}

module _ {Q : Type 0} (cluster : Cluster Q) where
  write_annotations-Quiet :
      (old new : Dict Text Text) (call : Call)
      → NotDelete call
      → Keeps Quiet (write_annotations cluster old new call)
  unfolding write_annotations
  write_annotations-Quiet old new call h =
      if-Keeps Quiet (dict_equal old new) _ _ Quiet-Preorder.reflexive (write-Quiet cluster call h)

  pub promote_pvc_state-Quiet :
      (pvc : Pvc) (target previous : Text)
      → Keeps Quiet (promote_pvc_state cluster pvc target previous)
  unfolding promote_pvc_state
  promote_pvc_state-Quiet pvc target previous =
      bind-Keeps Quiet Quiet-Preorder _ _ (ask-Quiet (get_claim _ _) _ (λ n m e. cc))
        (λ latest. write_annotations-Quiet _ _ (update_claim _) (λ n m e. cc))

  promote_volume-Quiet :
      (target previous : Text) (pv : Pv) → Keeps Quiet (promote_volume cluster target previous pv)
  unfolding promote_volume
  promote_volume-Quiet target previous pv =
      write_annotations-Quiet _ _ (update_volume _) (update_volume-NotDelete _)

  read_volume-Quiet : (pvc : Pvc) → Keeps Quiet (read_volume cluster pvc)
  unfolding read_volume
  read_volume-Quiet pvc = ask-Quiet (get_volume pvc.volume_name) _ (get_volume-NotDelete _)

  promote_bound-Quiet :
      (pvc : Pvc) (target previous : Text) → Keeps Quiet (promote_bound cluster pvc target previous)
  unfolding promote_bound
  promote_bound-Quiet pvc target previous =
      bind-Keeps Quiet Quiet-Preorder (read_volume cluster pvc) _ (read_volume-Quiet pvc) λ pv.
        bind-Keeps Quiet Quiet-Preorder (promote_volume cluster target previous pv) _
          (promote_volume-Quiet target previous pv)
          (λ _. promote_pvc_state-Quiet pvc target previous)

  pub promote_storage_state-Quiet :
      (pvc : Pvc) (target previous : Text)
      → Keeps Quiet (promote_storage_state cluster pvc target previous)
  unfolding promote_storage_state
  promote_storage_state-Quiet pvc target previous =
      if-Keeps Quiet (is_empty pvc.volume_name) _ _ Quiet-Preorder.reflexive
        (promote_bound-Quiet pvc target previous)

  pub record_active_node-Quiet :
      (pvc : Pvc) (target previous : Text)
      → Keeps Quiet (record_active_node cluster pvc target previous)
  unfolding record_active_node
  record_active_node-Quiet pvc target previous =
      if-Keeps Quiet (is_empty pvc.volume_name) _ _ (promote_pvc_state-Quiet pvc target previous)
        (promote_storage_state-Quiet pvc target previous)

  patch-Quiet :
      (name : Text) (patch : Dict Text (Option Text)) → Keeps Quiet (send_patch cluster name patch)
  unfolding send_patch
  patch-Quiet name [] = Quiet-Preorder.reflexive
  patch-Quiet name (l ∷ ls) = write-Quiet cluster (patch_node name (l ∷ ls)) (λ n m e. cc)

  patch_nodes-Quiet :
      (role candidate active : Text) (is_candidate : Text → Bool) (nodes : List (Node Q))
      → Keeps Quiet (patch_nodes cluster role candidate active is_candidate nodes)
  unfolding patch_nodes
  patch_nodes-Quiet role candidate active is_candidate [] = Quiet-Preorder.reflexive
  patch_nodes-Quiet role candidate active is_candidate (node ∷ nodes) =
      bind-Keeps Quiet Quiet-Preorder _ _ (patch-Quiet node.name _)
        (λ _. patch_nodes-Quiet role candidate active is_candidate nodes)

  pub reconcile_node_labels-Quiet :
      (pvc : Pvc) (active : Text) (candidates : List FailoverCandidate)
      → Keeps Quiet (reconcile_node_labels cluster pvc active candidates)
  unfolding reconcile_node_labels
  reconcile_node_labels-Quiet pvc active candidates =
      bind-Keeps Quiet Quiet-Preorder _ _ (ask-Quiet list_nodes _ (λ n m e. cc))
        (λ nodes. patch_nodes-Quiet _ _ active _ nodes)

  pub promote_node_label-Quiet :
      (pvc : Pvc) (target : Text) → Keeps Quiet (promote_node_label cluster pvc target)
  unfolding promote_node_label
  promote_node_label-Quiet pvc target = reconcile_node_labels-Quiet pvc target []

  first_consumer-Quiet :
      (pvc : Pvc) (sources : List (Call × (Workload → Bool)))
      → All (λ s. NotDelete s.0) sources
      → Keeps Quiet (first_consumer cluster pvc sources)
  unfolding first_consumer workloads_of
  first_consumer-Quiet pvc [] h = Quiet-Preorder.reflexive
  first_consumer-Quiet pvc ((call, uses) ∷ more) h =
      bind-Keeps Quiet Quiet-Preorder _ _ (ask-Quiet call _ h.0) (λ workloads.
        if-Keeps Quiet (any uses workloads) _ _ Quiet-Preorder.reflexive
          (first_consumer-Quiet pvc more h.1))

  pub claim_has_desired_consumer-Quiet :
      (pvc : Pvc) (has_pods : Bool) → Keeps Quiet (claim_has_desired_consumer cluster pvc has_pods)
  unfolding claim_has_desired_consumer
  claim_has_desired_consumer-Quiet pvc has_pods =
      if-Keeps Quiet has_pods _ _ Quiet-Preorder.reflexive (
        first_consumer-Quiet pvc _
          ((λ n m e. cc), ((λ n m e. cc), ((λ n m e. cc), ((λ n m e. cc), tt)))))
