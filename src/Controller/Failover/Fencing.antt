-- ===== src/Controller/Failover/Fencing.antt =====
-- The marks of demoted nodes, and how they fence the deletion of a pod.
use mathlib.Core.List.{Memᴰ}
use simple_volume.Base.{
  ◌≡◌, refl, ◌≢◌, inl, inr, true, not, ◌&&◌, ◌||◌, List, [], Option, Bool-cases, arith, contains,
  ◌==◌, All-map,
}
use simple_volume.Base.Dict.{get_or, get_or-insert}
use simple_volume.Controller.Annotations.{volume_key}
use simple_volume.Text.{Text, text_eq, is_empty}
use simple_volume.Text.Order.{is_empty_iff}
use simple_volume.Controller.Kube.{Quantities, Pod, Pvc}
use simple_volume.Base.Int.{ℤ}
use simple_volume.Controller.Failover.{record_demoted, add_entry, should_backup_before_restore}
use simple_volume.Controller.Failover.Quiet.{Quiet}
use simple_volume.Controller.Api.{Call, delete_pod, Cluster, World}
use simple_volume.Controller.Api.Keeps.{Preorder, Adds, Adds-Preorder}

contains-add_entry :
    (nodes : List Text) (n m : Text) → contains (add_entry n nodes) m ≡ (m == n || contains nodes m)
unfolding add_entry
contains-add_entry nodes n m = ground arith

-- For a bound claim and a named node: the node is demoted after `recordDemoted`, and no other node
-- becomes so or ceases to be.
pub marked-record_demoted :
    (pvc : Pvc) (n m : Text) (w : World)
    → pvc.volume_name ≢ []
    → n ≢ []
    → should_backup_before_restore pvc.namespace pvc.volume_name m (record_demoted pvc n w)
      ≡ (m == n || should_backup_before_restore pvc.namespace pvc.volume_name m w)
unfolding should_backup_before_restore record_demoted
marked-record_demoted pvc n m w h k =
    let key = volume_key pvc.namespace pvc.volume_name in
    let nodes : List Text = get_or [] key w.demoted in
    ground (
      arith,
      is_empty_iff n,
      is_empty_iff pvc.volume_name,
      get_or-insert [] key key (add_entry n nodes) w.demoted,
      contains-add_entry nodes n m,
    )

-- After `recordDemoted` the marks, of the claim's volume and of all others, are those of before and, for
-- a bound claim and a named node, that of the node for the claim's volume; otherwise nothing changes.
pub backup-record_demoted :
    (pvc : Pvc) (n namespace volume m : Text) (w : World)
    → should_backup_before_restore namespace volume m (record_demoted pvc n w) ≡ (
        (not (is_empty n)
          && not (is_empty pvc.volume_name)
          && volume_key namespace volume == volume_key pvc.namespace pvc.volume_name
          && m == n)
        || should_backup_before_restore namespace volume m w)
unfolding should_backup_before_restore record_demoted
backup-record_demoted pvc n namespace volume m w =
    let key = volume_key pvc.namespace pvc.volume_name in
    let nodes : List Text = get_or [] key w.demoted in
    ground (
      arith,
      get_or-insert [] (volume_key namespace volume) key (add_entry n nodes) w.demoted,
      contains-add_entry nodes n m,
    )

pub history-record_demoted :
    (pvc : Pvc) (n : Text) (w : World) → (record_demoted pvc n w).history ≡ w.history
unfolding record_demoted
history-record_demoted pvc n w = elim (Bool-cases (is_empty n || is_empty pvc.volume_name)) [
  | inl e ↦ rw e refl
  | inr e ↦ rw e refl
]

-- Nodes that were demoted still are.
abbrev pub StillDemoted : Pvc → World → World → Type 0
StillDemoted pvc v w =
    (m : Text)
    → should_backup_before_restore pvc.namespace pvc.volume_name m v ≡ true
    → should_backup_before_restore pvc.namespace pvc.volume_name m w ≡ true

module _ (q : Quantities) (parse_duration : Text → Option ℤ) (cluster : Cluster q.Quantity)
    (pvc : Pvc) (target : Text) where
  -- A pod of the list that is bound to another node than the target, and that node is demoted.
  pub record Fenced (pods : List (Pod q.Quantity)) (w : World) (namespace name : Text)
      : Type 0 where
    pub pod : Pod q.Quantity
    pub listed : Memᴰ pod pods
    pub in_namespace : pod.namespace ≡ namespace
    pub named : pod.name ≡ name
    pub bound : pod.node_name ≢ []
    pub elsewhere : pod.node_name ≢ target
    pub demoted : should_backup_before_restore pvc.namespace pvc.volume_name pod.node_name w ≡ true

  abbrev pub FencedCall : List (Pod q.Quantity) → World → Call → Type 0
  FencedCall pods w call =
      (namespace name : Text) → call ≡ delete_pod namespace name → Fenced pods w namespace name

  FencedCall-later :
      (pods : List (Pod q.Quantity)) (v w : World) (call : Call)
      → StillDemoted pvc v w
      → FencedCall pods v call
      → FencedCall pods w call
  FencedCall-later pods v w call still f ns n e =
      let g = f ns n e in
      record {
        pod = g.pod;
        listed = g.listed;
        in_namespace = g.in_namespace;
        named = g.named;
        bound = g.bound;
        elsewhere = g.elsewhere;
        demoted = still g.pod.node_name g.demoted;
      }

  FencedCall-more :
      (ps qs : List (Pod q.Quantity)) (w : World) (call : Call)
      → ((p : Pod q.Quantity) → Memᴰ p ps → Memᴰ p qs)
      → FencedCall ps w call
      → FencedCall qs w call
  FencedCall-more ps qs w call sub f ns n e =
      let g = f ns n e in
      record {
        pod = g.pod;
        listed = sub g.pod g.listed;
        in_namespace = g.in_namespace;
        named = g.named;
        bound = g.bound;
        elsewhere = g.elsewhere;
        demoted = g.demoted;
      }

  pub record Step (pods : List (Pod q.Quantity)) (v w : World) : Type 0 where
    pub adds : Adds (FencedCall pods w) v w
    pub still : StillDemoted pvc v w

  pub Step-refl : (pods : List (Pod q.Quantity)) (w : World) → Step pods w w
  Step-refl pods w = record {
    adds = (Adds-Preorder (FencedCall pods w)).reflexive w;
    still = λ m k. k;
  }

  Step-trans :
      (pods : List (Pod q.Quantity)) (u v w : World) → Step pods u v → Step pods v w → Step pods u w
  Step-trans pods u v w h k = record {
    adds =
        (Adds-Preorder (FencedCall pods w)).transitive u v w
          (record {
            calls = h.adds.calls;
            added = h.adds.added;
            safe =
                All-map (λ call. FencedCall-later pods v w call k.still) h.adds.calls h.adds.safe;
          })
          k.adds;
    still = λ m d. k.still m (h.still m d);
  }

  pub Step-Preorder : (pods : List (Pod q.Quantity)) → Preorder (Step pods)
  Step-Preorder pods = record { reflexive = Step-refl pods; transitive = Step-trans pods }

  pub Step-more :
      (ps qs : List (Pod q.Quantity)) (v w : World)
      → ((p : Pod q.Quantity) → Memᴰ p ps → Memᴰ p qs)
      → Step ps v w
      → Step qs v w
  Step-more ps qs v w sub h = record {
    adds = record {
      calls = h.adds.calls;
      added = h.adds.added;
      safe = All-map (λ call. FencedCall-more ps qs w call sub) h.adds.calls h.adds.safe;
    };
    still = h.still;
  }

  pub Quiet-Step : (pods : List (Pod q.Quantity)) (v w : World) → Quiet v w → Step pods v w
  unfolding should_backup_before_restore
  Quiet-Step pods v w h = record {
    adds = record {
      calls = h.adds.calls;
      added = h.adds.added;
      safe = All-map (λ call f ns n e. absurd (f ns n e)) h.adds.calls h.adds.safe;
    };
    still = λ m d. rw h.demoted d;
  }
