-- ===== src/Controller/Failover.antt =====
-- internal/controller/failover_controller.go: the state of `FailoverController` and its methods.
-- A map to `bool` that only ever holds `true` is the list of its keys.
pub mod Storage
pub mod Reconcile
pub mod Quiet
pub mod Grace
pub mod Fencing
pub mod Eviction
use simple_volume.Base.{
  ℕ, Bool, true, false, not, ◌&&◌, ◌||◌, List, [], ◌∷◌, Option, none, some, ◌==◌, if◌then◌else◌,
  contains, keep,
}
use simple_volume.Base.Dict.{Dict, lookup, get_or, insert, erase}
use simple_volume.Text.{Text, text_eq, is_empty}
use simple_volume.Time.{Time, is_zero_time}
use simple_volume.Controller.Kube.{Pvc}
use simple_volume.Controller.Annotations.{volume_key}
use simple_volume.Controller.Selection.{ReplicaFreshness}
use simple_volume.Controller.Api.{World}

unfoldable pub record_replica_freshness : Text → Text → Text → Time → Bool → World → World
record_replica_freshness namespace volume node last_successful_sync healthy w =
    if is_empty volume || is_empty node || is_zero_time last_successful_sync
    then w
    else let key = volume_key namespace volume in
      let replica : ReplicaFreshness = record {
        last_successful_sync = last_successful_sync;
        healthy = healthy;
      } in
      record w {
        freshness = insert key (insert node replica (get_or [] key w.freshness)) w.freshness;
      }

unfoldable pub should_backup_before_restore : Text → Text → Text → World → Bool
should_backup_before_restore namespace volume node w =
    contains (get_or [] (volume_key namespace volume) w.demoted) node

unfoldable pub mark_restored : Text → Text → Text → World → World
mark_restored namespace volume node w =
    let key = volume_key namespace volume in
    elim (lookup key w.demoted) [
      | none ↦ w
      | some nodes ↦ elim (keep (λ n. not (n == node)) nodes) [
        | [] ↦ record w { demoted = erase key w.demoted }
        | n ∷ ns ↦ record w { demoted = insert key (n ∷ ns) w.demoted }
      ]
    ]

unfoldable pub freshness_for_pvc : Pvc → World → Dict Text ReplicaFreshness
freshness_for_pvc pvc w = get_or [] (volume_key pvc.namespace pvc.volume_name) w.freshness

unfoldable pub demoted_for_pvc : Pvc → World → List Text
demoted_for_pvc pvc w = get_or [] (volume_key pvc.namespace pvc.volume_name) w.demoted

-- A set has an entry once.
unfoldable pub add_entry : Text → List Text → List Text
add_entry node nodes = if contains nodes node then nodes else node ∷ nodes

unfoldable pub record_demoted : Pvc → Text → World → World
record_demoted pvc node w =
    if is_empty node || is_empty pvc.volume_name
    then w
    else let key = volume_key pvc.namespace pvc.volume_name in
      record w { demoted = insert key (add_entry node (get_or [] key w.demoted)) w.demoted }
