-- ===== src/Controller/Api.antt =====
-- The calls of the Kubernetes API that a failover makes. The cluster answers each call from the
-- history of all calls before it, so two reads may differ, any write may fail, and other clients may
-- act in between.
pub mod Keeps
use simple_volume.Base.{Bool, List, [], ◌∷◌, Option, none, some}
use simple_volume.Base.Dict.{Dict}
use simple_volume.Text.{Text}
use simple_volume.Time.{Time}
use simple_volume.Controller.Kube.{Pod, Node, Pvc, Pv, Workload}
use simple_volume.Controller.Selection.{ReplicaFreshness}

pub data Call : Type 0 where
  list_claims list_nodes list_agents list_all_pods : Call
  list_pods : Text → Call
  list_deployments list_stateful_sets list_replica_sets list_daemon_sets : Text → Call
  get_claim : Text → Text → Call
  update_claim : Pvc → Call
  get_volume : Text → Call
  update_volume : Pv → Call
  -- The node and the labels to set, or to remove where there is no value.
  patch_node : Text → Dict Text (Option Text) → Call
  delete_pod : Text → Text → Call

pub data DeleteResult : Type 0 where
  deleted not_found delete_failed : DeleteResult

-- `none` and `false` are errors.
pub record Cluster (Q : Type 0) : Type 0 where
  pub nodes : List Call → Option (List (Node Q))
  pub pods : List Call → Call → Option (List (Pod Q))
  pub workloads : List Call → Call → Option (List Workload)
  pub claims : List Call → Option (List Pvc)
  pub claim : List Call → Text → Text → Option Pvc
  pub volume : List Call → Text → Option Pv
  pub written : List Call → Call → Bool
  pub deletion : List Call → Call → DeleteResult

-- `failover blocked` and `has no bound volume` are the errors that the controller makes itself.
pub data Error : Type 0 where
  api_error no_bound_volume failover_blocked : Error

pub data Result {ℓ} (A : Type ℓ) : Type ℓ where
  ok : A → Result A
  err : Error → Result A

-- The fields of `FailoverController` that change, with the calls made so far, the last one first.
pub record World : Type 0 where
  pub seen : Dict Text Time
  pub freshness : Dict Text (Dict Text ReplicaFreshness)
  pub demoted : Dict Text (List Text)
  pub history : List Call

abbrev pub M : Type 0 → Type 0
M A = World → Result A × World

abbrev pub resume : {A B : Type 0} → Result A → World → (A → M B) → Result B × World
resume (ok a) w f = f a w
resume (err e) w f = (err e, w)

infixl 5 ◌>>=◌ ◌>>◌
abbrev pub ◌>>=◌ : {A B : Type 0} → M A → (A → M B) → M B
◌>>=◌ m f w = resume (m w).0 (m w).1 f

abbrev pub ◌>>◌ : {B : Type 0} → M (Unit {0}) → M B → M B
m >> k = m >>= λ _. k

abbrev pub pure : {A : Type 0} → A → M A
pure a w = (ok a, w)

abbrev pub fail : {A : Type 0} → Error → M A
fail e w = (err e, w)

abbrev pub get : {A : Type 0} → (World → A) → M A
get f w = (ok (f w), w)

abbrev pub modify : (World → World) → M (Unit {0})
modify f w = (ok tt, f w)

-- A call is recorded, whether it succeeds or not.
unfoldable pub recorded : Call → World → World
recorded call w = record w { history = call ∷ w.history }

abbrev answer : {A : Type 0} → Option A → Result A
answer none = err api_error
answer (some a) = ok a

unfoldable pub ask : {A : Type 0} → Call → (List Call → Option A) → M A
unfolding recorded
ask call f w = (answer (f w.history), recorded call w)

unfoldable pub write : {Q : Type 0} → Cluster Q → Call → M (Unit {0})
unfolding recorded
write cluster call w = (
  elim (cluster.written w.history call) [ Bool.true ↦ ok tt | Bool.false ↦ err api_error ],
  recorded call w,
)

-- A pod that is gone already counts as deleted.
unfoldable pub delete : {Q : Type 0} → Cluster Q → Text → Text → M (Unit {0})
unfolding recorded
delete cluster namespace name w =
    let call = delete_pod namespace name in
    (
      elim (cluster.deletion w.history call) [
        | delete_failed ↦ err api_error
        | deleted ↦ ok tt
        | not_found ↦ ok tt
      ],
      recorded call w,
    )
