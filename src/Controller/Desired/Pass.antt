-- ===== src/Controller/Desired/Pass.antt =====
-- `Reconcile` of internal/controller/replication_controller.go: the failover, the token, and the
-- reconciliation of all that is desired, while nothing else changes the maps between their locks.
pub mod Effects
use simple_volume.Base.{Bool, true, false, List, [], ◌∷◌, Option, none, some, if◌then◌else◌}
use simple_volume.Base.Int.{ℤ}
use simple_volume.Text.{Text, is_empty, trim_space}
use simple_volume.Time.{Time}
use simple_volume.Controller.Kube.{Quantities}
use simple_volume.Controller.Api.{Cluster, World}
use simple_volume.Controller.Failover.Reconcile.{reconcile}
use simple_volume.Controller.Replication.{DesiredReplication}
use simple_volume.Controller.Replication.Jobs.{Job, Machine, Run, done}
use simple_volume.Controller.Replication.Reconcile.{WatchAgents, Progress, reconcile_one}
use simple_volume.Controller.Replication.Reconcile.Runs.{with_job, Run-append, reconcile_one-Run}
use simple_volume.Controller.Desired.{Listing, desired_replications}

-- `syncToken`: the value of the secret's key, and `none` for an error or an empty token.
unfoldable pub sync_token : Option Text → Option Text
sync_token none = none
sync_token (some value) = if is_empty (trim_space value) then none else some (trim_space value)

-- The maps and the full syncs in the background.
pub record Passed : Type 0 where
  pub progress : Progress
  pub jobs : List Job

module _ (agents : WatchAgents) (hour minute : ℤ) (today : Text) where
  -- The loop over what is desired. An error of one does not end it.
  unfoldable pub reconcile_desired : List DesiredReplication → Passed → Passed
  unfolding reconcile_one
  reconcile_desired [] p = p
  reconcile_desired (d ∷ ds) p =
      let r = reconcile_one agents d hour minute today p.progress in
      reconcile_desired ds (record { progress = r.progress; jobs = with_job r.job p.jobs })

  unfoldable pub reconcile_found : Option (List DesiredReplication) → Passed → Bool × Passed
  unfolding reconcile_desired
  reconcile_found none p = (false, p)
  reconcile_found (some ds) p = (true, reconcile_desired ds p)

  unfoldable pub reconcile_with_token :
      {Q : Type 0} → Text → Listing Q → Option Text → Passed → Bool × Passed
  unfolding reconcile_found desired_replications
  reconcile_with_token storage_class listing none p = (false, p)
  reconcile_with_token storage_class listing (some token) p =
      reconcile_found (desired_replications storage_class token listing) p

module _ (q : Quantities) (parse_duration : Text → Option ℤ) where
  -- Without a failover controller nothing happens. Its error is only logged.
  unfoldable pub failed_over : Option (Cluster q.Quantity) → Text → Time → World → World
  unfolding reconcile
  failed_over none storage_class now w = w
  failed_over (some cluster) storage_class now w =
      (reconcile q parse_duration cluster storage_class now w).1

  -- Whether `Reconcile` returns without an error, and what it leaves.
  unfoldable pub reconcile_pass :
      Option (Cluster q.Quantity)
      → WatchAgents
      → Text
      → Time
      → ℤ
      → ℤ
      → Text
      → Option Text
      → Listing q.Quantity
      → Passed
      → Bool × Passed
  unfolding failed_over sync_token reconcile_with_token
  reconcile_pass failover agents storage_class now hour minute today secret listing p =
      reconcile_with_token agents hour minute today storage_class listing (sync_token secret)
        (record p {
          progress = record p.progress {
            world = failed_over failover storage_class now p.progress.world;
          };
        })
