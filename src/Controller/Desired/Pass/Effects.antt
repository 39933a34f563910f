-- ===== src/Controller/Desired/Pass/Effects.antt =====
-- What a pass of the controller does.
use simple_volume.Base.{
  ◌≡◌, refl, ◌∙◌, ap, Bool, true, false, List, [], ◌∷◌, Option, none, some, if◌then◌else◌, ◌==◌,
}
use simple_volume.Base.Dict.{get_or, get_or-insert}
use simple_volume.Base.Int.{ℤ}
use simple_volume.Text.{Text, text_eq}
use simple_volume.Time.{Time}
use simple_volume.Controller.Kube.{Quantities}
use simple_volume.Controller.Api.{Cluster}
use simple_volume.Controller.Failover.Reconcile.{reconcile}
use simple_volume.Controller.Replication.{DesiredReplication}
use simple_volume.Controller.Replication.Restore.{besides_freshness}
use simple_volume.Controller.Replication.Jobs.{Machine, Run, done}
use simple_volume.Controller.Replication.Reconcile.{WatchAgents, replication_key}
use simple_volume.Controller.Replication.Reconcile.Runs.{Run-append, reconcile_one-Run}
use simple_volume.Controller.Replication.Reconcile.Marks.{fixed-reconcile_one}
use simple_volume.Controller.Desired.{Listing, desired_replications}
use simple_volume.Controller.Desired.Pass.{
  Passed, sync_token, reconcile_desired, reconcile_found, reconcile_with_token, failed_over,
  reconcile_pass,
}

abbrev pub machine_of : Passed → Machine
machine_of p = record { state = p.progress.sync; jobs = p.jobs }

module _ (agents : WatchAgents) (hour minute : ℤ) (today : Text) where
  reconcile_desired-Run :
      (ds : List DesiredReplication) (p : Passed)
      → Run (machine_of p) (machine_of (reconcile_desired agents hour minute today ds p))
  unfolding reconcile_desired
  reconcile_desired-Run [] p = done
  reconcile_desired-Run (d ∷ ds) p =
      Run-append (reconcile_one-Run agents d p.jobs hour minute today p.progress)
        (reconcile_desired-Run ds _)

  reconcile_found-Run :
      (ds : Option (List DesiredReplication)) (p : Passed)
      → Run (machine_of p) (machine_of (reconcile_found agents hour minute today ds p).1)
  unfolding reconcile_found
  reconcile_found-Run none p = done
  reconcile_found-Run (some ds) p = reconcile_desired-Run ds p

  reconcile_with_token-Run :
      {Q : Type 0} (storage_class : Text) (listing : Listing Q) (token : Option Text) (p : Passed)
      → Run (machine_of p) (
          machine_of
            (reconcile_with_token agents hour minute today storage_class listing token p).1)
  unfolding reconcile_with_token
  reconcile_with_token-Run storage_class listing none p = done
  reconcile_with_token-Run storage_class listing (some token) p =
      reconcile_found-Run (desired_replications storage_class token listing) p

reconcile_pass-Run :
    (q : Quantities) (parse_duration : Text → Option ℤ) (failover : Option (Cluster q.Quantity))
    (agents : WatchAgents) (storage_class : Text) (now : Time) (hour minute : ℤ) (today : Text)
    (secret : Option Text) (listing : Listing q.Quantity) (p : Passed)
    → Run (machine_of p) (
        machine_of
          (reconcile_pass q parse_duration failover agents storage_class now hour minute today
            secret listing p).1)
unfolding reconcile_pass
reconcile_pass-Run q parse_duration failover agents storage_class now hour minute today secret
      listing p =
    reconcile_with_token-Run agents hour minute today storage_class listing (sync_token secret) _

-- The node that is known for a key after what is desired has been gone through.
abbrev pub noted_by : List DesiredReplication → Text → Text → Text
noted_by [] key before = before
noted_by (d ∷ ds) key before =
    noted_by ds key (if key == replication_key d then d.active_node else before)

-- What is desired, if there is a token and the API server answers.
abbrev pub desired_with :
    {Q : Type 0} → Text → Listing Q → Option Text → Option (List DesiredReplication)
desired_with storage_class listing none = none
desired_with storage_class listing (some token) = desired_replications storage_class token listing

-- With nothing to go through, an error, and nothing has changed. Otherwise the active node of each
-- volume that is desired is known, the other nodes are as they were, and of the failover's state only
-- freshness has changed.
abbrev pub PassResult : Option (List DesiredReplication) → Passed → Bool × Passed → Type 0
PassResult none p r = (r.0 ≡ false) × (r.1 ≡ p)
PassResult (some ds) p r =
    (r.0 ≡ true)
    × (besides_freshness r.1.progress.world ≡ besides_freshness p.progress.world)
    × ((key : Text)
        → get_or [] key r.1.progress.sync.last_active_node
          ≡ noted_by ds key (get_or [] key p.progress.sync.last_active_node))

module _ (agents : WatchAgents) (hour minute : ℤ) (today : Text) where
  reconcile_desired-besides :
      (ds : List DesiredReplication) (p : Passed)
      → besides_freshness (reconcile_desired agents hour minute today ds p).progress.world
        ≡ besides_freshness p.progress.world
  unfolding reconcile_desired
  reconcile_desired-besides [] p = refl
  reconcile_desired-besides (d ∷ ds) p =
      reconcile_desired-besides ds _
      ∙ ap (λ k. (k.0, k.1, k.2)) (fixed-reconcile_one agents d hour minute today p.progress)

  reconcile_desired-noted :
      (ds : List DesiredReplication) (p : Passed) (key : Text)
      → get_or [] key
          (reconcile_desired agents hour minute today ds p).progress.sync.last_active_node
        ≡ noted_by ds key (get_or [] key p.progress.sync.last_active_node)
  unfolding reconcile_desired
  reconcile_desired-noted [] p key = refl
  reconcile_desired-noted (d ∷ ds) p key =
      reconcile_desired-noted ds _ key
      ∙ ap (noted_by ds key) (
          ap (λ k. get_or [] key k.3) (fixed-reconcile_one agents d hour minute today p.progress)
          ∙ get_or-insert [] key (replication_key d) d.active_node p.progress.sync.last_active_node)

  reconcile_found-PassResult :
      (ds : Option (List DesiredReplication)) (p : Passed)
      → PassResult ds p (reconcile_found agents hour minute today ds p)
  unfolding reconcile_found
  reconcile_found-PassResult none p = (refl, refl)
  reconcile_found-PassResult (some ds) p =
      (refl, reconcile_desired-besides ds p, reconcile_desired-noted ds p)

  reconcile_with_token-PassResult :
      {Q : Type 0} (storage_class : Text) (listing : Listing Q) (token : Option Text) (p : Passed)
      → PassResult
          (desired_with storage_class listing token)
          p
          (reconcile_with_token agents hour minute today storage_class listing token p)
  unfolding reconcile_with_token
  reconcile_with_token-PassResult storage_class listing none p = (refl, refl)
  reconcile_with_token-PassResult storage_class listing (some token) p =
      reconcile_found-PassResult (desired_replications storage_class token listing) p

-- Whatever the API server and the agents answer, from any state with any full syncs in the
-- background, what `Reconcile` does to the maps of the full syncs, with all full syncs that it starts,
-- is a run of the machine of the full syncs. It returns an error exactly where there is no token or
-- `DesiredReplications` fails, and then has changed only what the failover has. Otherwise every
-- replication that is desired has been gone through: the active node that is known for each key is that
-- of the last one with the key, or else the one before; and marks of demoted nodes, calls of the API and
-- times at which claims were seen are those that the failover has left.
pub reconcile_pass_lem :
    (q : Quantities) (parse_duration : Text → Option ℤ) (cluster : Cluster q.Quantity)
    (agents : WatchAgents) (storage_class : Text) (now : Time) (hour minute : ℤ) (today : Text)
    (secret : Option Text) (listing : Listing q.Quantity) (p : Passed)
    → (let r =
          reconcile_pass q parse_duration
            (some cluster)
            agents
            storage_class
            now
            hour
            minute
            today
            secret
            listing
            p in
        Run (machine_of p) (machine_of r.1)
        × PassResult
            (desired_with storage_class listing (sync_token secret))
            (record p {
              progress = record p.progress {
                world = (reconcile q parse_duration cluster storage_class now p.progress.world).1;
              };
            })
            r)
unfolding reconcile_pass failed_over
reconcile_pass_lem q parse_duration cluster agents storage_class now hour minute today secret
      listing p =
    (
      reconcile_pass-Run q parse_duration (some cluster) agents storage_class now hour minute today
          secret listing p,
      reconcile_with_token-PassResult agents hour minute today storage_class listing
          (sync_token secret) _,
    )
