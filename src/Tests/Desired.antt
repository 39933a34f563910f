-- ===== src/Tests/Desired.antt =====
-- What is desired for one claim, and its active pod.
use simple_volume.Base.{
  ◌≡◌, refl, false, true, Bool, List, [], ◌∷◌, none, some, All, option_eq, sort, keep,
}
use simple_volume.Base.Dict.{get_or, lookup, insert}
use simple_volume.Base.Int.{ℤ, pos}
use simple_volume.Base.Sorting.{IsSorted}
use simple_volume.Text.{Text, codes, text_eq, to_lower, trim_space, is_empty, text_ltb, split}
use simple_volume.Controller.Kube.{Pod, Pvc, pending, running, phase_eq}
use simple_volume.Controller.Pods.{ready_condition}
use simple_volume.Controller.Annotations.{annotation_replication_enabled, annotation_active_node}
use simple_volume.Controller.Ownership.{empty_policy}
use simple_volume.Controller.Replication.{shadow, DesiredTarget, DesiredReplication}
use simple_volume.Controller.Desired.{
  Listing, before_replication, active_pod_for_pvc, desired_replications,
}
use simple_volume.Controller.Desired.Laws.{IsFrom, IsPlaced, desired_replications_lem}
use simple_volume.Controller.Desired.Pass.{Passed, sync_token, reconcile_pass}
use simple_volume.Controller.Desired.Pass.Effects.{
  machine_of, desired_with, PassResult, reconcile_pass_lem,
}
use simple_volume.Controller.Failover.Reconcile.{reconcile}
use simple_volume.Controller.Replication.Jobs.{Run, initial}
use simple_volume.Tests.Reconcile.{agents}
use simple_volume.Tests.Data.{ints, parse_ten_seconds, cluster, start, pod_on, claim}

-- The annotation names another node than that of the running pod.
abbrev replicated : Pvc
replicated = record claim {
  annotations =
      (annotation_replication_enabled, codes "yes") ∷ (annotation_active_node, codes "c") ∷ [];
}

abbrev agent_pods : List (Pod ℤ)
agent_pods =
    pod_on (codes "agent-c") (codes "c") running
    ∷ pod_on (codes "agent-a") (codes "a") running
    ∷ pod_on (codes "agent-d") (codes "d") pending
    ∷ pod_on (codes "agent-b") (codes "b") running
    ∷ []

abbrev young : Pod ℤ
young = record (pod_on (codes "young") (codes "b") running) { created = 2 }

abbrev old : Pod ℤ
old = pod_on (codes "old") (codes "a") running

abbrev listing : Listing ℤ
listing = record {
  claims = some (claim ∷ replicated ∷ []);
  agent_pods = some agent_pods;
  pods = λ _. some (young ∷ old ∷ []);
}

abbrev target_on : Text → DesiredTarget
target_on node = record { node = node; url = codes "http://10.0.0.1:8080"; token = codes "t" }

abbrev replication : DesiredReplication
replication = record {
  namespace = codes "db";
  claim_name = codes "data";
  volume = codes "pv";
  active_node = codes "a";
  source_url = codes "http://10.0.0.1:8081";
  targets = target_on (codes "b") ∷ target_on (codes "c") ∷ [];
  include_paths = [];
  exclude_paths = [];
  prune_excluded = false;
  required_paths = [];
  ownership = empty_policy;
  debounce = [];
  full_sync = false;
  full_schedule = [];
  consistency_mode = shadow;
  confirmed_replicas = pos 1;
}

lists : desired_replications (codes "simple") (codes "t") listing ≡ some (replication ∷ [])
unfolding desired_replications option_eq text_eq to_lower trim_space get_or lookup sort keep
    phase_eq ready_condition insert text_ltb split
lists = refl

desired_replications_lem_example :
    All
      (λ d. IsFrom (codes "simple") (claim ∷ replicated ∷ []) d × IsPlaced agent_pods (codes "t") d)
      (replication ∷ [])
    × IsSorted before_replication (replication ∷ [])
desired_replications_lem_example =
    desired_replications_lem (codes "simple") (codes "t") listing (claim ∷ replicated ∷ [])
      agent_pods (replication ∷ []) refl refl lists

oldest : active_pod_for_pvc (young ∷ old ∷ []) (codes "data") ≡ some old
unfolding active_pod_for_pvc sort keep phase_eq is_empty option_eq text_eq
oldest = refl

-- An error of any list is an error.
no_agents :
    desired_replications (codes "simple") (codes "t") (record listing { agent_pods = none }) ≡ none
unfolding desired_replications
no_agents = refl

abbrev idle : Passed
idle = record { progress = record { sync = initial.state; world = start; calls = [] }; jobs = [] }

abbrev passed : Bool × Passed
passed =
    reconcile_pass ints parse_ten_seconds (some cluster) agents (codes "simple") 10 (pos 3) (pos 0)
      (codes "2024-05-01") (some (codes " t\n")) listing idle

reconcile_pass_lem_example :
    Run (machine_of idle) (machine_of passed.1)
    × PassResult
        (desired_with (codes "simple") listing (sync_token (some (codes " t\n"))))
        (record idle {
          progress = record idle.progress {
            world = (reconcile ints parse_ten_seconds cluster (codes "simple") 10 start).1;
          };
        })
        passed
reconcile_pass_lem_example =
    reconcile_pass_lem ints parse_ten_seconds cluster agents (codes "simple") 10 (pos 3) (pos 0)
      (codes "2024-05-01") (some (codes " t\n")) listing idle

-- The watch of the volume is started, and its active node is put down.
starts_watch :
    (passed.0 ≡ true) × (passed.1.progress.sync.last_active_node ≡ (codes "db/pv", codes "a") ∷ [])
unfolding reconcile_pass is_empty trim_space option_eq text_eq to_lower lookup sort keep phase_eq
    ready_condition insert text_ltb
starts_watch = (refl, refl)

-- Without a token nothing is reconciled.
no_token :
    (reconcile_pass ints parse_ten_seconds none agents
      (codes "simple")
      10
      (pos 3)
      (pos 0)
      (codes "2024-05-01")
      (some (codes " "))
      listing
      idle)
    ≡ (false, idle)
unfolding reconcile_pass trim_space
no_token = refl
