-- ===== src/Tests/Data.antt =====
-- A small cluster: quantities are integers, and every call of the API has a fixed answer.
use simple_volume.Base.{zero, suc, ◌+◌, ◌*◌, true, List, [], ◌∷◌, Option, none, some}
use simple_volume.Base.Dict.{Dict}
use simple_volume.Base.Int.{ℤ, pos, negsuc, sub_ℕ, ltb_ℤ, eqb_ℤ}
use simple_volume.Text.{Text, codes}
use simple_volume.Time.{Time, second}
use simple_volume.Controller.Kube.{Quantities, Pod, Pvc, PodPhase, pending, running, cpu}
use simple_volume.Controller.Annotations.{
  annotation_failover_enabled, annotation_failover_grace_period, annotation_failover_max_staleness,
  annotation_active_node,
}
use simple_volume.Controller.Selection.{ReplicaFreshness, Circumstances, FailoverCandidate}
use simple_volume.Controller.Failover.Reconcile.{Snapshot}
use simple_volume.Controller.Api.{Cluster, World, deleted}

abbrev pub add_int : ℤ → ℤ → ℤ
add_int (pos a) (pos b) = pos (a + b)
add_int (pos a) (negsuc b) = sub_ℕ a (suc b)
add_int (negsuc a) (pos b) = sub_ℕ b (suc a)
add_int (negsuc a) (negsuc b) = negsuc (suc (a + b))

abbrev pub opposite : ℤ → ℤ
opposite (pos zero) = pos 0
opposite (pos (suc a)) = negsuc a
opposite (negsuc a) = pos (suc a)

abbrev pub ints : Quantities
ints = record {
  Quantity = ℤ;
  zero_quantity = pos 0;
  add = add_int;
  sub = λ a b. add_int a (opposite b);
  less = ltb_ℤ;
  is_zero = λ a. eqb_ℤ a (pos 0);
}

abbrev pub pod_on : Text → Text → PodPhase → Pod ℤ
pod_on name node phase = record {
  namespace = codes "db";
  name = name;
  created = 1;
  node_name = node;
  volumes = record { name = codes "data"; claim = some (codes "data") } ∷ [];
  containers =
      record { requests = (cpu, pos 2) ∷ []; security_context = none; mounts = codes "data" ∷ [] }
      ∷ [];
  init_containers = [];
  security_context = none;
  phase = phase;
  pod_ip = codes "10.0.0.1";
  conditions = record { is_ready = true; is_true = true } ∷ [];
}

abbrev pub claim : Pvc
claim = record {
  namespace = codes "db";
  name = codes "data";
  annotations =
      (annotation_failover_enabled, codes "true")
      ∷ (annotation_failover_grace_period, codes "10s")
      ∷ (annotation_failover_max_staleness, codes "10s")
      ∷ (annotation_active_node, codes "a")
      ∷ [];
  storage_class = some (codes "simple");
  volume_name = codes "pv";
}

-- The claim's pod is pending on the node `a`, which is not ready.
abbrev pub stuck_pods : List (Pod ℤ)
stuck_pods = pod_on (codes "p") (codes "a") pending ∷ []

abbrev pub agents : Dict Text (Pod ℤ)
agents =
    (codes "b", pod_on (codes "agent-b") (codes "b") running)
    ∷ (codes "c", pod_on (codes "agent-c") (codes "c") running)
    ∷ []

abbrev pub swapped_agents : Dict Text (Pod ℤ)
swapped_agents =
    (codes "c", pod_on (codes "agent-c") (codes "c") running)
    ∷ (codes "b", pod_on (codes "agent-b") (codes "b") running)
    ∷ []

abbrev pub synced_at : Time → ReplicaFreshness
synced_at t = record { last_successful_sync = t; healthy = true }

abbrev pub circumstances_now : Circumstances ints
circumstances_now = record {
  pods = stuck_pods;
  ready_nodes = codes "b" ∷ codes "c" ∷ [];
  freshness = (codes "b", synced_at 5) ∷ (codes "c", synced_at 7) ∷ [];
  demoted = [];
  max_staleness = pos 100;
  now = 10;
  requests = (cpu, pos 2) ∷ [];
  available = (codes "b", (cpu, pos 4) ∷ []) ∷ (codes "c", (cpu, pos 3) ∷ []) ∷ [];
}

abbrev pub candidates : List FailoverCandidate
candidates =
    record { node = codes "b"; freshness = synced_at 5 }
    ∷ record { node = codes "c"; freshness = synced_at 7 }
    ∷ []

abbrev pub snapshot : Snapshot ints
snapshot = record {
  agents = agents;
  ready_nodes = codes "b" ∷ codes "c" ∷ [];
  available = (codes "b", (cpu, pos 4) ∷ []) ∷ (codes "c", (cpu, pos 3) ∷ []) ∷ [];
}

abbrev pub cluster : Cluster ℤ
cluster = record {
  nodes = λ _. some [];
  pods = λ _ _. some stuck_pods;
  workloads = λ _ _. some [];
  claims = λ _. some (claim ∷ []);
  claim = λ _ _ _. some claim;
  volume = λ _ name. some (record { name = name; annotations = [] });
  written = λ _ _. true;
  deletion = λ _ _. deleted;
}

-- The failover controller at its start.
abbrev pub start : World
start = record {
  seen = [];
  freshness = (codes "db/pv", (codes "b", synced_at 5) ∷ (codes "c", synced_at 7) ∷ []) ∷ [];
  demoted = [];
  history = [];
}

-- Every duration is ten seconds.
abbrev pub parse_ten_seconds : Text → Option ℤ
parse_ten_seconds s = some (pos (10 * second))
