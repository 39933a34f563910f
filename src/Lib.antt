-- ===== src/Lib.antt =====
-- simple-volume: node-local Kubernetes volumes that an agent on each node replicates to the other
-- nodes, and controllers that choose where a volume is active.
--
-- Files and what they model (paths from the repository's root):
-- - Controller/Kube, Controller/Api: the objects and the calls of the Kubernetes API. A call is
--   answered by an interface, `Cluster`, from the history of all calls before it, so any read may
--   return anything, any write may fail, and two reads may differ. A method that talks to the API is
--   a function from `World` (the fields of `FailoverController` and the calls made so far) to a
--   result and a new `World`.
-- - Controller/Failover, with Storage and Reconcile: internal/controller/failover_controller.go.
--   `record_replica_freshness`, `mark_restored`, ... are the methods on the maps, `reconcile` is
--   `Reconcile`, and `reconcile_pvc` is `reconcilePVC`, cut at its tests into `reconcile_pods`,
--   `reconcile_candidates`, `reconcile_active`, `after_grace`, `wait_for_grace`, `promote` and
--   `promote_to`.
-- - Controller/Selection: `failoverCandidates` and `SelectFailoverTargetFromCandidates`.
-- - Controller/Resources, Controller/Pods, Controller/Annotations: what the failover reads of nodes,
--   pods and annotations, with helpers from internal/controller/replication_controller.go.
-- - Controller/Promotion: internal/controller/promotion.go.
-- - Controller/Provision: internal/controller/provision.go and internal/csi/controller.go.
-- - Controller/Replication: internal/controller/replication_controller.go. `full_sync_targets` is
--   `fullSyncTargets` against agents whose answers are an interface; Replication/Syncs has the maps
--   of `ReplicationController` and the methods on them; Replication/Jobs has the full syncs that run
--   in the background (`runFullSync` with the completions of `TriggerFullSync` and `reconcileOne`) as
--   a step relation, so a run is any interleaving of them. Replication/Reconcile has `reconcile_one`
--   and `trigger_full_sync`, while nothing else changes the maps between their locks.
-- - Controller/Desired: the same file, `DesiredReplications` with `activePodForPVC`, over the answers
--   of the API server; Desired/Pass has `Reconcile` and `syncToken`.
-- - Controller/Signature: the same file, `signature` and `ownershipSignature`.
-- - Controller/Options: the same file, the options of a replication, its schedule, and the freshness
--   that a watch reports.
-- - Controller/Ownership: the same file, who owns the replicated files.
-- - Agent/Paths, Agent/Volumes: internal/agent/agent.go, `safeSegment`, `ResolveVolumePath` and the
--   directories of the shadows.
-- - Agent/Filter, Agent/Coalesce: internal/agent/replication.go, the paths of events, `PathFilter` and
--   `CoalesceEvents`.
-- - Agent/Watches: internal/agent/watch_manager.go. `start` and `stop` are `Start` and `Stop`;
--   Watches/Sink has the sink of `run` and the `record…` functions, which a batch calls in the order
--   of `batch_reports`; Watches/Life has all starts, stops and reports as a step relation. A number,
--   new for each watch, stands for its pointer.
-- - Agent/Snapshot: internal/agent/watch.go, `diffWatchedSnapshots`.
-- - Controller/Labels: internal/controller/labels.go.
-- - Base, Text, Time: lists, maps, integers, strings and times of Go. Text/FilePath has `Clean` and
--   `Join` of path/filepath, Text/Glob has `path.Match`.
-- - Tests: the theorems at concrete data, and runs of the definitions.
--
-- A Go map is an association list with a lookup that returns the first entry; a map that is gone
-- through is taken in any order. Strings are lists of code points, and are taken to be valid UTF-8.
-- A time is the number of nanoseconds since the zero time, and a difference of times is cut to the
-- range of int64 as `Time.Sub` does. Every loop is
-- structural recursion, except the printing of a number, which has one more unit of fuel than the
-- number, and a number has no more digits than that.
--
-- Parameters: `resource.Quantity` (an interface of operations), the answers of the API,
-- `time.ParseDuration`, the answers of the agents and of the targets of a watch, and
-- `ApplyShadowEventBatch`.
--
-- Not modelled: logging, the mutexes (each method that locks is one step), background full syncs that
-- report between the locks of one `reconcilePVC` or `reconcileOne`, the rest of the agents (the rclone
-- commands, the archives, the HTTP handlers and the file system calls), the CSI server, the
-- command line and the deployment files.
pub mod Base
pub mod Text
pub mod Time
pub mod Controller
pub mod Agent
pub mod Tests
