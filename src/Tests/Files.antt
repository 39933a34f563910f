-- ===== src/Tests/Files.antt =====
-- Owners of files, and differences of snapshots.
use simple_volume.Base.{◌≡◌, refl, ℕ, [], ◌∷◌, none, some, sort, keep, option_eq}
use simple_volume.Base.Dict.{lookup, keys, get_or, has_key}
use simple_volume.Base.Int.{ℤ, pos}
use simple_volume.Text.{codes, text_eq, text_ltb}
use simple_volume.Controller.Kube.{Pod, running}
use simple_volume.Controller.Replication.{OwnershipPolicy}
use simple_volume.Controller.Ownership.{empty_policy, claim_volume_names, infer_ownership_from_pod}
use simple_volume.Controller.Ownership.Laws.{first_owner, infer_ownership_from_pod_lem}
use simple_volume.Agent.Snapshot.{
  WatchedFileState, Snapshot, upsert, delete, diff_watched_snapshots,
}
use simple_volume.Agent.Snapshot.Replay.{replay, replay-diff_watched_snapshots}
use simple_volume.Agent.Paths.{safe_segment}
use simple_volume.Agent.Paths.Laws.{Segment, safe_segment-Segment}
use simple_volume.Tests.Data.{pod_on}

-- The user is the pod's, and the group is its `FSGroup`.
abbrev owned_pod : Pod ℤ
owned_pod = record (pod_on (codes "p") (codes "a") running) {
  security_context =
      some
        (record { run_as_user = some (pos 1000); run_as_group = none; fs_group = some (pos 2000) });
}

infer_ownership_from_pod_lem_example :
    infer_ownership_from_pod owned_pod (codes "data")
    ≡ first_owner owned_pod (claim_volume_names owned_pod.volumes (codes "data"))
infer_ownership_from_pod_lem_example = infer_ownership_from_pod_lem owned_pod (codes "data")

infers :
    infer_ownership_from_pod owned_pod (codes "data")
    ≡ record empty_policy { uid = some (pos 1000); gid = some (pos 2000) }
unfolding infer_ownership_from_pod option_eq text_eq
infers = refl

abbrev with_mode : OwnershipPolicy
with_mode = record empty_policy { file_mode = some 0o644 }

abbrev with_user : OwnershipPolicy
with_user = record empty_policy { uid = some (pos 7) }

abbrev file_of : ℕ → WatchedFileState
file_of size = record { size = pos size; mode = 420; mod_time = pos 5; link = [] }

abbrev before : Snapshot
before = (codes "a", file_of 1) ∷ (codes "b", file_of 2) ∷ []

abbrev later : Snapshot
later = (codes "c", file_of 3) ∷ (codes "a", file_of 9) ∷ []

events :
    diff_watched_snapshots before later
    ≡ record { path = codes "a"; op = upsert }
      ∷ record { path = codes "b"; op = delete }
      ∷ record { path = codes "c"; op = upsert }
      ∷ []
unfolding diff_watched_snapshots sort keep keys get_or lookup text_eq has_key text_ltb
events = refl

not_zero : ¬ (
    (lookup (codes "c") before ≡ none)
    × (lookup (codes "c") later
        ≡ some (record { size = pos 0; mode = 0; mod_time = pos 0; link = [] })))
unfolding lookup text_eq
not_zero h = cc (h.1)

replay-diff_watched_snapshots_example :
    lookup (codes "c") (replay later (diff_watched_snapshots before later) before)
    ≡ lookup (codes "c") later
replay-diff_watched_snapshots_example =
    replay-diff_watched_snapshots before later (codes "c") not_zero

safe_segment-Segment_example : Segment (safe_segment (codes "../a/b"))
safe_segment-Segment_example = safe_segment-Segment (codes "../a/b")

stays_inside : safe_segment (codes "../a/b") ≡ codes "a-b"
unfolding safe_segment
stays_inside = refl
