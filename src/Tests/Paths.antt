-- ===== src/Tests/Paths.antt =====
-- Paths of volumes, shadows and events, and events of the same path.
use simple_volume.Base.{◌≡◌, refl, true, false, List, [], ◌∷◌, if◌then◌else◌}
use simple_volume.Text.{codes, text_eq}
use simple_volume.Text.FilePath.{clean_path, join_path, is_inside}
use simple_volume.Agent.Snapshot.{FileEvent, upsert, delete, other}
use simple_volume.Agent.Volumes.{
  Pool, VolumePath, resolved, invalid_pool, is_invalid_pool, resolve_volume_path,
  resolve_shadow_path,
}
use simple_volume.Agent.Volumes.Places.{volume_place, resolve_volume_path-volume_place}
use simple_volume.Agent.Volumes.Apart.{volumes_and_shadows_apart}
use simple_volume.Agent.Filter.{
  PathFilter, normalized, escapes_volume, normalize_event_path, should_replicate, should_traverse,
}
use simple_volume.Agent.Filter.Events.{normalize_event_path-is_inside}
use simple_volume.Agent.Coalesce.{coalesce_events}
use simple_volume.Agent.Coalesce.Laws.{counted, last_of_each, coalesce_events_lem}

abbrev pool : Pool
pool = record { name = codes "fast"; path = codes "/srv//pool/" }

abbrev volume : VolumePath
volume = record { pool = pool; namespace = codes "db"; name = codes "../data"; generation = [] }

volume_directory : resolve_volume_path volume ≡ resolved (codes "/srv/pool/db/data")
unfolding resolve_volume_path text_eq
volume_directory = refl

shadow_directory :
    resolve_shadow_path pool (codes "db") (codes "data")
    ≡ resolved (codes "/srv/pool/.simple-volume-shadows/db/data/current/data")
unfolding resolve_shadow_path text_eq
shadow_directory = refl

resolve_volume_path-volume_place_example : resolve_volume_path volume ≡ (
    if is_invalid_pool (clean_path volume.pool.path)
    then invalid_pool volume.pool.path
    else resolved (volume_place volume))
resolve_volume_path-volume_place_example = resolve_volume_path-volume_place volume

volumes_and_shadows_apart_example :
    (is_inside
        (codes "/srv/pool/db/data")
        (codes "/srv/pool/.simple-volume-shadows/db/data/current/data")
      ≡ false)
    × (is_inside
          (codes "/srv/pool/.simple-volume-shadows/db/data/current/data")
          (codes "/srv/pool/db/data")
        ≡ false)
volumes_and_shadows_apart_example =
    volumes_and_shadows_apart volume (codes "db") (codes "data") (codes "/srv/pool/db/data")
      (codes "/srv/pool/.simple-volume-shadows/db/data/current/data") volume_directory
      shadow_directory

valid_root : is_invalid_pool (clean_path (codes "/srv/pool")) ≡ false
unfolding is_invalid_pool clean_path text_eq
valid_root = refl

event_normalized : normalize_event_path (codes "/a/./../b\\c") ≡ normalized (codes "b/c")
unfolding normalize_event_path text_eq
event_normalized = refl

normalize_event_path-is_inside_example :
    is_inside
      (clean_path (codes "/srv/pool"))
      (join_path (clean_path (codes "/srv/pool") ∷ codes "b/c" ∷ []))
    ≡ true
normalize_event_path-is_inside_example =
    normalize_event_path-is_inside (codes "/srv/pool") (codes "/a/./../b\\c") (codes "b/c")
      valid_root event_normalized

event_escapes : normalize_event_path (codes "a/../../b") ≡ escapes_volume
unfolding normalize_event_path text_eq
event_escapes = refl

abbrev logs_only : PathFilter
logs_only = record {
  include_paths = codes "logs/*.txt" ∷ codes "data/**" ∷ [];
  exclude_paths = codes "data/tmp" ∷ [];
  prune_excluded = false;
}

replicates :
    (should_replicate logs_only (codes "logs/a.txt") ≡ true)
    × (should_replicate logs_only (codes "logs/old/a.txt") ≡ false)
    × (should_replicate logs_only (codes "data/x/y") ≡ true)
    × (should_replicate logs_only (codes "data/tmp/y") ≡ false)
    × (should_traverse logs_only (codes "logs") ≡ true)
unfolding should_replicate should_traverse text_eq
replicates = (refl, refl, refl, refl, refl)

-- A directory that only a star matches is not entered, though a file in it would be replicated.
abbrev starred : PathFilter
starred = record { include_paths = codes "*/a" ∷ []; exclude_paths = []; prune_excluded = false }

not_entered :
    (should_replicate starred (codes "x/a") ≡ true) × (should_traverse starred (codes "x") ≡ false)
unfolding should_replicate should_traverse text_eq
not_entered = (refl, refl)

abbrev events : List FileEvent
events =
    record { path = codes "data/x"; op = upsert }
    ∷ record { path = codes "data/y"; op = other [] }
    ∷ record { path = codes "etc"; op = upsert }
    ∷ record { path = codes "/data/x"; op = delete }
    ∷ []

coalesces :
    coalesce_events events logs_only
    ≡ record { path = codes "data/y"; op = upsert }
      ∷ record { path = codes "data/x"; op = delete }
      ∷ []
unfolding coalesce_events text_eq
coalesces = refl

coalesce_events_lem_example :
    coalesce_events events logs_only ≡ last_of_each (counted logs_only events)
coalesce_events_lem_example = coalesce_events_lem events logs_only
