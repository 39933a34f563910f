-- ===== src/Agent/Volumes/Places.antt =====
-- Where the directories of volumes and of shadows are.
use simple_volume.Base.{
  ◌≡◌, refl, ◌≢◌, ◌∙◌, inl, inr, false, List, [], ◌∷◌, ◌++◌, Bool-cases, All, if◌then◌else◌,
}
use simple_volume.Text.{Text, text_eq, codes, join, is_empty}
use simple_volume.Text.FilePath.{print_path, clean_path, join_path}
use simple_volume.Text.FilePath.Laws.{IsName}
use simple_volume.Text.FilePath.Joins.{clean_path-print_path}
use simple_volume.Agent.Paths.{safe_segment}
use simple_volume.Agent.Paths.Laws.{safe_segment-Segment}
use simple_volume.Agent.Volumes.{
  VolumePath, resolved, invalid_pool, clean, is_invalid_pool, within_pool, resolve_volume_path,
}
use simple_volume.Agent.Volumes.Inside.{Segment-IsName, within_pool_of_names}

pub segment-IsName : (s : Text) → IsName (safe_segment s)
segment-IsName s = Segment-IsName (safe_segment s) (safe_segment-Segment s)

join_path_lem :
    (part : Text) (parts : List Text)
    → part ≢ []
    → join_path (part ∷ parts) ≡ clean_path (join (codes "/") (part ∷ parts))
unfolding join_path is_empty
join_path_lem [] parts h = absurd (h refl)
join_path_lem (c ∷ part) parts h = refl

pub join_path_of_names :
    (name : Text) (names : List Text)
    → All IsName (name ∷ names)
    → join_path (name ∷ names) ≡ print_path false (name ∷ names)
unfolding print_path
join_path_of_names name names h =
    join_path_lem name names h.0.1 ∙ clean_path-print_path false (name ∷ names) (inl h)

-- The directory of a volume: the pool's path, the segment of the namespace and that of the name.
unfoldable pub volume_place : VolumePath → Text
unfolding clean_path safe_segment join
volume_place v =
    clean_path v.pool.path
    ++ b'/' ∷ join (codes "/") (safe_segment v.namespace ∷ safe_segment v.name ∷ [])

resolve_volume_path_lem :
    (v : VolumePath)
    → resolve_volume_path v ≡ (
        if is_invalid_pool (clean_path v.pool.path)
        then invalid_pool v.pool.path
        else within_pool
            (clean_path v.pool.path)
            (join_path (safe_segment v.namespace ∷ safe_segment v.name ∷ [])))
unfolding resolve_volume_path clean
resolve_volume_path_lem v = refl

-- The directory of a volume is refused exactly when the path of the pool, cleaned, is ".", "/" or empty.
-- Otherwise it is the pool's path, the segment of the namespace and that of the name, whatever these
-- are called: the check that it lies in the pool never fails.
pub resolve_volume_path-volume_place :
    (v : VolumePath)
    → resolve_volume_path v ≡ (
        if is_invalid_pool (clean_path v.pool.path)
        then invalid_pool v.pool.path
        else resolved (volume_place v))
unfolding volume_place
resolve_volume_path-volume_place v = elim (Bool-cases (is_invalid_pool (clean_path v.pool.path))) [
  | inl e ↦ rw (resolve_volume_path_lem v, e) refl
  | inr e ↦
      let names : All IsName (safe_segment v.namespace ∷ safe_segment v.name ∷ []) =
        (segment-IsName v.namespace, (segment-IsName v.name, tt)) in
      rw
        (
          resolve_volume_path_lem v,
          e,
          join_path_of_names (safe_segment v.namespace) (safe_segment v.name ∷ []) names,
        )
        (within_pool_of_names v.pool.path false (safe_segment v.namespace)
          (safe_segment v.name ∷ []) e names)
]
