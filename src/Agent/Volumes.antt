-- ===== src/Agent/Volumes.antt =====
-- internal/agent/agent.go: the directories of the volumes and of their shadows in a storage pool.
pub mod Inside
pub mod Places
pub mod Shadows
pub mod Apart
use simple_volume.Base.{Bool, true, false, not, ◌&&◌, ◌||◌, List, [], ◌∷◌, eqb, ◌==◌, if◌then◌else◌}
use simple_volume.Text.{Text, text_eq, codes, is_empty, trim, replace_char}
use simple_volume.Text.FilePath.{clean_path, join_path, is_inside}
use simple_volume.Agent.Paths.{safe_segment}

pub record Pool : Type 0 where
  pub name : Text
  pub path : Text

pub record VolumePath : Type 0 where
  pub pool : Pool
  pub namespace : Text
  pub name : Text
  pub generation : Text

-- A path, or the error of one of the checks.
pub data Resolved : Type 0 where
  resolved : Text → Resolved
  invalid_pool : Text → Resolved
  relative_required outside_pool : Resolved

unfoldable pub clean : Pool → Pool
unfolding clean_path
clean p = record { name = p.name; path = clean_path p.path }

unfoldable pub is_invalid_pool : Text → Bool
is_invalid_pool path = path == codes "." || path == codes "/" || path == []

-- The two functions join a relative path to the pool's and check where that leads.
unfoldable pub within_pool : Text → Text → Resolved
unfolding clean_path join_path is_inside
within_pool path rel =
    let full = clean_path (join_path (path ∷ rel ∷ [])) in
    if not (is_inside path full) then outside_pool else resolved full

unfoldable pub resolve_volume_path : VolumePath → Resolved
unfolding clean is_invalid_pool within_pool safe_segment join_path
resolve_volume_path v =
    let pool = clean v.pool in
    if is_invalid_pool pool.path
    then invalid_pool v.pool.path
    else within_pool pool.path (join_path (safe_segment v.namespace ∷ safe_segment v.name ∷ []))

unfoldable pub shadow_source_base_path : Text → Text → Text
unfolding safe_segment join_path
shadow_source_base_path namespace volume = join_path (
    codes ".simple-volume-shadows"
    ∷ safe_segment namespace
    ∷ safe_segment volume
    ∷ codes "current"
    ∷ codes "data"
    ∷ [])

unfoldable pub trim_slashes : Text → Text
unfolding trim replace_char
trim_slashes s = trim (λ c. eqb c b'/') (replace_char 0x5C b'/' s)

unfoldable pub resolve_pool_relative_path : Pool → Text → Resolved
unfolding clean is_invalid_pool within_pool trim_slashes is_empty
resolve_pool_relative_path p rel =
    let pool = clean p in
    let trimmed = trim_slashes rel in
    if is_invalid_pool pool.path
    then invalid_pool p.path
    else if is_empty trimmed
    then relative_required
    else within_pool pool.path trimmed

unfoldable pub resolve_shadow_path : Pool → Text → Text → Resolved
unfolding resolve_pool_relative_path shadow_source_base_path
resolve_shadow_path pool namespace volume =
    resolve_pool_relative_path pool (shadow_source_base_path namespace volume)
