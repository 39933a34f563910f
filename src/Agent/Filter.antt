-- ===== src/Agent/Filter.antt =====
-- internal/agent/replication.go: the paths of events, and the filter of the paths that are replicated.
pub mod Events
use simple_volume.Base.{
  ℕ, ◌+◌, Bool, true, false, not, ◌&&◌, ◌||◌, List, [], ◌∷◌, ◌++◌, Option, none, some, ltb, eqb,
  ◌==◌, if◌then◌else◌, any, take, length,
}
use simple_volume.Text.{
  Text, text_eq, codes, is_empty, trim, trim_space, has_prefix, has_suffix, trim_prefix,
  trim_suffix, replace_char, index, last_index,
}
use simple_volume.Text.FilePath.{clean_path, is_inside}
use simple_volume.Text.Glob.{path_match}
use simple_volume.Agent.Volumes.{trim_slashes}

-- A path, or the error.
pub data EventPath : Type 0 where
  normalized : Text → EventPath
  empty_path escapes_volume : EventPath

-- `NormalizeEventPath` once the path is cleaned.
unfoldable pub check_clean : Text → EventPath
unfolding has_prefix
check_clean clean =
    if clean == codes "." || clean == []
    then empty_path
    else if has_prefix clean (codes "../") || clean == codes ".."
    then escapes_volume
    else normalized clean

-- What `NormalizeEventPath` cleans.
unfoldable pub event_text : Text → Text
unfolding trim_space replace_char trim_prefix
event_text p = trim_prefix (trim_space (replace_char 0x5C b'/' p)) (codes "/")

unfoldable pub normalize_event_path : Text → EventPath
unfolding check_clean event_text clean_path
normalize_event_path p = check_clean (clean_path (event_text p))

-- `PruneExcluded` is a field for the commands of a full sync, which no function here reads.
pub record PathFilter : Type 0 where
  pub include_paths : List Text
  pub exclude_paths : List Text
  pub prune_excluded : Bool

-- `matchesPath` once the pattern is trimmed.
unfoldable pub matches_trimmed : Text → Text → Bool
unfolding is_empty has_suffix has_prefix trim_suffix path_match
matches_trimmed pattern p =
    if is_empty pattern
    then false
    else if has_suffix pattern (codes "/**")
    then (let prefix = trim_suffix pattern (codes "/**") in
        p == prefix || has_prefix p (prefix ++ codes "/"))
    else if has_suffix pattern (codes "/")
    then has_prefix p (trim_suffix pattern (codes "/") ++ codes "/")
    else if path_match pattern p
    then true
    else p == pattern || has_prefix p (pattern ++ codes "/")

unfoldable pub matches_path : Text → Text → Bool
unfolding matches_trimmed trim_slashes
matches_path pattern p = matches_trimmed (trim_slashes pattern) p

unfoldable pub matches_any : List Text → Text → Bool
unfolding matches_path any
matches_any patterns p = any (λ pattern. matches_path pattern p) patterns

unfoldable pub replicates_clean : PathFilter → EventPath → Bool
unfolding matches_any
replicates_clean f empty_path = false
replicates_clean f escapes_volume = false
replicates_clean f (normalized clean) =
    if matches_any f.exclude_paths clean
    then false
    else if eqb (length f.include_paths) 0
    then true
    else matches_any f.include_paths clean

-- `PathFilter.ShouldReplicate`.
unfoldable pub should_replicate : PathFilter → Text → Bool
unfolding normalize_event_path replicates_clean
should_replicate f p = replicates_clean f (normalize_event_path p)

-- The least index of a marker of a glob, or the length.
unfoldable pub cut_at : Text → List ℕ → ℕ → ℕ
unfolding index
cut_at pattern [] cut = cut
cut_at pattern (marker ∷ markers) cut =
    let next : ℕ = elim (index marker pattern) [
      | none ↦ cut
      | some i ↦ if ltb i cut then i else cut
    ] in
    cut_at pattern markers next

-- `filterStaticPrefix` once the pattern is trimmed and cut.
unfoldable pub static_prefix : Text → ℕ → Text
unfolding trim_suffix last_index trim
static_prefix pattern cut =
    let prefix = trim_suffix (take cut pattern) (codes "/") in
    let parent : Text = elim (last_index b'/' prefix) [
      | none ↦ prefix
      | some slash ↦ if ltb cut (length pattern) then take slash prefix else prefix
    ] in
    trim (λ c. eqb c b'/') parent

unfoldable pub filter_static_prefix : Text → Text
unfolding trim_slashes is_empty cut_at static_prefix
filter_static_prefix pattern =
    let trimmed = trim_slashes pattern in
    if is_empty trimmed
    then []
    else static_prefix trimmed (cut_at trimmed (b'*' ∷ b'?' ∷ b'[' ∷ []) (length trimmed))

unfoldable pub is_path_ancestor : Text → Text → Bool
unfolding trim is_empty has_prefix
is_path_ancestor candidate descendant =
    let above = trim (λ c. eqb c b'/') candidate in
    let below = trim (λ c. eqb c b'/') descendant in
    if is_empty above then true else above == below || has_prefix below (above ++ codes "/")

-- A directory is entered for a pattern that it matches or whose fixed part lies under it.
unfoldable pub leads_to : Text → Text → Bool
unfolding matches_path filter_static_prefix is_path_ancestor is_empty
leads_to clean include =
    let root = filter_static_prefix include in
    if matches_path include clean then true else not (is_empty root) && is_path_ancestor clean root

unfoldable pub traverses_clean : PathFilter → EventPath → Bool
unfolding matches_any leads_to any
traverses_clean f empty_path = false
traverses_clean f escapes_volume = false
traverses_clean f (normalized clean) =
    if matches_any f.exclude_paths clean
    then false
    else if eqb (length f.include_paths) 0
    then true
    else any (leads_to clean) f.include_paths

-- `PathFilter.ShouldTraverse`.
unfoldable pub should_traverse : PathFilter → Text → Bool
unfolding normalize_event_path traverses_clean
should_traverse f p = traverses_clean f (normalize_event_path p)

unfoldable pub normalize_filter_pattern : Text → Text
unfolding trim_slashes is_empty has_suffix trim_suffix
normalize_filter_pattern pattern =
    let trimmed = trim_slashes pattern in
    if is_empty trimmed
    then codes "/**"
    else if has_suffix trimmed (codes "/**")
    then b'/' ∷ trimmed
    else if has_suffix trimmed (codes "/")
    then b'/' ∷ trim_suffix trimmed (codes "/") ++ codes "/**"
    else b'/' ∷ trimmed
