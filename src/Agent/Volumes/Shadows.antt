-- ===== src/Agent/Volumes/Shadows.antt =====
-- The directories of shadows.
use simple_volume.Base.{
  ℕ, ◌≡◌, refl, subst, ◌≢◌, inl, inr, Bool, true, false, List, [], ◌∷◌, ◌++◌, arith, Bool-cases,
  All, All-append, All-map, eqb, not, ◌&&◌, if◌then◌else◌,
}
use simple_volume.Text.{Text, text_eq, codes, join, is_empty, replace_char, trim}
use simple_volume.Text.FilePath.{print_path, clean_path}
use simple_volume.Text.FilePath.Laws.{IsName}
use simple_volume.Controller.Labels.{is_label_char}
use simple_volume.Controller.Labels.Laws.{Starts, Ends, trim_left-id, trim_right-id}
use simple_volume.Agent.Paths.{safe_segment}
use simple_volume.Agent.Paths.Laws.{safe_segment-Segment}
use simple_volume.Agent.Volumes.{
  Pool, resolved, invalid_pool, relative_required, clean, is_invalid_pool, within_pool,
  shadow_source_base_path, trim_slashes, resolve_pool_relative_path, resolve_shadow_path,
}
use simple_volume.Agent.Volumes.Inside.{within_pool_of_names}
use simple_volume.Agent.Volumes.Places.{segment-IsName, join_path_of_names}

replace_char-id : (s : Text) → All (λ c. c ≢ 0x5C) s → replace_char 0x5C b'/' s ≡ s
unfolding replace_char
replace_char-id [] h = refl
replace_char-id (c ∷ s) h =
    let e : eqb c 0x5C ≡ false = ground (arith, h.0) in rw (e, replace_char-id s h.1) refl

backslash : is_label_char 0x5C ≡ false
unfolding is_label_char
backslash = refl

label_not_backslash : (c : ℕ) → is_label_char c ≡ true → c ≢ 0x5C
label_not_backslash c h = λ e.
    let f : is_label_char 0x5C ≡ true = subst (λ d. is_label_char d ≡ true) e h in cc (f, backslash)

-- The parts of a shadow's directory under the path of the pool.
abbrev pub shadow_names : Text → Text → List Text
shadow_names namespace volume =
    safe_segment namespace ∷ safe_segment volume ∷ codes "current" ∷ codes "data" ∷ []

lacks : ℕ → Text → Bool
lacks c [] = true
lacks c (d ∷ s) = not (eqb d c) && lacks c s

lacks-All : (c : ℕ) (s : Text) → lacks c s ≡ true → All (λ d. d ≢ c) s
unfolding lacks
lacks-All c [] h = tt
lacks-All c (d ∷ s) h = (λ e. ground (arith, e), lacks-All c s (ground (arith)))

slashes :
    (lacks b'/' (codes ".simple-volume-shadows") ≡ true)
    × (lacks b'/' (codes "current") ≡ true)
    × (lacks b'/' (codes "data") ≡ true)
unfolding lacks
slashes = (refl, refl, refl)

backslashes :
    (lacks 0x5C (codes ".simple-volume-shadows") ≡ true)
    × (lacks 0x5C (codes "current") ≡ true)
    × (lacks 0x5C (codes "data") ≡ true)
unfolding lacks
backslashes = (refl, refl, refl)

shadow_names-IsName :
    (namespace volume : Text)
    → All IsName (codes ".simple-volume-shadows" ∷ shadow_names namespace volume)
shadow_names-IsName namespace volume = (
  (lacks-All b'/' (codes ".simple-volume-shadows") slashes.0, λ e. cc, λ e. cc, λ e. cc),
  (
    segment-IsName namespace,
    (
      segment-IsName volume,
      (
        (lacks-All b'/' (codes "current") slashes.1, λ e. cc, λ e. cc, λ e. cc),
        ((lacks-All b'/' (codes "data") slashes.2, λ e. cc, λ e. cc, λ e. cc), tt),
      ),
    ),
  ),
)

segment_not_backslash : (s : Text) → All (λ c. c ≢ 0x5C) (safe_segment s)
segment_not_backslash s =
    All-map label_not_backslash (safe_segment s) (safe_segment-Segment s).valid

module _ (P : ℕ → Type 0) where
  join-All :
      (sep : Text) (parts : List Text) → All P sep → All (All P) parts → All P (join sep parts)
  unfolding join
  join-All sep [] k h = tt
  join-All sep (part ∷ []) k h = h.0
  join-All sep (part ∷ more ∷ parts) k h =
      All-append P (part ++ sep) (join sep (more ∷ parts)) (All-append P part sep h.0 k)
        (join-All sep (more ∷ parts) k h.1)

module _ (p : ℕ → Bool) where
  Ends-append : (s t : Text) → Ends p t → t ≢ [] → Ends p (s ++ t)
  Ends-append [] t h k = h
  Ends-append (c ∷ []) [] h k = absurd (k refl)
  Ends-append (c ∷ []) (d ∷ t) h k = h
  Ends-append (c ∷ e ∷ s) t h k = Ends-append (e ∷ s) t h k

  append-nonempty : (s t : Text) → t ≢ [] → s ++ t ≢ []
  append-nonempty [] t h = h
  append-nonempty (c ∷ s) t h = λ e. cc

  -- Joined parts end as the last of them does.
  join-Ends :
      (sep : Text) (parts : List Text) (last : Text)
      → Ends p last
      → last ≢ []
      → Ends p (join sep (parts ++ last ∷ [])) × (join sep (parts ++ last ∷ []) ≢ [])
  unfolding join
  join-Ends sep [] last h k = (h, k)
  join-Ends sep (part ∷ []) last h k =
      (Ends-append (part ++ sep) last h k, append-nonempty (part ++ sep) last k)
  join-Ends sep (part ∷ more ∷ parts) last h k =
      let (ends, nonempty) = join-Ends sep (more ∷ parts) last h k in
      (
        Ends-append (part ++ sep) (join sep (more ∷ parts ++ last ∷ [])) ends nonempty,
        append-nonempty (part ++ sep) (join sep (more ∷ parts ++ last ∷ [])) nonempty,
      )

-- The directory of a shadow, under the pool.
abbrev shadow_parts : Text → Text → List Text
shadow_parts namespace volume = codes ".simple-volume-shadows" ∷ shadow_names namespace volume

unfoldable pub shadow_rel : Text → Text → Text
unfolding join
shadow_rel namespace volume = join (codes "/") (shadow_parts namespace volume)

shadow_source_base_path_lem :
    (namespace volume : Text)
    → shadow_source_base_path namespace volume ≡ shadow_rel namespace volume
unfolding shadow_source_base_path shadow_rel print_path
shadow_source_base_path_lem namespace volume =
    join_path_of_names (codes ".simple-volume-shadows") (shadow_names namespace volume)
      (shadow_names-IsName namespace volume)

trim_slashes_of_plain :
    (s : Text)
    → All (λ c. c ≢ 0x5C) s
    → Starts (λ c. eqb c b'/') s
    → Ends (λ c. eqb c b'/') s
    → trim_slashes s ≡ s
unfolding trim_slashes trim
trim_slashes_of_plain s h k m =
    rw (replace_char-id s h, trim_left-id (λ c. eqb c b'/') s k)
      (trim_right-id (λ c. eqb c b'/') s m)

shadow_rel_plain : (namespace volume : Text) → All (λ c. c ≢ 0x5C) (shadow_rel namespace volume)
unfolding shadow_rel
shadow_rel_plain namespace volume =
    join-All (λ c. c ≢ 0x5C) (codes "/") (shadow_parts namespace volume) (λ e. cc, tt)
      (
        lacks-All 0x5C (codes ".simple-volume-shadows") backslashes.0,
        (
          segment_not_backslash namespace,
          (
            segment_not_backslash volume,
            (
              lacks-All 0x5C (codes "current") backslashes.1,
              (lacks-All 0x5C (codes "data") backslashes.2, tt),
            ),
          ),
        ),
      )

trim_slashes-shadow_rel :
    (namespace volume : Text)
    → trim_slashes (shadow_rel namespace volume) ≡ shadow_rel namespace volume
unfolding shadow_rel
trim_slashes-shadow_rel namespace volume =
    trim_slashes_of_plain (shadow_rel namespace volume) (shadow_rel_plain namespace volume) refl
      (join-Ends (λ c. eqb c b'/') (codes "/")
        (codes ".simple-volume-shadows"
          ∷ safe_segment namespace
          ∷ safe_segment volume
          ∷ codes "current"
          ∷ [])
        (codes "data") refl (λ e. cc)).0

shadow_rel-nonempty : (namespace volume : Text) → is_empty (shadow_rel namespace volume) ≡ false
unfolding shadow_rel is_empty join
shadow_rel-nonempty namespace volume = refl

resolve_shadow_path_lem :
    (pool : Pool) (namespace volume : Text)
    → resolve_shadow_path pool namespace volume ≡ (
        let trimmed = trim_slashes (shadow_source_base_path namespace volume) in
        if is_invalid_pool (clean_path pool.path)
        then invalid_pool pool.path
        else if is_empty trimmed
        then relative_required
        else within_pool (clean_path pool.path) trimmed)
unfolding resolve_shadow_path resolve_pool_relative_path clean
resolve_shadow_path_lem pool namespace volume = refl

within_pool-shadow_rel :
    (pool : Pool) (namespace volume : Text)
    → is_invalid_pool (clean_path pool.path) ≡ false
    → within_pool (clean_path pool.path) (shadow_rel namespace volume)
      ≡ resolved (clean_path pool.path ++ b'/' ∷ shadow_rel namespace volume)
unfolding shadow_rel print_path
within_pool-shadow_rel pool namespace volume h =
    within_pool_of_names pool.path false (codes ".simple-volume-shadows")
      (shadow_names namespace volume) h (shadow_names-IsName namespace volume)

-- The directory of a shadow is refused exactly when that of a volume is, on account of the pool's path.
-- Otherwise it is the pool's path followed by ".simple-volume-shadows", the segments of the namespace
-- and of the volume, "current" and "data".
pub resolve_shadow_path-shadow_rel :
    (pool : Pool) (namespace volume : Text)
    → resolve_shadow_path pool namespace volume ≡ (
        if is_invalid_pool (clean_path pool.path)
        then invalid_pool pool.path
        else resolved (clean_path pool.path ++ b'/' ∷ shadow_rel namespace volume))
resolve_shadow_path-shadow_rel pool namespace volume =
    elim (Bool-cases (is_invalid_pool (clean_path pool.path))) [
      | inl e ↦ rw (resolve_shadow_path_lem pool namespace volume, e) refl
      | inr e ↦
          rw
            (
              resolve_shadow_path_lem pool namespace volume,
              e,
              shadow_source_base_path_lem namespace volume,
              trim_slashes-shadow_rel namespace volume,
              shadow_rel-nonempty namespace volume,
            )
            (within_pool-shadow_rel pool namespace volume e)
    ]
