-- ===== src/Agent/Volumes/Apart.antt =====
-- The directories of volumes against those of shadows.
use mathlib.Core.List.{append_assoc}
use simple_volume.Base.{
  ℕ, ◌≡◌, refl, sym, ap, subst, ◌≢◌, ◌∙◌, inl, inr, true, false, [], ◌∷◌, ◌++◌, arith, Bool-cases,
}
use simple_volume.Text.{Text, text_eq, codes, has_prefix, join}
use simple_volume.Text.FilePath.{clean_path, is_inside}
use simple_volume.Controller.Labels.{is_dash_or_dot}
use simple_volume.Controller.Labels.Laws.{Starts}
use simple_volume.Agent.Paths.{safe_segment}
use simple_volume.Agent.Paths.Laws.{Segment, safe_segment-Segment}
use simple_volume.Agent.Volumes.{
  Pool, VolumePath, resolved, invalid_pool, is_invalid_pool, resolve_volume_path,
  resolve_shadow_path,
}
use simple_volume.Agent.Volumes.Inside.{Starts-not_dotted}
use simple_volume.Agent.Volumes.Places.{volume_place, resolve_volume_path-volume_place}
use simple_volume.Agent.Volumes.Shadows.{shadow_rel, resolve_shadow_path-shadow_rel}

has_prefix-common : (a s t : Text) → has_prefix (a ++ s) (a ++ t) ≡ has_prefix s t
unfolding has_prefix
has_prefix-common [] s t = refl
has_prefix-common (c ∷ a) s t = ground (arith, has_prefix-common a s t)

has_prefix-differs :
    (c d : ℕ) (s t : Text) → c ≢ d → has_prefix (b'/' ∷ c ∷ s) (b'/' ∷ d ∷ t) ≡ false
unfolding has_prefix
has_prefix-differs c d s t h = ground (arith)

has_prefix_self : (s : Text) → has_prefix s s ≡ true
unfolding has_prefix
has_prefix_self [] = refl
has_prefix_self (c ∷ s) = ground (arith, has_prefix_self s)

-- Two paths that go on differently after the same directory are not inside each other.
apart :
    (root : Text) (c d : ℕ) (s t : Text)
    → c ≢ d
    → is_inside (root ++ b'/' ∷ c ∷ s) (root ++ b'/' ∷ d ∷ t) ≡ false
unfolding is_inside
apart root c d s t h =
    let a = root ++ b'/' ∷ c ∷ s in
    let b = root ++ b'/' ∷ d ∷ t in
    let k : has_prefix b (a ++ codes "/") ≡ false =
      rw (append_assoc root (b'/' ∷ c ∷ s) (codes "/")) (
        has_prefix-common root (b'/' ∷ d ∷ t) (b'/' ∷ c ∷ s ++ codes "/")
        ∙ has_prefix-differs d c t (s ++ codes "/") (λ e. h (sym e))) in
    let m : has_prefix b a ≡ false =
      has_prefix-common root (b'/' ∷ d ∷ t) (b'/' ∷ c ∷ s)
      ∙ has_prefix-differs d c t s (λ e. h (sym e)) in
    let n : b ≢ a = λ e.
      let f : has_prefix b a ≡ true = subst (λ x. has_prefix b x ≡ true) e (has_prefix_self b) in
      cc (f, m) in
    ground (arith, k, n)

-- The segment of a namespace does not start with a dot, and the directory of the shadows does.
volume_apart :
    (root segment : Text) (rest shadow : Text)
    → Starts is_dash_or_dot segment
    → segment ≢ []
    → (is_inside (root ++ b'/' ∷ (segment ++ rest)) (root ++ b'/' ∷ b'.' ∷ shadow) ≡ false)
      × (is_inside (root ++ b'/' ∷ b'.' ∷ shadow) (root ++ b'/' ∷ (segment ++ rest)) ≡ false)
volume_apart root [] rest shadow h k = absurd (k refl)
volume_apart root (c ∷ segment) rest shadow h k =
    let n : c ≢ b'.' = λ e. Starts-not_dotted (c ∷ segment) segment h (ap (λ d. d ∷ segment) e) in
    (
      apart root c b'.' (segment ++ rest) shadow n,
      apart root b'.' c shadow (segment ++ rest) (λ e. n (sym e)),
    )

shadow_rel-dot :
    (namespace volume : Text) → (rest : Text) × (shadow_rel namespace volume ≡ b'.' ∷ rest)
unfolding shadow_rel join
shadow_rel-dot namespace volume = (_, refl)

volume_place_lem :
    (v : VolumePath)
    → volume_place v
      ≡ clean_path v.pool.path
        ++ b'/' ∷ (safe_segment v.namespace ++ (codes "/" ++ safe_segment v.name))
unfolding volume_place join
volume_place_lem v =
    ap (λ s. clean_path v.pool.path ++ b'/' ∷ s)
      (append_assoc (safe_segment v.namespace) (codes "/") (safe_segment v.name))

resolved_volume :
    (v : VolumePath) (a : Text) → resolve_volume_path v ≡ resolved a → a ≡ volume_place v
resolved_volume v a h = elim (Bool-cases (is_invalid_pool (clean_path v.pool.path))) [
  | inl e ↦
      let f : resolve_volume_path v ≡ invalid_pool v.pool.path =
        rw (resolve_volume_path-volume_place v, e) refl in
      cc
  | inr e ↦
      let f : resolve_volume_path v ≡ resolved (volume_place v) =
        rw (resolve_volume_path-volume_place v, e) refl in
      cc
]

resolved_shadow :
    (pool : Pool) (namespace volume b : Text)
    → resolve_shadow_path pool namespace volume ≡ resolved b
    → b ≡ clean_path pool.path ++ b'/' ∷ shadow_rel namespace volume
resolved_shadow pool namespace volume b h =
    elim (Bool-cases (is_invalid_pool (clean_path pool.path))) [
      | inl e ↦
          let f : resolve_shadow_path pool namespace volume ≡ invalid_pool pool.path =
            rw (resolve_shadow_path-shadow_rel pool namespace volume, e) refl in
          cc
      | inr e ↦
          let f : resolve_shadow_path pool namespace volume
              ≡ resolved (clean_path pool.path ++ b'/' ∷ shadow_rel namespace volume) =
            rw (resolve_shadow_path-shadow_rel pool namespace volume, e) refl in
          cc
    ]

-- In one pool, the directory of a volume and the directory of a shadow, of whatever namespaces and
-- volumes, are never inside each other: neither is the other, or a parent of the other.
pub volumes_and_shadows_apart :
    (v : VolumePath) (namespace volume a b : Text)
    → resolve_volume_path v ≡ resolved a
    → resolve_shadow_path v.pool namespace volume ≡ resolved b
    → (is_inside a b ≡ false) × (is_inside b a ≡ false)
volumes_and_shadows_apart v namespace volume a b h k =
    let s : Segment (safe_segment v.namespace) = safe_segment-Segment v.namespace in
    let (rest, e) = shadow_rel-dot namespace volume in
    rw (resolved_volume v a h, volume_place_lem v, resolved_shadow v.pool namespace volume b k, e)
      (volume_apart (clean_path v.pool.path) (safe_segment v.namespace)
        (codes "/" ++ safe_segment v.name) rest s.starts s.nonempty)
