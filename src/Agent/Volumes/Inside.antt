-- ===== src/Agent/Volumes/Inside.antt =====
-- The directories of volumes and of shadows against their pool and each other.
use mathlib.Core.Path.{◌≡⟨◌⟩◌, ◌∎}
use mathlib.Core.List.{append_assoc}
use simple_volume.Base.{
  ◌≡◌, refl, sym, ap, subst, ◌≢◌, inl, inr, Bool, true, false, List, [], ◌∷◌, ◌++◌, arith, ◌⊎◌, All,
  not, if◌then◌else◌,
}
use simple_volume.Text.{Text, text_eq, codes, has_prefix, join, is_empty}
use simple_volume.Text.FilePath.{
  is_rooted, clean_parts, print_path, clean_path, join_path, is_inside,
}
use simple_volume.Text.FilePath.Laws.{IsName, clean_parts-CleanParts}
use simple_volume.Text.FilePath.Joins.{
  is_rooted-print_path, clean_parts-print_path, clean_path_idempotent, clean_path-join,
  clean_path_lem,
}
use simple_volume.Controller.Labels.{is_dash_or_dot}
use simple_volume.Controller.Labels.Laws.{Starts}
use simple_volume.Agent.Paths.Laws.{Segment}
use simple_volume.Agent.Volumes.{resolved, outside_pool, is_invalid_pool, within_pool}

dot : is_dash_or_dot b'.' ≡ true
unfolding is_dash_or_dot
dot = refl

pub Starts-not_dotted : (s t : Text) → Starts is_dash_or_dot s → s ≢ b'.' ∷ t
Starts-not_dotted s t h e =
    let f : is_dash_or_dot b'.' ≡ false = subst (Starts is_dash_or_dot) e h in cc (f, dot)

pub Segment-IsName : (s : Text) → Segment s → IsName s
Segment-IsName s h = (
  h.no_slash,
  h.nonempty,
  Starts-not_dotted s [] h.starts,
  Starts-not_dotted s (codes ".") h.starts,
)

pub has_prefix-append : (s t : Text) → has_prefix (s ++ t) s ≡ true
unfolding has_prefix
has_prefix-append [] t = refl
has_prefix-append (c ∷ s) t = ground (arith, has_prefix-append s t)

join-append :
    (part : Text) (parts : List Text) (name : Text) (names : List Text)
    → join (codes "/") (part ∷ parts ++ name ∷ names)
      ≡ join (codes "/") (part ∷ parts) ++ b'/' ∷ join (codes "/") (name ∷ names)
unfolding join
join-append part [] name names = append_assoc part (codes "/") (join (codes "/") (name ∷ names))
join-append part (more ∷ parts) name names = rw (join-append more parts name names) (
    sym (
      append_assoc (part ++ codes "/") (join (codes "/") (more ∷ parts))
        (b'/' ∷ join (codes "/") (name ∷ names))))

print_path-append :
    (rooted : Bool) (part : Text) (parts : List Text) (name : Text) (names : List Text)
    → print_path rooted (part ∷ parts ++ name ∷ names)
      ≡ print_path rooted (part ∷ parts) ++ b'/' ∷ join (codes "/") (name ∷ names)
unfolding print_path
print_path-append true part parts name names =
    ap (λ s. b'/' ∷ s) (join-append part parts name names)
print_path-append false part parts name names = join-append part parts name names

print_path-none : (rooted : Bool) → is_invalid_pool (print_path rooted []) ≡ true
unfolding is_invalid_pool print_path join
print_path-none true = ground (arith)
print_path-none false = ground (arith)

pub List-split :
    (parts : List Text) → (parts ≡ []) ⊎ ((p : Text) × (ps : List Text) × (parts ≡ p ∷ ps))
List-split [] = inl refl
List-split (p ∷ ps) = inr (p, ps, refl)

pub valid_pool-nonempty : (path : Text) → is_invalid_pool path ≡ false → path ≢ []
unfolding is_invalid_pool
valid_pool-nonempty path h = ground (arith)

pub join_path_two :
    (a b : Text) → a ≢ [] → b ≢ [] → join_path (a ∷ b ∷ []) ≡ clean_path (a ++ b'/' ∷ b)
unfolding join_path is_empty join
join_path_two [] b h k = absurd (h refl)
join_path_two (c ∷ a) b h k = ap clean_path (append_assoc (c ∷ a) (codes "/") b)

-- The path of a pool as the path of its parts.
pool_parts :
    (s : Text)
    → is_invalid_pool (clean_path s) ≡ false
    → (p : Text) × (ps : List Text) × (clean_parts s ≡ p ∷ ps)
pool_parts s h = elim (List-split (clean_parts s)) [
  | inl e ↦
      let f : is_invalid_pool (clean_path s) ≡ true =
        rw (clean_path_lem s, e) (print_path-none (is_rooted s)) in
      absurd cc
  | inr e ↦ e
]

-- A path of a pool, and a relative path of some names joined to it.
pub clean_path-join_path :
    (s : Text) (slash : Bool) (name : Text) (names : List Text)
    → is_invalid_pool (clean_path s) ≡ false
    → All IsName (name ∷ names)
    → clean_path (clean_path s ++ b'/' ∷ print_path slash (name ∷ names))
      ≡ clean_path s ++ b'/' ∷ join (codes "/") (name ∷ names)
clean_path-join_path s slash name names h k =
    let (p, ps, e) = pool_parts s h in
    let r = is_rooted s in
    let parts = clean_parts-CleanParts s in
    clean_path (clean_path s ++ b'/' ∷ print_path slash (name ∷ names))
    ≡⟨ clean_path-join (clean_path s) slash (name ∷ names) (valid_pool-nonempty (clean_path s) h)
        k ⟩
      print_path (is_rooted (clean_path s)) (clean_parts (clean_path s) ++ name ∷ names)
    ≡⟨ rw
        (
          clean_path_lem s,
          is_rooted-print_path r (clean_parts s) parts,
          clean_parts-print_path r (clean_parts s) parts,
        )
        refl ⟩
      print_path r (clean_parts s ++ name ∷ names)
    ≡⟨ rw e (print_path-append r p ps name names) ⟩
      print_path r (p ∷ ps) ++ b'/' ∷ join (codes "/") (name ∷ names)
    ≡⟨ rw (clean_path_lem s, e) refl ⟩ clean_path s ++ b'/' ∷ join (codes "/") (name ∷ names) ∎

print_path-nonempty :
    (slash : Bool) (name : Text) (names : List Text)
    → name ≢ []
    → print_path slash (name ∷ names) ≢ []
unfolding print_path join
print_path-nonempty true name names h = λ e. cc
print_path-nonempty false [] names h = absurd (h refl)
print_path-nonempty false (c ∷ name) [] h = λ e. cc
print_path-nonempty false (c ∷ name) (more ∷ names) h = λ e. cc

pub is_inside-append : (root t : Text) → is_inside root (root ++ b'/' ∷ t) ≡ true
unfolding is_inside
is_inside-append root t =
    let e : has_prefix (root ++ b'/' ∷ t) (root ++ codes "/") ≡ true =
      rw (sym (append_assoc root (codes "/") t)) (has_prefix-append (root ++ codes "/") t) in
    ground (arith)

within_pool_lem :
    (path rel : Text)
    → within_pool path rel ≡ (
        let full = clean_path (join_path (path ∷ rel ∷ [])) in
        if not (is_inside path full) then outside_pool else resolved full)
unfolding within_pool
within_pool_lem path rel = refl

-- Names under the path of a pool.
pub within_pool_of_names :
    (s : Text) (slash : Bool) (name : Text) (names : List Text)
    → is_invalid_pool (clean_path s) ≡ false
    → All IsName (name ∷ names)
    → within_pool (clean_path s) (print_path slash (name ∷ names))
      ≡ resolved (clean_path s ++ b'/' ∷ join (codes "/") (name ∷ names))
within_pool_of_names s slash name names h k =
    let rel = print_path slash (name ∷ names) in
    rw
      (
        within_pool_lem (clean_path s) rel,
        join_path_two (clean_path s) rel (valid_pool-nonempty (clean_path s) h)
            (print_path-nonempty slash name names k.0.1),
        clean_path_idempotent (clean_path s ++ b'/' ∷ rel),
        clean_path-join_path s slash name names h k,
        is_inside-append (clean_path s) (join (codes "/") (name ∷ names)),
      )
      refl
