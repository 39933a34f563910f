-- ===== src/Agent/Snapshot/Replay.antt =====
-- The events of a difference, replayed on the first snapshot.
use simple_volume.Base.{
  ◌≡◌, refl, ◌∙◌, ap, Bool, true, false, not, ◌&&◌, ◌||◌, List, [], ◌∷◌, ◌++◌, Option, none, some,
  ◌==◌, if◌then◌else◌, keep, sort, insert_sorted, map, contains, arith, Bool-cases, Option-cases,
  inl, inr,
}
use simple_volume.Base.Dict.{
  keys, lookup, get_or, has_key, insert, erase, lookup-insert, lookup-erase, contains-keys,
  has_key-none, has_key-some, get_or-none, get_or-some,
}
use simple_volume.Base.Int.{eqb_ℤ→eq}
use simple_volume.Text.{Text, text_eq, text_ltb}
use simple_volume.Agent.Snapshot.{
  WatchedFileState, same_state, zero_state, Snapshot, EventOp, upsert, delete, other, FileEvent,
  is_changed, changed_paths, event_at, diff_watched_snapshots,
}

-- What one event does to a copy that reads a file's state from the source.
unfoldable pub follow : Snapshot → Text → Snapshot → EventOp → Snapshot
follow source path copy upsert = insert path (get_or zero_state path source) copy
follow source path copy delete = erase path copy
follow source path copy (other _) = insert path (get_or zero_state path source) copy

-- A copy that follows the events.
unfoldable pub replay : Snapshot → List FileEvent → Snapshot → Snapshot
unfolding follow
replay source [] copy = copy
replay source (e ∷ es) copy = replay source es (follow source e.path copy e.op)

contains-insert_sorted :
    (less : Text → Text → Bool) (x y : Text) (xs : List Text)
    → contains (insert_sorted less x xs) y ≡ (y == x || contains xs y)
unfolding insert_sorted
contains-insert_sorted less x y [] = refl
contains-insert_sorted less x y (z ∷ xs) = ground (arith, contains-insert_sorted less x y xs)

contains-sort :
    (less : Text → Text → Bool) (y : Text) (xs : List Text)
    → contains (sort less xs) y ≡ contains xs y
unfolding sort
contains-sort less y [] = refl
contains-sort less y (x ∷ xs) =
    ground (arith, contains-insert_sorted less x y (sort less xs), contains-sort less y xs)

contains-append :
    (xs ys : List Text) (y : Text) → contains (xs ++ ys) y ≡ (contains xs y || contains ys y)
contains-append [] ys y = refl
contains-append (x ∷ xs) ys y = ground (arith, contains-append xs ys y)

same_test : (p : Text → Bool) (x y : Text) → (y == x) ≡ true → p y ≡ p x
same_test p x y h = let e : y ≡ x = ground arith in ap p e

contains-keep_if :
    (p : Text → Bool) (xs : List Text) (y : Text) → contains (keep p xs) y ≡ (contains xs y && p y)
unfolding keep
contains-keep_if p [] y = refl
contains-keep_if p (x ∷ xs) y = elim (Bool-cases (p x)) [
  | inl e ↦ rw e (ground (arith, e, contains-keep_if p xs y, same_test p x y))
  | inr e ↦ rw e (ground (arith, e, contains-keep_if p xs y, same_test p x y))
]

-- What one event does to the copy, for the source's state at its path.
replay_at : Text → Snapshot → Option WatchedFileState → Snapshot
replay_at path copy none = erase path copy
replay_at path copy (some v) = insert path v copy

lookup-replay_at :
    (path p : Text) (copy : Snapshot) (o : Option WatchedFileState)
    → lookup p (replay_at path copy o) ≡ (if p == path then o else lookup p copy)
unfolding replay_at
lookup-replay_at path p copy none = lookup-erase p path copy
lookup-replay_at path p copy (some v) = lookup-insert p path v copy

follow-event_at :
    (source copy : Snapshot) (path : Text)
    → follow source path copy (event_at source path).op ≡ replay_at path copy (lookup path source)
unfolding follow event_at replay_at
follow-event_at source copy path = elim (Option-cases (lookup path source)) [
  | inl e ↦ rw (has_key-none path source e, e) refl
  | inr (v, e) ↦ rw (has_key-some path v source e, get_or-some zero_state path v source e, e) refl
]

same_path :
    (source : Snapshot) (p path : Text) → (p == path) ≡ true → lookup path source ≡ lookup p source
same_path source p path h = let e : path ≡ p = ground arith in ap (λ k. lookup k source) e

lookup-replay :
    (source : Snapshot) (paths : List Text) (copy : Snapshot) (p : Text)
    → lookup p (replay source (map (event_at source) paths) copy)
      ≡ (if contains paths p then lookup p source else lookup p copy)
unfolding replay event_at
lookup-replay source [] copy p = refl
lookup-replay source (path ∷ paths) copy p =
    ap (λ c. lookup p (replay source (map (event_at source) paths) c))
      (follow-event_at source copy path)
    ∙ ground (
      arith,
      lookup-replay_at path p copy (lookup path source),
      lookup-replay source paths (replay_at path copy (lookup path source)) p,
      same_path source p path,
    )

same_state-eq : (a b : WatchedFileState) → same_state a b ≡ true → a ≡ b
unfolding same_state
same_state-eq a b h =
    let size : a.size ≡ b.size = eqb_ℤ→eq a.size b.size (ground arith) in
    let mod_time : a.mod_time ≡ b.mod_time = eqb_ℤ→eq a.mod_time b.mod_time (ground arith) in
    let mode : a.mode ≡ b.mode = ground arith in
    let link : a.link ≡ b.link = ground arith in cc (size, mode, mod_time, link)

unlisted_parts :
    (previous current : Snapshot) (p : Text)
    → contains (changed_paths previous current) p ≡ false
    → ((contains (keys current) p && is_changed previous current p) ≡ false)
      × ((contains (keys previous) p && not (has_key p current)) ≡ false)
unfolding changed_paths
unlisted_parts previous current p k = ground (
  arith,
  contains-append (keep (is_changed previous current) (keys current))
      (keep (λ path. not (has_key path current)) (keys previous)) p,
  contains-keep_if (is_changed previous current) (keys current) p,
  contains-keep_if (λ path. not (has_key path current)) (keys previous) p,
)

-- A path that is not listed has the same state in both snapshots.
unlisted :
    (previous current : Snapshot) (p : Text)
    → ¬ ((lookup p previous ≡ none) × (lookup p current ≡ some zero_state))
    → contains (changed_paths previous current) p ≡ false
    → lookup p previous ≡ lookup p current
unfolding is_changed
unlisted previous current p h k =
    let parts = unlisted_parts previous current p k in
    elim (Option-cases (lookup p current)) [
      | inl e ↦ elim (Option-cases (lookup p previous)) [
        | inl f ↦ cc (e, f)
        | inr (u, f) ↦ ground (arith, parts, has_key-none p current e, contains-keys previous p, f)
      ]
      | inr (v, e) ↦
          let found : contains (keys current) p ≡ true =
            ground (arith, contains-keys current p, e) in
          let same =
            same_state-eq (get_or zero_state p previous) (get_or zero_state p current)
              (ground (arith, parts, found)) in
          elim (Option-cases (lookup p previous)) [
            | inl f ↦ absurd (
                h (
                  f,
                  cc (
                    e,
                    same,
                    get_or-none zero_state p previous f,
                    get_or-some zero_state p v current e,
                  ),
                ))
            | inr (u, f) ↦ cc (
              e,
              f,
              same,
              get_or-some zero_state p u previous f,
              get_or-some zero_state p v current e,
            )
          ]
    ]

-- A copy of the first snapshot that follows the events of the difference has the state of the second
-- one at every path, but for a new file whose state is the zero value.
pub replay-diff_watched_snapshots :
    (previous current : Snapshot) (p : Text)
    → ¬ ((lookup p previous ≡ none) × (lookup p current ≡ some zero_state))
    → lookup p (replay current (diff_watched_snapshots previous current) previous)
      ≡ lookup p current
unfolding diff_watched_snapshots
replay-diff_watched_snapshots previous current p h =
    let paths = changed_paths previous current in
    ground (
      arith,
      lookup-replay current (sort text_ltb paths) previous p,
      contains-sort text_ltb p paths,
      unlisted previous current p h,
    )
