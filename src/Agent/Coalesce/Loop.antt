-- ===== src/Agent/Coalesce/Loop.antt =====
-- The invariant of the loop of `CoalesceEvents`, and what a round does to the events.
use mathlib.Core.List.{map-append}
use simple_volume.Base.{
  ◌≡◌, refl, sym, ◌≢◌, inl, inr, false, not, List, [], ◌∷◌, ◌++◌, arith, Bool-cases, Option-cases,
  ◌==◌, contains, keep, length, map, All, All-append,
}
use simple_volume.Base.Dict.{Dict, lookup, insert, get_or, lookup-insert, get_or-insert}
use simple_volume.Text.{Text, text_eq}
use simple_volume.Agent.Snapshot.{EventOp, FileEvent}
use simple_volume.Agent.Coalesce.{Coalesced, drop_earlier, zero_event}
use simple_volume.Agent.Coalesce.Order.{
  index_of, Distinct, without, give_up_place, index_of-none, index_of-absent, index_of-append,
  without-id, contains-without_self, Distinct-without, Distinct-snoc,
}

unfoldable pub get_event : Dict Text FileEvent → Text → FileEvent
get_event by_path p = get_or zero_event p by_path

-- Each path has its own event.
unfoldable pub Named : Dict Text FileEvent → List Text → Type 0
Named by_path = All (λ q. (get_event by_path q).path ≡ q)

-- What holds between the three variables at each round of the loop.
pub record Indexed (c : Coalesced) : Type 0 where
  pub distinct : Distinct c.order
  pub places : (q : Text) → lookup q c.position ≡ index_of q c.order
  pub named : Named c.by_path c.order

-- The events in their order.
unfoldable pub output : Coalesced → List FileEvent
output c = map (get_event c.by_path) c.order

-- What an earlier event of the path leaves.
pub record Dropped (p : Text) (c d : Coalesced) : Type 0 where
  pub by_path : d.by_path ≡ c.by_path
  pub order : d.order ≡ without p c.order
  pub places : (q : Text) → q ≢ p → lookup q d.position ≡ index_of q d.order

pub drop_earlier-Dropped :
    (p : Text) (c : Coalesced) → Indexed c → Dropped p c (drop_earlier (lookup p c.position) c)
unfolding drop_earlier without
drop_earlier-Dropped p c h = elim (Option-cases (index_of p c.order)) [
  | inl e ↦
      let absent : contains c.order p ≡ false = index_of-none p c.order e in
      rw (h.places p, e)
        (record {
          by_path = refl;
          order = sym (without-id p c.order absent);
          places = λ q n. h.places q;
        })
  | inr (i, e) ↦
      let (order, places) = give_up_place p i c.order c.position h.distinct h.places e in
      rw (h.places p, e) (record { by_path = refl; order = order; places = places })
]

-- The new event takes its place at the end.
unfoldable pub put_last : Text → FileEvent → Coalesced → Coalesced
put_last p event d = record {
  by_path = insert p event d.by_path;
  order = d.order ++ p ∷ [];
  position = insert p (length d.order) d.position;
}

map-without :
    (p : Text) (event : FileEvent) (by_path : Dict Text FileEvent) (order : List Text)
    → Named by_path order
    → map (get_event (insert p event by_path)) (without p order)
      ≡ keep (λ e. not (e.path == p)) (map (get_event by_path) order)
unfolding without keep get_event Named
map-without p event by_path [] h = refl
map-without p event by_path (q ∷ order) h =
    ground (
      arith,
      get_or-insert zero_event q p event by_path,
      h.0,
      map-without p event by_path order h.1,
    )

Named-without :
    (p : Text) (event : FileEvent) (by_path : Dict Text FileEvent) (order : List Text)
    → Named by_path order
    → Named (insert p event by_path) (without p order)
unfolding without keep get_event Named
Named-without p event by_path [] h = tt
Named-without p event by_path (q ∷ order) h = elim (Bool-cases (q == p)) [
  | inl e ↦ rw e (Named-without p event by_path order h.1)
  | inr e ↦ rw e (
    rw (get_or-insert zero_event q p event by_path, e) h.0,
    Named-without p event by_path order h.1,
  )
]

put_last-places :
    (p : Text) (event : FileEvent) (c d : Coalesced)
    → Dropped p c d
    → (q : Text) → lookup q (put_last p event d).position ≡ index_of q (put_last p event d).order
unfolding put_last index_of
put_last-places p event c d h q = elim (Bool-cases (q == p)) [
  | inl e ↦
      let same : q ≡ p = ground (arith) in
      let absent : contains d.order q ≡ false =
        rw (h.order, same) (contains-without_self p c.order) in
      ground (
        arith,
        lookup-insert q p (length d.order) d.position,
        index_of-append q d.order (p ∷ []),
        index_of-absent q d.order absent,
      )
  | inr e ↦
      let differ : q ≢ p = ground (arith) in
      ground (
        arith,
        lookup-insert q p (length d.order) d.position,
        index_of-append q d.order (p ∷ []),
        h.places q differ,
      )
]

pub put_last-Indexed :
    (p : Text) (op : EventOp) (c d : Coalesced)
    → Indexed c
    → Dropped p c d
    → Indexed (put_last p (record { path = p; op = op }) d)
unfolding put_last Named get_event
put_last-Indexed p op c d h k = record {
  distinct = rw k.order (
      Distinct-snoc p (without p c.order) (Distinct-without p c.order h.distinct)
        (contains-without_self p c.order));
  places = put_last-places p (record { path = p; op = op }) c d k;
  named =
      rw (k.order, k.by_path)
        (All-append _ (without p c.order) (p ∷ [])
          (Named-without p (record { path = p; op = op }) c.by_path c.order h.named)
          (
            ground (arith, get_or-insert zero_event p p (record { path = p; op = op }) c.by_path),
            tt,
          ));
}

pub put_last-output :
    (p : Text) (event : FileEvent) (c d : Coalesced)
    → Indexed c
    → Dropped p c d
    → output (put_last p event d) ≡ keep (λ e. not (e.path == p)) (output c) ++ event ∷ []
unfolding put_last output get_event
put_last-output p event c d h k =
    let last : get_or zero_event p (insert p event c.by_path) ≡ event =
      ground (arith, get_or-insert zero_event p p event c.by_path) in
    rw
      (
        k.order,
        k.by_path,
        map-append (get_event (insert p event c.by_path)) (without p c.order) (p ∷ []),
        map-without p event c.by_path c.order h.named,
        last,
      )
      refl
