-- ===== src/Agent/Coalesce.antt =====
-- internal/agent/replication.go: `CoalesceEvents`, which keeps the last event of each path.
pub mod Order
pub mod Loop
pub mod Laws
use simple_volume.Base.{
  ℕ, suc, Bool, true, false, List, [], ◌∷◌, ◌++◌, Option, none, some, ◌==◌, if◌then◌else◌, map,
  take, drop, length,
}
use simple_volume.Base.Dict.{Dict, lookup, insert, get_or}
use simple_volume.Text.{Text, text_eq, codes, is_empty}
use simple_volume.Agent.Snapshot.{EventOp, upsert, delete, other, FileEvent}
use simple_volume.Agent.Filter.{
  EventPath, normalized, empty_path, escapes_volume, PathFilter, normalize_event_path,
  should_replicate,
}

-- The three variables of the loop.
pub record Coalesced : Type 0 where
  pub by_path : Dict Text FileEvent
  pub order : List Text
  pub position : Dict Text ℕ

abbrev pub nothing_coalesced : Coalesced
nothing_coalesced = record { by_path = []; order = []; position = [] }

unfoldable pub op_or_upsert : EventOp → EventOp
unfolding is_empty
op_or_upsert upsert = upsert
op_or_upsert delete = delete
op_or_upsert (other op) = if is_empty op then upsert else other op

-- The loop that sets `position[order[i]] = i`, from an index on.
unfoldable pub reindex : ℕ → List Text → Dict Text ℕ → Dict Text ℕ
unfolding insert
reindex i [] position = position
reindex i (p ∷ ps) position = reindex (suc i) ps (insert p i position)

-- An earlier event of the path gives up its place.
unfoldable pub drop_earlier : Option ℕ → Coalesced → Coalesced
unfolding reindex
drop_earlier none c = c
drop_earlier (some idx) c =
    let order = take idx c.order ++ drop (suc idx) c.order in
    record c { order = order; position = reindex idx (drop idx order) c.position }

unfoldable pub add_event : Text → EventOp → Coalesced → Coalesced
unfolding insert drop_earlier lookup
add_event clean op c =
    let d = drop_earlier (lookup clean c.position) c in
    record {
      by_path = insert clean (record { path = clean; op = op }) d.by_path;
      order = d.order ++ clean ∷ [];
      position = insert clean (length d.order) d.position;
    }

-- The path under which an event counts, if it does.
unfoldable pub counted_path : PathFilter → EventPath → Option Text
unfolding should_replicate
counted_path filter (normalized clean) = if should_replicate filter clean then some clean else none
counted_path filter empty_path = none
counted_path filter escapes_volume = none

unfoldable pub add_counted : Option Text → EventOp → Coalesced → Coalesced
unfolding add_event op_or_upsert
add_counted none op c = c
add_counted (some clean) op c = add_event clean (op_or_upsert op) c

unfoldable pub coalesce_from : PathFilter → List FileEvent → Coalesced → Coalesced
unfolding counted_path normalize_event_path add_counted
coalesce_from filter [] c = c
coalesce_from filter (event ∷ events) c =
    coalesce_from filter events
      (add_counted (counted_path filter (normalize_event_path event.path)) event.op c)

abbrev pub zero_event : FileEvent
zero_event = record { path = []; op = other [] }

unfoldable pub coalesce_events : List FileEvent → PathFilter → List FileEvent
unfolding coalesce_from get_or
coalesce_events events filter =
    let c = coalesce_from filter events nothing_coalesced in
    map (λ p. get_or zero_event p c.by_path) c.order
