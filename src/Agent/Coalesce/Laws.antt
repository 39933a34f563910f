-- ===== src/Agent/Coalesce/Laws.antt =====
-- `CoalesceEvents` against a definition without positions.
use mathlib.Core.Path.{◌≡⟨◌⟩◌, ◌∎}
use mathlib.Core.List.{append_assoc, append-nil}
use simple_volume.Base.{
  ◌≡◌, refl, sym, ap, ◌∙◌, Bool, not, ◌&&◌, List, [], ◌∷◌, ◌++◌, Option, none, some, arith, ◌==◌,
  if◌then◌else◌, keep, keep-append, keep-keep, any,
}
use simple_volume.Base.Dict.{lookup}
use simple_volume.Text.{Text, text_eq}
use simple_volume.Agent.Filter.{PathFilter, normalize_event_path}
use simple_volume.Agent.Snapshot.{EventOp, FileEvent}
use simple_volume.Agent.Coalesce.{
  Coalesced, nothing_coalesced, op_or_upsert, drop_earlier, add_event, add_counted, counted_path,
  coalesce_from, coalesce_events,
}
use simple_volume.Agent.Coalesce.Loop.{
  get_event, Named, Indexed, output, Dropped, drop_earlier-Dropped, put_last, put_last-Indexed,
  put_last-output,
}
use simple_volume.Agent.Coalesce.Order.{index_of}

-- The events that count, each under its path and with its operation.
unfoldable pub put_counted : Option Text → EventOp → List FileEvent → List FileEvent
unfolding op_or_upsert
put_counted none op events = events
put_counted (some clean) op events = record { path = clean; op = op_or_upsert op } ∷ events

unfoldable pub counted : PathFilter → List FileEvent → List FileEvent
unfolding counted_path normalize_event_path put_counted
counted filter [] = []
counted filter (event ∷ events) =
    put_counted (counted_path filter (normalize_event_path event.path)) event.op
      (counted filter events)

unfoldable pub has_event : Text → List FileEvent → Bool
has_event p events = any (λ e. e.path == p) events

-- The events after which no event of the same path comes.
unfoldable pub last_of_each : List FileEvent → List FileEvent
unfolding has_event
last_of_each [] = []
last_of_each (event ∷ events) =
    let rest = last_of_each events in if has_event event.path events then rest else event ∷ rest

add_all : List FileEvent → Coalesced → Coalesced
add_all [] c = c
add_all (event ∷ events) c = add_all events (add_event event.path event.op c)

add_all-put_counted :
    (clean : Option Text) (op : EventOp) (events : List FileEvent) (c : Coalesced)
    → add_all (put_counted clean op events) c ≡ add_all events (add_counted clean op c)
unfolding put_counted add_all add_counted
add_all-put_counted none op events c = refl
add_all-put_counted (some clean) op events c = refl

coalesce_from-add_all :
    (filter : PathFilter) (events : List FileEvent) (c : Coalesced)
    → coalesce_from filter events c ≡ add_all (counted filter events) c
unfolding coalesce_from counted add_all
coalesce_from-add_all filter [] c = refl
coalesce_from-add_all filter (event ∷ events) c =
    let clean = counted_path filter (normalize_event_path event.path) in
    coalesce_from-add_all filter events (add_counted clean event.op c)
    ∙ sym (add_all-put_counted clean event.op (counted filter events) c)

keep_all : (events : List FileEvent) → keep (λ e. not (has_event e.path [])) events ≡ events
unfolding keep has_event any
keep_all [] = refl
keep_all (event ∷ events) = ap (λ es. event ∷ es) (keep_all events)

has_event-cons :
    (event : FileEvent) (later : List FileEvent) (e : FileEvent)
    → not (has_event e.path (event ∷ later))
      ≡ (not (e.path == event.path) && not (has_event e.path later))
unfolding has_event any
has_event-cons event later e = ground (arith)

keep_one :
    (event : FileEvent) (events : List FileEvent)
    → keep (λ e. not (has_event e.path events)) (event ∷ []) ++ last_of_each events
      ≡ last_of_each (event ∷ events)
unfolding keep last_of_each
keep_one event events = ground (arith)

output-add_all :
    (events : List FileEvent) (c : Coalesced)
    → Indexed c
    → output (add_all events c)
      ≡ keep (λ e. not (has_event e.path events)) (output c) ++ last_of_each events
unfolding add_all last_of_each add_event put_last
output-add_all [] c h = sym (append-nil _ ∙ keep_all (output c))
output-add_all (event ∷ events) c h =
    let p = event.path in
    let d = drop_earlier (lookup p c.position) c in
    let k : Dropped p c d = drop_earlier-Dropped p c h in
    let again : FileEvent → Bool = λ e. not (has_event e.path events) in
    output (add_all events (add_event p event.op c))
    ≡⟨ output-add_all events (put_last p event d) (put_last-Indexed p event.op c d h k) ⟩
      keep again (output (put_last p event d)) ++ last_of_each events
    ≡⟨ ap (λ es. keep again es ++ last_of_each events) (put_last-output p event c d h k) ⟩
      keep again (keep (λ e. not (e.path == p)) (output c) ++ event ∷ []) ++ last_of_each events
    ≡⟨ ap (λ es. es ++ last_of_each events)
        (keep-append again (keep (λ e. not (e.path == p)) (output c)) (event ∷ [])) ⟩
      (keep again (keep (λ e. not (e.path == p)) (output c)) ++ keep again (event ∷ []))
      ++ last_of_each events
    ≡⟨ ap (λ es. (es ++ keep again (event ∷ [])) ++ last_of_each events)
        (keep-keep again (λ e. not (e.path == p)) (λ e. not (has_event e.path (event ∷ events)))
          (has_event-cons event events) (output c)) ⟩
      (keep (λ e. not (has_event e.path (event ∷ events))) (output c) ++ keep again (event ∷ []))
      ++ last_of_each events
    ≡⟨ append_assoc _ (keep again (event ∷ [])) (last_of_each events) ⟩
      keep (λ e. not (has_event e.path (event ∷ events))) (output c)
      ++ (keep again (event ∷ []) ++ last_of_each events)
    ≡⟨ ap (λ es. keep (λ e. not (has_event e.path (event ∷ events))) (output c) ++ es)
        (keep_one event events) ⟩
      keep (λ e. not (has_event e.path (event ∷ events))) (output c)
      ++ last_of_each (event ∷ events) ∎

nothing-Indexed : Indexed nothing_coalesced
unfolding lookup index_of Named
nothing-Indexed = record { distinct = tt; places = λ q. refl; named = tt }

-- The events that are sent are, of the events of paths that the filter lets through, the last one of
-- each path, in the order in which these last ones came.
pub coalesce_events_lem :
    (events : List FileEvent) (filter : PathFilter)
    → coalesce_events events filter ≡ last_of_each (counted filter events)
unfolding coalesce_events output get_event keep
coalesce_events_lem events filter =
    ap output (coalesce_from-add_all filter events nothing_coalesced)
    ∙ output-add_all (counted filter events) nothing_coalesced nothing-Indexed
