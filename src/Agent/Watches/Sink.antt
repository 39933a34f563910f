-- ===== src/Agent/Watches/Sink.antt =====
-- internal/agent/watch_manager.go: `run`, which sends the batches of a watch to its targets, and the
-- `record…` functions, which put down what came of it.
pub mod Freshness
pub mod Delivery
use mathlib.Core.Option
use simple_volume.Base.{
  ℕ, suc, ◌+◌, ◌%◌, ◌^◌, Bool, true, false, not, List, [], ◌∷◌, ◌++◌, Option, none, some, eqb, ◌==◌,
  if◌then◌else◌, length, map,
}
use simple_volume.Base.Dict.{Dict, lookup, insert}
use simple_volume.Base.Int.{ℤ, pos, ltb_ℤ}
use simple_volume.Text.{Text, codes, text_eq, is_empty}
use simple_volume.Text.Number.{print_digits, print_int}
use simple_volume.Time.{Time}
use simple_volume.Controller.Replication.{ConsistencyMode, shadow, live, OwnershipPolicy}
use simple_volume.Agent.Snapshot.{FileEvent}
use simple_volume.Agent.Watches.{
  SourceRef, TargetRef, TargetStatus, WatchStatus, WatchConfig, ManagedWatch, WatchManager,
  add_int64, new_target_status, confirmation_threshold, stopped_status,
}

pub record EventBatch : Type 0 where
  pub namespace : Text
  pub volume : Text
  pub generation : Text
  pub source : SourceRef
  pub source_base_path : Text
  pub ownership : OwnershipPolicy
  pub deletes_authoritative : Bool
  pub events : List FileEvent

-- `ensureTargetStatus`, with the change that is made at the place that it returns.
unfoldable pub update_target_status :
    (TargetStatus → TargetStatus) → Text → List TargetStatus → List TargetStatus
update_target_status f url [] = f (new_target_status url) ∷ []
update_target_status f url (s ∷ statuses) =
    let rest = update_target_status f url statuses in
    if s.url == url then f s ∷ statuses else s ∷ rest

abbrev pub delivered_to : Time → EventBatch → TargetStatus → TargetStatus
delivered_to now batch s = record s {
  last_successful_sync = some now;
  last_observed_generation = batch.generation;
  delivered_batch_count = add_int64 s.delivered_batch_count 1;
  delivered_event_count = add_int64 s.delivered_event_count (length batch.events);
  last_error = [];
}

abbrev pub failed_at : Text → TargetStatus → TargetStatus
failed_at error s = record s {
  delivery_failure_count = add_int64 s.delivery_failure_count 1;
  last_error = error;
}

-- The calls of the `record…` functions, with their arguments besides the key and the watch.
pub data Report : Type 0 where
  delivery_success : Time → TargetRef → EventBatch → Report
  delivery_error : TargetRef → Text → Report
  unconfirmed_delivery : EventBatch → ℕ → ℤ → Report
  -- Without an error, or with the error that the watch ended with and whether it is `Canceled`.
  watch_stopped : Time → Option (Text × Bool) → Report

unfoldable pub watch_error : Option (Text × Bool) → Text → Text
watch_error none last = last
watch_error (some (error, canceled)) last = if canceled then last else error

unfoldable pub unconfirmed_message : EventBatch → ℕ → ℤ → Text
unconfirmed_message batch got want =
    codes "generation "
    ++ batch.generation
    ++ codes " only confirmed on "
    ++ print_digits 10 got
    ++ codes "/"
    ++ print_int want
    ++ codes " required replicas"

-- What a call changes in the status of its watch.
unfoldable pub record_report : Report → WatchStatus → WatchStatus
unfolding update_target_status unconfirmed_message stopped_status watch_error
record_report (delivery_success now target batch) s = record s {
  last_batch_at = some now;
  last_batch_event_count = length batch.events;
  last_batch_generation = batch.generation;
  delivered_batch_count = add_int64 s.delivered_batch_count 1;
  delivered_event_count = add_int64 s.delivered_event_count (length batch.events);
  last_delivery_error = [];
  target_statuses = update_target_status (delivered_to now batch) target.url s.target_statuses;
}
record_report (delivery_error target error) s = record s {
  delivery_failure_count = add_int64 s.delivery_failure_count 1;
  last_delivery_error = error;
  target_statuses = update_target_status (failed_at error) target.url s.target_statuses;
}
record_report (unconfirmed_delivery batch got want) s = record s {
  last_batch_at = none;
  last_batch_event_count = length batch.events;
  last_batch_generation = batch.generation;
  last_delivery_error = unconfirmed_message batch got want;
}
record_report (watch_stopped now error) s = record (stopped_status now s) {
  last_watch_error = watch_error error s.last_watch_error;
}

unfoldable pub record_at : Text → ℕ → Report → Option ManagedWatch → WatchManager → WatchManager
unfolding record_report insert
record_at key pointer report none m = m
record_at key pointer report (some watch) m =
    let changed = record m {
      watches = insert key (record watch { status = record_report report watch.status }) m.watches;
    } in
    if not (eqb watch.pointer pointer) then m else changed

-- A call for a watch that is no longer the one at its key changes nothing.
unfoldable pub report_to : Text → ℕ → Report → WatchManager → WatchManager
unfolding record_at lookup
report_to key pointer report m = record_at key pointer report (lookup key m.watches) m

unfoldable pub report_all : Text → ℕ → List Report → WatchManager → WatchManager
unfolding report_to
report_all key pointer [] m = m
report_all key pointer (report ∷ reports) m =
    report_all key pointer reports (report_to key pointer report m)

-- The network and the clock as the watch of one batch finds them: the answer of a target to the
-- batch, an error or none, and the time at which its success is put down. The number is that of the
-- targets that are still to come in the loop, so one target that is named twice may answer differently.
pub record Network : Type 0 where
  pub answer : ℕ → TargetRef → EventBatch → Option Text
  pub clock : ℕ → TargetRef → Time

-- The loop over the targets: the failures, and the targets that took the batch.
unfoldable pub put_answer :
    TargetRef → Option Text → List Report × List TargetRef → List Report × List TargetRef
put_answer target none (failures, successes) = (failures, target ∷ successes)
put_answer target (some error) (failures, successes) =
    (delivery_error target error ∷ failures, successes)

unfoldable pub send_batches : Network → EventBatch → List TargetRef → List Report × List TargetRef
unfolding put_answer
send_batches net batch [] = ([], [])
send_batches net batch (target ∷ targets) =
    put_answer target (net.answer (length targets) target batch) (send_batches net batch targets)

unfoldable pub success_reports : Network → EventBatch → List TargetRef → List Report
success_reports net batch [] = []
success_reports net batch (target ∷ targets) =
    delivery_success (net.clock (length targets) target) target batch
    ∷ success_reports net batch targets

-- The reports about a batch, in their order.
unfoldable pub batch_reports : Network → WatchConfig → EventBatch → List Report
unfolding send_batches success_reports confirmation_threshold
batch_reports net cfg batch =
    let sent = send_batches net batch cfg.targets in
    let required = confirmation_threshold cfg.confirmed_replicas (length cfg.targets) in
    if ltb_ℤ (pos (length sent.1)) required
    then sent.0 ++ unconfirmed_delivery batch (length sent.1) required ∷ []
    else sent.0 ++ success_reports net batch sent.1

abbrev with_source : WatchConfig → EventBatch → EventBatch
with_source cfg batch = record batch { source = cfg.source; ownership = cfg.ownership }

-- The batch to send: the shadow's, where files are synced from a shadow. `ApplyShadowEventBatch` is an
-- argument; its error ends the watch.
unfoldable pub prepared_batch :
    (EventBatch → Option EventBatch) → WatchConfig → EventBatch → Option EventBatch
prepared_batch apply_shadow cfg batch = elim cfg.consistency_mode [
  | shadow ↦ apply_shadow (with_source cfg batch)
  | live ↦ some (with_source cfg batch)
]

-- The reports that the sink makes of a batch, or nothing for the error.
unfoldable pub sink :
    (EventBatch → Option EventBatch) → Network → WatchConfig → EventBatch → Option (List Report)
unfolding batch_reports prepared_batch
sink apply_shadow net cfg batch =
    Option.map (batch_reports net cfg) (prepared_batch apply_shadow cfg batch)
