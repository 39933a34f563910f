-- ===== src/Agent/Watches/Sink/Freshness.antt =====
-- What the delivery of a batch does to the freshness of the targets.
use simple_volume.Base.{
  ◌≡◌, refl, ap, ◌∙◌, inl, inr, List, [], ◌∷◌, ◌++◌, Option, none, some, arith, Option-cases, ◌==◌,
  if◌then◌else◌, length,
}
use simple_volume.Text.{Text, text_eq}
use simple_volume.Time.{Time}
use simple_volume.Agent.Watches.{TargetRef, TargetStatus, WatchStatus}
use simple_volume.Agent.Watches.Sink.{
  EventBatch, update_target_status, delivered_to, failed_at, Report, delivery_success,
  delivery_error, record_report, Network, put_answer, send_batches, success_reports,
}

-- The last successful sync of the first status of an address.
unfoldable pub last_sync : Text → List TargetStatus → Option Time
last_sync url [] = none
last_sync url (s ∷ statuses) =
    if s.url == url then s.last_successful_sync else last_sync url statuses

last_sync-delivered :
    (now : Time) (batch : EventBatch) (to url : Text) (statuses : List TargetStatus)
    → last_sync url (update_target_status (delivered_to now batch) to statuses)
      ≡ (if to == url then some now else last_sync url statuses)
unfolding last_sync update_target_status
last_sync-delivered now batch to url [] = refl
last_sync-delivered now batch to url (s ∷ statuses) =
    ground (arith, last_sync-delivered now batch to url statuses)

last_sync-failed :
    (error to url : Text) (statuses : List TargetStatus)
    → last_sync url (update_target_status (failed_at error) to statuses) ≡ last_sync url statuses
unfolding last_sync update_target_status
last_sync-failed error to url [] = ground (arith)
last_sync-failed error to url (s ∷ statuses) =
    ground (arith, last_sync-failed error to url statuses)

unfoldable pub record_all : List Report → WatchStatus → WatchStatus
unfolding record_report
record_all [] s = s
record_all (report ∷ reports) s = record_all reports (record_report report s)

pub record_all-append :
    (reports more : List Report) (s : WatchStatus)
    → record_all (reports ++ more) s ≡ record_all more (record_all reports s)
unfolding record_all
record_all-append [] more s = refl
record_all-append (report ∷ reports) more s =
    record_all-append reports more (record_report report s)

-- The targets that take a batch.
unfoldable pub takers : Network → EventBatch → List TargetRef → List TargetRef
takers net batch [] = []
takers net batch (target ∷ targets) =
    let rest = takers net batch targets in
    elim (net.answer (length targets) target batch) [ none ↦ target ∷ rest | some _ ↦ rest ]

pub send_batches-takers :
    (net : Network) (batch : EventBatch) (targets : List TargetRef)
    → (send_batches net batch targets).1 ≡ takers net batch targets
unfolding send_batches takers put_answer
send_batches-takers net batch [] = refl
send_batches-takers net batch (target ∷ targets) =
    elim (Option-cases (net.answer (length targets) target batch)) [
      | inl e ↦ rw (e, takers, send_batches-takers net batch targets) refl
      | inr (error, e) ↦ rw (e, takers, send_batches-takers net batch targets) refl
    ]

-- Failures leave the freshness of every target as it is.
pub failures-last_sync :
    (net : Network) (batch : EventBatch) (targets : List TargetRef) (url : Text) (s : WatchStatus)
    → last_sync url (record_all (send_batches net batch targets).0 s).target_statuses
      ≡ last_sync url s.target_statuses
unfolding send_batches put_answer record_all record_report
failures-last_sync net batch [] url s = refl
failures-last_sync net batch (target ∷ targets) url s =
    elim (Option-cases (net.answer (length targets) target batch)) [
      | inl e ↦ rw e (failures-last_sync net batch targets url s)
      | inr (error, e) ↦ rw e (
          failures-last_sync net batch targets url (record_report (delivery_error target error) s)
          ∙ last_sync-failed error target.url url s.target_statuses)
    ]

-- The time of the last success of an address, or what is given.
unfoldable pub last_success : Network → Text → List TargetRef → Option Time → Option Time
last_success net url [] before = before
last_success net url (target ∷ targets) before =
    last_success net url targets
      (if target.url == url then some (net.clock (length targets) target) else before)

pub successes-last_sync :
    (net : Network) (batch : EventBatch) (targets : List TargetRef) (url : Text) (s : WatchStatus)
    → last_sync url (record_all (success_reports net batch targets) s).target_statuses
      ≡ last_success net url targets (last_sync url s.target_statuses)
unfolding success_reports record_all record_report last_success
successes-last_sync net batch [] url s = refl
successes-last_sync net batch (target ∷ targets) url s =
    successes-last_sync net batch targets url
      (record_report (delivery_success (net.clock (length targets) target) target batch) s)
    ∙ ap (last_success net url targets) (
        last_sync-delivered (net.clock (length targets) target) batch target.url url
          s.target_statuses)
