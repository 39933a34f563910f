-- ===== src/Agent/Watches/Sink/Delivery.antt =====
-- What the delivery of a batch does to the watches of the node.
use simple_volume.Base.{
  ℕ, ◌≡◌, refl, ap, ◌≢◌, ◌∙◌, inl, inr, true, false, List, [], ◌∷◌, ◌++◌, Option, none, some, eqb,
  arith, Bool-cases, Option-cases, if◌then◌else◌, length,
}
use simple_volume.Base.Dict.{lookup, insert, lookup-insert}
use simple_volume.Base.Int.{pos, ltb_ℤ}
use simple_volume.Text.{Text, text_eq}
use simple_volume.Time.{Time}
use simple_volume.Agent.Watches.{
  WatchStatus, WatchConfig, ManagedWatch, WatchManager, confirmation_threshold,
}
use simple_volume.Agent.Watches.Sink.{
  EventBatch, Report, unconfirmed_delivery, record_report, record_at, report_to, report_all,
  Network, send_batches, success_reports, batch_reports,
}
use simple_volume.Agent.Watches.Sink.Freshness.{
  last_sync, record_all, record_all-append, takers, send_batches-takers, failures-last_sync,
  last_success, successes-last_sync,
}

report_to_lem :
    (key : Text) (pointer : ℕ) (report : Report) (m : WatchManager)
    → report_to key pointer report m ≡ record_at key pointer report (lookup key m.watches) m
unfolding report_to
report_to_lem key pointer report m = refl

pub report_to-stale :
    (key : Text) (pointer : ℕ) (report : Report) (m : WatchManager)
    → ((w : ManagedWatch) → lookup key m.watches ≡ some w → w.pointer ≢ pointer)
    → report_to key pointer report m ≡ m
unfolding record_at
report_to-stale key pointer report m h = elim (Option-cases (lookup key m.watches)) [
  | inl e ↦ rw (report_to_lem key pointer report m, e) refl
  | inr (w, e) ↦
      let differ : eqb w.pointer pointer ≡ false = ground (arith, h w e) in
      rw (report_to_lem key pointer report m, e, differ) refl
]

-- Reports of a watch that is not the one at its key change nothing.
pub report_all-stale :
    (key : Text) (pointer : ℕ) (reports : List Report) (m : WatchManager)
    → ((w : ManagedWatch) → lookup key m.watches ≡ some w → w.pointer ≢ pointer)
    → report_all key pointer reports m ≡ m
unfolding report_all
report_all-stale key pointer [] m h = refl
report_all-stale key pointer (report ∷ reports) m h =
    let same : report_to key pointer report m ≡ m = report_to-stale key pointer report m h in
    ap (report_all key pointer reports) same ∙ report_all-stale key pointer reports m h

-- The status of a watch, or another one.
abbrev pub with_status : ManagedWatch → WatchStatus → ManagedWatch
with_status w status = record w { status = status }

pub report_to-current :
    (key : Text) (pointer : ℕ) (report : Report) (m : WatchManager) (w : ManagedWatch)
    → lookup key m.watches ≡ some w
    → w.pointer ≡ pointer
    → report_to key pointer report m
      ≡ record m { watches = insert key (with_status w (record_report report w.status)) m.watches }
unfolding record_at
report_to-current key pointer report m w h k =
    let same : eqb w.pointer pointer ≡ true = ground (arith) in
    rw (report_to_lem key pointer report m, h, same) refl

-- Reports of the watch at its key are put down in its status, one after the other.
pub report_all-current :
    (key : Text) (pointer : ℕ) (reports : List Report) (m : WatchManager) (w : ManagedWatch)
    → lookup key m.watches ≡ some w
    → w.pointer ≡ pointer
    → lookup key (report_all key pointer reports m).watches
      ≡ some (with_status w (record_all reports w.status))
unfolding report_all record_all
report_all-current key pointer [] m w h k = h
report_all-current key pointer (report ∷ reports) m w h k =
    let next = with_status w (record_report report w.status) in
    let here : lookup key (insert key next m.watches) ≡ some next =
      ground (arith, lookup-insert key key next m.watches) in
    ap (λ n. lookup key (report_all key pointer reports n).watches)
      (report_to-current key pointer report m w h k)
    ∙ report_all-current key pointer reports (record m { watches = insert key next m.watches }) next
        here k

-- The last successful sync with an address, as the watch at a key reports it.
unfoldable pub sync_of : Text → Option ManagedWatch → Option Time
unfolding last_sync
sync_of url none = none
sync_of url (some w) = last_sync url w.status.target_statuses

batch_reports_lem :
    (net : Network) (cfg : WatchConfig) (batch : EventBatch)
    → batch_reports net cfg batch ≡ (
        let failures = (send_batches net batch cfg.targets).0 in
        let took = takers net batch cfg.targets in
        let required = confirmation_threshold cfg.confirmed_replicas (length cfg.targets) in
        if ltb_ℤ (pos (length took)) required
        then failures ++ unconfirmed_delivery batch (length took) required ∷ []
        else failures ++ success_reports net batch took)
unfolding batch_reports
batch_reports_lem net cfg batch = rw (send_batches-takers net batch cfg.targets) refl

unconfirmed_status :
    (net : Network) (cfg : WatchConfig) (batch : EventBatch) (url : Text) (s : WatchStatus)
    → (let failures = (send_batches net batch cfg.targets).0 in
        let took = takers net batch cfg.targets in
        let required = confirmation_threshold cfg.confirmed_replicas (length cfg.targets) in
        last_sync url
          (record_all
            (failures ++ unconfirmed_delivery batch (length took) required ∷ [])
            s).target_statuses
        ≡ last_sync url s.target_statuses)
unfolding record_all record_report
unconfirmed_status net cfg batch url s =
    rw
      (record_all-append (send_batches net batch cfg.targets).0
        (unconfirmed_delivery batch (length (takers net batch cfg.targets))
            (confirmation_threshold cfg.confirmed_replicas (length cfg.targets))
          ∷ [])
        s)
      (failures-last_sync net batch cfg.targets url s)

confirmed_status :
    (net : Network) (cfg : WatchConfig) (batch : EventBatch) (url : Text) (s : WatchStatus)
    → (let failures = (send_batches net batch cfg.targets).0 in
        let took = takers net batch cfg.targets in
        last_sync url (record_all (failures ++ success_reports net batch took) s).target_statuses
        ≡ last_success net url took (last_sync url s.target_statuses))
confirmed_status net cfg batch url s =
    let failures = (send_batches net batch cfg.targets).0 in
    let took = takers net batch cfg.targets in
    rw (record_all-append failures (success_reports net batch took) s) (
      successes-last_sync net batch took url (record_all failures s)
      ∙ ap (last_success net url took) (failures-last_sync net batch cfg.targets url s))

batch_status :
    (net : Network) (cfg : WatchConfig) (batch : EventBatch) (url : Text) (s : WatchStatus)
    → last_sync url (record_all (batch_reports net cfg batch) s).target_statuses ≡ (
        let took = takers net batch cfg.targets in
        if ltb_ℤ
          (pos (length took))
          (confirmation_threshold cfg.confirmed_replicas (length cfg.targets))
        then last_sync url s.target_statuses
        else last_success net url took (last_sync url s.target_statuses))
batch_status net cfg batch url s =
    let took = takers net batch cfg.targets in
    let required = confirmation_threshold cfg.confirmed_replicas (length cfg.targets) in
    elim (Bool-cases (ltb_ℤ (pos (length took)) required)) [
      | inl e ↦ rw (batch_reports_lem net cfg batch, e) (unconfirmed_status net cfg batch url s)
      | inr e ↦ rw (batch_reports_lem net cfg batch, e) (confirmed_status net cfg batch url s)
    ]

-- A batch that fewer targets take than are required leaves the reported time of the last successful sync
-- as it is for every target. A batch that enough targets take sets it for exactly the addresses
-- that took it, to the time of the last success of the address.
pub delivery_freshness :
    (net : Network) (cfg : WatchConfig) (batch : EventBatch) (key url : Text) (m : WatchManager)
    (w : ManagedWatch)
    → lookup key m.watches ≡ some w
    → sync_of url (lookup key (report_all key w.pointer (batch_reports net cfg batch) m).watches)
      ≡ (let took = takers net batch cfg.targets in
          let before = sync_of url (lookup key m.watches) in
          if ltb_ℤ
            (pos (length took))
            (confirmation_threshold cfg.confirmed_replicas (length cfg.targets))
          then before
          else last_success net url took before)
unfolding sync_of
delivery_freshness net cfg batch key url m w h =
    rw (report_all-current key w.pointer (batch_reports net cfg batch) m w h refl, h)
      (batch_status net cfg batch url w.status)
