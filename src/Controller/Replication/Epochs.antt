-- ===== src/Controller/Replication/Epochs.antt =====
-- The epoch of a volume in runs of the machine of the full syncs.
use simple_volume.Base.{
  ◌≡◌, refl, ap, sym, ◌≢◌, ◌<◌, ◌≤◌, ℕ, suc, ◌+◌, ◌%◌, ◌^◌, false, not, ◌&&◌, [], ◌⊎◌, inl, inr,
  ◌==◌, ◌∙◌, arith, Bool-cases,
}
use simple_volume.Base.Dict.{get_or, get_or-insert}
use simple_volume.Text.{Text, text_eq, is_empty}
use simple_volume.Controller.Replication.Syncs.{
  SyncState, epoch_of, start_epoch, note_active_node, is_current_active_epoch, is_busy,
  remember_watch, remember_scheduled, remember_completed, finish_sync, try_start_volume_full_sync,
}
use simple_volume.Controller.Replication.Jobs.{
  Phase, Job, Advance, fails, manual_done, scheduled_done, is_stale, is_current, records,
  watch_fails, watch_starts, watch_remembered, Machine, Step, notes, watches, starts, advances,
  ends, Run, done, step,
}

-- How many steps a run has.
unfoldable pub steps : {m n : Machine} → Run m n → ℕ
steps done = 0
steps (step r s) = suc (steps r)

-- The counter of a volume stays, or goes up by one.
abbrev OneUp : ℕ → ℕ → Type 0
OneUp e f = (f ≡ e) ⊎ (f ≡ (e + 1) % 2 ^ 64)

epoch-start_epoch :
    (key other : Text) (s : SyncState) → OneUp (epoch_of key s) (epoch_of key (start_epoch other s))
unfolding start_epoch
epoch-start_epoch key other s = elim (Bool-cases (key == other)) [
  | inl e ↦
      inr
        (ground (arith, get_or-insert 0 key other ((epoch_of other s + 1) % 2 ^ 64) s.active_epoch))
  | inr e ↦
      inl
        (ground (arith, get_or-insert 0 key other ((epoch_of other s + 1) % 2 ^ 64) s.active_epoch))
]

epoch-note_active_node :
    (key other node : Text) (s : SyncState)
    → OneUp (epoch_of key s) (epoch_of key (note_active_node other node s))
unfolding note_active_node
epoch-note_active_node key other node s =
    let previous = get_or [] other s.last_active_node in
    elim (Bool-cases (not (is_empty previous) && not (previous == node))) [
      | inl e ↦ rw e (epoch-start_epoch key other s)
      | inr e ↦ rw e (inl refl)
    ]

epochs-try_start :
    (volume_key sync_key : Text) (s : SyncState)
    → (try_start_volume_full_sync volume_key sync_key s).1.active_epoch ≡ s.active_epoch
unfolding try_start_volume_full_sync
epochs-try_start volume_key sync_key s = elim (Bool-cases (is_busy volume_key s)) [
  | inl e ↦ rw e refl
  | inr e ↦ rw e refl
]

epochs-Advance :
    {s : SyncState} {j : Job} {t : SyncState} {p : Phase}
    → Advance s j t p
    → t.active_epoch ≡ s.active_epoch
unfolding remember_watch remember_scheduled remember_completed
epochs-Advance (fails _) = refl
epochs-Advance (manual_done _ _) = refl
epochs-Advance (scheduled_done _ _) = refl
epochs-Advance (is_stale _ _ _) = refl
epochs-Advance (is_current _ _ _) = refl
epochs-Advance (records _) = refl
epochs-Advance (watch_fails _) = refl
epochs-Advance (watch_starts _) = refl
epochs-Advance (watch_remembered _ _) = refl

-- No step moves the counter by more than one.
epoch-Step :
    (key : Text) {m n : Machine} → Step m n → OneUp (epoch_of key m.state) (epoch_of key n.state)
unfolding remember_watch finish_sync
epoch-Step key (notes other node s jobs) = epoch-note_active_node key other node s
epoch-Step key (watches _ _ s jobs) = inl refl
epoch-Step key (starts other node kind epoch s t jobs h) =
    inl (ap (get_or 0 key) (ap (λ r. r.1.active_epoch) (sym h) ∙ epochs-try_start other _ s))
epoch-Step key (advances s t before after j p a) = inl (ap (get_or 0 key) (epochs-Advance a))
epoch-Step key (ends s before after j h) = inl refl

epoch-Run :
    (key : Text) {m n : Machine} (r : Run m n)
    → epoch_of key m.state < 2 ^ 64
    → (k : ℕ) × (k ≤ steps r) × (epoch_of key n.state ≡ (epoch_of key m.state + k) % 2 ^ 64)
unfolding steps
epoch-Run key done h = (0, omega arith, omega arith)
epoch-Run key (step r s) h =
    let (k, few, e) = epoch-Run key r h in
    elim (epoch-Step key s) [
      | inl f ↦ (k, omega (arith, few), omega (arith, e, f))
      | inr f ↦ (suc k, omega (arith, few), omega (arith, e, f))
    ]

moved-note_active_node :
    (key node : Text) (s : SyncState)
    → get_or [] key s.last_active_node ≢ []
    → get_or [] key s.last_active_node ≢ node
    → epoch_of key (note_active_node key node s) ≡ (epoch_of key s + 1) % 2 ^ 64
unfolding note_active_node start_epoch is_empty
moved-note_active_node key node s h k =
    ground (arith, get_or-insert 0 key key ((epoch_of key s + 1) % 2 ^ 64) s.active_epoch)

-- Once a volume whose counter is below 2 ^ 64 has moved from a known node to another one, what was
-- started for the node and the epoch before is not current after any further steps of the controller,
-- of this volume and of all others, even if the volume has come back, as long as these are fewer than
-- 2 ^ 64 - 1.
pub is_current_active_epoch-stale :
    (key node : Text) (m n : Machine)
    (r : Run (record m { state = note_active_node key node m.state }) n)
    → get_or [] key m.state.last_active_node ≢ []
    → get_or [] key m.state.last_active_node ≢ node
    → epoch_of key m.state < 2 ^ 64
    → steps r + 1 < 2 ^ 64
    → is_current_active_epoch key
        (get_or [] key m.state.last_active_node)
        (epoch_of key m.state)
        n.state
      ≡ false
unfolding is_current_active_epoch
is_current_active_epoch-stale key node m n r h k small few =
    let e = moved-note_active_node key node m.state h k in
    let (i, less, f) = epoch-Run key r (omega (arith, e)) in
    let differs : epoch_of key n.state ≢ epoch_of key m.state = λ g. omega (arith, e, less, f, g) in
    ground (arith, differs)
