-- ===== src/Agent/Watches/Life/Kept.antt =====
-- What is kept between the watches and their goroutines.
use simple_volume.Base.{
  ℕ, ◌≡◌, sym, ap, subst, ◌≢◌, ◌⊎◌, ◌∙◌, ◌<◌, inl, inr, true, false, List, [], ◌∷◌, some, contains,
  eqb, length, All, All-map, arith, Bool-cases, nat_eq,
}
use simple_volume.Base.Dict.{
  lookup, insert, found_after_insert, lookup-insert_same, lookup-insert_other,
}
use simple_volume.Text.Order.{Text-cases}
use simple_volume.Text.{Text, text_eq}
use simple_volume.Agent.Watches.{WatchStatus, ManagedWatch, Goroutine, WatchManager}
use simple_volume.Agent.Watches.Sink.Delivery.{with_status}
use simple_volume.Agent.Watches.Life.{key_at, Accounted, WellFormed}

pub some_text : {s t : Text} → some s ≡ some t → s ≡ t
some_text e = cc

pub key_at-bounded :
    (p : ℕ) (gs : List Goroutine) (key : Text) → key_at p gs ≡ some key → p < length gs
unfolding key_at
key_at-bounded p [] key h = absurd cc
key_at-bounded p (g ∷ gs) key h = ground (arith, key_at-bounded p gs key)

pub some_inj : {w v : ManagedWatch} → some w ≡ some v → w ≡ v
some_inj e = cc

module _ (m : WatchManager) (key : Text) (w : ManagedWatch) (status : WatchStatus)
    (h : WellFormed m) (e : lookup key m.watches ≡ some w)
    (k : contains m.cancelled w.pointer ≡ true → status.running ≡ false) where
  unfoldable pub changed : ManagedWatch
  changed = with_status w status

  unfoldable pub updated : WatchManager
  updated = record m { watches = insert key changed m.watches }

  updated-known :
      (j : Text) (v : ManagedWatch)
      → lookup j (insert key changed m.watches) ≡ some v
      → key_at v.pointer m.goroutines ≡ some j
  unfolding changed
  updated-known j v f = elim (found_after_insert j key changed v m.watches f) [
    | inl (p, q) ↦ rw (q, p) (h.known key w e)
    | inr (p, q) ↦ h.known j v q
  ]

  updated-Accounted : (g : Goroutine) → Accounted m g → Accounted updated g
  unfolding updated changed
  updated-Accounted g (inl c) = inl c
  updated-Accounted g (inr (v, l, p)) = elim (Text-cases g.key key) [
    | inl q ↦
        let same : v ≡ w = some_inj (sym l ∙ ap (λ x. lookup x m.watches) q ∙ e) in
        inr (
          changed,
          rw q (lookup-insert_same key changed m.watches),
          ap (λ x. x.pointer) (sym same) ∙ p,
        )
    | inr q ↦ inr (v, lookup-insert_other g.key key changed m.watches q ∙ l, p)
  ]

  updated-stopped :
      (j : Text) (v : ManagedWatch)
      → lookup j (insert key changed m.watches) ≡ some v
      → contains m.cancelled v.pointer ≡ true
      → v.status.running ≡ false
  unfolding changed
  updated-stopped j v f c = elim (found_after_insert j key changed v m.watches f) [
    | inl (p, q) ↦ rw q (k (subst (λ x. contains m.cancelled x.pointer ≡ true) q c))
    | inr (p, q) ↦ h.stopped j v q c
  ]

  -- The watch at a key keeps its pointer when its status changes.
  pub updated-WellFormed : WellFormed updated
  unfolding updated
  updated-WellFormed = record {
    placed = h.placed;
    bounded = h.bounded;
    known = updated-known;
    accounted = All-map updated-Accounted m.goroutines h.accounted;
    stopped = updated-stopped;
  }

pub key_at-cons :
    (p : ℕ) (g : Goroutine) (gs : List Goroutine) (key : Text)
    → key_at p gs ≡ some key
    → key_at p (g ∷ gs) ≡ some key
unfolding key_at
key_at-cons p g gs key h =
    let bound : p < length gs = key_at-bounded p gs key h in ground (arith, bound)

pub key_at-new : (g : Goroutine) (gs : List Goroutine) → key_at (length gs) (g ∷ gs) ≡ some g.key
unfolding key_at
key_at-new g gs = ground (arith)

pub not_bounded : (n : ℕ) (ps : List ℕ) → All (λ p. p < n) ps → contains ps n ≢ true
not_bounded n [] h e = absurd cc
not_bounded n (p ∷ ps) h e = not_bounded n ps h.1 (ground (arith, h.0))

pub contains-cons : (p q : ℕ) (ps : List ℕ) → contains ps p ≡ true → contains (q ∷ ps) p ≡ true
contains-cons p q ps h = ground (arith)

pub contains-first : (p q : ℕ) (ps : List ℕ) → q ≡ p → contains (q ∷ ps) p ≡ true
contains-first p q ps h = ground (arith)

pub contains-rest :
    (p q : ℕ) (ps : List ℕ) → contains (q ∷ ps) p ≡ true → (q ≡ p) ⊎ (contains ps p ≡ true)
contains-rest p q ps h = elim (Bool-cases (eqb q p)) [
  | inl e ↦ inl (ground (arith))
  | inr e ↦ inr (ground (arith))
]

-- Two watches with one pointer stand at one key.
pub same_key :
    (m : WatchManager) (i j : Text) (v w : ManagedWatch)
    → WellFormed m
    → lookup i m.watches ≡ some v
    → lookup j m.watches ≡ some w
    → v.pointer ≡ w.pointer
    → i ≡ j
same_key m i j v w h e f p =
    some_text (sym (h.known i v e) ∙ ap (λ x. key_at x m.goroutines) p ∙ h.known j w f)
