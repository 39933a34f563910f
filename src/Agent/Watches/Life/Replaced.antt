-- ===== src/Agent/Watches/Life/Replaced.antt =====
-- A new watch, which takes the place of the one at its key.
use simple_volume.Base.{
  ℕ, ◌≡◌, sym, ap, subst, ◌≢◌, ◌∙◌, ◌<◌, inl, inr, true, false, List, ◌∷◌, Option, none, some,
  contains, length, All, All-map, arith, nat_eq,
}
use simple_volume.Base.Dict.{
  lookup, insert, found_after_insert, lookup-insert_same, lookup-insert_other,
}
use simple_volume.Text.{Text, text_eq}
use simple_volume.Text.Order.{Text-cases}
use simple_volume.Agent.Watches.{ManagedWatch, Goroutine, WatchManager, cancel_existing}
use simple_volume.Agent.Watches.Life.{key_at, Accounted, WellFormed}
use simple_volume.Agent.Watches.Life.Kept.{
  some_inj, key_at-bounded, key_at-cons, key_at-new, not_bounded, contains-cons, contains-first,
  contains-rest, same_key,
}

bounded_cancel :
    (m : WatchManager) (key : Text) (existing : Option ManagedWatch)
    → WellFormed m
    → lookup key m.watches ≡ existing
    → All (λ p. p < length m.goroutines) (cancel_existing existing m.cancelled)
unfolding cancel_existing
bounded_cancel m key none h e = h.bounded
bounded_cancel m key (some w) h e =
    (key_at-bounded w.pointer m.goroutines key (h.known key w e), h.bounded)

kept_cancelled :
    (existing : Option ManagedWatch) (p : ℕ) (ps : List ℕ)
    → contains ps p ≡ true
    → contains (cancel_existing existing ps) p ≡ true
unfolding cancel_existing
kept_cancelled none p ps h = h
kept_cancelled (some w) p ps h = contains-cons p w.pointer ps h

-- The watch that is replaced is cancelled.
replaced_cancelled :
    (existing : Option ManagedWatch) (v : ManagedWatch) (ps : List ℕ)
    → existing ≡ some v
    → contains (cancel_existing existing ps) v.pointer ≡ true
unfolding cancel_existing
replaced_cancelled none v ps h = absurd cc
replaced_cancelled (some w) v ps h =
    contains-first v.pointer w.pointer ps (ap (λ x. x.pointer) (some_inj h))

-- A watch at another key is cancelled only if it was.
cancelled_before :
    (m : WatchManager) (key j : Text) (existing : Option ManagedWatch) (v : ManagedWatch)
    → WellFormed m
    → lookup key m.watches ≡ existing
    → j ≢ key
    → lookup j m.watches ≡ some v
    → contains (cancel_existing existing m.cancelled) v.pointer ≡ true
    → contains m.cancelled v.pointer ≡ true
unfolding cancel_existing
cancelled_before m key j none v h e n f c = c
cancelled_before m key j (some w) v h e n f c =
    elim (contains-rest v.pointer w.pointer m.cancelled c) [
      | inl q ↦ absurd (n (same_key m j key v w h f e (sym q)))
      | inr q ↦ q
    ]

module _ (m : WatchManager) (key : Text) (existing : Option ManagedWatch) (new : ManagedWatch)
    (g : Goroutine) (h : WellFormed m) (e : lookup key m.watches ≡ existing) (k : g.key ≡ key)
    (p : g.pointer ≡ length m.goroutines) (q : new.pointer ≡ length m.goroutines) where
  unfoldable pub installed : WatchManager
  installed = record {
    watches = insert key new m.watches;
    goroutines = g ∷ m.goroutines;
    cancelled = cancel_existing existing m.cancelled;
  }

  installed-known :
      (j : Text) (v : ManagedWatch)
      → lookup j (insert key new m.watches) ≡ some v
      → key_at v.pointer (g ∷ m.goroutines) ≡ some j
  installed-known j v f = elim (found_after_insert j key new v m.watches f) [
    | inl (a, b) ↦ rw (b, a, q, sym k) (key_at-new g m.goroutines)
    | inr (a, b) ↦ key_at-cons v.pointer g m.goroutines j (h.known j v b)
  ]

  installed-Accounted : (x : Goroutine) → Accounted m x → Accounted installed x
  unfolding installed
  installed-Accounted x (inl c) = inl (kept_cancelled existing x.pointer m.cancelled c)
  installed-Accounted x (inr (v, l, a)) = elim (Text-cases x.key key) [
    | inl b ↦
        let here : existing ≡ some v = sym e ∙ ap (λ y. lookup y m.watches) (sym b) ∙ l in
        inl (
          subst (λ y. contains (cancel_existing existing m.cancelled) y ≡ true) a
            (replaced_cancelled existing v m.cancelled here))
    | inr b ↦ inr (v, lookup-insert_other x.key key new m.watches b ∙ l, a)
  ]

  installed-stopped :
      (j : Text) (v : ManagedWatch)
      → lookup j (insert key new m.watches) ≡ some v
      → contains (cancel_existing existing m.cancelled) v.pointer ≡ true
      → v.status.running ≡ false
  installed-stopped j v f c = elim (found_after_insert j key new v m.watches f) [
    | inl (a, b) ↦
        let fresh : contains (cancel_existing existing m.cancelled) (length m.goroutines) ≡ true =
          subst (λ y. contains (cancel_existing existing m.cancelled) y ≡ true)
            (ap (λ x. x.pointer) b ∙ q) c in
        absurd (
          not_bounded (length m.goroutines) (cancel_existing existing m.cancelled)
            (bounded_cancel m key existing h e) fresh)
    | inr (a, b) ↦ h.stopped j v b (cancelled_before m key j existing v h e a b c)
  ]

  pub installed-WellFormed : WellFormed installed
  unfolding installed
  installed-WellFormed = record {
    placed = (p, h.placed);
    bounded =
        All-map (λ n b. omega (arith, b)) (cancel_existing existing m.cancelled)
          (bounded_cancel m key existing h e);
    known = installed-known;
    accounted = (
      inr (new, rw k (lookup-insert_same key new m.watches), q ∙ sym p),
      All-map installed-Accounted m.goroutines h.accounted,
    );
    stopped = installed-stopped;
  }
