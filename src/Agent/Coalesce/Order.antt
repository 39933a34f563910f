-- ===== src/Agent/Coalesce/Order.antt =====
-- The place of a string in a list without repetitions, and the lists that give one up.
use mathlib.Core.Option
use simple_volume.Base.{
  ℕ, suc, ◌+◌, ◌≡◌, refl, sym, ap, subst, ◌≢◌, ◌∙◌, inl, inr, true, false, not, ◌||◌, List, [], ◌∷◌,
  ◌++◌, Option, none, some, arith, Bool-cases, Option-cases, ◌==◌, contains, if◌then◌else◌, keep,
  keep-append, take, drop, length,
}
use simple_volume.Base.Dict.{Dict, lookup, insert, lookup-insert}
use simple_volume.Text.{Text, text_eq}
use simple_volume.Agent.Coalesce.{reindex}

-- The place of the first occurrence.
unfoldable pub index_of : Text → List Text → Option ℕ
index_of p [] = none
index_of p (q ∷ qs) = let rest = Option.map suc (index_of p qs) in if p == q then some 0 else rest

abbrev pub Distinct : List Text → Type 0
Distinct [] = Unit
Distinct (p ∷ ps) = (contains ps p ≡ false) × Distinct ps

unfoldable pub without : Text → List Text → List Text
without p = keep (λ q. not (q == p))

pub contains-append :
    (ps qs : List Text) (q : Text) → contains (ps ++ qs) q ≡ contains ps q || contains qs q
contains-append [] qs q = refl
contains-append (p ∷ ps) qs q = ground (arith, contains-append ps qs q)

pub without-id :
    (p : Text) (ps : List Text) → contains ps p ≡ false → keep (λ q. not (q == p)) ps ≡ ps
unfolding keep
without-id p [] h = refl
without-id p (q ∷ ps) h = ground (arith, without-id p ps)

pub index_of-none : (p : Text) (ps : List Text) → index_of p ps ≡ none → contains ps p ≡ false
unfolding index_of
index_of-none p [] h = refl
index_of-none p (q ∷ qs) h = ground (arith, index_of-none p qs)

pub index_of-absent : (p : Text) (ps : List Text) → contains ps p ≡ false → index_of p ps ≡ none
unfolding index_of
index_of-absent p [] h = refl
index_of-absent p (q ∷ qs) h = ground (arith, index_of-absent p qs)

-- A list about the first occurrence of a string.
pub record Found (p : Text) (i : ℕ) (ps : List Text) : Type 0 where
  pub before : List Text
  pub after : List Text
  pub parts : ps ≡ before ++ p ∷ after
  pub first : contains before p ≡ false
  pub place : length before ≡ i

pub index_of-some : (p : Text) (i : ℕ) (ps : List Text) → index_of p ps ≡ some i → Found p i ps
unfolding index_of
index_of-some p i [] h = absurd cc
index_of-some p i (q ∷ qs) h = elim (Bool-cases (p == q)) [
  | inl e ↦
      let same : q ≡ p = ground (arith) in
      record {
        before = [];
        after = qs;
        parts = ap (λ x. x ∷ qs) same;
        first = refl;
        place = ground (arith);
      }
  | inr e ↦ elim (Option-cases (index_of p qs)) [
    | inl f ↦ absurd (ground (arith))
    | inr (j, f) ↦
        let r : Found p j qs = index_of-some p j qs f in
        record {
          before = q ∷ r.before;
          after = r.after;
          parts = ap (λ x. q ∷ x) r.parts;
          first = ground (arith, r.first);
          place = ground (arith, r.place);
        }
  ]
]

take-length : (ps qs : List Text) → take (length ps) (ps ++ qs) ≡ ps
take-length [] qs = refl
take-length (p ∷ ps) qs = ap (λ xs. p ∷ xs) (take-length ps qs)

drop-length : (ps qs : List Text) → drop (length ps) (ps ++ qs) ≡ qs
drop-length [] qs = refl
drop-length (p ∷ ps) qs = drop-length ps qs

drop-suc-length :
    (ps : List Text) (p : Text) (qs : List Text) → drop (suc (length ps)) (ps ++ p ∷ qs) ≡ qs
drop-suc-length [] p qs = refl
drop-suc-length (x ∷ ps) p qs = drop-suc-length ps p qs

pub contains-without :
    (p q : Text) (ps : List Text)
    → contains ps q ≡ false
    → contains (keep (λ r. not (r == p)) ps) q ≡ false
unfolding keep
contains-without p q [] h = refl
contains-without p q (r ∷ ps) h = ground (arith, contains-without p q ps)

pub contains-without_self : (p : Text) (ps : List Text) → contains (without p ps) p ≡ false
unfolding without keep
contains-without_self p [] = refl
contains-without_self p (q ∷ ps) = ground (arith, contains-without_self p ps)

pub Distinct-snoc :
    (p : Text) (ps : List Text) → Distinct ps → contains ps p ≡ false → Distinct (ps ++ p ∷ [])
Distinct-snoc p [] h k = (refl, tt)
Distinct-snoc p (q ∷ ps) h k =
    (ground (arith, contains-append ps (p ∷ []) q, h.0), Distinct-snoc p ps h.1 (ground (arith)))

pub Distinct-without : (p : Text) (ps : List Text) → Distinct ps → Distinct (without p ps)
unfolding without keep
Distinct-without p [] h = tt
Distinct-without p (q ∷ ps) h = elim (Bool-cases (q == p)) [
  | inl e ↦ rw e (Distinct-without p ps h.1)
  | inr e ↦ rw e (contains-without p q ps h.0, Distinct-without p ps h.1)
]

Distinct-after :
    (ps : List Text) (p : Text) (qs : List Text)
    → Distinct (ps ++ p ∷ qs)
    → (contains qs p ≡ false) × Distinct qs
Distinct-after [] p qs h = h
Distinct-after (x ∷ ps) p qs h = Distinct-after ps p qs h.1

-- A number in an option, counted from `i`.
abbrev shifted : ℕ → Option ℕ → Option ℕ → Option ℕ
shifted i none other = other
shifted i (some j) other = some (i + j)

lookup-reindex :
    (q : Text) (i : ℕ) (ps : List Text) (d : Dict Text ℕ)
    → Distinct ps
    → lookup q (reindex i ps d) ≡ shifted i (index_of q ps) (lookup q d)
unfolding reindex index_of
lookup-reindex q i [] d h = refl
lookup-reindex q i (p ∷ ps) d h = ground (
  arith,
  lookup-reindex q (suc i) ps (insert p i d) h.1,
  lookup-insert q p i d,
  index_of-absent q ps,
  h.0,
)

-- A place in the first of two lists, or else in the second.
abbrev pub or_after : Option ℕ → ℕ → Option ℕ → Option ℕ
or_after (some j) n other = some j
or_after none n none = none
or_after none n (some j) = some (n + j)

pub index_of-append :
    (q : Text) (ps qs : List Text)
    → index_of q (ps ++ qs) ≡ or_after (index_of q ps) (length ps) (index_of q qs)
unfolding index_of
index_of-append q [] qs = ground (arith)
index_of-append q (p ∷ ps) qs = ground (arith, index_of-append q ps qs)

index_of-contains :
    (q : Text) (j : ℕ) (ps : List Text) → index_of q ps ≡ some j → contains ps q ≡ true
unfolding index_of
index_of-contains q j [] h = absurd cc
index_of-contains q j (p ∷ ps) h = elim (Option-cases (index_of q ps)) [
  | inl e ↦ ground (arith)
  | inr (k, e) ↦ ground (arith, index_of-contains q k ps e)
]

contains-here : (ps : List Text) (q : Text) (qs : List Text) → contains (ps ++ q ∷ qs) q ≡ true
contains-here [] q qs = ground (arith)
contains-here (p ∷ ps) q qs = ground (arith, contains-here ps q qs)

Distinct-apart :
    (ps qs : List Text) (q : Text)
    → Distinct (ps ++ qs)
    → contains qs q ≡ true
    → contains ps q ≡ false
Distinct-apart [] qs q h k = refl
Distinct-apart (p ∷ ps) qs q h k =
    ground (arith, h.0, Distinct-apart ps qs q h.1 k, contains-append ps qs p)

-- The place of a string after another one has left the list.
place_after :
    (before after : List Text) (p q : Text)
    → Distinct (before ++ p ∷ after)
    → q ≢ p
    → shifted (length before) (index_of q after) (index_of q (before ++ p ∷ after))
      ≡ index_of q (before ++ after)
unfolding index_of
place_after before after p q h n = elim (Option-cases (index_of q after)) [
  | inl e ↦
      let f : (q == p) ≡ false = ground (arith) in
      rw (e, index_of-append q before (p ∷ after), index_of-append q before after, e, f) refl
  | inr (j, e) ↦
      let found : contains after q ≡ true = index_of-contains q j after e in
      let absent : contains before q ≡ false =
        Distinct-apart before (p ∷ after) q h (ground (arith, found)) in
      rw (e, index_of-append q before after, index_of-absent q before absent, e) refl
]

without-found :
    (before after : List Text) (p : Text)
    → contains before p ≡ false
    → contains after p ≡ false
    → without p (before ++ p ∷ after) ≡ before ++ after
unfolding without keep
without-found before after p h k =
    let same : (p == p) ≡ true = ground (arith) in
    rw
      (
        keep-append (λ q. not (q == p)) before (p ∷ after),
        without-id p before h,
        same,
        without-id p after k,
      )
      refl

give_up_found :
    (before after : List Text) (p : Text) (position : Dict Text ℕ)
    → Distinct (before ++ p ∷ after)
    → contains before p ≡ false
    → ((q : Text) → lookup q position ≡ index_of q (before ++ p ∷ after))
    → (order : List Text) → order ≡ before ++ after
    → (order ≡ without p (before ++ p ∷ after))
      × ((q : Text)
          → q ≢ p
          → lookup q (reindex (length before) (drop (length before) order) position)
            ≡ index_of q order)
give_up_found before after p position h a k order e =
    let (absent, distinct) = Distinct-after before p after h in
    (
      e ∙ sym (without-found before after p a absent),
      λ q n.
          rw (e, drop-length before after)
            (lookup-reindex q (length before) after position distinct
              ∙ ap (shifted (length before) (index_of q after)) (k q)
              ∙ place_after before after p q h n),
    )

rest_of_found :
    (before after : List Text) (p : Text)
    → take (length before) (before ++ p ∷ after) ++ drop (suc (length before)) (before ++ p ∷ after)
      ≡ before ++ after
rest_of_found before after p =
    rw (take-length before (p ∷ after), drop-suc-length before p after) refl

-- What is left of a list when the string at a place leaves it, and of its index.
pub give_up_place :
    (p : Text) (i : ℕ) (order : List Text) (position : Dict Text ℕ)
    → Distinct order
    → ((q : Text) → lookup q position ≡ index_of q order)
    → index_of p order ≡ some i
    → (take i order ++ drop (suc i) order ≡ without p order)
      × ((q : Text)
          → q ≢ p
          → lookup q (reindex i (drop i (take i order ++ drop (suc i) order)) position)
            ≡ index_of q (take i order ++ drop (suc i) order))
give_up_place p i order position h k e =
    let r : Found p i order = index_of-some p i order e in
    let distinct : Distinct (r.before ++ p ∷ r.after) = subst Distinct r.parts h in
    let places : (q : Text) → lookup q position ≡ index_of q (r.before ++ p ∷ r.after) =
      subst (λ o. (q : Text) → lookup q position ≡ index_of q o) r.parts k in
    rw (r.parts, sym r.place)
      (give_up_found r.before r.after p position distinct r.first places _
        (rest_of_found r.before r.after p))
