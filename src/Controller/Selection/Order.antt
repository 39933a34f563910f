-- ===== src/Controller/Selection/Order.antt =====
-- The order of the candidates, and that of the map of the agents.
use mathlib.Core.Logic.{∥∥₁_elim}
use mathlib.Core.List.{Perm, Permᴰ}
use simple_volume.Base.{
  ◌≡◌, refl, ◌∙◌, false, List, [], ◌∷◌, arith, All, sort, inl, inr, Bool-cases,
}
use simple_volume.Base.Dict.{Dict}
use mathlib.Core.List.Permᴰ
use simple_volume.Base.Sorting.{IsSorted, StrictWeakOrder, sort-IsSorted, All-sort, All-of_sort}
use simple_volume.Text.{Text}
use simple_volume.Text.Order.{
  text_ltb_asymm, text_ltb_neg_trans, text_ltb_connected, text_ltb_irrefl,
}
use simple_volume.Controller.Kube.{Quantities, Pod}
use simple_volume.Controller.Selection.{
  FailoverCandidate, Circumstances, FailoverDecision, fresher, has_candidate, first_preferred,
  freshest, is_eligible, failover_candidates, select_failover_target_from_candidates, Reason,
}

fresher_irrefl : (c : FailoverCandidate) → fresher c c ≡ false
unfolding fresher
fresher_irrefl c = ground (arith, text_ltb_irrefl c.node)

pub fresher-StrictWeakOrder : StrictWeakOrder fresher
unfolding fresher
fresher-StrictWeakOrder = record {
  asymm = λ x y h. ground (arith, text_ltb_asymm x.node y.node);
  neg_trans = λ x y z h k. ground (arith, text_ltb_neg_trans x.node y.node z.node);
}

-- Two candidates of which neither is fresher are of one node.
fresher_connected :
    (c d : FailoverCandidate) → fresher c d ≡ false → fresher d c ≡ false → c.node ≡ d.node
unfolding fresher
fresher_connected c d h k = ground (arith, text_ltb_connected c.node d.node)

All-Permᴰ :
    (P : FailoverCandidate → Type 0) {cs ds : List FailoverCandidate}
    → Permᴰ cs ds
    → All P cs
    → All P ds
All-Permᴰ P Permᴰ.nil h = tt
All-Permᴰ P (Permᴰ.cons e p) h = (rw (← e) (h.0), All-Permᴰ P p h.1)
All-Permᴰ P (Permᴰ.swap e f) h = (rw (← f) (h.1.0), (rw (← e) (h.0), h.1.1))
All-Permᴰ P (Permᴰ.trans p r) h = All-Permᴰ P r (All-Permᴰ P p h)

-- The first of two sorted lists with the same members.
freshest_agree :
    (s t : List FailoverCandidate)
    → IsSorted fresher s
    → IsSorted fresher t
    → ((P : FailoverCandidate → Type 0) → All P s → All P t)
    → ((P : FailoverCandidate → Type 0) → All P t → All P s)
    → freshest s ≡ freshest t
unfolding freshest
freshest_agree [] [] hs ht f g = refl
freshest_agree [] (d ∷ t) hs ht f g = absurd (f (λ _. ⊥) tt).0
freshest_agree (c ∷ s) [] hs ht f g = absurd (g (λ _. ⊥) tt).0
freshest_agree (c ∷ s) (d ∷ t) hs ht f g =
    let below_c = (f (λ y. fresher y c ≡ false) (fresher_irrefl c, hs.0)).0 in
    let below_d = (g (λ y. fresher y d ≡ false) (fresher_irrefl d, ht.0)).0 in
    cc (fresher_connected c d below_d below_c)

has_candidate_perm :
    (node : Text) {cs ds : List FailoverCandidate}
    → Permᴰ cs ds
    → has_candidate node cs ≡ has_candidate node ds
unfolding has_candidate
has_candidate_perm node Permᴰ.nil = refl
has_candidate_perm node (Permᴰ.cons e p) = ground (arith, e, has_candidate_perm node p)
has_candidate_perm node (Permᴰ.swap e f) = ground (arith, e, f)
has_candidate_perm node (Permᴰ.trans p r) = has_candidate_perm node p ∙ has_candidate_perm node r

first_preferred_perm :
    (priority : List Text) {cs ds : List FailoverCandidate}
    → Permᴰ cs ds
    → first_preferred cs priority ≡ first_preferred ds priority
unfolding first_preferred
first_preferred_perm [] p = refl
first_preferred_perm (node ∷ nodes) p =
    ground (arith, has_candidate_perm node p, first_preferred_perm nodes p)

select_permᴰ :
    (priority : List Text) {cs ds : List FailoverCandidate}
    → Permᴰ cs ds
    → select_failover_target_from_candidates cs priority
      ≡ select_failover_target_from_candidates ds priority
unfolding select_failover_target_from_candidates
select_permᴰ priority {cs} {ds} p =
    let o = fresher-StrictWeakOrder in
    let same =
      freshest_agree (sort fresher cs) (sort fresher ds) (sort-IsSorted fresher o cs)
        (sort-IsSorted fresher o ds)
        (λ P h. All-sort P fresher ds (All-Permᴰ P p (All-of_sort P fresher cs h)))
        (λ P h. All-sort P fresher cs (All-Permᴰ P (Permᴰ.symm p) (All-of_sort P fresher ds h))) in
    cc (first_preferred_perm priority p, same)

Reason-discrete : Discrete Reason
Reason-discrete = hlevel

FailoverDecision-set : IsSet FailoverDecision
FailoverDecision-set = hlevel

candidates_permᴰ :
    (q : Quantities) (c : Circumstances q) {agents others : Dict Text (Pod q.Quantity)}
    → Permᴰ agents others
    → Permᴰ (failover_candidates q c agents) (failover_candidates q c others)
unfolding failover_candidates
candidates_permᴰ q c Permᴰ.nil = Permᴰ.nil
candidates_permᴰ q c (Permᴰ.cons {a} e p) = rw (← e) (elim (Bool-cases (is_eligible q c a.0)) [
  | inl h ↦ rw h (Permᴰ.cons refl (candidates_permᴰ q c p))
  | inr h ↦ rw h (candidates_permᴰ q c p)
])
candidates_permᴰ q c (Permᴰ.swap {a} {b} {l = l} e f) =
    rw (← e, ← f)
      (elim (Bool-cases (is_eligible q c a.0)) [
        | inl h ↦ elim (Bool-cases (is_eligible q c b.0)) [
          | inl k ↦ rw (h, k) (Permᴰ.swap refl refl)
          | inr k ↦ rw (h, k) (Permᴰ.refl _)
        ]
        | inr h ↦ rw h (Permᴰ.refl _)
      ])
candidates_permᴰ q c (Permᴰ.trans p r) =
    Permᴰ.trans (candidates_permᴰ q c p) (candidates_permᴰ q c r)

-- The decision does not depend on the order in which the map of the agents is gone through.
pub select-candidates_perm :
    (q : Quantities) (c : Circumstances q) (priority : List Text)
    {agents others : Dict Text (Pod q.Quantity)}
    → Perm agents others
    → select_failover_target_from_candidates (failover_candidates q c agents) priority
      ≡ select_failover_target_from_candidates (failover_candidates q c others) priority
select-candidates_perm q c priority same =
    ∥∥₁_elim same (FailoverDecision-set _ _) (λ p. select_permᴰ priority (candidates_permᴰ q c p))
