-- ===== src/Base/Sorting.antt =====
-- Laws of `sort` for a `less` that is a strict weak order.
use mathlib.Core.Path.{◌≡◌}
use mathlib.Core.Bool.{Bool, true, false}
use mathlib.Core.List.Memᴰ
use mathlib.Core.List.{List, [], ◌∷◌, Memᴰ}
use mathlib.Core.Logic.{◌⊎◌, inl, inr}
use simple_volume.Base.Equality.{Bool-cases}
use simple_volume.Base.Lists.{All, All-map, insert_sorted, sort, keep, take}
use Prim.Native.Nat.{ℕ, zero, suc}
use mathlib.Core.Path.{refl}

pub record StrictWeakOrder {ℓ} {A : Type ℓ} (less : A → A → Bool) : Type ℓ where
  pub asymm : (x y : A) → less x y ≡ true → less y x ≡ false
  pub neg_trans : (x y z : A) → less x y ≡ false → less y z ≡ false → less x z ≡ false

-- No later element comes before an earlier one.
abbrev pub IsSorted {ℓ} : {A : Type ℓ} → (A → A → Bool) → List A → Type 0
IsSorted less [] = Unit
IsSorted less (x ∷ xs) = All (λ y. less y x ≡ false) xs × IsSorted less xs

module _ {ℓ κ} {A : Type ℓ} (P : A → Type κ) (less : A → A → Bool) where
  pub All-insert_sorted : (x : A) (ys : List A) → P x → All P ys → All P (insert_sorted less x ys)
  unfolding insert_sorted
  All-insert_sorted x [] p h = (p, tt)
  All-insert_sorted x (y ∷ ys) p h = elim (Bool-cases (less y x)) [
    | inl e ↦ rw e (h.0, All-insert_sorted x ys p h.1)
    | inr e ↦ rw e (p, (h.0, h.1))
  ]

  pub All-sort : (xs : List A) → All P xs → All P (sort less xs)
  unfolding sort
  All-sort [] h = tt
  All-sort (x ∷ xs) h = All-insert_sorted x (sort less xs) h.0 (All-sort xs h.1)

  pub All-of_insert_sorted :
      (x : A) (ys : List A) → All P (insert_sorted less x ys) → P x × All P ys
  unfolding insert_sorted
  All-of_insert_sorted x [] h = h
  All-of_insert_sorted x (y ∷ ys) h = elim (Bool-cases (less y x)) [
    | inl e ↦ let h' = rw (e) at h in let r = All-of_insert_sorted x ys h'.1 in (r.0, (h'.0, r.1))
    | inr e ↦ rw e at h
  ]

  pub All-of_sort : (xs : List A) → All P (sort less xs) → All P xs
  unfolding sort
  All-of_sort [] h = tt
  All-of_sort (x ∷ xs) h =
      let r = All-of_insert_sorted x (sort less xs) h in (r.0, All-of_sort xs r.1)

module _ {ℓ} {A : Type ℓ} (less : A → A → Bool) (o : StrictWeakOrder less) where
  pub insert_sorted-IsSorted :
      (x : A) (ys : List A) → IsSorted less ys → IsSorted less (insert_sorted less x ys)
  unfolding insert_sorted
  insert_sorted-IsSorted x [] s = (tt, tt)
  insert_sorted-IsSorted x (y ∷ ys) s = elim (Bool-cases (less y x)) [
    | inl e ↦ rw e (
      All-insert_sorted (λ z. less z y ≡ false) less x ys (o.asymm y x e) s.0,
      insert_sorted-IsSorted x ys s.1,
    )
    | inr e ↦ rw e ((e, All-map (λ z h. o.neg_trans z y x h e) ys s.0), (s.0, s.1))
  ]

  pub sort-IsSorted : (xs : List A) → IsSorted less (sort less xs)
  unfolding sort
  sort-IsSorted [] = tt
  sort-IsSorted (x ∷ xs) = insert_sorted-IsSorted x (sort less xs) (sort-IsSorted xs)

-- Membership, where a member has to be found again.
module _ {ℓ} {A : Type ℓ} where
  pub Memᴰ-cons : {c x : A} {xs : List A} → Memᴰ c (x ∷ xs) → (c ≡ x) ⊎ Memᴰ c xs
  Memᴰ-cons (Memᴰ.head e) = inl e
  Memᴰ-cons (Memᴰ.tail m) = inr m

  pub All-Memᴰ {κ} : (P : A → Type κ) (c : A) (xs : List A) → All P xs → Memᴰ c xs → P c
  All-Memᴰ P c [] h m = absurd (Memᴰ.not-nil m)
  All-Memᴰ P c (x ∷ xs) h m = elim (Memᴰ-cons m) [
    | inl e ↦ rw e (h.0)
    | inr r ↦ All-Memᴰ P c xs h.1 r
  ]

module _ {ℓ} {A : Type ℓ} (less : A → A → Bool) where
  Memᴰ-insert_sorted :
      (c x : A) (ys : List A) → Memᴰ c (insert_sorted less x ys) → (c ≡ x) ⊎ Memᴰ c ys
  unfolding insert_sorted
  Memᴰ-insert_sorted c x [] m = Memᴰ-cons m
  Memᴰ-insert_sorted c x (y ∷ ys) m = elim (Bool-cases (less y x)) [
    | inl e ↦ elim (Memᴰ-cons (rw e at m)) [
      | inl f ↦ inr (Memᴰ.head f)
      | inr r ↦ elim (Memᴰ-insert_sorted c x ys r) [ inl f ↦ inl f | inr k ↦ inr (Memᴰ.tail k) ]
    ]
    | inr e ↦ Memᴰ-cons (rw e at m)
  ]

  -- Sorting brings in no element.
  pub Memᴰ-sort : (c : A) (xs : List A) → Memᴰ c (sort less xs) → Memᴰ c xs
  unfolding sort
  Memᴰ-sort c [] m = m
  Memᴰ-sort c (x ∷ xs) m = elim (Memᴰ-insert_sorted c x (sort less xs) m) [
    | inl e ↦ Memᴰ.head e
    | inr r ↦ Memᴰ.tail (Memᴰ-sort c xs r)
  ]

  Memᴰ-into_insert_sorted :
      (c x : A) (ys : List A) → (c ≡ x) ⊎ Memᴰ c ys → Memᴰ c (insert_sorted less x ys)
  unfolding insert_sorted
  Memᴰ-into_insert_sorted c x [] (inl e) = Memᴰ.head e
  Memᴰ-into_insert_sorted c x [] (inr m) = absurd (Memᴰ.not-nil m)
  Memᴰ-into_insert_sorted c x (y ∷ ys) h = elim (Bool-cases (less y x)) [
    | inl e ↦ rw e (elim h [
      | inl f ↦ Memᴰ.tail (Memᴰ-into_insert_sorted c x ys (inl f))
      | inr m ↦ elim (Memᴰ-cons m) [
        | inl f ↦ Memᴰ.head f
        | inr r ↦ Memᴰ.tail (Memᴰ-into_insert_sorted c x ys (inr r))
      ]
    ])
    | inr e ↦ rw e (elim h [ inl f ↦ Memᴰ.head f | inr m ↦ Memᴰ.tail m ])
  ]

  -- Sorting loses no element.
  pub Memᴰ-into_sort : (c : A) (xs : List A) → Memᴰ c xs → Memᴰ c (sort less xs)
  unfolding sort
  Memᴰ-into_sort c [] m = m
  Memᴰ-into_sort c (x ∷ xs) m =
      Memᴰ-into_insert_sorted c x (sort less xs)
        (elim (Memᴰ-cons m) [ inl e ↦ inl e | inr r ↦ inr (Memᴰ-into_sort c xs r) ])

module _ {ℓ} {A : Type ℓ} (p : A → Bool) where
  -- What a filtering loop keeps: the elements that pass, and no other.
  pub Memᴰ-keep : (c : A) (xs : List A) → Memᴰ c (keep p xs) → Memᴰ c xs × (p c ≡ true)
  unfolding keep
  Memᴰ-keep c [] m = absurd (Memᴰ.not-nil m)
  Memᴰ-keep c (x ∷ xs) m = elim (Bool-cases (p x)) [
    | inl e ↦ elim (Memᴰ-cons (rw e at m)) [
      | inl f ↦ (Memᴰ.head f, rw f e)
      | inr r ↦ let k = Memᴰ-keep c xs r in (Memᴰ.tail k.0, k.1)
    ]
    | inr e ↦ let k = Memᴰ-keep c xs (rw e at m) in (Memᴰ.tail k.0, k.1)
  ]

  pub All-of_keep {κ} :
      (P : A → Type κ) (xs : List A) → All P (keep p xs) → All (λ x. p x ≡ true → P x) xs
  unfolding keep
  All-of_keep P [] h = tt
  All-of_keep P (x ∷ xs) h = elim (Bool-cases (p x)) [
    | inl e ↦ let k = rw e at h in ((λ _. k.0), All-of_keep P xs k.1)
    | inr e ↦ ((λ f. cc), All-of_keep P xs (rw e at h))
  ]

  pub All-keep : (xs : List A) → All (λ x. p x ≡ true) (keep p xs)
  unfolding keep
  All-keep [] = tt
  All-keep (x ∷ xs) = elim (Bool-cases (p x)) [
    | inl e ↦ rw (e, keep) (e, All-keep xs)
    | inr e ↦ rw (e, keep) (All-keep xs)
  ]

module _ {ℓ κ μ} {A : Type ℓ} where
  pub All-zip :
      (P : A → Type κ) (Q : A → Type μ) (xs : List A)
      → All P xs
      → All Q xs
      → All (λ x. P x × Q x) xs
  All-zip P Q [] h k = tt
  All-zip P Q (x ∷ xs) h k = ((h.0, k.0), All-zip P Q xs h.1 k.1)

module _ {ℓ} {A : Type ℓ} (less : A → A → Bool) where
  -- Of a sorted list each element is among the first `n`, or comes before none of them.
  pub take_of_sorted :
      (n : ℕ) (xs : List A)
      → IsSorted less xs
      → All (λ a. Memᴰ a (take n xs) ⊎ All (λ c. less a c ≡ false) (take n xs)) xs
  take_of_sorted zero [] s = tt
  take_of_sorted zero (x ∷ xs) s = (inr tt, All-map (λ a h. inr tt) xs s.0)
  take_of_sorted (suc n) [] s = tt
  take_of_sorted (suc n) (x ∷ xs) s = (
    inl (Memᴰ.head refl),
    All-map (λ a (h, k). elim k [ inl m ↦ inl (Memᴰ.tail m) | inr r ↦ inr (h, r) ]) xs
        (All-zip _ _ xs s.0 (take_of_sorted n xs s.1)),
  )

pub All-take {ℓ κ} :
    {A : Type ℓ} (P : A → Type κ) (n : ℕ) (xs : List A) → All P xs → All P (take n xs)
All-take P zero xs h = tt
All-take P (suc n) [] h = tt
All-take P (suc n) (x ∷ xs) h = (h.0, All-take P n xs h.1)
