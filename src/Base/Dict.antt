-- ===== src/Base/Dict.antt =====
-- Go maps as association lists. A `range` over a map goes through the list, so a theorem about all
-- lists with the same entries holds of every iteration order.
use simple_volume.Base.Equality.{Eq, ◌==◌, contains, option_eq, if◌then◌else◌, Bool-cases}
use simple_volume.Base.Lists.{keep}
use mathlib.Core.Path.{◌≡◌, refl}
use mathlib.Core.Logic.{◌≢◌, ◌↔◌, ◌⊎◌, inl, inr}
use mathlib.Core.Bool.{Bool, true, false, not, ◌&&◌}
use mathlib.Core.Option.{Option, none, some}
use mathlib.Core.List.{List, [], ◌∷◌}
use native.Mathlib.Omega.{arith}

abbrev pub Dict {ℓ κ} : Type ℓ → Type κ → Type (ℓ ⊔ κ)
Dict K V = List (K × V)

unfoldable pub keys {ℓ κ} : {K : Type ℓ} {V : Type κ} → Dict K V → List K
keys [] = []
keys ((k, _) ∷ d) = k ∷ keys d

pub contains-keep {ℓ} :
    {K : Type ℓ} ⦃e : Eq K⦄ (xs : List K) (k j : K)
    → contains (keep (λ i. not (i == k)) xs) j ≡ (contains xs j && not (j == k))
unfolding keep
contains-keep [] k j = refl
contains-keep (i ∷ xs) k j = ground (arith, contains-keep xs k j)

module _ {ℓ κ} {K : Type ℓ} {V : Type κ} ⦃e : Eq K⦄ where
  -- `v, ok := d[k]`
  unfoldable pub lookup : K → Dict K V → Option V
  lookup k [] = none
  lookup k ((j, v) ∷ d) = if k == j then some v else lookup k d

  -- `d[k]`, with the zero value for a missing key.
  unfoldable pub get_or : V → K → Dict K V → V
  get_or zero_value k d = elim (lookup k d) [ some v ↦ v | none ↦ zero_value ]

  unfoldable pub has_key : K → Dict K V → Bool
  unfolding lookup
  has_key k d = elim (lookup k d) [ some _ ↦ true | none ↦ false ]

  -- `d[k] = v`
  unfoldable pub insert : K → V → Dict K V → Dict K V
  insert k v [] = (k, v) ∷ []
  insert k v ((j, w) ∷ d) = if k == j then (k, v) ∷ d else (j, w) ∷ insert k v d

  -- `delete(d, k)`
  unfoldable pub erase : K → Dict K V → Dict K V
  erase k [] = []
  erase k ((j, w) ∷ d) = let rest = erase k d in if k == j then rest else (j, w) ∷ rest

  pub lookup-insert :
      (j k : K) (v : V) (d : Dict K V)
      → lookup j (insert k v d) ≡ (if j == k then some v else lookup j d)
  unfolding insert lookup
  lookup-insert j k v [] = refl
  lookup-insert j k v (_ ∷ d) = ground (arith, lookup-insert j k v d)

  -- What is found after an insertion is the new value at its key, or what was there.
  pub found_after_insert :
      (j k : K) (v w : V) (d : Dict K V)
      → lookup j (insert k v d) ≡ some w
      → ((j ≡ k) × (w ≡ v)) ⊎ ((j ≢ k) × (lookup j d ≡ some w))
  found_after_insert j k v w d h = elim (Bool-cases (j == k)) [
    | inl b ↦ inl (ground (arith), ground (arith, lookup-insert j k v d))
    | inr b ↦ inr (ground (arith), ground (arith, lookup-insert j k v d))
  ]

  pub lookup-insert_same : (k : K) (v : V) (d : Dict K V) → lookup k (insert k v d) ≡ some v
  lookup-insert_same k v d = ground (arith, lookup-insert k k v d)

  pub lookup-insert_other :
      (j k : K) (v : V) (d : Dict K V) → j ≢ k → lookup j (insert k v d) ≡ lookup j d
  lookup-insert_other j k v d h = ground (arith, lookup-insert j k v d)

  pub get_or-insert :
      (zero_value : V) (j k : K) (v : V) (d : Dict K V)
      → get_or zero_value j (insert k v d) ≡ (if j == k then v else get_or zero_value j d)
  unfolding get_or
  get_or-insert zero_value j k v d = ground (arith, lookup-insert j k v d)

  pub lookup-erase :
      (j k : K) (d : Dict K V) → lookup j (erase k d) ≡ (if j == k then none else lookup j d)
  unfolding erase lookup
  lookup-erase j k [] = ground arith
  lookup-erase j k (_ ∷ d) = ground (arith, lookup-erase j k d)

  pub has_key-none : (k : K) (d : Dict K V) → lookup k d ≡ none → has_key k d ≡ false
  unfolding has_key
  has_key-none k d h = rw (h, has_key) refl

  pub has_key-some : (k : K) (v : V) (d : Dict K V) → lookup k d ≡ some v → has_key k d ≡ true
  unfolding has_key
  has_key-some k v d h = rw (h, has_key) refl

  pub get_or-none : (z : V) (k : K) (d : Dict K V) → lookup k d ≡ none → get_or z k d ≡ z
  unfolding get_or
  get_or-none z k d h = rw (h, get_or) refl

  pub get_or-some : (z : V) (k : K) (v : V) (d : Dict K V) → lookup k d ≡ some v → get_or z k d ≡ v
  unfolding get_or
  get_or-some z k v d h = rw (h, get_or) refl

  pub contains-keys : (d : Dict K V) (k : K) → (contains (keys d) k ≡ true) ↔ (lookup k d ≢ none)
  unfolding keys lookup
  contains-keys [] k = (λ h. cc, λ h. absurd (h refl))
  contains-keys (_ ∷ d) k = ground (arith, contains-keys d k)

  -- Each key of `d` has the same entry in `e`.
  entries_in : ⦃v : Eq V⦄ → Dict K V → Dict K V → Bool
  entries_in [] e = true
  entries_in ((k, v) ∷ d) e = (lookup k e == some v) && entries_in d e

  -- `reflect.DeepEqual` of two maps that hold each key once.
  unfoldable pub dict_equal : ⦃v : Eq V⦄ → Dict K V → Dict K V → Bool
  unfolding entries_in
  dict_equal d e = entries_in d e && entries_in e d
