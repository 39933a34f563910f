-- ===== src/Text/Order.antt =====
-- Laws of the order of strings.
use simple_volume.Base.{
  ◌↔◌, ◌≡◌, refl, ◌≢◌, ◌⊎◌, inl, inr, true, false, [], ◌∷◌, arith, ◌==◌, Bool-cases,
}
use simple_volume.Base.Sorting.{StrictWeakOrder}
use simple_volume.Text.{Text, text_eq, text_ltb, is_empty}

pub text_ltb_irrefl : (a : Text) → text_ltb a a ≡ false
unfolding text_ltb
text_ltb_irrefl [] = refl
text_ltb_irrefl (x ∷ xs) = ground (arith, text_ltb_irrefl xs)

pub text_ltb_asymm : (a b : Text) → text_ltb a b ≡ true → text_ltb b a ≡ false
unfolding text_ltb
text_ltb_asymm [] [] h = refl
text_ltb_asymm [] (y ∷ ys) h = refl
text_ltb_asymm (x ∷ xs) [] h = cc
text_ltb_asymm (x ∷ xs) (y ∷ ys) h = ground (arith, text_ltb_asymm xs ys)

-- Two strings of which neither comes first are equal.
pub text_ltb_connected : (a b : Text) → text_ltb a b ≡ false → text_ltb b a ≡ false → a ≡ b
unfolding text_ltb
text_ltb_connected [] [] h k = refl
text_ltb_connected [] (y ∷ ys) h k = cc
text_ltb_connected (x ∷ xs) [] h k = cc
text_ltb_connected (x ∷ xs) (y ∷ ys) h k = ground (arith, text_ltb_connected xs ys)

pub text_ltb_neg_trans :
    (a b c : Text) → text_ltb a b ≡ false → text_ltb b c ≡ false → text_ltb a c ≡ false
unfolding text_ltb
text_ltb_neg_trans a b [] h k = refl
text_ltb_neg_trans [] [] (z ∷ zs) h k = cc
text_ltb_neg_trans [] (y ∷ ys) (z ∷ zs) h k = cc
text_ltb_neg_trans (x ∷ xs) [] (z ∷ zs) h k = cc
text_ltb_neg_trans (x ∷ xs) (y ∷ ys) (z ∷ zs) h k = ground (arith, text_ltb_neg_trans xs ys zs)

pub text_ltb-StrictWeakOrder : StrictWeakOrder text_ltb
text_ltb-StrictWeakOrder = record { asymm = text_ltb_asymm; neg_trans = text_ltb_neg_trans }

pub is_empty_iff : (s : Text) → (is_empty s ≡ true) ↔ (s ≡ [])
unfolding is_empty
is_empty_iff [] = (λ _. refl, λ _. refl)
is_empty_iff (c ∷ s) = (λ h. cc, λ h. cc)

pub Text-cases : (s t : Text) → (s ≡ t) ⊎ (s ≢ t)
Text-cases s t = elim (Bool-cases (s == t)) [
  | inl e ↦ inl (ground (arith))
  | inr e ↦ inr (ground (arith))
]
