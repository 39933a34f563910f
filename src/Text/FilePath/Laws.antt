-- ===== src/Text/FilePath/Laws.antt =====
-- Clean paths.
use mathlib.Core.Path.{◌≡⟨◌⟩◌, ◌∎}
use mathlib.Core.List.{reverse, reverse-cons, append_assoc}
use native.Mathlib.Decide.{ℕ_discrete}
use simple_volume.Base.{
  ◌≡◌, refl, ap, ◌≢◌, ◌⊎◌, inl, inr, ℕ, Bool, true, false, List, [], ◌∷◌, ◌++◌, eqb, ◌==◌, arith,
  Bool-cases, All, All-append,
}
use simple_volume.Text.{Text, text_eq, codes, split, split_cons, join}
use simple_volume.Text.FilePath.{is_rooted, go_up, clean_part, clean_stack, clean_parts}

abbrev pub NoSlash : Text → Type 0
NoSlash = All (λ c. c ≢ b'/')

-- A name of a file in a directory.
abbrev pub IsName : Text → Type 0
IsName part = NoSlash part × (part ≢ []) × (part ≢ codes ".") × (part ≢ codes "..")

eqb-false : (a b : ℕ) → a ≢ b → eqb a b ≡ false
eqb-false a b n = ground (arith)

split_cons-NoSlash :
    (c : ℕ) (parts : List Text) → c ≢ b'/' → All NoSlash parts → All NoSlash (split_cons c parts)
unfolding split_cons
split_cons-NoSlash c [] h k = ((h, tt), tt)
split_cons-NoSlash c (part ∷ parts) h k = ((h, k.0), k.1)

pub split-NoSlash : (s : Text) → All NoSlash (split b'/' s)
unfolding split
split-NoSlash [] = (tt, tt)
split-NoSlash (c ∷ s) = elim (ℕ_discrete c b'/') [
  | yes e ↦ rw e (tt, split-NoSlash s)
  | no n ↦ rw (eqb-false c b'/' n) (split_cons-NoSlash c _ n (split-NoSlash s))
]

pub split_of_NoSlash : (a : Text) → NoSlash a → split b'/' a ≡ a ∷ []
unfolding split split_cons
split_of_NoSlash [] h = refl
split_of_NoSlash (c ∷ a) h = rw (eqb-false c b'/' h.0, split_of_NoSlash a h.1) refl

split_cons-append :
    (c : ℕ) (parts more : List Text)
    → parts ≢ []
    → split_cons c (parts ++ more) ≡ split_cons c parts ++ more
unfolding split_cons
split_cons-append c [] more h = absurd (h refl)
split_cons-append c (part ∷ parts) more h = refl

split_cons-nonempty : (c : ℕ) (parts : List Text) → split_cons c parts ≢ []
unfolding split_cons
split_cons-nonempty c [] = λ e. cc
split_cons-nonempty c (part ∷ parts) = λ e. cc

split-nonempty : (s : Text) → split b'/' s ≢ []
unfolding split split_cons
split-nonempty [] = λ e. cc
split-nonempty (c ∷ s) = elim (Bool-cases (eqb c b'/')) [
  | inl e ↦ rw e (λ p. cc)
  | inr e ↦ rw e (split_cons-nonempty c (split b'/' s))
]

pub split-append : (a b : Text) → split b'/' (a ++ b'/' ∷ b) ≡ split b'/' a ++ split b'/' b
unfolding split
split-append [] b = refl
split-append (c ∷ a) b = elim (ℕ_discrete c b'/') [
  | yes e ↦ rw (e, split-append a b) refl
  | no n ↦
      rw (eqb-false c b'/' n, split-append a b)
        (split_cons-append c _ (split b'/' b) (split-nonempty a))
]

pub split-join :
    (part : Text) (parts : List Text)
    → All NoSlash (part ∷ parts)
    → split b'/' (join (codes "/") (part ∷ parts)) ≡ part ∷ parts
unfolding join
split-join part [] h = split_of_NoSlash part h.0
split-join part (more ∷ parts) h =
    split b'/' ((part ++ codes "/") ++ join (codes "/") (more ∷ parts))
    ≡⟨ ap (split b'/') (append_assoc part (codes "/") _) ⟩
      split b'/' (part ++ b'/' ∷ join (codes "/") (more ∷ parts))
    ≡⟨ split-append part _ ⟩ split b'/' part ++ split b'/' (join (codes "/") (more ∷ parts))
    ≡⟨ ap (λ ps. ps ++ split b'/' (join (codes "/") (more ∷ parts))) (split_of_NoSlash part h.0) ⟩
      part ∷ split b'/' (join (codes "/") (more ∷ parts))
    ≡⟨ ap (λ ps. part ∷ ps) (split-join more parts h.1) ⟩ part ∷ more ∷ parts ∎

-- Parts that are "..", on a path that is not rooted.
abbrev AllUp : Bool → List Text → Type 0
AllUp rooted = All (λ part. (rooted ≡ false) × (part ≡ codes ".."))

-- The parts of a clean path, from its start: "..", as far as the path is not rooted, and names.
abbrev pub CleanParts : Bool → List Text → Type 0
CleanParts rooted [] = Unit
CleanParts rooted (part ∷ parts) =
    (IsName part × All IsName parts)
    ⊎ (((rooted ≡ false) × (part ≡ codes "..")) × CleanParts rooted parts)

-- The same from its end.
abbrev CleanStack : Bool → List Text → Type 0
CleanStack rooted [] = Unit
CleanStack rooted (top ∷ stack) =
    (IsName top × CleanStack rooted stack) ⊎ AllUp rooted (top ∷ stack)

==-true : {s t : Text} → s ≡ t → (s == t) ≡ true
==-true e = ground (arith)

go_up-CleanStack :
    (rooted : Bool) (stack : List Text)
    → CleanStack rooted stack
    → CleanStack rooted (go_up rooted stack)
unfolding go_up
go_up-CleanStack true [] h = tt
go_up-CleanStack false [] h = inr ((refl, refl), tt)
go_up-CleanStack rooted (top ∷ stack) (inl h) = ground (arith)
go_up-CleanStack rooted (top ∷ stack) (inr h) = rw (==-true h.0.1) (inr ((h.0.0, refl), h))

clean_part-CleanStack :
    (rooted : Bool) (stack : List Text) (part : Text)
    → CleanStack rooted stack
    → NoSlash part
    → CleanStack rooted (clean_part rooted stack part)
unfolding clean_part
clean_part-CleanStack rooted stack part h k = ground (arith, go_up-CleanStack rooted stack h)

clean_stack-CleanStack :
    (rooted : Bool) (stack parts : List Text)
    → CleanStack rooted stack
    → All NoSlash parts
    → CleanStack rooted (clean_stack rooted stack parts)
unfolding clean_stack
clean_stack-CleanStack rooted stack [] h k = h
clean_stack-CleanStack rooted stack (part ∷ parts) h k =
    clean_stack-CleanStack rooted (clean_part rooted stack part) parts
      (clean_part-CleanStack rooted stack part h k.0) k.1

All-CleanParts : (rooted : Bool) (parts : List Text) → All IsName parts → CleanParts rooted parts
All-CleanParts rooted [] h = tt
All-CleanParts rooted (part ∷ parts) h = inl h

CleanParts-append :
    (rooted : Bool) (parts names : List Text)
    → CleanParts rooted parts
    → All IsName names
    → CleanParts rooted (parts ++ names)
CleanParts-append rooted [] names h k = All-CleanParts rooted names k
CleanParts-append rooted (part ∷ parts) names (inl h) k =
    inl (h.0, All-append IsName parts names h.1 k)
CleanParts-append rooted (part ∷ parts) names (inr h) k =
    inr (h.0, CleanParts-append rooted parts names h.1 k)

AllUp-reverse :
    (rooted : Bool) (stack : List Text) → AllUp rooted stack → AllUp rooted (reverse stack)
AllUp-reverse rooted [] h = tt
AllUp-reverse rooted (top ∷ stack) h =
    rw (reverse-cons top stack)
      (All-append _ (reverse stack) (top ∷ []) (AllUp-reverse rooted stack h.1) (h.0, tt))

AllUp-CleanParts :
    (rooted : Bool) (parts : List Text) → AllUp rooted parts → CleanParts rooted parts
AllUp-CleanParts rooted [] h = tt
AllUp-CleanParts rooted (part ∷ parts) h = inr (h.0, AllUp-CleanParts rooted parts h.1)

reverse-CleanParts :
    (rooted : Bool) (stack : List Text)
    → CleanStack rooted stack
    → CleanParts rooted (reverse stack)
reverse-CleanParts rooted [] h = tt
reverse-CleanParts rooted (top ∷ stack) (inl h) = rw (reverse-cons top stack) (
    CleanParts-append rooted (reverse stack) (top ∷ []) (reverse-CleanParts rooted stack h.1)
      (h.0, tt))
reverse-CleanParts rooted (top ∷ stack) (inr h) =
    AllUp-CleanParts rooted _ (AllUp-reverse rooted (top ∷ stack) h)

-- The parts of a path that is cleaned are names, after some ".." when the path is not rooted.
pub clean_parts-CleanParts : (s : Text) → CleanParts (is_rooted s) (clean_parts s)
unfolding clean_parts
clean_parts-CleanParts s =
    reverse-CleanParts (is_rooted s) _
      (clean_stack-CleanStack (is_rooted s) [] (split b'/' s) tt (split-NoSlash s))

clean_part_of_IsName :
    (rooted : Bool) (stack : List Text) (part : Text)
    → IsName part
    → clean_part rooted stack part ≡ part ∷ stack
unfolding clean_part
clean_part_of_IsName rooted stack part h = ground (arith)

-- Names are put on the stack.
pub clean_stack_of_names :
    (rooted : Bool) (stack names : List Text)
    → All IsName names
    → clean_stack rooted stack names ≡ reverse names ++ stack
unfolding clean_stack
clean_stack_of_names rooted stack [] h = refl
clean_stack_of_names rooted stack (name ∷ names) h =
    clean_stack rooted (clean_part rooted stack name) names
    ≡⟨ ap (λ s. clean_stack rooted s names) (clean_part_of_IsName rooted stack name h.0) ⟩
      clean_stack rooted (name ∷ stack) names
    ≡⟨ clean_stack_of_names rooted (name ∷ stack) names h.1 ⟩ reverse names ++ name ∷ stack
    ≡⟨ (simp (reverse-cons, append_assoc)) ⟩ reverse (name ∷ names) ++ stack ∎

clean_part_of_up :
    (rooted : Bool) (stack : List Text) (part : Text)
    → AllUp rooted stack
    → (rooted ≡ false) × (part ≡ codes "..")
    → clean_part rooted stack part ≡ part ∷ stack
unfolding clean_part go_up
clean_part_of_up rooted [] part h k = ground (arith)
clean_part_of_up rooted (top ∷ stack) part h k = ground (arith)

pub clean_stack_of_CleanParts :
    (rooted : Bool) (stack parts : List Text)
    → AllUp rooted stack
    → CleanParts rooted parts
    → clean_stack rooted stack parts ≡ reverse parts ++ stack
unfolding clean_stack
clean_stack_of_CleanParts rooted stack [] h k = refl
clean_stack_of_CleanParts rooted stack (part ∷ parts) h (inl k) =
    clean_stack_of_names rooted stack (part ∷ parts) k
clean_stack_of_CleanParts rooted stack (part ∷ parts) h (inr k) =
    clean_stack rooted (clean_part rooted stack part) parts
    ≡⟨ ap (λ s. clean_stack rooted s parts) (clean_part_of_up rooted stack part h k.0) ⟩
      clean_stack rooted (part ∷ stack) parts
    ≡⟨ clean_stack_of_CleanParts rooted (part ∷ stack) parts (k.0, h) k.1 ⟩
      reverse parts ++ part ∷ stack
    ≡⟨ (simp (reverse-cons, append_assoc)) ⟩ reverse (part ∷ parts) ++ stack ∎
