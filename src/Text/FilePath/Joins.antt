-- ===== src/Text/FilePath/Joins.antt =====
-- Clean paths: cleaning one again, and joining names to one.
use mathlib.Core.Path.{◌≡⟨◌⟩◌, ◌∎}
use mathlib.Core.List.{reverse, reverse-append, reverse-reverse, append-nil}
use simple_volume.Base.{
  ℕ, ◌≡◌, refl, sym, subst, ap, ◌∙◌, ◌≢◌, inl, inr, Bool, true, false, List, [], ◌∷◌, ◌++◌, arith,
  eqb, All,
}
use simple_volume.Text.{Text, text_eq, codes, split, join}
use simple_volume.Text.FilePath.{
  is_rooted, clean_part, clean_stack, clean_parts, print_path, clean_path,
}
use simple_volume.Text.FilePath.Laws.{
  NoSlash, IsName, CleanParts, clean_parts-CleanParts, split-join, split-append,
  clean_stack_of_names, clean_stack_of_CleanParts,
}

IsName-NoSlash : (names : List Text) → All IsName names → All NoSlash names
IsName-NoSlash [] h = tt
IsName-NoSlash (name ∷ names) h = (h.0.0, IsName-NoSlash names h.1)

up-NoSlash : NoSlash (codes "..")
up-NoSlash = (λ e. cc, (λ e. cc, tt))

pub CleanParts-NoSlash :
    (rooted : Bool) (parts : List Text) → CleanParts rooted parts → All NoSlash parts
CleanParts-NoSlash rooted [] h = tt
CleanParts-NoSlash rooted (part ∷ parts) (inl h) = IsName-NoSlash (part ∷ parts) h
CleanParts-NoSlash rooted (part ∷ parts) (inr h) =
    (subst NoSlash (sym h.0.1) up-NoSlash, CleanParts-NoSlash rooted parts h.1)

CleanParts-first : (parts : List Text) → ¬ CleanParts false ([] ∷ parts)
CleanParts-first parts (inl h) = h.0.1 refl
CleanParts-first parts (inr h) = let e : [] ≡ codes ".." = h.0.1 in cc

not_slash : (c : ℕ) → c ≢ b'/' → eqb c b'/' ≡ false
not_slash c n = ground (arith)

is_rooted-join :
    (part : Text) (parts : List Text)
    → CleanParts false (part ∷ parts)
    → is_rooted (join (codes "/") (part ∷ parts)) ≡ false
unfolding is_rooted join
is_rooted-join [] parts h = absurd (CleanParts-first parts h)
is_rooted-join (c ∷ part) [] h = not_slash c (CleanParts-NoSlash false ((c ∷ part) ∷ []) h).0.0
is_rooted-join (c ∷ part) (more ∷ parts) h =
    not_slash c (CleanParts-NoSlash false ((c ∷ part) ∷ more ∷ parts) h).0.0

pub is_rooted-print_path :
    (rooted : Bool) (parts : List Text)
    → CleanParts rooted parts
    → is_rooted (print_path rooted parts) ≡ rooted
unfolding is_rooted print_path
is_rooted-print_path true parts h = refl
is_rooted-print_path false [] h = refl
is_rooted-print_path false (part ∷ parts) h = is_rooted-join part parts h

clean_part-empty : (rooted : Bool) (stack : List Text) → clean_part rooted stack [] ≡ stack
unfolding clean_part
clean_part-empty rooted stack = ground (arith)

clean_part-dot : (rooted : Bool) (stack : List Text) → clean_part rooted stack (codes ".") ≡ stack
unfolding clean_part
clean_part-dot rooted stack = ground (arith)

-- What the parts of a clean path do to the parts before them.
clean_stack-print_path :
    (rooted slash : Bool) (stack parts : List Text)
    → All NoSlash parts
    → clean_stack rooted stack (split b'/' (print_path slash parts))
      ≡ clean_stack rooted stack parts
unfolding clean_stack print_path split
clean_stack-print_path rooted true stack [] h =
    ap (λ s. clean_part rooted s []) (clean_part-empty rooted stack) ∙ clean_part-empty rooted stack
clean_stack-print_path rooted true stack (part ∷ parts) h =
    rw (split-join part parts h, clean_part-empty rooted stack) refl
clean_stack-print_path rooted false stack [] h = clean_part-dot rooted stack
clean_stack-print_path rooted false stack (part ∷ parts) h =
    ap (clean_stack rooted stack) (split-join part parts h)

pub clean_parts-print_path :
    (rooted : Bool) (parts : List Text)
    → CleanParts rooted parts
    → clean_parts (print_path rooted parts) ≡ parts
unfolding clean_parts
clean_parts-print_path rooted parts h =
    clean_parts (print_path rooted parts)
    ≡⟨ ap (λ r. reverse (clean_stack r [] (split b'/' (print_path rooted parts))))
        (is_rooted-print_path rooted parts h) ⟩
      reverse (clean_stack rooted [] (split b'/' (print_path rooted parts)))
    ≡⟨ ap reverse
        (clean_stack-print_path rooted rooted [] parts (CleanParts-NoSlash rooted parts h)) ⟩
      reverse (clean_stack rooted [] parts)
    ≡⟨ ap reverse (clean_stack_of_CleanParts rooted [] parts tt h) ⟩ reverse (reverse parts ++ [])
    ≡⟨ ap reverse (append-nil (reverse parts)) ⟩ reverse (reverse parts)
    ≡⟨ reverse-reverse parts ⟩ parts ∎

pub clean_path_lem : (s : Text) → clean_path s ≡ print_path (is_rooted s) (clean_parts s)
unfolding clean_path
clean_path_lem s = refl

pub clean_path-print_path :
    (rooted : Bool) (parts : List Text)
    → CleanParts rooted parts
    → clean_path (print_path rooted parts) ≡ print_path rooted parts
clean_path-print_path rooted parts h =
    rw
      (
        clean_path_lem (print_path rooted parts),
        is_rooted-print_path rooted parts h,
        clean_parts-print_path rooted parts h,
      )
      refl

-- A path that is cleaned a second time does not change.
pub clean_path_idempotent : (s : Text) → clean_path (clean_path s) ≡ clean_path s
clean_path_idempotent s =
    rw (clean_path_lem s)
      (clean_path-print_path (is_rooted s) (clean_parts s) (clean_parts-CleanParts s))

is_rooted-append : (s t : Text) → s ≢ [] → is_rooted (s ++ t) ≡ is_rooted s
unfolding is_rooted
is_rooted-append [] t h = absurd (h refl)
is_rooted-append (c ∷ s) t h = refl

clean_stack-append :
    (rooted : Bool) (stack parts more : List Text)
    → clean_stack rooted stack (parts ++ more)
      ≡ clean_stack rooted (clean_stack rooted stack parts) more
unfolding clean_stack
clean_stack-append rooted stack [] more = refl
clean_stack-append rooted stack (part ∷ parts) more =
    clean_stack-append rooted (clean_part rooted stack part) parts more

clean_parts-join :
    (root : Text) (slash : Bool) (names : List Text)
    → root ≢ []
    → All IsName names
    → clean_parts (root ++ b'/' ∷ print_path slash names) ≡ clean_parts root ++ names
unfolding clean_parts
clean_parts-join root slash names h k =
    let r = is_rooted root in
    let stack = clean_stack r [] (split b'/' root) in
    rw
      (
        is_rooted-append root (b'/' ∷ print_path slash names) h,
        split-append root (print_path slash names),
        clean_stack-append r [] (split b'/' root) (split b'/' (print_path slash names)),
        clean_stack-print_path r slash stack names (IsName-NoSlash names k),
        clean_stack_of_names r stack names k,
        reverse-append (reverse names) stack,
        reverse-reverse names,
      )
      refl

-- Names that are joined to a path come after the path's own parts.
pub clean_path-join :
    (root : Text) (slash : Bool) (names : List Text)
    → root ≢ []
    → All IsName names
    → clean_path (root ++ b'/' ∷ print_path slash names)
      ≡ print_path (is_rooted root) (clean_parts root ++ names)
clean_path-join root slash names h k =
    rw
      (
        clean_path_lem (root ++ b'/' ∷ print_path slash names),
        is_rooted-append root (b'/' ∷ print_path slash names) h,
        clean_parts-join root slash names h k,
      )
      refl
