-- ===== src/Text.antt =====
-- Go strings, as lists of code points, and the functions of the package `strings` that the
-- program calls. Every string is taken to be valid UTF-8, so the order of the code points is the
-- order of the bytes.
pub mod Order
pub mod Number
pub mod FilePath
pub mod Glob
use Prim.Native.Char.{code}
use Prim.Native.String.{String}
use mathlib.Core.List.{reverse}
use mathlib.Core.Option
use simple_volume.Base.{
  ℕ, suc, ◌+◌, ◌-◌, Bool, true, false, ◌&&◌, ◌||◌, List, [], ◌∷◌, ◌++◌, Option, none, some, Eq, eqb,
  leb, ltb, nat_eq, list_dec, ◌==◌, if◌then◌else◌, map, length, take, drop,
}

abbrev pub Text : Type 0
Text = List ℕ

-- Shut in proofs, where a split on `s == t` yields the equation or its negation.
instance unfoldable pub text_eq : Eq Text
unfolding list_dec nat_eq
text_eq = record { dec = list_dec }

-- The code points of a literal.
abbrev pub codes : String → Text
codes String.[] = []
codes (String.◌∷◌ c s) = code c ∷ codes s

-- `a < b` on strings.
unfoldable pub text_ltb : Text → Text → Bool
text_ltb a [] = false
text_ltb [] (y ∷ ys) = true
text_ltb (x ∷ xs) (y ∷ ys) =
    let rest = text_ltb xs ys in if ltb x y then true else if eqb x y then rest else false

unfoldable pub is_empty : Text → Bool
is_empty [] = true
is_empty (_ ∷ _) = false

-- `unicode.IsSpace`.
unfoldable pub is_space : ℕ → Bool
is_space c =
    (leb 9 c && leb c 13)
    || eqb c 32
    || eqb c 0x85
    || eqb c 0xA0
    || eqb c 0x1680
    || (leb 0x2000 c && leb c 0x200A)
    || eqb c 0x2028
    || eqb c 0x2029
    || eqb c 0x202F
    || eqb c 0x205F
    || eqb c 0x3000

unfoldable pub trim_left : (ℕ → Bool) → Text → Text
trim_left p [] = []
trim_left p (c ∷ s) = let rest = trim_left p s in if p c then rest else c ∷ s

unfoldable pub trim_right : (ℕ → Bool) → Text → Text
unfolding is_empty
trim_right p [] = []
trim_right p (c ∷ s) = let rest = trim_right p s in if is_empty rest && p c then [] else c ∷ rest

-- `strings.TrimFunc`; `strings.Trim(s, cutset)` tests membership in the cutset.
unfoldable pub trim : (ℕ → Bool) → Text → Text
unfolding trim_left trim_right
trim p s = trim_right p (trim_left p s)

-- `strings.TrimSpace`.
unfoldable pub trim_space : Text → Text
unfolding trim is_space
trim_space s = trim is_space s

unfoldable pub has_prefix : Text → Text → Bool
has_prefix s [] = true
has_prefix [] (_ ∷ _) = false
has_prefix (c ∷ s) (d ∷ p) = eqb c d && has_prefix s p

-- `strings.HasSuffix`, `strings.TrimPrefix` and `strings.TrimSuffix`.
unfoldable pub has_suffix : Text → Text → Bool
unfolding has_prefix
has_suffix s suffix = has_prefix (reverse s) (reverse suffix)

unfoldable pub trim_prefix : Text → Text → Text
unfolding has_prefix
trim_prefix s prefix = if has_prefix s prefix then drop (length prefix) s else s

unfoldable pub trim_suffix : Text → Text → Text
unfolding has_suffix
trim_suffix s suffix = if has_suffix s suffix then take (length s - length suffix) s else s

-- `strings.Replace` of the first occurrence.
unfoldable pub replace_first : Text → Text → Text → Text
unfolding has_prefix
replace_first from to [] = if is_empty from then to else []
replace_first from to (c ∷ s) =
    let rest = c ∷ replace_first from to s in
    if has_prefix (c ∷ s) from then to ++ drop (length from) (c ∷ s) else rest

-- `strings.Index` and `strings.LastIndex` of a character.
unfoldable pub index : ℕ → Text → Option ℕ
index c [] = none
index c (d ∷ s) = let rest = Option.map suc (index c s) in if eqb d c then some 0 else rest

unfoldable pub last_index : ℕ → Text → Option ℕ
last_index c [] = none
last_index c (d ∷ s) = elim (last_index c s) [
  | some i ↦ some (suc i)
  | none ↦ if eqb d c then some 0 else none
]

-- `strings.ToLower` on ASCII letters and on the two other code points whose lower case is an ASCII
-- letter (U+0130 and U+212A). Other letters are left alone: the callers compare the result with
-- ASCII words, or replace every code point that is not ASCII.
unfoldable pub lower : ℕ → ℕ
lower c =
    if leb b'A' c && leb c b'Z'
    then c + 32
    else if eqb c 0x130
    then b'i'
    else if eqb c 0x212A
    then b'k'
    else c

unfoldable pub to_lower : Text → Text
unfolding lower
to_lower = map lower

-- `strings.ReplaceAll` of one character by another.
unfoldable pub replace_char : ℕ → ℕ → Text → Text
replace_char from to = map (λ c. if eqb c from then to else c)

-- `strings.Split` at a one-character separator.
unfoldable pub split_cons : ℕ → List Text → List Text
split_cons c [] = (c ∷ []) ∷ []
split_cons c (part ∷ parts) = (c ∷ part) ∷ parts

unfoldable pub split : ℕ → Text → List Text
unfolding split_cons
split sep [] = [] ∷ []
split sep (c ∷ s) = let rest = split sep s in if eqb c sep then [] ∷ rest else split_cons c rest

-- `strings.Join`.
unfoldable pub join : Text → List Text → Text
join sep [] = []
join sep (part ∷ []) = part
join sep (part ∷ more ∷ parts) = part ++ sep ++ join sep (more ∷ parts)
