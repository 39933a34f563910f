-- ===== src/Text/Glob.antt =====
-- The function `Match` of Go's package `path`, for patterns with no backslash, the only ones that the
-- program hands to it. A malformed pattern matches nothing.
use simple_volume.Base.{
  ℕ, Bool, true, false, not, ◌&&◌, ◌||◌, List, [], ◌∷◌, ◌++◌, Option, none, some, eqb, leb,
  if◌then◌else◌, any,
}
use simple_volume.Text.{Text}

-- `any_run` is a star; the Boolean of a class says that it is negated.
pub data Token : Type 0 where
  any_run any_char : Token
  literal : ℕ → Token
  class : Bool → List (ℕ × ℕ) → Token

-- Where the pattern is read: outside of a class, after its bracket, before a range, after the range's
-- first character, and after the dash that follows it.
pub data Mode : Type 0 where
  outside class_first : Mode
  class_open : Bool → List (ℕ × ℕ) → Mode
  range_low range_high : Bool → List (ℕ × ℕ) → ℕ → Mode

-- The next mode, with the token that is complete, or nothing for a malformed pattern.
abbrev pub Read : Type 0
Read = Option (Mode × List Token)

unfoldable pub read_class : Bool → List (ℕ × ℕ) → ℕ → Read
read_class negated [] c =
    if eqb c b'-' || eqb c b']' then none else some (range_low negated [] c, [])
read_class negated (r ∷ ranges) c =
    if eqb c b']'
    then some (outside, class negated (r ∷ ranges) ∷ [])
    else if eqb c b'-'
    then none
    else some (range_low negated (r ∷ ranges) c, [])

unfoldable pub read : Mode → ℕ → Read
unfolding read_class
read outside c =
    if eqb c b'*'
    then some (outside, any_run ∷ [])
    else if eqb c b'?'
    then some (outside, any_char ∷ [])
    else if eqb c b'['
    then some (class_first, [])
    else some (outside, literal c ∷ [])
read class_first c = if eqb c b'^' then some (class_open true [], []) else read_class false [] c
read (class_open negated ranges) c = read_class negated ranges c
read (range_low negated ranges low) c =
    if eqb c b'-'
    then some (range_high negated ranges low, [])
    else read_class negated ((low, low) ∷ ranges) c
read (range_high negated ranges low) c =
    if eqb c b'-' || eqb c b']' then none else some (class_open negated ((low, c) ∷ ranges), [])

unfoldable pub put_tokens : List Token → Option (List Token) → Option (List Token)
put_tokens done none = none
put_tokens done (some more) = some (done ++ more)

unfoldable pub tokens_from : Mode → Text → Option (List Token)
unfolding read put_tokens
tokens_from outside [] = some []
tokens_from class_first [] = none
tokens_from (class_open _ _) [] = none
tokens_from (range_low _ _ _) [] = none
tokens_from (range_high _ _ _) [] = none
tokens_from mode (c ∷ s) = elim (read mode c) [
  | none ↦ none
  | some (next, done) ↦ put_tokens done (tokens_from next s)
]

unfoldable pub accepts : Token → ℕ → Bool
unfolding any
accepts any_run c = false
accepts any_char c = not (eqb c b'/')
accepts (literal d) c = eqb c d
accepts (class negated ranges) c =
    let found = any (λ r. leb r.0 c && leb c r.1) ranges in if negated then not found else found

-- A star stands for characters other than a slash.
unfoldable pub match_run : (Text → Bool) → Text → Bool
match_run rest [] = rest []
match_run rest (c ∷ s) = rest (c ∷ s) || (not (eqb c b'/') && match_run rest s)

unfoldable pub match_tokens : List Token → Text → Bool
unfolding match_run accepts
match_tokens [] [] = true
match_tokens [] (_ ∷ _) = false
match_tokens (any_run ∷ tokens) s = match_run (match_tokens tokens) s
match_tokens (any_char ∷ tokens) [] = false
match_tokens (any_char ∷ tokens) (c ∷ s) = accepts any_char c && match_tokens tokens s
match_tokens (literal d ∷ tokens) [] = false
match_tokens (literal d ∷ tokens) (c ∷ s) = accepts (literal d) c && match_tokens tokens s
match_tokens (class negated ranges ∷ tokens) [] = false
match_tokens (class negated ranges ∷ tokens) (c ∷ s) =
    accepts (class negated ranges) c && match_tokens tokens s

unfoldable match_some : Option (List Token) → Text → Bool
unfolding match_tokens
match_some none s = false
match_some (some tokens) s = match_tokens tokens s

-- `path.Match`.
unfoldable pub path_match : Text → Text → Bool
unfolding tokens_from match_some
path_match pattern s = match_some (tokens_from outside pattern) s
