-- ===== src/Text/Number.antt =====
-- `strconv.ParseInt` and `strconv.ParseUint` in a given base up to ten.
pub mod RoundTrip
use simple_volume.Base.{
  ℕ, zero, suc, ◌+◌, ◌*◌, ◌-◌, ◌/◌, ◌%◌, ◌^◌, ◌&&◌, [], ◌∷◌, Option, none, some, if◌then◌else◌, leb,
  ltb, eqb,
}
use simple_volume.Base.Int.{ℤ, pos, negsuc}
use simple_volume.Text.{Text, is_empty}

-- The digits read so far, and those that follow.
unfoldable pub read_digits : ℕ → ℕ → Text → Option ℕ
read_digits base n [] = some n
read_digits base n (c ∷ s) =
    let rest = read_digits base (n * base + (c - b'0')) s in
    if leb b'0' c && ltb c (b'0' + base) then rest else none

unfoldable pub parse_digits : ℕ → Text → Option ℕ
unfolding read_digits
parse_digits base s = if is_empty s then none else read_digits base 0 s

unfoldable pub at_most : ℕ → Option ℕ → Option ℕ
at_most bound none = none
at_most bound (some n) = if leb n bound then some n else none

-- `ParseUint(s, base, bits)`.
unfoldable pub parse_uint : ℕ → ℕ → Text → Option ℕ
unfolding parse_digits at_most
parse_uint base bits s = at_most (2 ^ bits - 1) (parse_digits base s)

negated : Option ℕ → Option ℤ
negated none = none
negated (some zero) = some (pos 0)
negated (some (suc n)) = some (negsuc n)

unfoldable pub positive : Option ℕ → Option ℤ
positive none = none
positive (some n) = some (pos n)

-- `ParseInt(s, 10, 64)`, and `Atoi`.
unfoldable pub parse_int : Text → Option ℤ
unfolding parse_digits at_most negated positive
parse_int [] = none
parse_int (c ∷ s) =
    if eqb c b'-'
    then negated (at_most (2 ^ 63) (parse_digits 10 s))
    else if eqb c b'+'
    then positive (at_most (2 ^ 63 - 1) (parse_digits 10 s))
    else positive (at_most (2 ^ 63 - 1) (parse_digits 10 (c ∷ s)))

-- The digits of a number before those of `rest`. A number has fewer digits than its successor.
unfoldable pub digits_from : ℕ → ℕ → ℕ → Text → Text
digits_from base zero n rest = rest
digits_from base (suc fuel) n rest =
    let digits = (b'0' + n % base) ∷ rest in
    let more = digits_from base fuel (n / base) digits in if ltb n base then digits else more

-- `strconv.FormatUint`, and the verbs `%d` and `%o` for a number that is not negative.
unfoldable pub print_digits : ℕ → ℕ → Text
unfolding digits_from
print_digits base n = digits_from base (suc n) n []

-- `%d`.
unfoldable pub print_int : ℤ → Text
unfolding print_digits
print_int (pos n) = print_digits 10 n
print_int (negsuc n) = b'-' ∷ print_digits 10 (suc n)
