-- ===== src/Text/Number/RoundTrip.antt =====
-- Numbers that are printed and read.
use simple_volume.Base.{
  ℕ, zero, suc, ◌+◌, ◌*◌, ◌-◌, ◌/◌, ◌%◌, ◌^◌, ◌≡◌, refl, ap, ◌∙◌, ◌≤◌, ◌<◌, inl, inr, false, [],
  ◌∷◌, some, arith, All, Bool-cases, ltb, eqb,
}
use simple_volume.Base.Int.{pos}
use simple_volume.Text.{Text, is_empty}
use simple_volume.Text.Number.{
  read_digits, parse_digits, at_most, parse_uint, positive, parse_int, digits_from, print_digits,
  print_int,
}

-- What the proofs use of the division by a base.
record Radix (base : ℕ) : Type 0 where
  split : (n : ℕ) → (n / base) * base + n % base ≡ n
  small : (n : ℕ) → n % base < base
  less : (n : ℕ) → base ≤ n → n / base < n
  last : (n : ℕ) → n < base → 0 * base + n % base ≡ n
  ten : base ≤ 10

module _ (base : ℕ) (r : Radix base) where
  read_digit :
      (n d : ℕ) (rest : Text)
      → d < base
      → read_digits base n ((b'0' + d) ∷ rest) ≡ read_digits base (n * base + d) rest
  unfolding read_digits
  read_digit n d rest h = ground (arith)

  read-digits_from :
      (fuel n : ℕ) (rest : Text)
      → n < fuel
      → read_digits base 0 (digits_from base fuel n rest) ≡ read_digits base n rest
  unfolding digits_from
  read-digits_from zero n rest h = absurd (omega (arith, h))
  read-digits_from (suc fuel) n rest h = elim (Bool-cases (ltb n base)) [
    | inl e ↦
        let bound : n < base = ground (arith, e) in
        rw e (
          read_digit 0 (n % base) rest (r.small n)
          ∙ ap (λ m. read_digits base m rest) (r.last n bound))
    | inr e ↦
        let bound : base ≤ n = ground (arith, e) in
        rw e (
          read-digits_from fuel (n / base) ((b'0' + n % base) ∷ rest)
            (omega (arith, h, r.less n bound))
          ∙ read_digit (n / base) (n % base) rest (r.small n)
          ∙ ap (λ m. read_digits base m rest) (r.split n))
  ]

  digits_from-nonempty :
      (fuel n d : ℕ) (rest : Text) → is_empty (digits_from base fuel n (d ∷ rest)) ≡ false
  unfolding digits_from is_empty
  digits_from-nonempty zero n d rest = refl
  digits_from-nonempty (suc fuel) n d rest = elim (Bool-cases (ltb n base)) [
    | inl e ↦ rw e refl
    | inr e ↦ rw e (digits_from-nonempty fuel (n / base) (b'0' + n % base) (d ∷ rest))
  ]

  print_digits-nonempty : (n : ℕ) → is_empty (print_digits base n) ≡ false
  unfolding print_digits digits_from is_empty
  print_digits-nonempty n = elim (Bool-cases (ltb n base)) [
    | inl e ↦ rw e refl
    | inr e ↦ rw e (digits_from-nonempty n (n / base) (b'0' + n % base) [])
  ]

  digits_from-digits :
      (fuel n : ℕ) (rest : Text)
      → All (λ c. (b'0' ≤ c) × (c ≤ b'9')) rest
      → All (λ c. (b'0' ≤ c) × (c ≤ b'9')) (digits_from base fuel n rest)
  unfolding digits_from
  digits_from-digits zero n rest h = h
  digits_from-digits (suc fuel) n rest h =
      let digit : (b'0' ≤ b'0' + n % base) × (b'0' + n % base ≤ b'9') =
        (omega arith, omega (arith, r.small n, r.ten)) in
      elim (Bool-cases (ltb n base)) [
        | inl e ↦ rw e (digit, h)
        | inr e ↦ rw e (digits_from-digits fuel (n / base) ((b'0' + n % base) ∷ rest) (digit, h))
      ]

  print_digits-digits : (n : ℕ) → All (λ c. (b'0' ≤ c) × (c ≤ b'9')) (print_digits base n)
  unfolding print_digits
  print_digits-digits n = digits_from-digits (suc n) n [] tt

  read_printed : (n : ℕ) → read_digits base 0 (print_digits base n) ≡ some n
  unfolding print_digits read_digits
  read_printed n = read-digits_from (suc n) n [] (omega arith)

  parse_digits-print_digits : (n : ℕ) → parse_digits base (print_digits base n) ≡ some n
  unfolding parse_digits
  parse_digits-print_digits n = rw (print_digits-nonempty n) (read_printed n)

decimal : Radix 10
decimal = record {
  split = λ n. omega arith;
  small = λ n. omega arith;
  less = λ n h. omega (arith, h);
  last = λ n h. omega (arith, h);
  ten = omega arith;
}

octal : Radix 8
octal = record {
  split = λ n. omega arith;
  small = λ n. omega arith;
  less = λ n h. omega (arith, h);
  last = λ n h. omega (arith, h);
  ten = omega arith;
}

-- A number in octal digits, with no character that is not one.
pub octal_digits :
    (n : ℕ)
    → (is_empty (print_digits 8 n) ≡ false) × All (λ c. (b'0' ≤ c) × (c ≤ b'9')) (print_digits 8 n)
octal_digits n = (print_digits-nonempty 8 octal n, print_digits-digits 8 octal n)

pub decimal_digits :
    (n : ℕ)
    → (is_empty (print_digits 10 n) ≡ false)
      × All (λ c. (b'0' ≤ c) × (c ≤ b'9')) (print_digits 10 n)
decimal_digits n = (print_digits-nonempty 10 decimal n, print_digits-digits 10 decimal n)

pub parse_uint-print_digits :
    (bits n : ℕ) → n ≤ 2 ^ bits - 1 → parse_uint 8 bits (print_digits 8 n) ≡ some n
unfolding parse_uint at_most
parse_uint-print_digits bits n h = rw (parse_digits-print_digits 8 octal n) (ground (arith, h))

parse_int_of_digits :
    (s : Text) (n : ℕ)
    → is_empty s ≡ false
    → All (λ c. (b'0' ≤ c) × (c ≤ b'9')) s
    → parse_digits 10 s ≡ some n
    → n ≤ 2 ^ 63 - 1
    → parse_int s ≡ some (pos n)
unfolding parse_int at_most positive is_empty
parse_int_of_digits [] n h k e b = absurd cc
parse_int_of_digits (c ∷ s) n h k e b =
    let minus : eqb c b'-' ≡ false = ground (arith, k.0) in
    let plus : eqb c b'+' ≡ false = ground (arith, k.0) in rw (minus, plus, e) (ground (arith, b))

pub parse_int-print_int : (n : ℕ) → n ≤ 2 ^ 63 - 1 → parse_int (print_int (pos n)) ≡ some (pos n)
unfolding print_int
parse_int-print_int n h =
    parse_int_of_digits (print_digits 10 n) n (decimal_digits n).0 (decimal_digits n).1
      (parse_digits-print_digits 10 decimal n) h
