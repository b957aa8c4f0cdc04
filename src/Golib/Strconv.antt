-- ===== src/Golib/Strconv.antt =====
-- Go's package strconv: decimal numbers.
use vermouth.Prelude.{
  ℕ, zero, suc, Bool, Option, none, some, [], ltb, leb, Str, ℤ, pos, negsuc, ◌+◌, ◌-◌, ◌*◌, ◌/◌,
  ◌%◌, ◌^◌, ◌&&◌, ◌∷◌, ◌++◌, ◌==◌, if◌then◌else◌, nat_eq, str_eq,
}

-- strconv.Itoa of a number that is not negative. A number has at most as many digits as its value,
-- so the fuel of `itoa` is enough.
itoa_from : ℕ → ℕ → Str
itoa_from zero n = []
itoa_from (suc fuel) n =
    let high = itoa_from fuel (n / 10) in
    let low : Str = (b'0' + n % 10) ∷ [] in if ltb n 10 then low else high ++ low

unfoldable pub itoa : ℕ → Str
unfolding itoa_from
itoa n = itoa_from (suc n) n

unfoldable pub is_digit : ℕ → Bool
is_digit c = leb b'0' c && leb c b'9'

-- The value of a text of decimal digits, on top of `acc`.
unfoldable pub digits_value : ℕ → Str → Option ℕ
unfolding is_digit
digits_value acc [] = some acc
digits_value acc (c ∷ s) =
    let later = digits_value (acc * 10 + (c - b'0')) s in if is_digit c then later else none

-- The digits behind the sign: at least one, and no more than `limit` in value.
unfoldable pub magnitude : ℕ → Str → Option ℕ
unfolding digits_value
magnitude limit [] = none
magnitude limit (c ∷ s) = elim (digits_value 0 (c ∷ s)) [
  | none ↦ none
  | some n ↦ if leb n limit then some n else none
]

abbrev negated : ℕ → ℤ
negated zero = pos 0
negated (suc n) = negsuc n

-- strconv.Atoi, and strconv.ParseInt in base 10, with `none` for a syntax or a range error
unfoldable pub atoi : Str → Option ℤ
unfolding magnitude
atoi [] = none
atoi (c ∷ s) =
    if c == b'-'
    then elim (magnitude (2 ^ 63) s) [ none ↦ none | some n ↦ some (negated n) ]
    else elim (magnitude (2 ^ 63 - 1) (if c == b'+' then s else c ∷ s)) [
      | none ↦ none
      | some n ↦ some (pos n)
    ]
