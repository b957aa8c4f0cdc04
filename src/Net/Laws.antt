-- ===== src/Net/Laws.antt =====
-- utils/net.go: the addresses at which InetToi returns and panics.
use vermouth.Prelude.{
  ℕ, suc, bit_or, refl, inl, inr, Option, none, some, List, [], arith, Option-cases, Str, all,
  length, All, ret, panic, ℤ, pos, negsuc, ◌≤◌, ◌<◌, ◌≡◌, ◌∷◌, nat_eq, str_eq,
}
use vermouth.Golib.Strconv.{atoi}
use vermouth.Golib.Strings.{split}
use vermouth.Prelude.Int.{◌-ℤ◌, shl_u32}
use vermouth.Net.{inet_from, inet_toi}

abbrev pub IsNumeric : Str → Type 0
IsNumeric s = (n : ℤ) × (atoi s ≡ some n)

-- With at most n parts left, the loop returns.
abbrev Short : ℤ → ℕ → Type 0
Short at n =
    (acc : ℕ) (parts : List Str)
    → length parts ≤ n
    → (o : Option ℕ) × (inet_from acc at parts ≡ ret o)

Short-suc : (k n : ℕ) → Short (pos k -ℤ pos 8) n → Short (pos k) (suc n)
unfolding inet_from
Short-suc k n rest acc [] h = (some acc, refl)
Short-suc k n rest acc (p ∷ parts) h = elim (Option-cases (atoi p)) [
  | inl not_numeric ↦ (none, rw (not_numeric, inet_from) refl)
  | inr (x, numeric) ↦
      let (o, e) = rest (bit_or acc (shl_u32 x k)) parts (omega arith) in
      (o, rw (numeric, inet_from) e)
]

Short-zero : (at : ℤ) → Short at 0
unfolding inet_from
Short-zero at acc [] h = (some acc, refl)
Short-zero at acc (p ∷ parts) h = absurd (omega arith)

-- With more than n numeric parts left, the loop panics.
abbrev Long : ℤ → ℕ → Type 0
Long at n =
    (acc : ℕ) (parts : List Str)
    → All IsNumeric parts
    → n < length parts
    → inet_from acc at parts ≡ panic

Long-suc : (k n : ℕ) → Long (pos k -ℤ pos 8) n → Long (pos k) (suc n)
unfolding inet_from
Long-suc k n rest acc [] all h = absurd (omega arith)
Long-suc k n rest acc (p ∷ parts) ((x, numeric), all) h =
    rw (numeric, inet_from) (rest _ parts all (omega arith))

Long-zero : (k : ℕ) → Long (negsuc k) 0
unfolding inet_from
Long-zero k acc [] all h = absurd (omega arith)
Long-zero k acc (p ∷ parts) ((x, numeric), all) h = rw (numeric, inet_from) refl

-- InetToi of a text of at most four parts returns a number or an error.
pub inet_toi-ret : (s : Str) → length (split b'.' s) ≤ 4 → (o : Option ℕ) × (inet_toi s ≡ ret o)
unfolding inet_toi ◌-ℤ◌
inet_toi-ret s =
    Short-suc 24 3 (Short-suc 16 2 (Short-suc 8 1 (Short-suc 0 0 (Short-zero _)))) 0 (split b'.' s)

-- InetToi of a text of more than four parts that are all numbers panics.
pub inet_toi-panic :
    (s : Str) → All IsNumeric (split b'.' s) → 4 < length (split b'.' s) → inet_toi s ≡ panic
unfolding inet_toi ◌-ℤ◌
inet_toi-panic s =
    Long-suc 24 3 (Long-suc 16 2 (Long-suc 8 1 (Long-suc 0 0 (Long-zero 7)))) 0 (split b'.' s)
