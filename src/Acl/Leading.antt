-- ===== src/Acl/Leading.antt =====
-- acl/radix_tree.go: the first bits of an address as a number, the address shifted to the right.
use Prim.Native.Nat.{min, digits, bit_and-bitwise}
use vermouth.Prelude.{
  ℕ, zero, suc, bit_and, refl, sym, ap, Bool, true, false, not, arith, nat_beq_iff, beq_refl,
  length, ◌+◌, ◌-◌, ◌*◌, ◌/◌, ◌%◌, ◌^◌, ◌≤◌, ◌<◌, ◌≡◌, ◌∙◌, ◌↔◌, ◌&&◌, ◌∷◌, ◌==◌, nat_eq, str_eq,
}
use vermouth.Acl.Bits.{halved}
use vermouth.Acl.Masks.{each, each-at}
use vermouth.Acl.{bit_set}
use vermouth.Acl.Trails.{trail_eq, length-path, trail_beq_iff, Trail, bit_at, path}

-- x >> k
unfoldable pub shift_right : ℕ → ℕ → ℕ
shift_right zero x = x
shift_right (suc k) x = shift_right k (x / 2)

shift_right-suc : (k x : ℕ) → shift_right (suc k) x ≡ shift_right k x / 2
unfolding shift_right
shift_right-suc zero x = refl
shift_right-suc (suc k) x = shift_right-suc k (x / 2)

shift_right-all : (k x : ℕ) → x < 2 ^ k → shift_right k x ≡ 0
unfolding shift_right
shift_right-all zero x h = omega arith
shift_right-all (suc k) x h = shift_right-all k (x / 2) (halved k x h)

shift_right-zero : (k : ℕ) → shift_right k 0 ≡ 0
unfolding shift_right
shift_right-zero zero = refl
shift_right-zero (suc k) = shift_right-zero k

abbrev and_digits : ℕ → ℕ → ℕ → ℕ
and_digits = digits (λ b. zero) min

min-zero : (x : ℕ) → min x 0 ≡ 0
min-zero x = omega arith

and_digits-zero : (n x : ℕ) → and_digits n x 0 ≡ 0
and_digits-zero zero x = refl
and_digits-zero (suc n) zero = refl
and_digits-zero (suc n) (suc x) = rw (and_digits-zero n (suc x / 2), min-zero (suc x % 2)) refl

min-one : (x : ℕ) → x < 2 → min x 1 ≡ x
min-one x h = omega arith

and_digits-one : (n x : ℕ) → x ≤ n → and_digits n x 1 ≡ x % 2
and_digits-one zero x h = omega arith
and_digits-one (suc n) zero h = refl
and_digits-one (suc n) (suc x) h =
    rw (and_digits-zero n (suc x / 2), min-one (suc x % 2) (omega arith)) (omega arith)

doubled : (y : ℕ) → (y * 2 + 0 == 0) ≡ (y == 0)
doubled y = ground arith

digit_of : (i n x : ℕ) → x ≤ n → (and_digits n x (2 ^ i) == 0) ≡ not (shift_right i x % 2 == 1)
unfolding shift_right
digit_of zero n x h = rw (and_digits-one n x h) (ground arith)
digit_of (suc i) zero zero h = rw (shift_right-zero i) refl
digit_of (suc i) zero (suc x) h = elim h [ ]
digit_of (suc i) (suc n) zero h = rw (shift_right-zero i) refl
digit_of (suc i) (suc n) (suc x) h =
    let even : 2 ^ suc i % 2 ≡ 0 = omega arith in
    let half : 2 ^ suc i / 2 ≡ 2 ^ i = omega arith in
    let rest = digit_of i n (suc x / 2) (omega arith) in
    rw (half, even, min-zero (suc x % 2)) (doubled _ ∙ rest)

bit_set-shifted : (i a : ℕ) → bit_set a (2 ^ i) ≡ (shift_right i a % 2 == 1)
bit_set-shifted i a =
    let e : bit_and a (2 ^ i) ≡ and_digits a a (2 ^ i) = bit_and-bitwise a (2 ^ i) in
    rw e (ap not (digit_of i a a (omega arith)) ∙ twice (shift_right i a % 2 == 1))
  where
    twice : (b : Bool) → not (not b) ≡ b
    twice true = refl
    twice false = refl

all_powers : each 32 (λ j. bit_at j == 2 ^ (31 - j)) ≡ true
unfolding each bit_at
all_powers = refl

bit_at-power : (i j : ℕ) → j + suc i ≡ 32 → bit_at j ≡ 2 ^ i
bit_at-power i j h =
    let e =
      (nat_beq_iff _ _).0 (each-at 32 (λ j. bit_at j == 2 ^ (31 - j)) j all_powers (omega arith)) in
    let f : 31 - j ≡ i = omega arith in rw f at e

one_more :
    (x y : ℕ) (s t : Trail)
    → (s ≡ t) ↔ (x / 2 ≡ y / 2)
    → ((x % 2 == 1) ∷ s ≡ (y % 2 == 1) ∷ t) ↔ (x ≡ y)
one_more x y s t rest = (
  (λ e.
      let first : (x % 2 == 1) ≡ (y % 2 == 1) = cc in
      let others : s ≡ t = cc in let half = rest.0 others in low_bit x y half first),
  (λ e.
      let half : x / 2 ≡ y / 2 = ap (λ z. z / 2) e in
      let others = rest.1 half in
      let first : (x % 2 == 1) ≡ (y % 2 == 1) = ap (λ z. z % 2 == 1) e in cc),
)
  where
    low_bit : (x y : ℕ) → x / 2 ≡ y / 2 → (x % 2 == 1) ≡ (y % 2 == 1) → x ≡ y
    low_bit x y h e = ground arith

-- Two addresses of 32 bits go the same way for j rounds if their first j bits are the same number.
pub path_iff :
    (j i a b : ℕ)
    → j + i ≡ 32
    → a < 2 ^ 32
    → b < 2 ^ 32
    → (path j a ≡ path j b) ↔ (shift_right i a ≡ shift_right i b)
unfolding path
path_iff zero i a b s h k =
    let e : i ≡ 32 = omega arith in
    rw e (rw (shift_right-all 32 a h, shift_right-all 32 b k) ((λ _. refl), (λ _. refl)))
path_iff (suc j) i a b s h k =
    let p : bit_at j ≡ 2 ^ i = bit_at-power i j (omega arith) in
    let rest = path_iff j (suc i) a b (omega arith) h k in
    rw (p, bit_set-shifted i a, bit_set-shifted i b)
      (one_more _ _ _ _ (rw⁻¹ (shift_right-suc i a, shift_right-suc i b) rest))

true_iff : (x y : Bool) → (x ≡ true → y ≡ true) → (y ≡ true → x ≡ true) → x ≡ y
true_iff true y f g = sym (f refl)
true_iff false true f g = g refl
true_iff false false f g = refl

-- The trail of one address is that of another if they have one length and the same bits.
pub path_same :
    (l c a b : ℕ)
    → l ≤ 32
    → c ≤ 32
    → a < 2 ^ 32
    → b < 2 ^ 32
    → (path c a == path l b) ≡ (c == l && shift_right (32 - l) a == shift_right (32 - l) b)
path_same l c a b i j h k = true_iff _ _ there back
  where
    there :
        (path c a == path l b) ≡ true
        → (c == l && shift_right (32 - l) a == shift_right (32 - l) b) ≡ true
    there e =
        let same = (trail_beq_iff (path c a) (path l b)).0 e in
        let long : c ≡ l = sym (length-path c a) ∙ ap length same ∙ length-path l b in
        let f = (path_iff l (32 - l) a b (omega arith) h k).0 (rw long at same) in
        rw (long, f, beq_refl l, beq_refl (shift_right (32 - l) b)) refl

    back :
        (c == l && shift_right (32 - l) a == shift_right (32 - l) b) ≡ true
        → (path c a == path l b) ≡ true
    back e =
        let long : c ≡ l = ground arith in
        let f : shift_right (32 - l) a ≡ shift_right (32 - l) b = ground arith in
        let g = (path_iff l (32 - l) a b (omega arith) h k).1 f in
        (trail_beq_iff (path c a) (path l b)).1 (rw long g)
