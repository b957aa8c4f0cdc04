-- ===== src/Acl/Masks.antt =====
-- acl/radix_tree.go: the network masks that Add makes, bit by bit.
use vermouth.Prelude.{
  ℕ, zero, suc, refl, inl, inr, Bool, true, arith, ltb, nat_beq, nat_beq_iff, Bool-cases, ◌≤◌, ◌<◌,
  ◌≡◌, ◌&&◌, nat_eq, str_eq,
}
use vermouth.Acl.{bit_set, net_mask}
use vermouth.Acl.Trails.{bool_beq, bool_beq_iff, bit_at}

-- Whether a test holds for every number below n.
unfoldable pub each : ℕ → (ℕ → Bool) → Bool
each zero f = true
each (suc n) f = f n && each n f

pub each-at : (n : ℕ) (f : ℕ → Bool) (j : ℕ) → each n f ≡ true → j < n → f j ≡ true
unfolding each
each-at zero f j h i = elim i [ ]
each-at (suc n) f j h i = elim (Bool-cases (nat_beq j n)) [
  | inl here ↦ (let e = (nat_beq_iff j n).0 here in rw e (ground arith))
  | inr below ↦ each-at n f j (ground arith) (ground arith)
]

abbrev fits : ℕ → ℕ → Bool
fits j c = bool_beq (bit_set (bit_at j) (net_mask c)) (ltb j c)

all_fit : each 33 (λ j. each 33 (λ c. fits j c)) ≡ true
unfolding each bit_at net_mask bool_beq
all_fit = refl

pub net_mask-bit : (j c : ℕ) → j ≤ 32 → c ≤ 32 → bit_set (bit_at j) (net_mask c) ≡ ltb j c
net_mask-bit j c h i =
    (bool_beq_iff _ _).0
      (each-at 33 (λ c. fits j c) c (each-at 33 _ j all_fit (omega arith)) (omega arith))
