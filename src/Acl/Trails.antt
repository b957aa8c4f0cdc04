-- ===== src/Acl/Trails.antt =====
-- acl/radix_tree.go: the ways down the tree. A trail is the list of the bits by which a node is
-- reached from the root, the deepest first; `path j key` is the trail of the first j bits of a key.
use mathlib.Core.Option
use vermouth.Prelude.{
  ℕ, zero, suc, refl, ap, Bool, true, false, not, Option, none, some, List, [], arith, Eq, length,
  get_elem?, ◌/◌, ◌<◌, ◌≡◌, ◌↔◌, ◌&&◌, ◌∷◌, ◌++◌, ◌==◌, if◌then◌else◌, nat_eq, str_eq,
}
use vermouth.Acl.{bit_set, max_ipv4_bit}

abbrev pub Trail : Type 0
Trail = List Bool

unfoldable pub bool_beq : Bool → Bool → Bool
bool_beq true b = b
bool_beq false b = not b

unfoldable pub trail_beq : Trail → Trail → Bool
unfolding bool_beq
trail_beq [] [] = true
trail_beq [] (y ∷ ys) = false
trail_beq (x ∷ xs) [] = false
trail_beq (x ∷ xs) (y ∷ ys) = bool_beq x y && trail_beq xs ys

pub bool_beq_iff : (x y : Bool) → (bool_beq x y ≡ true) ↔ (x ≡ y)
unfolding bool_beq
bool_beq_iff true true = ground arith
bool_beq_iff true false = ground arith
bool_beq_iff false true = ground arith
bool_beq_iff false false = ground arith

pub trail_beq_iff : (s t : Trail) → (trail_beq s t ≡ true) ↔ (s ≡ t)
unfolding trail_beq
trail_beq_iff [] [] = ground arith
trail_beq_iff [] (y ∷ ys) = ground arith
trail_beq_iff (x ∷ xs) [] = ground arith
trail_beq_iff (x ∷ xs) (y ∷ ys) = ground (arith, trail_beq_iff xs ys, bool_beq_iff x y)

instance abbrev pub trail_eq : Eq Trail
trail_eq = record { equal = trail_beq; equal_iff = trail_beq_iff }

-- The bit of the loops after j rounds.
unfoldable pub bit_at : ℕ → ℕ
bit_at zero = max_ipv4_bit
bit_at (suc j) = bit_at j / 2

unfoldable pub path : ℕ → ℕ → Trail
unfolding bit_at
path zero key = []
path (suc j) key = bit_set key (bit_at j) ∷ path j key

pub length-path : (j key : ℕ) → length (path j key) ≡ j
unfolding path
length-path zero key = refl
length-path (suc j) key = ap suc (length-path j key)

-- The node that stands at a trail, where the i-th trail of the list is that of node i.
unfoldable pub index_of : List Trail → Trail → Option ℕ
unfolding trail_beq
index_of [] r = none
index_of (p ∷ ps) r = if p == r then some 0 else Option.map suc (index_of ps r)

abbrev pub or_else : Option ℕ → Option ℕ → Option ℕ
or_else (some i) o = some i
or_else none o = o

pub index_of-get :
    (ps : List Trail) (r : Trail) (i : ℕ) → index_of ps r ≡ some i → get_elem? ps i ≡ some r
unfolding index_of
index_of-get [] r i h = cc
index_of-get (p ∷ ps) r zero h = ground (arith, trail_beq_iff p r)
index_of-get (p ∷ ps) r (suc i) h = ground (arith, index_of-get ps r i)

pub index_of-append :
    (ps : List Trail) (p r : Trail)
    → index_of (ps ++ p ∷ []) r
      ≡ or_else (index_of ps r) (if p == r then some (length ps) else none)
unfolding index_of
index_of-append [] p r = refl
index_of-append (q ∷ ps) p r = ground (arith, index_of-append ps p r)

pub index_of_unique :
    (ps : List Trail) (p r : Trail) (i : ℕ)
    → index_of ps p ≡ some i
    → index_of ps r ≡ some i
    → p ≡ r
index_of_unique ps p r i h k = let a = index_of-get ps p i h in let b = index_of-get ps r i k in cc

pub index_of-bound : (ps : List Trail) (r : Trail) (i : ℕ) → index_of ps r ≡ some i → i < length ps
unfolding index_of
index_of-bound [] r i h = cc
index_of-bound (p ∷ ps) r zero h = omega arith
index_of-bound (p ∷ ps) r (suc i) h = ground (arith, index_of-bound ps r i)
