-- ===== src/Acl/Bits.antt =====
-- acl/radix_tree.go: the bit that the loops of the tree go down by.
use vermouth.Prelude.{ℕ, suc, bit_and, refl, false, arith, ◌*◌, ◌/◌, ◌^◌, ◌<◌, ◌≡◌, nat_eq, str_eq}
use vermouth.Acl.{bit_set}
use Prim.Native.Nat.{bit_and-bitwise}

bit_set-zero : (mask : ℕ) → bit_set 0 mask ≡ false
bit_set-zero mask = let e : bit_and 0 mask ≡ 0 = bit_and-bitwise 0 mask in rw e refl

pub no_bit : (bit mask : ℕ) → bit < 1 → bit_set bit mask ≡ false
no_bit bit mask h = let z : bit ≡ 0 = omega arith in rw z (bit_set-zero mask)

pub halved : (k bit : ℕ) → bit < 2 ^ suc k → bit / 2 < 2 ^ k
halved k bit h = let e : 2 ^ suc k ≡ 2 ^ k * 2 = omega arith in grind arith
