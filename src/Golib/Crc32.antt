-- ===== src/Golib/Crc32.antt =====
-- Go's hash/crc32: ChecksumIEEE, bit by bit.
use vermouth.Prelude.{
  ℕ, zero, suc, bit_xor, refl, [], Str, codes, ◌/◌, ◌%◌, ◌≡◌, ◌∷◌, ◌==◌, if◌then◌else◌, nat_eq,
  str_eq,
}

crc_shift : ℕ → ℕ → ℕ
crc_shift zero c = c
crc_shift (suc k) c = crc_shift k (if c % 2 == 0 then c / 2 else bit_xor (c / 2) 0xedb88320)

crc_from : ℕ → Str → ℕ
unfolding crc_shift
crc_from c [] = c
crc_from c (b ∷ s) = crc_from (crc_shift 8 (bit_xor c b)) s

unfoldable pub checksum_ieee : Str → ℕ
unfolding crc_from
checksum_ieee s = bit_xor (crc_from 0xffffffff s) 0xffffffff

-- The check value of the standard.
checksum_ieee_check : checksum_ieee (codes "123456789") ≡ 0xcbf43926
unfolding checksum_ieee
checksum_ieee_check = refl
