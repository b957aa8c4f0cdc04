-- ===== src/State/LogEntry.antt =====
-- vermouth/log_entry.go: an entry of the raft log, an option and the bytes of a command.
use vermouth.Prelude.{
  ℕ, arith, Str, Go, ret, panic, ◌+◌, ◌*◌, ◌/◌, ◌%◌, ◌^◌, ◌<◌, ◌≡◌, ◌∷◌, nat_eq, str_eq,
}

pub record LogEntry : Type 0 where
  pub opt : ℕ
  pub payload : Str

-- Encode: four bytes, of which the first two are the option in big endian, then the payload.
unfoldable pub encode : LogEntry → Str
encode entry = entry.opt / 256 % 256 ∷ entry.opt % 256 ∷ 0 ∷ 0 ∷ entry.payload

-- Decode: a text that is shorter than its header panics.
unfoldable pub decode : Str → Go LogEntry
decode (hi ∷ lo ∷ x ∷ y ∷ payload) = ret (record { opt = hi * 256 + lo; payload = payload })
decode _ = panic

-- Decoding what was encoded gives the entry back, for options that fit in 16 bits.
pub decode-encode : (entry : LogEntry) → entry.opt < 2 ^ 16 → decode (encode entry) ≡ ret entry
unfolding encode decode
decode-encode entry h = ground arith
