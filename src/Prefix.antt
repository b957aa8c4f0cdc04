-- ===== src/Prefix.antt =====
-- prefix/prefixer.go and prefix/hash_prefixer.go: which prefix of a request's path is registered,
-- and the balancer behind it. The only prefixer is the hash prefixer. Its lock is released on every
-- path and never taken twice, so it is left out.
pub mod Scan
pub mod Found
pub mod Mapping
pub mod Total
mod Tests
use vermouth.Prelude.{
  ℕ, Option, none, some, List, [], Str, codes, length, drop, Go, ret, Result, ok, err, ◌+◌, ◌∷◌,
  ◌++◌, ◌==◌, if◌then◌else◌, ◌>>=◌, ◌>>◌, nat_eq, str_eq,
}
use vermouth.Golib.Strings.{split, rest}
use vermouth.Net.{Request}
use vermouth.Balancer
use vermouth.Balancer.{Balancer}
use vermouth.Prelude.Map
use vermouth.Prelude.Map.{Map}

abbrev pub type_hash_prefixer : Str
type_hash_prefixer = codes "hash-prefixer"

pub record HashPrefixer : Type 0 where
  pub mapping : Map Str Balancer

-- NewHashPrefixer
abbrev pub new_hash_prefixer : HashPrefixer
new_hash_prefixer = record { mapping = [] }

-- Build: `none` is PrefixerTypeNotSupportedError.
unfoldable pub build : Str → Option HashPrefixer
build t = if t == type_hash_prefixer then some new_hash_prefixer else none

-- The map with what the factory built, if it built something.
unfoldable pub added : HashPrefixer → Str → Option Balancer → HashPrefixer
added p prefix_path none = p
added p prefix_path (some lb) = record { mapping = Map.put p.mapping prefix_path lb }

-- Add: an unknown algorithm adds nothing, and no error is returned.
unfoldable pub add : HashPrefixer → Str → Str → List Str → Go HashPrefixer
unfolding added
add p prefix_path algo hosts = do b ← Balancer.build algo hosts; ret (added p prefix_path b)

-- Remove
unfoldable pub remove : HashPrefixer → Str → HashPrefixer
remove p prefix_path = record { mapping = Map.remove p.mapping prefix_path }

-- GetBalancer: `none` is nil.
unfoldable pub get_balancer : HashPrefixer → Str → Option Balancer
get_balancer p prefix_path = Map.get p.mapping prefix_path

-- The loop of MappingPath: the last registered text among the growing ones, and its length.
unfoldable pub scan : Map Str Balancer → Str → ℕ → Str → ℕ → List Str → Str × ℕ
scan m next_path idx prefix offset [] = (prefix, offset)
scan m next_path idx prefix offset (v ∷ vs) =
    let next = next_path ++ b'/' ∷ v in
    let i = idx + (length v + 1) in
    scan m next i (if Map.has m next then next else prefix) (if Map.has m next then i else offset)
      vs

-- The prefix and the offset that MappingPath goes on with.
unfoldable pub find_prefix : HashPrefixer → Str → Str × ℕ
unfolding scan
find_prefix p api_path = scan p.mapping [] 0 [] 0 (rest (split b'/' api_path))

pub data MappingError : Type 0 where
  path_not_found : MappingError
  no_host : MappingError

-- What MappingPath returns without an error.
pub record Mapped : Type 0 where
  pub prefix : Str
  pub api_path : Str
  pub real_path : Str

abbrev pub or_root : Str → Str
or_root [] = codes "/"
or_root (c ∷ s) = c ∷ s

-- What MappingPath returns for the host that the balancer chose.
unfoldable pub answer :
    Str → Str → HashPrefixer → Option Str → Go (Result MappingError Mapped × HashPrefixer)
answer prefix tail p none = ret (err no_host, p)
answer prefix tail p (some host) =
    ret (ok (record { prefix = prefix; api_path = tail; real_path = host ++ tail }), p)

-- The end of MappingPath, for a balancer that was found.
unfoldable pub balance_at :
    HashPrefixer
    → Str
    → Str
    → Balancer
    → Option Request
    → Go (Result MappingError Mapped × HashPrefixer)
unfolding answer
balance_at p prefix tail lb r = do
  (host, lb') ← Balancer.balance lb [] r
  answer prefix tail (record { mapping = Map.put p.mapping prefix lb' }) host

-- What MappingPath does with what the map holds at the prefix.
unfoldable pub route :
    HashPrefixer
    → Str
    → Str
    → Option Request
    → Option Balancer
    → Go (Result MappingError Mapped × HashPrefixer)
unfolding balance_at
route p prefix tail r none = ret (err path_not_found, p)
route p prefix tail r (some lb) = balance_at p prefix tail lb r

-- MappingPath. The call of the balancer changes the balancer that the map holds.
unfoldable pub mapping_path :
    HashPrefixer → Str → Option Request → Go (Result MappingError Mapped × HashPrefixer)
mapping_path p api_path r =
    let (found, offset) = find_prefix p api_path in
    route p (or_root found) (drop offset api_path) r (Map.get p.mapping (or_root found))
