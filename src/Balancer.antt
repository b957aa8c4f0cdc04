-- ===== src/Balancer.antt =====
-- balancer/balancer.go: the balancers that a prefix can have, and the factory that builds them.
-- The interface `Balancer` is the data type of its two implementations.
pub mod RoundRobin
pub mod ConsistentHash
pub mod Kinds
mod Tests
use vermouth.Prelude.{
  Option, none, some, List, Str, codes, Go, ret, ◌==◌, if◌then◌else◌, ◌>>=◌, ◌>>◌, nat_eq, str_eq,
}
use vermouth.Net.{Request}

pub data Balancer : Type 0 where
  round_robin : RoundRobin.RoundRobin → Balancer
  consistence_hash : ConsistentHash.ConsistenceHash → Balancer

abbrev pub type_round_robin : Str
type_round_robin = codes "round-robin"

abbrev pub type_consistence_hash : Str
type_consistence_hash = codes "consistence-hash"

-- Build: `none` is AlgorithmNotSupportedError. The factories are those that the two packages
-- register when they are loaded.
unfoldable pub build : Str → List Str → Go (Option Balancer)
build algo hosts =
    if algo == type_round_robin
    then ret (some (round_robin (RoundRobin.new hosts)))
    else if algo == type_consistence_hash
    then (ConsistentHash.new hosts >>= λ c. ret (some (consistence_hash c)))
    else ret none

unfoldable pub add : Balancer → Str → Go Balancer
add (round_robin r) host = ret (round_robin (RoundRobin.add r host))
add (consistence_hash c) host = ConsistentHash.add c host >>= λ d. ret (consistence_hash d)

unfoldable pub remove : Balancer → Str → Go Balancer
remove (round_robin r) host = ret (round_robin (RoundRobin.remove r host))
remove (consistence_hash c) host = ConsistentHash.remove c host >>= λ d. ret (consistence_hash d)

-- Balance: `none` is the error for a balancer without hosts.
unfoldable pub balance : Balancer → Str → Option Request → Go (Option Str × Balancer)
balance (round_robin b) url r = do (host, b') ← RoundRobin.balance b; ret (host, round_robin b')
balance (consistence_hash c) url r = do
  (host, c') ← ConsistentHash.balance c url r
  ret (host, consistence_hash c')

-- Mode
unfoldable pub mode : Balancer → Str
mode (round_robin r) = type_round_robin
mode (consistence_hash c) = type_consistence_hash

-- Hosts
unfoldable pub hosts : Balancer → List Str
hosts (round_robin r) = r.hosts
hosts (consistence_hash c) = c.list
