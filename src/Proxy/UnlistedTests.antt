-- ===== src/Proxy/UnlistedTests.antt =====
-- balancer/consist-hash.go: a second host on a consistent hash.
use vermouth.Proxy.Unlisted.{IsPlaced, add_host-unlisted}
use vermouth.Proxy.{host_exists, add_host, HttpReverseProxy}
use vermouth.Prelude.Map
use vermouth.Prefix
use vermouth.Balancer
use vermouth.Balancer.ConsistentHash.{ConsistenceHash, key_of}
use vermouth.Fixtures.{test_lib, empty_proxy}
use vermouth.Golib.Crc32.{checksum_ieee}
use vermouth.Prelude.{
  ℕ, refl, false, some, [], codes, str_beq, contains, ret, unlocked, ◌<◌, ◌≡◌, ◌∷◌, nat_eq, str_eq,
}

abbrev ring : ConsistenceHash
ring = record {
  hash = checksum_ieee;
  replicas = 3;
  keys = [];
  hosts = [];
  list = codes "10.0.0.1:80" ∷ [];
  mutex = unlocked;
}

abbrev hashing : HttpReverseProxy test_lib
hashing = record empty_proxy {
  paths = (codes "/", codes "10.0.0.1:80" ∷ []) ∷ [];
  prefix_mapping = record { mapping = (codes "/", Balancer.consistence_hash ring) ∷ [] };
}

hashing-has :
    Prefix.get_balancer hashing.prefix_mapping (codes "/") ≡ some (Balancer.consistence_hash ring)
unfolding Prefix.get_balancer Map.get str_beq
hashing-has = refl

second_new : contains ring.list (codes "10.0.0.2:80") ≡ false
unfolding contains str_beq
second_new = refl

add_host-unlisted_example :
    (p : HttpReverseProxy test_lib) × (d : ConsistenceHash) × (add_host test_lib
        (codes "/")
        (codes "10.0.0.2:80")
        hashing
      ≡ ret p)
    × (Prefix.get_balancer p.prefix_mapping (codes "/") ≡ some (Balancer.consistence_hash d))
    × ((i : ℕ)
        → i < ring.replicas
        → IsPlaced d (key_of ring i (codes "10.0.0.2:80")) (codes "10.0.0.2:80"))
    × (host_exists test_lib p (codes "/") (codes "10.0.0.2:80") ≡ false)
add_host-unlisted_example =
    add_host-unlisted test_lib (codes "/") (codes "10.0.0.2:80") hashing ring refl hashing-has refl
      second_new
