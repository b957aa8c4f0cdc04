-- ===== src/Proxy/Unlisted.antt =====
-- vermouth/http_proxy.go and balancer/consist-hash.go: a host that is added to a consistent hash.
use vermouth.Proxy.{HttpReverseProxy, get_hosts, host_exists, change_host_body, locked, add_host}
use vermouth.Prelude.Map
use vermouth.Golib.Sort.{sort_ints, contains-sort_ints}
use vermouth.Prefix
use vermouth.Balancer
use vermouth.Balancer.ConsistentHash
use vermouth.Balancer.ConsistentHash.{ConsistenceHash, add_keys, key_of}
use vermouth.Rate.{RateLib}
use vermouth.Prelude.{
  ℕ, zero, suc, refl, inl, inr, true, false, some, [], arith, nat_beq, Bool-cases, Str, contains,
  ret, unlocked, lock, unlock, contains-append_left, contains-append_last, ◌+◌, ◌≤◌, ◌<◌, ◌≡◌, ◌∙◌,
  ◌∷◌, nat_eq, str_eq,
}

add_keys-same :
    (left i : ℕ) (host : Str) (c : ConsistenceHash)
    → ((add_keys left i host c).list ≡ c.list) × ((add_keys left i host c).mutex ≡ c.mutex)
unfolding add_keys
add_keys-same zero i host c = (refl, refl)
add_keys-same (suc left) i host c = add_keys-same left (i + 1) host _

-- The key of a replica is on the sorted list that Balance searches, and it is the host's.
abbrev pub IsPlaced : ConsistenceHash → ℕ → Str → Type 0
IsPlaced d key host = (contains d.keys key ≡ true) × (Map.get d.hosts key ≡ some host)

add_keys-kept :
    (left i k : ℕ) (host : Str) (c : ConsistenceHash)
    → IsPlaced c k host
    → IsPlaced (add_keys left i host c) k host
unfolding add_keys
add_keys-kept zero i k host c h = h
add_keys-kept (suc left) i k host c (on, its) = add_keys-kept left (i + 1) k host _ (
  contains-append_left c.keys (key_of c i host ∷ []) k on,
  ground (arith, Map.get-put c.hosts (key_of c i host) k host),
)

add_keys-IsPlaced :
    (left i j : ℕ) (host : Str) (c : ConsistenceHash)
    → i ≤ j
    → j < i + left
    → IsPlaced (add_keys left i host c) (key_of c j host) host
unfolding add_keys
add_keys-IsPlaced zero i j host c h k = absurd (omega (arith, h, k))
add_keys-IsPlaced (suc left) i j host c h k = elim (Bool-cases (nat_beq i j)) [
  | inl now ↦
      (let same : i ≡ j = ground arith in
        rw (← same) (
          add_keys-kept left (i + 1) (key_of c i host) host _ (
            contains-append_last c.keys (key_of c i host),
            Map.get-put_self c.hosts (key_of c i host) host,
          )))
  | inr later ↦ add_keys-IsPlaced left (i + 1) j host _ (ground arith) (omega (arith, k))
]

-- AddHost on a prefix with a consistent hash, the locks of both free, puts a host that Hosts does not
-- list on the ring: the key of each of its replicas is on the sorted list that Balance searches, and
-- it is the host's. It does not put the host on the list that Hosts answers: HostExists goes on to
-- deny it, so the same host can be added again and again.
pub add_host-unlisted :
    (lib : RateLib) (prefix host : Str) (proxy : HttpReverseProxy lib) (c : ConsistenceHash)
    → proxy.mutex ≡ unlocked
    → Prefix.get_balancer proxy.prefix_mapping prefix ≡ some (Balancer.consistence_hash c)
    → c.mutex ≡ unlocked
    → contains c.list host ≡ false
    → (p : HttpReverseProxy lib) × (d : ConsistenceHash) × (add_host lib prefix host proxy ≡ ret p)
      × (Prefix.get_balancer p.prefix_mapping prefix ≡ some (Balancer.consistence_hash d))
      × ((i : ℕ) → i < c.replicas → IsPlaced d (key_of c i host) host)
      × (host_exists lib p prefix host ≡ false)
unfolding add_host locked lock unlock change_host_body Balancer.add ConsistentHash.add
    Balancer.hosts Prefix.get_balancer host_exists get_hosts
add_host-unlisted lib prefix host proxy c free found ready new = (
  listing,
  longer,
  rw
      (
        add_host, locked, lock, free, change_host_body, Prefix.get_balancer, found, Balancer.add,
        ConsistentHash.add, ready,
      )
      refl,
  Map.get-put_self proxy.prefix_mapping.mapping prefix (Balancer.consistence_hash longer),
  λ i h.
      let (on, its) = add_keys-IsPlaced c.replicas 0 i host held (omega arith) (omega (arith, h)) in
      (contains-sort_ints ring.keys (key_of c i host) ∙ on, its),
  rw
      (
        Map.get-put_self proxy.paths prefix longer.list,
        (add_keys-same c.replicas 0 host held).0,
        host_exists,
        get_hosts,
      )
      new,
)
  where
    held : ConsistenceHash
    held = record c { mutex = record { writer = true; readers = 0 } }

    ring : ConsistenceHash
    ring = add_keys c.replicas 0 host held

    longer : ConsistenceHash
    longer = record ring { keys = sort_ints ring.keys; mutex = unlock ring.mutex }

    listing : HttpReverseProxy lib
    listing = record proxy {
      prefix_mapping = record {
        mapping = Map.put proxy.prefix_mapping.mapping prefix (Balancer.consistence_hash longer);
      };
      paths = Map.put proxy.paths prefix longer.list;
      mutex = unlocked;
    }
