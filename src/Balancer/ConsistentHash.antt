-- ===== src/Balancer/ConsistentHash.antt =====
-- balancer/consist-hash.go: hosts on a ring of hashes. `keys` is the sorted ring, `hosts` says whose
-- each key is, and `list` is what Hosts answers. A key is a uint32 that stands in an int.
pub mod Locking
pub mod Listed
use vermouth.Prelude.{
  ℕ, zero, suc, false, Option, none, some, List, [], ltb, leb, Str, codes, length, get_elem?, take,
  drop, Go, ret, panic, RwMutex, unlocked, lock, unlock, r_lock, ◌+◌, ◌%◌, ◌∷◌, ◌++◌, ◌==◌,
  if◌then◌else◌, ◌>>=◌, nat_eq, str_eq,
}
use vermouth.Golib.Strings.{last_index}
use vermouth.Golib.Strconv.{itoa}
use vermouth.Golib.Sort.{sort_ints, search_first}
use vermouth.Golib.Crc32.{checksum_ieee}
use vermouth.Net.{Request, remote_ip}
use vermouth.Prelude.Map
use vermouth.Prelude.Map.{Map}
use vermouth.Balancer.RoundRobin.{without}

pub record ConsistenceHash : Type 0 where
  pub hash : Str → ℕ
  pub replicas : ℕ
  pub keys : List ℕ
  pub hosts : Map ℕ Str
  pub list : List Str
  pub mutex : RwMutex

-- c.hash([]byte(strconv.Itoa(i) + host))
abbrev pub key_of : ConsistenceHash → ℕ → Str → ℕ
key_of c i host = c.hash (itoa i ++ host)

-- The loop of Add, from `i` with `left` rounds to go.
unfoldable pub add_keys : ℕ → ℕ → Str → ConsistenceHash → ConsistenceHash
add_keys zero i host c = c
add_keys (suc left) i host c = add_keys left (i + 1) host (record c {
  keys = c.keys ++ key_of c i host ∷ [];
  hosts = Map.put c.hosts (key_of c i host) host;
})

-- Add
unfoldable pub add : ConsistenceHash → Str → Go ConsistenceHash
unfolding add_keys lock unlock
add c host = do
  m ← lock c.mutex
  let added = add_keys c.replicas 0 host (record c { mutex = m })
  ret (record added { keys = sort_ints added.keys; mutex = unlock added.mutex })

-- append(keys[:idx], keys[idx+1:]...), which panics where idx is len(keys)
abbrev pub cut : List ℕ → ℕ → Go (List ℕ)
cut keys idx = if ltb idx (length keys) then ret (take idx keys ++ drop (idx + 1) keys) else panic

-- sort.SearchInts
unfoldable pub search_ints : List ℕ → ℕ → ℕ
search_ints keys hash =
    search_first (length keys) (λ i. elim (get_elem? keys i) [ none ↦ false | some k ↦ leb hash k ])

-- The loop of Remove.
unfoldable pub remove_keys : ℕ → ℕ → Str → ConsistenceHash → Go ConsistenceHash
unfolding search_ints
remove_keys zero i host c = ret c
remove_keys (suc left) i host c = do
  keys ← cut c.keys (search_ints c.keys (key_of c i host))
  remove_keys left (i + 1) host
      (record c { keys = keys; hosts = Map.remove c.hosts (key_of c i host) })

-- Remove
unfoldable pub remove : ConsistenceHash → Str → Go ConsistenceHash
unfolding remove_keys lock unlock without
remove c host = do
  m ← lock c.mutex
  removed ← remove_keys c.replicas 0 host (record c { mutex = m })
  ret (record removed { list = without removed.list host; mutex = unlock removed.mutex })

-- The loop of NewConsistenceHash: each host is added, and listed.
add_all : List Str → ConsistenceHash → Go ConsistenceHash
unfolding add
add_all [] c = ret c
add_all (host ∷ hosts) c = do
  added ← add c host
  add_all hosts (record added { list = added.list ++ host ∷ [] })

-- NewConsistenceHash
unfoldable pub new : List Str → Go ConsistenceHash
unfolding add_all
new hosts = add_all hosts (record {
  hash = checksum_ieee;
  replicas = 3;
  keys = [];
  hosts = [];
  list = [];
  mutex = unlocked;
})

-- ip + "." + token, where the address has a port; a slice up to -1 panics.
unfoldable pub client_key : Request → Go Str
client_key r = elim (last_index b':' (remote_ip r)) [
  | none ↦ panic
  | some port_idx ↦ ret (take port_idx (remote_ip r) ++ (b'.' ∷ r.header (codes "Authorization")))
]

abbrev pub key_for : Str → Option Request → Go Str
key_for url none = ret url
key_for url (some r) = client_key r

-- c.hosts[c.keys[i]]: a key that has no host gives the empty string.
abbrev pub host_at : ConsistenceHash → ℕ → Go Str
host_at c i = elim (get_elem? c.keys i) [
  | none ↦ panic
  | some k ↦ elim (Map.get c.hosts k) [ none ↦ ret [] | some h ↦ ret h ]
]

-- Balance: `none` is the error for an empty ring. The deferred call is RLocker, which releases
-- nothing, so the read lock is kept.
unfoldable pub balance : ConsistenceHash → Str → Option Request → Go (Option Str × ConsistenceHash)
unfolding r_lock search_ints client_key
balance c url r = do
  m ← r_lock c.mutex
  if length c.keys == 0 then ret (none, record c { mutex = m }) else do
    key ← key_for url r
    host ← host_at c (search_ints c.keys (c.hash key) % length c.keys)
    ret (some host, record c { mutex = m })

-- Len
unfoldable pub len : ConsistenceHash → ℕ
len c = length c.hosts
