-- ===== src/Balancer/Tests.antt =====
-- balancer/balancer_test.go: a balancer of three hosts.
use vermouth.Prelude.{
  refl, false, none, some, [], arith, codes, str_beq, length, get_elem?, contains, ret, block,
  unlocked, ◌%◌, ◌≡◌, ◌∷◌, nat_eq, str_eq,
}
use vermouth.Prelude.Map
use vermouth.Balancer.ConsistentHash
use vermouth.Balancer.ConsistentHash.{ConsistenceHash}
use vermouth.Balancer.ConsistentHash.Locking.{balance-block}
use vermouth.Balancer.RoundRobin.{RoundRobin}
use vermouth.Balancer.RoundRobin.Laws.{served, served-turn, Distinct}

abbrev three : RoundRobin
three = record { idx = 0; hosts = codes "h1" ∷ codes "h2" ∷ codes "h3" ∷ [] }

three-Distinct : Distinct three.hosts
unfolding contains str_beq
three-Distinct = (refl, (refl, (refl, tt)))

no_h4 : contains three.hosts (codes "h4") ≡ false
unfolding contains str_beq
no_h4 = refl

served-turn_example : served 4 three ≡ ret (get_elem? three.hosts (4 % length three.hosts))
served-turn_example = served-turn 4 three (ground arith) (ground arith)

-- A ring whose hash is the length of a text.
abbrev ring : ConsistenceHash
ring = record {
  hash = length;
  replicas = 1;
  keys = 3 ∷ [];
  hosts = (3, codes "h1") ∷ [];
  list = codes "h1" ∷ [];
  mutex = unlocked;
}

abbrev read_once : ConsistenceHash
read_once = record ring { mutex = record { writer = false; readers = 1 } }

ring_run : ConsistentHash.balance ring (codes "/x") none ≡ ret (some (codes "h1"), read_once)
unfolding ConsistentHash.balance vermouth.Golib.Sort.search_first Map.get
ring_run = refl

balance-block_example :
    (ConsistentHash.add read_once (codes "h2") ≡ block)
    × (ConsistentHash.remove read_once (codes "h2") ≡ block)
balance-block_example =
    balance-block ring read_once (codes "/x") none (some (codes "h1")) (codes "h2") ring_run
