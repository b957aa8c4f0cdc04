-- ===== src/Balancer/Kinds.antt =====
-- balancer/balancer.go: the algorithm and the hosts of a balancer over its operations.
use vermouth.Prelude.{
  refl, sym, ap, inl, inr, Option, some, List, arith, Bool-cases, Str, str_beq_iff, length, Go, ret,
  >>=-eq-ret, ret-injective, r_lock, ◌%◌, ◌≡◌, ◌==◌, ◌>>=◌, nat_eq, str_eq,
}
use vermouth.Balancer
use vermouth.Balancer.{Balancer, type_round_robin, type_consistence_hash}
use vermouth.Balancer.ConsistentHash
use vermouth.Balancer.RoundRobin
use vermouth.Net.{Request}

consistence_hash-mode :
    (algo : Str) (m : Go ConsistentHash.ConsistenceHash) (lb : Balancer)
    → algo ≡ type_consistence_hash
    → (m >>= λ c. ret (some (Balancer.consistence_hash c))) ≡ ret (some lb)
    → Balancer.mode lb ≡ algo
unfolding Balancer.mode
consistence_hash-mode algo m lb e h = let (c, _, is) = >>=-eq-ret m _ h in ground arith

-- A balancer that is built for an algorithm says that it is of that algorithm.
pub build-mode :
    (algo : Str) (hosts : List Str) (lb : Balancer)
    → Balancer.build algo hosts ≡ ret (some lb)
    → Balancer.mode lb ≡ algo
unfolding Balancer.build Balancer.mode
build-mode algo hosts lb h = elim (Bool-cases (algo == type_round_robin)) [
  | inl yes_rr ↦ ground (arith, str_beq_iff algo type_round_robin)
  | inr no_rr ↦ elim (Bool-cases (algo == type_consistence_hash)) [
    | inl yes_ch ↦
        consistence_hash-mode algo (ConsistentHash.new hosts) lb ((str_beq_iff _ _).0 yes_ch)
          (rw (no_rr, yes_ch) at h)
    | inr no_ch ↦ absurd (ground arith)
  ]
]

pub add-mode :
    (host : Str) (a b : Balancer) → Balancer.add a host ≡ ret b → Balancer.mode b ≡ Balancer.mode a
unfolding Balancer.add Balancer.mode
add-mode host (Balancer.round_robin r) b e = rw (← ret-injective e)
add-mode host (Balancer.consistence_hash c) b e =
    let (d, _, e') = >>=-eq-ret (ConsistentHash.add c host) _ e in rw (← ret-injective e')

pub remove-mode :
    (host : Str) (a b : Balancer)
    → Balancer.remove a host ≡ ret b
    → Balancer.mode b ≡ Balancer.mode a
unfolding Balancer.remove Balancer.mode
remove-mode host (Balancer.round_robin r) b e = rw (← ret-injective e)
remove-mode host (Balancer.consistence_hash c) b e =
    let (d, _, e') = >>=-eq-ret (ConsistentHash.remove c host) _ e in rw (← ret-injective e')

rr_balance-hosts :
    (b b' : RoundRobin.RoundRobin) (host : Option Str)
    → RoundRobin.balance b ≡ ret (host, b')
    → b'.hosts ≡ b.hosts
unfolding RoundRobin.balance
rr_balance-hosts b b' host e = elim (Bool-cases (length b.hosts == 0)) [
  | inl empty ↦
      ap (λ (x : Option Str × RoundRobin.RoundRobin). x.1.hosts)
        (sym (ret-injective (rw (empty, RoundRobin.balance) at e)))
  | inr some_host ↦
      (let (h, _, e') =
          >>=-eq-ret (RoundRobin.at_index b.hosts (b.idx % length b.hosts)) _
            (rw (some_host, RoundRobin.balance) at e) in
        ap (λ (x : Option Str × RoundRobin.RoundRobin). x.1.hosts) (sym (ret-injective e')))
]

ch_balance-list :
    (c c' : ConsistentHash.ConsistenceHash) (url : Str) (r : Option Request) (host : Option Str)
    → ConsistentHash.balance c url r ≡ ret (host, c')
    → c'.list ≡ c.list
unfolding ConsistentHash.balance
ch_balance-list c c' url r host e =
    let (m, _, e1) = >>=-eq-ret (r_lock c.mutex) _ e in
    elim (Bool-cases (length c.keys == 0)) [
      | inl empty ↦
          ap (λ (x : Option Str × ConsistentHash.ConsistenceHash). x.1.list)
            (sym (ret-injective (rw empty at e1)))
      | inr some_key ↦
          (let (k, _, e2) = >>=-eq-ret (ConsistentHash.key_for url r) _ (rw some_key at e1) in
            let (h, _, e3) =
              >>=-eq-ret
                (ConsistentHash.host_at c
                  (ConsistentHash.search_ints c.keys (c.hash k) % length c.keys))
                _ e2 in
            ap (λ (x : Option Str × ConsistentHash.ConsistenceHash). x.1.list)
              (sym (ret-injective e3)))
    ]

pub balance-keeps :
    (a b : Balancer) (url : Str) (r : Option Request) (host : Option Str)
    → Balancer.balance a url r ≡ ret (host, b)
    → (Balancer.mode b ≡ Balancer.mode a) × (Balancer.hosts b ≡ Balancer.hosts a)
unfolding Balancer.balance Balancer.mode Balancer.hosts
balance-keeps (Balancer.round_robin x) b url r host e =
    let ((h, x'), ran, e') = >>=-eq-ret (RoundRobin.balance x) _ e in
    let same = rr_balance-hosts x x' h ran in
    let is = ap (λ x. x.1) (ret-injective e') in rw (← is) (refl, same)
balance-keeps (Balancer.consistence_hash c) b url r host e =
    let ((h, c'), ran, e') = >>=-eq-ret (ConsistentHash.balance c url r) _ e in
    let same = ch_balance-list c c' url r h ran in
    let is = ap (λ x. x.1) (ret-injective e') in rw (← is) (refl, same)
