-- ===== src/Prefix/Total.antt =====
-- prefix/hash_prefixer.go: where MappingPath always has an answer.
use vermouth.Prelude.{
  ℕ, refl, inl, inr, true, Option, some, [], Str, codes, length, drop, ret, ok, ◌<◌, ◌≡◌, ◌⊎◌, ◌∷◌,
  nat_eq, str_eq,
}
use vermouth.Net.{Request}
use vermouth.Balancer
use vermouth.Balancer.{Balancer, round_robin}
use vermouth.Balancer.RoundRobin
use vermouth.Balancer.RoundRobin.Laws.{balance-ret}
use vermouth.Prefix.{
  HashPrefixer, find_prefix, mapping_path, balance_at, answer, or_root, route, Mapped,
}
use vermouth.Prefix.Found.{find_prefix-has}
use vermouth.Prelude.Map
use vermouth.Prelude.Map.{Map}

-- Every prefix has a round robin balancer with a host.
abbrev pub IsStaffed : HashPrefixer → Type 0
IsStaffed p =
    (k : Str) (lb : Balancer)
    → Map.get p.mapping k ≡ some lb
    → (r : RoundRobin.RoundRobin) × (lb ≡ round_robin r) × (0 < length r.hosts)

route-staffed :
    (p : HashPrefixer) (prefix tail : Str) (r : Option Request) (x : RoundRobin.RoundRobin)
    → 0 < length x.hosts
    → (m : Mapped) × (p' : HashPrefixer) × (route p prefix tail r (some (round_robin x))
        ≡ ret (ok m, p'))
unfolding route balance_at Balancer.balance answer
route-staffed p prefix tail r x h = let (host, e, run) = balance-ret x h in rw run (_, _, refl)

or_root-has :
    (m : Map Str Balancer) (f : Str × ℕ)
    → (Map.has m f.0 ≡ true) ⊎ (f ≡ ([], 0))
    → Map.has m (codes "/") ≡ true
    → Map.has m (or_root f.0) ≡ true
or_root-has m ([], n) h root = root
or_root-has m (c ∷ s, n) (inl h) root = h
or_root-has m (c ∷ s, n) (inr e) root = cc

-- Where the root is registered and every prefix has a round robin balancer with a host, MappingPath
-- answers every path.
pub mapping_path-staffed :
    (p : HashPrefixer) (path : Str) (r : Option Request)
    → IsStaffed p
    → Map.has p.mapping (codes "/") ≡ true
    → (m : Mapped) × (p' : HashPrefixer) × (mapping_path p path r ≡ ret (ok m, p'))
unfolding mapping_path
mapping_path-staffed p path r staffed root =
    let has = or_root-has p.mapping (find_prefix p path) (find_prefix-has p path) root in
    let (lb, there) = Map.get-is_some p.mapping (or_root (find_prefix p path).0) has in
    let (x, is, h) = staffed (or_root (find_prefix p path).0) lb there in
    rw (there, is)
      (route-staffed p (or_root (find_prefix p path).0) (drop (find_prefix p path).1 path) r x h)
