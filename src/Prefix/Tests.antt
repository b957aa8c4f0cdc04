-- ===== src/Prefix/Tests.antt =====
-- The inputs of prefix/hash_prefixer_test.go, and the theorems at them.
use vermouth.Prelude.{
  ℕ, suc, refl, sym, inl, inr, true, false, none, [], arith, Bool-cases, Str, codes, str_beq,
  length, Go, ret, Result, ok, err, ◌<◌, ◌≡◌, ◌∷◌, nat_eq, str_eq,
}
use vermouth.Balancer
use vermouth.Balancer.{round_robin}
use vermouth.Balancer.RoundRobin
use vermouth.Prefix
use vermouth.Prefix.{
  HashPrefixer, mapping_path, Mapped, path_not_found, find_prefix, scan, new_hash_prefixer,
}
use vermouth.Prefix.Total.{IsStaffed, mapping_path-staffed}
use vermouth.Prefix.Found.{parts, upto}
use vermouth.Prefix.Mapping.{Routes, mapping_path-Routes, mapping_path-not_found}
use vermouth.Prelude.Map

abbrev sample : HashPrefixer
sample = record {
  mapping =
      (
        codes "/api/service",
        round_robin (record {
          idx = 0;
          hosts =
              codes "192.168.3.1:8080" ∷ codes "192.168.3.2:8081" ∷ codes "192.168.3.3:8082" ∷ [];
        }),
      )
      ∷ (
        codes "/",
        round_robin (record {
          idx = 0;
          hosts = codes "192.168.4.1" ∷ codes "192.168.4.2" ∷ codes "192.168.4.3" ∷ [];
        }),
      )
      ∷ [];
}

abbrev real_path_of : Go (Result Prefix.MappingError Mapped × HashPrefixer) → Str
real_path_of (ret (ok m, p)) = m.real_path
real_path_of _ = []

mapping_tests :
    (real_path_of (mapping_path sample (codes "/api/service/hello") none)
      ≡ codes "192.168.3.1:8080/hello")
    × (real_path_of (mapping_path sample (codes "/api/hello") none) ≡ codes "192.168.4.1/api/hello")
    × (real_path_of (mapping_path sample (codes "/login") none) ≡ codes "192.168.4.1/login")
unfolding mapping_path Prefix.route Map.get vermouth.Prelude.str_beq find_prefix
    vermouth.Golib.Strings.rest vermouth.Golib.Strings.split Map.has Balancer.balance
    RoundRobin.balance
mapping_tests = (refl, refl, refl)

abbrev after : HashPrefixer
after = record {
  mapping =
      (
        codes "/api/service",
        round_robin (record {
          idx = 1;
          hosts =
              codes "192.168.3.1:8080" ∷ codes "192.168.3.2:8081" ∷ codes "192.168.3.3:8082" ∷ [];
        }),
      )
      ∷ (
        codes "/",
        round_robin (record {
          idx = 0;
          hosts = codes "192.168.4.1" ∷ codes "192.168.4.2" ∷ codes "192.168.4.3" ∷ [];
        }),
      )
      ∷ [];
}

abbrev hello : Mapped
hello = record {
  prefix = codes "/api/service";
  api_path = codes "/hello";
  real_path = codes "192.168.3.1:8080/hello";
}

hello_run : mapping_path sample (codes "/api/service/hello") none ≡ ret (ok hello, after)
unfolding mapping_path Prefix.route Map.get vermouth.Prelude.str_beq find_prefix
    vermouth.Golib.Strings.rest vermouth.Golib.Strings.split Map.has Balancer.balance
    RoundRobin.balance Map.put
hello_run = refl

mapping_path-Routes_example : Routes sample after (codes "/api/service/hello") none hello
mapping_path-Routes_example =
    mapping_path-Routes sample after (codes "api/service/hello") none hello hello_run

nowhere_run :
    mapping_path new_hash_prefixer (codes "/login") none
    ≡ ret (err path_not_found, new_hash_prefixer)
unfolding mapping_path Prefix.route Map.get
nowhere_run = refl

mapping_path-not_found_example :
    (new_hash_prefixer ≡ new_hash_prefixer)
    × (Map.has new_hash_prefixer.mapping (codes "/") ≡ false)
    × ((n : ℕ)
        → n < length (parts (codes "/login"))
        → Map.has new_hash_prefixer.mapping (upto (suc n) (codes "/login")) ≡ false)
mapping_path-not_found_example =
    mapping_path-not_found new_hash_prefixer new_hash_prefixer (codes "/login") none nowhere_run

abbrev only_root : HashPrefixer
only_root = record {
  mapping = (codes "/", round_robin (record { idx = 0; hosts = codes "192.168.4.1" ∷ [] })) ∷ [];
}

only_root-IsStaffed : IsStaffed only_root
unfolding Map.get
only_root-IsStaffed k lb e = elim (Bool-cases (str_beq (codes "/") k)) [
  | inl here ↦
      (let is = rw here at e in
        let same : round_robin (record { idx = 0; hosts = codes "192.168.4.1" ∷ [] }) ≡ lb = cc in
        (record { idx = 0; hosts = codes "192.168.4.1" ∷ [] }, sym same, omega arith))
  | inr elsewhere ↦ (let is = rw elsewhere at e in cc)
]

root_there : Map.has only_root.mapping (codes "/") ≡ true
unfolding Map.has str_beq
root_there = refl

mapping_path-staffed_example :
    (m : Mapped) × (p' : HashPrefixer) × (mapping_path only_root (codes "/login") none
      ≡ ret (ok m, p'))
mapping_path-staffed_example =
    mapping_path-staffed only_root (codes "/login") none only_root-IsStaffed root_there
