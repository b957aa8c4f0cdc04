-- ===== src/Balancer/ConsistentHash/Listed.antt =====
-- balancer/consist-hash.go: NewConsistenceHash lists the hosts that it is given.
use vermouth.Prelude.{
  ℕ, zero, suc, refl, sym, ap, true, List, [], append-nil, append_assoc, Str, ret, unlocked, lock,
  unlock, ◌+◌, ◌≡◌, ◌∙◌, ◌∷◌, ◌++◌, ◌>>=◌, nat_eq, str_eq,
}
use vermouth.Golib.Sort.{sort_ints}
use vermouth.Balancer.ConsistentHash.{ConsistenceHash, add, add_keys, add_all, new}

add_keys-keeps :
    (left i : ℕ) (host : Str) (c : ConsistenceHash)
    → ((add_keys left i host c).list ≡ c.list) × ((add_keys left i host c).mutex ≡ c.mutex)
unfolding add_keys
add_keys-keeps zero i host c = (refl, refl)
add_keys-keeps (suc left) i host c = add_keys-keeps left (i + 1) host _

add-list :
    (c : ConsistenceHash) (host : Str)
    → c.mutex ≡ unlocked
    → (d : ConsistenceHash) × (add c host ≡ ret d) × (d.list ≡ c.list) × (d.mutex ≡ unlocked)
unfolding add lock unlock
add-list c host free =
    let taken : ConsistenceHash = record c { mutex = record unlocked { writer = true } } in
    let (listed, held) = add_keys-keeps c.replicas 0 host taken in
    let done : ConsistenceHash = add_keys c.replicas 0 host taken in
    (
      record done { keys = sort_ints done.keys; mutex = unlock done.mutex },
      rw free refl,
      listed,
      ap unlock held,
    )

add_all-list :
    (hosts : List Str) (c : ConsistenceHash)
    → c.mutex ≡ unlocked
    → (d : ConsistenceHash) × (add_all hosts c ≡ ret d) × (d.list ≡ c.list ++ hosts)
unfolding add_all
add_all-list [] c free = (c, refl, sym (append-nil c.list))
add_all-list (host ∷ hosts) c free =
    let (a, added, listed, free') = add-list c host free in
    let (d, ran, all_listed) = add_all-list hosts (record a { list = a.list ++ host ∷ [] }) free' in
    (
      d,
      ap (λ m. m >>= λ x. add_all hosts (record x { list = x.list ++ host ∷ [] })) added ∙ ran,
      all_listed ∙ append_assoc a.list (host ∷ []) hosts ∙ ap (λ xs. xs ++ host ∷ hosts) listed,
    )

pub new-list : (hosts : List Str) → (d : ConsistenceHash) × (new hosts ≡ ret d) × (d.list ≡ hosts)
unfolding new
new-list hosts = add_all-list hosts _ refl
