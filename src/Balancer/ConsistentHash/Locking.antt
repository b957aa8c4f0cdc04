-- ===== src/Balancer/ConsistentHash/Locking.antt =====
-- balancer/consist-hash.go: what a call of Balance does to the lock.
use vermouth.Prelude.{
  ℕ, refl, sym, ap, inl, inr, Option, arith, Bool-cases, Str, length, ret, block, >>=-eq-ret,
  ret-injective, RwMutex, lock, r_lock, ◌+◌, ◌%◌, ◌≡◌, ◌==◌, nat_eq, str_eq,
}
use vermouth.Net.{Request}
use vermouth.Balancer.ConsistentHash.{
  ConsistenceHash, add, remove, balance, key_for, host_at, search_ints,
}

-- A call of Balance that returns leaves one more reader of the lock, whichever way it returns.
balance-readers :
    (c c' : ConsistenceHash) (url : Str) (r : Option Request) (host : Option Str)
    → balance c url r ≡ ret (host, c')
    → c'.mutex.readers ≡ c.mutex.readers + 1
unfolding balance r_lock
balance-readers c c' url r host e = elim (Bool-cases c.mutex.writer) [
  | inl held ↦ (let e' = (rw (held, balance, r_lock) at e) in cc)
  | inr free ↦
      (let e1 = (rw (free, balance, r_lock) at e) in
        elim (Bool-cases (length c.keys == 0)) [
          | inl empty ↦
              ap (λ (x : Option Str × ConsistenceHash). x.1.mutex.readers)
                (sym (ret-injective (rw empty at e1)))
          | inr some_key ↦
              (let (k, _, e2) = >>=-eq-ret (key_for url r) _ (rw some_key at e1) in
                let (h, _, e3) =
                  >>=-eq-ret (host_at c (search_ints c.keys (c.hash k) % length c.keys)) _ e2 in
                ap (λ (x : Option Str × ConsistenceHash). x.1.mutex.readers)
                  (sym (ret-injective e3)))
        ])
]

lock-readers : (m : RwMutex) (n : ℕ) → m.readers ≡ n + 1 → lock m ≡ block
unfolding lock
lock-readers m n h = ground arith

-- After a call of Balance that returned, Add and Remove of any host wait for ever.
pub balance-block :
    (c c' : ConsistenceHash) (url : Str) (r : Option Request) (answer : Option Str) (host : Str)
    → balance c url r ≡ ret (answer, c')
    → (add c' host ≡ block) × (remove c' host ≡ block)
unfolding add remove
balance-block c c' url r answer host e =
    let h = lock-readers c'.mutex c.mutex.readers (balance-readers c c' url r answer e) in
    (rw (h, add) refl, rw (h, remove) refl)
