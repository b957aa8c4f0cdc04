-- ===== src/Balancer/RoundRobin/Laws.antt =====
-- balancer/round_robin.go: the turns of the hosts, and the list of the hosts.
use vermouth.Prelude.{
  ℕ, zero, suc, refl, sym, ap, inl, inr, false, not, Option, some, List, [], arith, Bool-cases, Str,
  str_beq, str_beq_iff, beq_refl, length, get_elem?, get_elem?-is_some, contains, Go, ret, ◌+◌, ◌%◌,
  ◌^◌, ◌<◌, ◌≡◌, ◌∙◌, ◌&&◌, ◌||◌, ◌∷◌, ◌++◌, ◌>>=◌, nat_eq, str_eq,
}
use vermouth.Balancer.RoundRobin.{RoundRobin, add, remove, without, balance}

-- The host that the next call gets, after k calls.
unfoldable pub served : ℕ → RoundRobin → Go (Option Str)
served zero r = balance r >>= λ b. ret b.0
served (suc k) r = balance r >>= λ b. served k b.1

-- A call on a list with hosts answers the host at the counter, and counts.
pub balance-ret :
    (r : RoundRobin)
    → 0 < length r.hosts
    → (h : Str) × (get_elem? r.hosts (r.idx % length r.hosts) ≡ some h)
      × (balance r ≡ ret (some h, record r { idx = (r.idx + 1) % 2 ^ 64 }))
unfolding balance
balance-ret r h =
    let (x, e) = get_elem?-is_some r.hosts (r.idx % length r.hosts) (grind arith) in
    (x, e, ground (arith, e))

-- Call number k after the first, counted from a counter that does not overflow, gets the host
-- (idx + k) mod the number of hosts: hosts take turns, and no call panics or fails.
pub served-turn :
    (k : ℕ) (r : RoundRobin)
    → 0 < length r.hosts
    → r.idx + k < 2 ^ 64
    → served k r ≡ ret (get_elem? r.hosts ((r.idx + k) % length r.hosts))
unfolding served
served-turn zero r h b =
    let (x, e, run) = balance-ret r h in
    let n : r.idx + 0 ≡ r.idx = omega arith in rw (run, n) (ap ret (sym e))
served-turn (suc k) r h b =
    let (x, e, run) = balance-ret r h in
    let n : (r.idx + 1) % 2 ^ 64 + k ≡ r.idx + suc k = omega arith in
    rw run (
      served-turn k (record r { idx = (r.idx + 1) % 2 ^ 64 }) h (omega arith)
      ∙ ap (λ i. ret (get_elem? r.hosts (i % length r.hosts))) n)

-- No host stands twice.
abbrev pub Distinct : List Str → Type 0
Distinct [] = Unit
Distinct (h ∷ hosts) = (contains hosts h ≡ false) × Distinct hosts

contains-append :
    (xs : List Str) (y x : Str) → contains (xs ++ y ∷ []) x ≡ (contains xs x || str_beq y x)
unfolding contains
contains-append [] y x = ground arith
contains-append (z ∷ xs) y x = ground (arith, contains-append xs y x)

Distinct-append :
    (xs : List Str) (y : Str) → Distinct xs → contains xs y ≡ false → Distinct (xs ++ y ∷ [])
unfolding contains
Distinct-append [] y d h = (refl, tt)
Distinct-append (x ∷ xs) y (o, d) h = (
  ground (arith, contains-append xs y x, str_beq_iff x y, str_beq_iff y x),
  Distinct-append xs y d (ground arith),
)

contains-without :
    (xs : List Str) (y x : Str)
    → Distinct xs
    → contains (without xs y) x ≡ (contains xs x && not (str_beq y x))
unfolding contains without
contains-without [] y x d = refl
contains-without (z ∷ xs) y x (o, d) =
    ground (arith, contains-without xs y x d, str_beq_iff z y, str_beq_iff z x, str_beq_iff y x)

Distinct-without : (xs : List Str) (y : Str) → Distinct xs → Distinct (without xs y)
unfolding without
Distinct-without [] y d = tt
Distinct-without (x ∷ xs) y (o, d) =
    ground (arith, Distinct-without xs y d, contains-without xs y x d)

without-append : (xs : List Str) (y : Str) → contains xs y ≡ false → without (xs ++ y ∷ []) y ≡ xs
unfolding contains without
without-append [] y h = rw (beq_refl y)
without-append (x ∷ xs) y h = ground (arith, without-append xs y)

-- Add keeps the hosts distinct, and a host is in the list afterwards exactly if it is the host that
-- was added or was there before.
pub add-Distinct :
    (r : RoundRobin) (host x : Str)
    → Distinct r.hosts
    → Distinct (add r host).hosts
      × (contains (add r host).hosts x ≡ (contains r.hosts x || str_beq host x))
unfolding add
add-Distinct r host x d = elim (Bool-cases (contains r.hosts host)) [
  | inl there ↦ rw there (d, ground (arith, str_beq_iff host x))
  | inr not_there ↦
      rw not_there (Distinct-append r.hosts host d not_there, contains-append r.hosts host x)
]

-- Remove keeps the hosts distinct, and takes exactly the given host away.
pub remove-Distinct :
    (r : RoundRobin) (host x : Str)
    → Distinct r.hosts
    → Distinct (remove r host).hosts
      × (contains (remove r host).hosts x ≡ (contains r.hosts x && not (str_beq host x)))
unfolding remove
remove-Distinct r host x d = (Distinct-without r.hosts host d, contains-without r.hosts host x d)

-- Removing a host that has just been added, and was not there, gives the balancer back.
pub remove-add :
    (r : RoundRobin) (host : Str) → contains r.hosts host ≡ false → remove (add r host) host ≡ r
unfolding add remove
remove-add r host h = rw h (ap (λ hs. record r { hosts = hs }) (without-append r.hosts host h))
