-- ===== src/Balancer/RoundRobin.antt =====
-- balancer/round_robin.go. The counter is a uint64. The locks are released on every path, so they
-- are left out; a call of `balance` counts under a read lock, and is one step here.
pub mod Laws
use vermouth.Prelude.{
  ℕ, Option, none, some, List, [], Str, length, get_elem?, contains, Go, ret, panic, ◌+◌, ◌%◌, ◌^◌,
  ◌∷◌, ◌++◌, ◌==◌, if◌then◌else◌, ◌>>=◌, nat_eq, str_eq,
}

pub record RoundRobin : Type 0 where
  pub idx : ℕ
  pub hosts : List Str

-- NewRoundRobin
unfoldable pub new : List Str → RoundRobin
new hosts = record { idx = 0; hosts = hosts }

-- Add refuses a host that is there.
unfoldable pub add : RoundRobin → Str → RoundRobin
unfolding contains
add r host = if contains r.hosts host then r else record r { hosts = r.hosts ++ host ∷ [] }

-- The loop of Remove: the first equal host goes.
unfoldable pub without : List Str → Str → List Str
without [] host = []
without (h ∷ hosts) host = if h == host then hosts else h ∷ without hosts host

-- Remove
unfoldable pub remove : RoundRobin → Str → RoundRobin
unfolding without
remove r host = record r { hosts = without r.hosts host }

-- r.hosts[i]
abbrev pub at_index : List Str → ℕ → Go Str
at_index hosts i = elim (get_elem? hosts i) [ none ↦ panic | some h ↦ ret h ]

-- Balance: `none` is NoHostError.
unfoldable pub balance : RoundRobin → Go (Option Str × RoundRobin)
balance r = if length r.hosts == 0 then ret (none, r) else do
  host ← at_index r.hosts (r.idx % length r.hosts)
  ret (some host, record r { idx = (r.idx + 1) % 2 ^ 64 })
