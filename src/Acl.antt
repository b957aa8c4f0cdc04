-- ===== src/Acl.antt =====
-- acl/radix_tree.go: the access control list, a binary tree over the bits of an IPv4 address whose
-- nodes stand on an explicit heap: a pointer is an index into `nodes`, `none` is nil, and a node is
-- never given back to Go, only to the tree's own list of free nodes. Marshal and UnMarshal are calls
-- of a JSON library and are not modelled.
pub mod Delete
pub mod Bits
pub mod Valid
pub mod Insert
pub mod Trails
pub mod Represents
pub mod Growth
pub mod Masks
pub mod Walk
pub mod Leading
pub mod Longest
pub mod Coverage
pub mod Tests
use vermouth.Prelude.{
  ℕ, zero, suc, bit_and, bit_xor, Bool, true, not, Option, none, some, List, [], ltb, Str, length,
  get_elem?, set, Go, ret, panic, block, ℤ, pos, negsuc, ◌+◌, ◌-◌, ◌/◌, ◌%◌, ◌^◌, ◌∷◌, ◌++◌, ◌==◌,
  if◌then◌else◌, ◌>>=◌, ◌>>◌, nat_eq, str_eq,
}
use mathlib.Core.List.{map}
use vermouth.Golib.Strings.{split, first, rest}
use vermouth.Golib.Strconv.{atoi}
use vermouth.Net.{inet_toi}
use vermouth.Prelude.Int.{ltb_ℤ}
use vermouth.Prelude.Map
use vermouth.Prelude.Map.{Map}

abbrev pub Ptr : Type 0
Ptr = Option ℕ

pub record RadixNode : Type 0 where
  pub right : Ptr
  pub left : Ptr
  pub parent : Ptr
  pub value : Str

pub record RadixTree : Type 0 where
  pub nodes : List RadixNode
  pub root : Ptr
  pub free : Ptr
  pub entries : Map Str Bool

abbrev pub no_value : Str
no_value = []

abbrev pub max_ipv4_bit : ℕ
max_ipv4_bit = 0x80000000

abbrev pub blank : RadixNode
blank = record { right = none; left = none; parent = none; value = no_value }

-- NewRadixTree
unfoldable pub new_radix_tree : RadixTree
new_radix_tree = record { nodes = blank ∷ []; root = some 0; free = none; entries = [] }

-- *p, a panic at nil
unfoldable pub load : RadixTree → Ptr → Go RadixNode
load t none = panic
load t (some p) = elim (get_elem? t.nodes p) [ none ↦ panic | some n ↦ ret n ]

-- A change of the node at p.
unfoldable pub update : RadixTree → Ptr → (RadixNode → RadixNode) → Go RadixTree
unfolding load
update t none f = panic
update t (some p) f = do n ← load t (some p); ret (record t { nodes = set t.nodes p (f n) })

-- newNode: from the free list as it stands, or from Go. A node of the free list keeps its pointers.
unfoldable pub new_node : RadixTree → Go (Ptr × RadixTree)
unfolding load
new_node t = elim t.free [
  | none ↦ ret (some (length t.nodes), record t { nodes = t.nodes ++ blank ∷ [] })
  | some p ↦ do n ← load t (some p); ret (some p, record t { free = n.right })
]

abbrev pub bit_set : ℕ → ℕ → Bool
bit_set key bit = not (bit_and key bit == 0)

-- The child that the bit of the key chooses: 1 to the right, 0 to the left.
abbrev pub child : ℕ → ℕ → RadixNode → Ptr
child key bit n = if bit_set key bit then n.right else n.left

abbrev pub with_child : ℕ → ℕ → Ptr → RadixNode → RadixNode
with_child key bit next n =
    if bit_set key bit then record n { right = next } else record n { left = next }

-- The first loop of insert, with the two pointers and the bit where it stops. Every round halves
-- the bit, which is below 2 ^ 32, so fuel of 33 rounds is enough.
unfoldable pub descend : ℕ → RadixTree → ℕ → ℕ → ℕ → Ptr → Ptr → Go (Ptr × Ptr × ℕ)
unfolding load
descend zero _ _ _ _ _ _ = block
descend (suc fuel) t key mask bit node next =
    if bit_set bit mask
    then (do
      n ← load t node
      elim (child key bit n) [
        | none ↦ ret (node, none, bit)
        | some q ↦ descend fuel t key mask (bit / 2) (some q) (some q)
      ])
    else ret (node, next, bit)

-- The second loop of insert: the missing nodes, and the last one's address.
unfoldable pub extend : ℕ → RadixTree → ℕ → ℕ → ℕ → Ptr → Go (Ptr × RadixTree)
unfolding new_node update
extend zero _ _ _ _ _ = block
extend (suc fuel) t key mask bit node =
    if bit_set bit mask
    then (do
      (next, t1) ← new_node t
      t2 ← update t1 next (λ n. record n { parent = node; value = no_value })
      t3 ← update t2 node (with_child key bit next)
      extend fuel t3 key mask (bit / 2) next)
    else ret (node, t)

abbrev pub set_value : Str → RadixNode → RadixNode
set_value value n = record n { value = value }

-- insert behind its first loop, which gives two pointers and a bit.
unfoldable pub finish : RadixTree → ℕ → ℕ → Str → Ptr × Ptr × ℕ → Go RadixTree
unfolding extend update
finish t key mask value (node, some q, bit) = update t node (set_value value)
finish t key mask value (node, none, bit) = do
  (last, t') ← extend 33 t key mask bit node
  update t' last (set_value value)

-- insert
unfoldable pub insert : RadixTree → ℕ → ℕ → Str → Go RadixTree
unfolding descend finish
insert t key mask value =
    descend 33 t key mask max_ipv4_bit t.root t.root >>= finish t key mask value

pub data AclError : Type 0 where
  invalid_ip_address : AclError
  invalid_net_mask : AclError
  bad_number : AclError
  cant_find_ip_net : AclError

-- ((1 << (32 - cidr)) - 1) ^ 0xffffffff in uint32
unfoldable pub net_mask : ℕ → ℕ
net_mask cidr = bit_xor ((2 ^ (32 - cidr) % 2 ^ 32 + (2 ^ 32 - 1)) % 2 ^ 32) 0xffffffff

-- The number behind the slash, if it is in [0, 32].
abbrev cidr_of : ℤ → Option ℕ
cidr_of (pos n) = if ltb 32 n then none else some n
cidr_of (negsuc n) = none

unfoldable pub second : List Str → Option Str
second parts = elim (rest parts) [ [] ↦ none | x ∷ xs ↦ some x ]

-- Add, from the test of the mask's number on.
unfoldable pub add_masked : RadixTree → ℕ → Str → Str → Option ℕ → Go (Option AclError × RadixTree)
unfolding insert net_mask
add_masked t key ip_net value none = ret (some invalid_net_mask, t)
add_masked t key ip_net value (some cidr) = do
  t' ← insert t key (net_mask cidr) value
  ret (none, record t' { entries = Map.put t'.entries ip_net true })

-- Add, from the parse of the mask on.
unfoldable pub add_mask : RadixTree → ℕ → Str → Str → Option Str → Go (Option AclError × RadixTree)
unfolding add_masked
add_mask t key ip_net value none = ret (some invalid_ip_address, t)
add_mask t key ip_net value (some mask) = elim (atoi mask) [
  | none ↦ ret (some bad_number, t)
  | some z ↦ add_masked t key ip_net value (cidr_of z)
]

-- Add, behind the parse of the address.
unfoldable pub add_ip : RadixTree → Str → Str → Option ℕ → Go (Option AclError × RadixTree)
unfolding add_mask
add_ip t ip_net value none = ret (some invalid_ip_address, t)
add_ip t ip_net value (some key) = add_mask t key ip_net value (second (split b'/' ip_net))

-- Add
unfoldable pub add : RadixTree → Str → Str → Go (Option AclError × RadixTree)
unfolding add_ip
add t ip_net value = inet_toi (first (split b'/' ip_net)) >>= add_ip t ip_net value

-- The loop of search: the value of the last node with one. The bit is zero after 32 rounds, and the
-- loop then follows left pointers, so a tree whose left pointers form a cycle has no end.
unfoldable pub search_from : ℕ → RadixTree → ℕ → ℕ → Ptr → Str → Go Str
unfolding load
search_from fuel t key bit none value = ret value
search_from zero t key bit (some p) value = block
search_from (suc fuel) t key bit (some p) value = do
  n ← load t (some p)
  search_from fuel t key (bit / 2) (child key bit n)
      (if n.value == no_value then value else n.value)

-- search, with fuel for a path through every node and 32 more
unfoldable pub search_key : RadixTree → ℕ → Go Str
unfolding search_from
search_key t key = search_from (length t.nodes + 33) t key max_ipv4_bit t.root no_value

-- Search: an address that is not numeric is searched as 0.
unfoldable pub search_ip : RadixTree → Str → Go Str
unfolding search_key
search_ip t ip = do i ← inet_toi ip; search_key t (elim i [ none ↦ 0 | some key ↦ key ])

-- AccessControl: the address up to the first colon is forbidden if it has a value.
unfoldable pub access_control : RadixTree → Str → Go Bool
unfolding search_ip
access_control t ip_address = do
  value ← search_ip t (first (split b':' ip_address))
  ret (not (value == []))

-- GetBlackList
unfoldable pub get_black_list : RadixTree → List Str
get_black_list t = map (λ e. e.0) t.entries
