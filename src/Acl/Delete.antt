-- ===== src/Acl/Delete.antt =====
-- acl/radix_tree.go: Delete, which gives nodes to the free list.
use vermouth.Prelude.{
  ℕ, zero, suc, Bool, true, false, not, Option, none, some, Str, Go, ret, block, ◌/◌, ◌||◌, ◌==◌,
  if◌then◌else◌, ◌>>=◌, nat_eq, str_eq,
}
use vermouth.Golib.Strings.{split, first}
use vermouth.Golib.Strconv.{atoi}
use vermouth.Net.{inet_toi}
use vermouth.Prelude.Map
use vermouth.Acl.{
  RadixTree, RadixNode, Ptr, AclError, invalid_ip_address, invalid_net_mask, cant_find_ip_net, load,
  update, set_value, no_value, max_ipv4_bit, bit_set, child, cidr_of, second, net_mask,
}

-- The first loop of delete.
unfoldable pub locate : ℕ → RadixTree → ℕ → ℕ → ℕ → Ptr → Go Ptr
unfolding load
locate fuel t key mask bit none = ret none
locate zero t key mask bit (some p) = block
locate (suc fuel) t key mask bit (some p) =
    if bit_set bit mask
    then (do n ← load t (some p); locate fuel t key mask (bit / 2) (child key bit n))
    else ret (some p)

abbrev pub ptr_beq : Ptr → Ptr → Bool
ptr_beq none none = true
ptr_beq none (some q) = false
ptr_beq (some p) none = false
ptr_beq (some p) (some q) = p == q

abbrev unlink : Ptr → RadixNode → RadixNode
unlink node n = if ptr_beq n.right node then record n { right = none } else record n { left = none }

abbrev is_nil : Ptr → Bool
is_nil none = true
is_nil (some p) = false

abbrev has_child : RadixNode → Bool
has_child n = not (is_nil n.right) || not (is_nil n.left)

-- The last loop of delete: the leaf goes to the free list, and so do its ancestors while they have
-- no child, no value and a parent.
unfoldable pub prune : ℕ → RadixTree → Ptr → Go RadixTree
unfolding load update
prune zero _ _ = block
prune (suc fuel) t node = do
  n ← load t node
  t1 ← update t n.parent (unlink node)
  t2 ← update t1 node (λ m. record m { right = t1.free })
  let t3 : RadixTree = record t2 { free = node }
  up ← load t3 n.parent
  if has_child up || not (up.value == no_value) || is_nil up.parent
      then ret t3
      else prune fuel t3 n.parent

-- delete: whether the network was there
unfoldable pub delete : RadixTree → ℕ → ℕ → Go (Bool × RadixTree)
unfolding locate prune load update
delete t key mask = do
  node ← locate 33 t key mask max_ipv4_bit t.root
  elim node [
    | none ↦ ret (false, t)
    | some p ↦ do
      n ← load t (some p)
      if has_child n
          then (if n.value == no_value
              then ret (false, t)
              else (update t (some p) (set_value no_value) >>= λ t'. ret (true, t')))
          else (prune 33 t (some p) >>= λ t'. ret (true, t'))
  ]

-- Delete
unfoldable pub delete_net : RadixTree → Str → Go (Option AclError × RadixTree)
unfolding delete net_mask
delete_net t ip_net = do
  ip ← inet_toi (first (split b'/' ip_net))
  elim ip [
    | none ↦ ret (some invalid_ip_address, t)
    | some key ↦ elim (second (split b'/' ip_net)) [
      | none ↦ ret (some invalid_ip_address, t)
      | some mask ↦ elim (atoi mask) [
        | none ↦ ret (some invalid_net_mask, t)
        | some z ↦ elim (cidr_of z) [
          | none ↦ ret (some invalid_net_mask, t)
          | some cidr ↦ do
            (gone, t') ← delete t key (net_mask cidr)
            if gone
                then ret (none, record t' { entries = Map.remove t'.entries ip_net })
                else ret (some cant_find_ip_net, t')
        ]
      ]
    ]
  ]
