-- ===== src/Acl/Insert.antt =====
-- acl/radix_tree.go: insert and Add on heaps whose pointers all point to nodes.
use vermouth.Prelude.{
  ℕ, zero, suc, refl, sym, ap, inl, inr, Bool, true, Option, none, some, [], arith, Bool-cases,
  Option-cases, Str, length, Go, ret, ◌/◌, ◌^◌, ◌≤◌, ◌<◌, ◌≡◌, ◌∙◌, ◌>>=◌, nat_eq, str_eq,
}
use vermouth.Acl.{
  RadixTree, RadixNode, Ptr, AclError, invalid_ip_address, bad_number, invalid_net_mask, update,
  descend, extend, finish, insert, add, add_ip, add_mask, add_masked, bit_set, child, with_child,
  set_value, max_ipv4_bit, net_mask, cidr_of,
}
use vermouth.Acl.Valid.{PtrIn, NodeIn, IsValid, load-ret, update-ret, new_node-ret}
use vermouth.Golib.Strings.{split, first}
use vermouth.Golib.Strconv.{atoi}
use vermouth.Net.Laws.{inet_toi-ret}
use vermouth.Prelude.Map
use vermouth.Prelude.Map.{Map}
use vermouth.Acl.Bits.{no_bit, halved}
use mathlib.Core.Path.{subst}

child-PtrIn : (m key bit : ℕ) (n : RadixNode) → NodeIn m n → PtrIn m (child key bit n)
child-PtrIn m key bit n h = elim (Bool-cases (bit_set key bit)) [
  | inl right ↦ rw right h.right
  | inr left ↦ rw left h.left
]

with_child-NodeIn :
    (m key bit : ℕ) (p : Ptr) (n : RadixNode)
    → PtrIn m p
    → NodeIn m n
    → NodeIn m (with_child key bit p n)
with_child-NodeIn m key bit p n i h = elim (Bool-cases (bit_set key bit)) [
  | inl right ↦ rw right (record { right = i; left = h.left; parent = h.parent })
  | inr left ↦ rw left (record { right = h.right; left = i; parent = h.parent })
]

-- Where the first loop of insert stops: at a node, at a bit that is not above the first.
abbrev Stops : RadixTree → ℕ → Go (Ptr × Ptr × ℕ) → Type 0
Stops t bit m =
    (p : ℕ) × (next : Ptr) × (b : ℕ) × (m ≡ ret (some p, next, b))
    × (p < length t.nodes)
    × (b ≤ bit)

descend-Stops :
    (k : ℕ) (t : RadixTree) (key mask bit p : ℕ) (next : Ptr)
    → IsValid t
    → bit < 2 ^ k
    → p < length t.nodes
    → Stops t bit (descend (suc k) t key mask bit (some p) next)
unfolding descend
descend-Stops zero t key mask bit p next v h i =
    rw (no_bit bit mask h, descend) (p, next, bit, refl, i, omega arith)
descend-Stops (suc k) t key mask bit p next v h i = elim (Bool-cases (bit_set bit mask)) [
  | inr past ↦ rw (past, descend) (p, next, bit, refl, i, omega arith)
  | inl within ↦
      (let (n, e, inside) = load-ret t p v i in
        rw (within, descend, e)
          (below (λ q j. descend-Stops k t key mask (bit / 2) q (some q) v (halved k bit h) j)
            (child key bit n) (child-PtrIn (length t.nodes) key bit n inside)))
]
  where
    below :
        ((q : ℕ)
          → q < length t.nodes
          → Stops t (bit / 2) (descend (suc k) t key mask (bit / 2) (some q) (some q)))
        → (c : Ptr) → PtrIn (length t.nodes) c
        → Stops t bit (elim c [
          | none ↦ ret (some p, none, bit)
          | some q ↦ descend (suc k) t key mask (bit / 2) (some q) (some q)
        ])
    below deeper none j = (p, none, bit, refl, i, omega arith)
    below deeper (some q) j =
        let (r, x, b, e, inside, le) = deeper q j in (r, x, b, e, inside, omega arith)

-- The second loop returns a node of a valid heap.
extend-ret :
    (k : ℕ) (t : RadixTree) (key mask bit p : ℕ)
    → IsValid t
    → bit < 2 ^ k
    → p < length t.nodes
    → (q : ℕ) × (t' : RadixTree) × (extend (suc k) t key mask bit (some p) ≡ ret (some q, t'))
      × IsValid t'
      × (q < length t'.nodes)
unfolding extend
extend-ret zero t key mask bit p v h i = rw (no_bit bit mask h, extend) (p, t, refl, v, i)
extend-ret (suc k) t key mask bit p v h i = elim (Bool-cases (bit_set bit mask)) [
  | inr past ↦ rw (past, extend) (p, t, refl, v, i)
  | inl within ↦
      (let (q, t1, made, v1, j, le) = new_node-ret t v in
        let (t2, e2, v2, l2) =
          update-ret t1 q (λ n. record n { parent = some p; value = [] }) v1 j
            (λ n g. record { right = g.right; left = g.left; parent = omega arith }) in
        let (t3, e3, v3, l3) =
          update-ret t2 p (with_child key bit (some q)) v2 (omega arith)
            (λ n g. with_child-NodeIn (length t2.nodes) key bit (some q) n (omega arith) g) in
        let rest = extend-ret k t3 key mask (bit / 2) q v3 (halved k bit h) (omega arith) in
        rw (within, extend, made, e2, e3) rest)
]

finish-IsValid :
    (t : RadixTree) (key mask : ℕ) (value : Str) (p : ℕ) (next : Ptr) (b : ℕ)
    → IsValid t
    → p < length t.nodes
    → b < 2 ^ 32
    → (t' : RadixTree) × (finish t key mask value (some p, next, b) ≡ ret t') × IsValid t'
unfolding finish
finish-IsValid t key mask value p (some q) b v j h =
    let (t', e, w, _) =
      update-ret t p (set_value value) v j
        (λ n g. record { right = g.right; left = g.left; parent = g.parent }) in
    (t', e, w)
finish-IsValid t key mask value p none b v j h =
    let (q, t1, e1, w1, i1) = extend-ret 32 t key mask b p v h j in
    let (t', e, w, _) =
      update-ret t1 q (set_value value) w1 i1
        (λ n g. record { right = g.right; left = g.left; parent = g.parent }) in
    (t', ap (λ m. m >>= λ made. update made.1 made.0 (set_value value)) e1 ∙ e, w)

-- On a valid heap insert returns, and the heap that it returns is valid: no nil pointer is followed,
-- and neither loop goes on for ever.
pub insert-IsValid :
    (t : RadixTree) (key mask : ℕ) (value : Str)
    → IsValid t
    → (t' : RadixTree) × (insert t key mask value ≡ ret t') × IsValid t'
unfolding insert
insert-IsValid t key mask value v =
    let (r, is, i) = v.root in
    let (p, next, b, e, j, le) =
      descend-Stops 32 t key mask max_ipv4_bit r (some r) v (ground arith) i in
    let e' : descend 33 t key mask max_ipv4_bit t.root t.root ≡ ret (some p, next, b) =
      subst (λ q. descend 33 t key mask max_ipv4_bit q q ≡ ret (some p, next, b)) (sym is) e in
    let (t', ran, w) = finish-IsValid t key mask value p next b v j (omega arith) in
    (t', ap (λ m. m >>= finish t key mask value) e' ∙ ran, w)

entries-IsValid :
    (t : RadixTree) (m : Map Str Bool) → IsValid t → IsValid (record t { entries = m })
entries-IsValid t m v = record { nodes = v.nodes; root = v.root; free = v.free }

-- What an operation that changes the tree returns on a valid heap.
abbrev pub Returns : Go (Option AclError × RadixTree) → Type 0
Returns m = (e : Option AclError) × (t' : RadixTree) × (m ≡ ret (e, t')) × IsValid t'

add_masked-Returns :
    (t : RadixTree) (key : ℕ) (ip_net value : Str) (c : Option ℕ)
    → IsValid t
    → Returns (add_masked t key ip_net value c)
unfolding add_masked
add_masked-Returns t key ip_net value none v = (some invalid_net_mask, t, refl, v)
add_masked-Returns t key ip_net value (some cidr) v =
    let (t', ran, w) = insert-IsValid t key (net_mask cidr) value v in
    (
      none,
      record t' { entries = Map.put t'.entries ip_net true },
      ap (λ m. m >>= λ x. ret (none, record x { entries = Map.put x.entries ip_net true })) ran,
      entries-IsValid t' _ w,
    )

add_mask-Returns :
    (t : RadixTree) (key : ℕ) (ip_net value : Str) (mask : Option Str)
    → IsValid t
    → Returns (add_mask t key ip_net value mask)
unfolding add_mask
add_mask-Returns t key ip_net value none v = (some invalid_ip_address, t, refl, v)
add_mask-Returns t key ip_net value (some mask) v = elim (Option-cases (atoi mask)) [
  | inl no_number ↦ rw (no_number, add_mask) (some bad_number, t, refl, v)
  | inr (z, number) ↦
      (let (e, t', ran, w) = add_masked-Returns t key ip_net value (cidr_of z) v in
        rw (number, add_mask) (e, t', ran, w))
]

add_ip-Returns :
    (t : RadixTree) (ip_net value : Str) (ip : Option ℕ)
    → IsValid t
    → Returns (add_ip t ip_net value ip)
unfolding add_ip
add_ip-Returns t ip_net value none v = (some invalid_ip_address, t, refl, v)
add_ip-Returns t ip_net value (some key) v = add_mask-Returns t key ip_net value _ v

-- Add of a network whose address has at most four parts returns on a valid heap, with an error or
-- without, and the heap that it returns is valid.
pub add-Returns :
    (t : RadixTree) (ip_net value : Str)
    → IsValid t
    → length (split b'.' (first (split b'/' ip_net))) ≤ 4
    → Returns (add t ip_net value)
unfolding add
add-Returns t ip_net value v short =
    let (ip, e0) = inet_toi-ret (first (split b'/' ip_net)) short in
    let (e, t', ran, w) = add_ip-Returns t ip_net value ip v in
    (e, t', ap (λ m. m >>= add_ip t ip_net value) e0 ∙ ran, w)
