-- ===== src/Acl/Walk.antt =====
-- acl/radix_tree.go: the two loops of insert on a tree that stands for values at trails.
use mathlib.Core.Path.{subst}
use vermouth.Acl.Masks.{net_mask-bit}
use vermouth.Acl.Trails.{length-path, index_of-bound, bit_at, path, index_of, Trail}
use vermouth.Prelude.{
  ℕ, zero, suc, refl, sym, ap, inl, inr, true, false, none, some, List, [], arith, Bool-cases, Str,
  length, get_elem?, set, Go, ret, ◌+◌, ◌-◌, ◌≤◌, ◌<◌, ◌≡◌, ◌∙◌, ◌⊎◌, ◌∷◌, ◌++◌, ◌>>=◌, nat_eq,
  str_eq,
}
use vermouth.Acl.{
  set_value, max_ipv4_bit, finish, insert, child, descend, net_mask, Ptr, extend, RadixTree,
  RadixNode, load, update, new_node, blank, no_value, bit_set, with_child,
}
use vermouth.Acl.Represents.{
  set_value-Represents, put, get-append_left, NodeAt, Represents, get-append_last,
}
use vermouth.Acl.Growth.{
  longer_trail, kept_index, new_index, grow-Represents, grown, fresh, set-append_last,
}

-- The three changes of a round of the second loop.
made :
    (t : RadixTree)
    → t.free ≡ none
    → new_node t ≡ ret (some (length t.nodes), record t { nodes = t.nodes ++ blank ∷ [] })
unfolding new_node
made t h = rw h refl

linked :
    (t : RadixTree) (i : ℕ)
    → update
        (record t { nodes = t.nodes ++ blank ∷ [] })
        (some (length t.nodes))
        (λ n. record n { parent = some i; value = no_value })
      ≡ ret (record t { nodes = t.nodes ++ fresh (some i) ∷ [] })
unfolding update
linked t i =
    rw (get-append_last t.nodes blank, load, update, set-append_last t.nodes blank (fresh (some i)))
      refl

hung :
    (t : RadixTree) (i key bit : ℕ) (n : RadixNode)
    → get_elem? (t.nodes ++ fresh (some i) ∷ []) i ≡ some n
    → update
        (record t { nodes = t.nodes ++ fresh (some i) ∷ [] })
        (some i)
        (with_child key bit (some (length t.nodes)))
      ≡ ret (grown t i (bit_set key bit) n)
unfolding update
hung t i key bit n h = rw (h, load, update) refl

-- Where the second loop ends: at the last node of the key's network, in a tree with the same values.
abbrev pub Extends : ℕ → ℕ → (Trail → Str) → Go (Ptr × RadixTree) → Type 0
Extends key c value m =
    (q : ℕ) × (t' : RadixTree) × (ps : List Trail) × (m ≡ ret (some q, t'))
    × Represents t' ps value
    × (index_of ps (path c key) ≡ some q)

extend-Extends :
    (k fuel j c key i : ℕ) (t : RadixTree) (ps : List Trail) (value : Trail → Str)
    → k < fuel
    → j + k ≡ c
    → c ≤ 32
    → Represents t ps value
    → index_of ps (path j key) ≡ some i
    → index_of ps (path (suc j) key) ≡ none
    → Extends key c value (extend fuel t key (net_mask c) (bit_at j) (some i))
unfolding extend path
extend-Extends k zero j c key i t ps value f s h rep e missing = elim f [ ]
extend-Extends zero (suc fuel) j c key i t ps value f s h rep e missing =
    let past : bit_set (bit_at j) (net_mask c) ≡ false =
      rw (net_mask-bit j c (omega arith) h) (ground arith) in
    let same : j ≡ c = omega arith in rw (past, extend) (i, t, ps, refl, rep, rw⁻¹ same e)
extend-Extends (suc k) (suc fuel) j c key i t ps value f s h rep e missing =
    let within : bit_set (bit_at j) (net_mask c) ≡ true =
      rw (net_mask-bit j c (omega arith) h) (ground arith) in
    let x = rep.at (path j key) i e in
    let b = bit_set key (bit_at j) in
    let inside : i < length t.nodes = rw rep.size (index_of-bound ps (path j key) i e) in
    let run = hung t i key (bit_at j) x.node (get-append_left t.nodes _ i inside ∙ x.stands) in
    let deep : length (path j key) < 32 = rw (length-path j key) (omega arith) in
    let rest =
      extend-Extends k fuel (suc j) c key (length t.nodes) (grown t i b x.node)
        (ps ++ (b ∷ path j key) ∷ []) value (omega arith) (omega arith) h
        (grow-Represents t ps value (path j key) i b rep e missing deep x)
        (new_index ps (b ∷ path j key) missing ∙ ap some (sym rep.size))
        (kept_index ps (b ∷ path j key) _ (longer_trail _ (b ∷ path j key))
          ∙ rep.closed _ (b ∷ path j key) missing) in
    rw (within, extend, made t rep.free, linked t i, run) rest

-- The child that a bit chooses.
pub child-index :
    (t : RadixTree) (ps : List Trail) (value : Trail → Str) (p : Trail) (i : ℕ)
    → (x : NodeAt t ps value p i) → (key bit : ℕ)
    → child key bit x.node ≡ index_of ps (bit_set key bit ∷ p)
child-index t ps value p i x key bit = elim (Bool-cases (bit_set key bit)) [
  | inl right ↦ rw right x.right
  | inr left ↦ rw left x.left
]

-- Where the first loop ends: at the last node of the network, or at the last one that is there.
abbrev pub Reaches : ℕ → ℕ → List Trail → Go (Ptr × Ptr × ℕ) → Type 0
Reaches key c ps m =
    (q : ℕ) × (next : Ptr) × (l : ℕ) × (m ≡ ret (some q, next, bit_at l))
    × (index_of ps (path l key) ≡ some q)
    × (l ≤ c)
    × (((next ≡ some q) × (l ≡ c)) ⊎ ((next ≡ none) × (index_of ps (path (suc l) key) ≡ none)))

descend-Reaches :
    (k fuel j c key i : ℕ) (t : RadixTree) (ps : List Trail) (value : Trail → Str)
    → k < fuel
    → j + k ≡ c
    → c ≤ 32
    → Represents t ps value
    → index_of ps (path j key) ≡ some i
    → Reaches key c ps (descend fuel t key (net_mask c) (bit_at j) (some i) (some i))
unfolding descend path
descend-Reaches k zero j c key i t ps value f s h rep e = elim f [ ]
descend-Reaches zero (suc fuel) j c key i t ps value f s h rep e =
    let past : bit_set (bit_at j) (net_mask c) ≡ false =
      rw (net_mask-bit j c (omega arith) h) (ground arith) in
    rw (past, descend) (i, some i, j, refl, e, omega arith, inl (refl, omega arith))
descend-Reaches (suc k) (suc fuel) j c key i t ps value f s h rep e =
    let within : bit_set (bit_at j) (net_mask c) ≡ true =
      rw (net_mask-bit j c (omega arith) h) (ground arith) in
    let x = rep.at (path j key) i e in
    rw (within, descend, load, x.stands)
      (below
        (λ q there.
          descend-Reaches k fuel (suc j) c key q t ps value (omega arith) (omega arith) h rep there)
        (child key (bit_at j) x.node) (child-index t ps value (path j key) i x key (bit_at j)))
  where
    below :
        ((q : ℕ)
          → index_of ps (path (suc j) key) ≡ some q
          → Reaches key c ps (descend fuel t key (net_mask c) (bit_at (suc j)) (some q) (some q)))
        → (o : Ptr) → o ≡ index_of ps (path (suc j) key)
        → Reaches key c ps (elim o [
          | none ↦ ret (some i, none, bit_at j)
          | some q ↦ descend fuel t key (net_mask c) (bit_at (suc j)) (some q) (some q)
        ])
    below deeper none o = (i, none, j, refl, e, omega arith, inr (refl, sym o))
    below deeper (some q) o = deeper q (sym o)

-- What insert makes of a tree.
abbrev pub Inserts : ℕ → ℕ → Str → (Trail → Str) → Go RadixTree → Type 0
Inserts key c v value m =
    (t' : RadixTree) × (qs : List Trail) × (m ≡ ret t')
    × Represents t' qs (put value (path c key) v)

finish-Inserts :
    (t : RadixTree) (ps : List Trail) (value : Trail → Str) (key c l q : ℕ) (v : Str) (next : Ptr)
    → Represents t ps value
    → c ≤ 32
    → l ≤ c
    → index_of ps (path l key) ≡ some q
    → ((next ≡ some q) × (l ≡ c)) ⊎ ((next ≡ none) × (index_of ps (path (suc l) key) ≡ none))
    → Inserts key c v value (finish t key (net_mask c) v (some q, next, bit_at l))
unfolding finish
finish-Inserts t ps value key c l q v next rep h le there (inl (found, last)) =
    let (t', ran, after) = set_value-Represents t ps value (path c key) q v rep (rw⁻¹ last there) in
    rw found (t', ps, ran, after)
finish-Inserts t ps value key c l q v next rep h le there (inr (gone, missing)) =
    let (r, t1, qs, ran, rep1, last) =
      extend-Extends (c - l) 33 l c key q t ps value (omega arith) (omega arith) h rep there
        missing in
    let (t', set, after) = set_value-Represents t1 qs value (path c key) r v rep1 last in
    rw gone (t', qs, ap (λ m. m >>= λ made. update made.1 made.0 (set_value v)) ran ∙ set, after)

-- insert puts the value at the trail of the network, and keeps every other value.
pub insert-Inserts :
    (t : RadixTree) (ps : List Trail) (value : Trail → Str) (key c : ℕ) (v : Str)
    → Represents t ps value
    → c ≤ 32
    → Inserts key c v value (insert t key (net_mask c) v)
unfolding insert bit_at path
insert-Inserts t ps value key c v rep h =
    let (q, next, l, went, there, le, stop) =
      descend-Reaches c 33 0 c key 0 t ps value (omega arith) (omega arith) h rep rep.first in
    let from_root : descend 33 t key (net_mask c) max_ipv4_bit t.root t.root
        ≡ ret (some q, next, bit_at l) =
      subst (λ r. descend 33 t key (net_mask c) max_ipv4_bit r r ≡ ret (some q, next, bit_at l))
        (sym rep.root) went in
    let (t', qs, ran, after) = finish-Inserts t ps value key c l q v next rep h le there stop in
    (t', qs, ap (λ m. m >>= finish t key (net_mask c) v) from_root ∙ ran, after)
