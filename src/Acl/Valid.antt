-- ===== src/Acl/Valid.antt =====
-- acl/radix_tree.go: heaps in which every pointer points to a node.
use vermouth.Prelude.{
  ℕ, zero, suc, refl, ap, inl, inr, none, some, List, [], arith, Option-cases, length, get_elem?,
  set, length-append, get_elem?-is_some, All, All-append, All-map, Go, ret, ◌≤◌, ◌<◌, ◌≡◌, ◌∙◌, ◌∷◌,
  ◌++◌, ◌>>=◌, nat_eq, str_eq,
}
use mathlib.Core.Path.{subst}
use vermouth.Acl.{RadixTree, RadixNode, Ptr, load, update, new_node, blank, new_radix_tree}

-- A pointer is nil or the index of one of n nodes.
abbrev pub PtrIn : ℕ → Ptr → Type 0
PtrIn n none = Unit
PtrIn n (some p) = p < n

pub record NodeIn (n : ℕ) (x : RadixNode) : Type 0 where
  pub right : PtrIn n x.right
  pub left : PtrIn n x.left
  pub parent : PtrIn n x.parent

pub record IsValid (t : RadixTree) : Type 0 where
  pub nodes : All (NodeIn (length t.nodes)) t.nodes
  pub root : (r : ℕ) × (t.root ≡ some r) × (r < length t.nodes)
  pub free : PtrIn (length t.nodes) t.free

PtrIn-mono : (n m : ℕ) (p : Ptr) → n ≤ m → PtrIn n p → PtrIn m p
PtrIn-mono n m none h k = tt
PtrIn-mono n m (some p) h k = omega arith

pub NodeIn-mono : (n m : ℕ) (x : RadixNode) → n ≤ m → NodeIn n x → NodeIn m x
NodeIn-mono n m x h k = record {
  right = PtrIn-mono n m x.right h k.right;
  left = PtrIn-mono n m x.left h k.left;
  parent = PtrIn-mono n m x.parent h k.parent;
}

All-at :
    {A : Type 0} (P : A → Type 0) (xs : List A) (i : ℕ) (x : A)
    → All P xs
    → get_elem? xs i ≡ some x
    → P x
All-at P [] i x h e = cc
All-at P (y ∷ xs) zero x (p, h) e = let s : y ≡ x = cc in subst P s p
All-at P (y ∷ xs) (suc i) x (p, h) e = All-at P xs i x h e

All-set :
    {A : Type 0} (P : A → Type 0) (xs : List A) (i : ℕ) (x : A)
    → All P xs
    → P x
    → All P (set xs i x)
All-set P [] i x h p = tt
All-set P (y ∷ xs) zero x (q, h) p = (p, h)
All-set P (y ∷ xs) (suc i) x (q, h) p = (q, All-set P xs i x h p)

pub length-set : {A : Type 0} (xs : List A) (i : ℕ) (x : A) → length (set xs i x) ≡ length xs
length-set [] i x = refl
length-set (y ∷ xs) zero x = refl
length-set (y ∷ xs) (suc i) x = ap suc (length-set xs i x)

-- A load of a pointer that is in bounds gives a node whose pointers are.
pub load-ret :
    (t : RadixTree) (p : ℕ)
    → IsValid t
    → p < length t.nodes
    → (n : RadixNode) × (load t (some p) ≡ ret n) × NodeIn (length t.nodes) n
unfolding load
load-ret t p v h =
    let (n, e) = get_elem?-is_some t.nodes p h in
    (n, rw (e, load) refl, All-at (NodeIn (length t.nodes)) t.nodes p n v.nodes e)

-- An update that puts pointers in bounds keeps the heap valid, and its size.
pub update-ret :
    (t : RadixTree) (p : ℕ) (f : RadixNode → RadixNode)
    → IsValid t
    → p < length t.nodes
    → ((n : RadixNode) → NodeIn (length t.nodes) n → NodeIn (length t.nodes) (f n))
    → (t' : RadixTree) × (update t (some p) f ≡ ret t')
      × IsValid t'
      × (length t'.nodes ≡ length t.nodes)
unfolding update
update-ret t p f v h keep =
    let (n, e, i) = load-ret t p v h in
    let same = length-set t.nodes p (f n) in
    (
      record t { nodes = set t.nodes p (f n) },
      rw (e, update) refl,
      record {
        nodes = rw same (All-set (NodeIn (length t.nodes)) t.nodes p (f n) v.nodes (keep n i));
        root = rw same v.root;
        free = rw same v.free;
      },
      same,
    )

pub new-IsValid : IsValid new_radix_tree
unfolding new_radix_tree
new-IsValid = record {
  nodes = (record { right = tt; left = tt; parent = tt }, tt);
  root = (0, refl, omega arith);
  free = tt;
}

-- newNode as a function of the free list.
from_list : RadixTree → Ptr → Go (Ptr × RadixTree)
from_list t none = ret (some (length t.nodes), record t { nodes = t.nodes ++ blank ∷ [] })
from_list t (some p) = load t (some p) >>= λ n. ret (some p, record t { free = n.right })

new_node-from_list : (t : RadixTree) (f : Ptr) → t.free ≡ f → new_node t ≡ from_list t f
unfolding new_node from_list
new_node-from_list t f h = at t.free ∙ ap (from_list t) h
  where
    at :
        (g : Ptr)
        → ◌≡◌ {A = Go (Ptr × RadixTree)}
            (elim g [
              | none ↦ ret (some (length t.nodes), record t { nodes = t.nodes ++ blank ∷ [] })
              | some p ↦ (load t (some p) >>= λ n. ret (some p, record t { free = n.right }))
            ])
            (from_list t g)
    at none = refl
    at (some p) = refl

-- A new node is in bounds, and the heap is no smaller.
pub new_node-ret :
    (t : RadixTree)
    → IsValid t
    → (p : ℕ) × (t' : RadixTree) × (new_node t ≡ ret (some p, t'))
      × IsValid t'
      × (p < length t'.nodes)
      × (length t.nodes ≤ length t'.nodes)
unfolding from_list
new_node-ret t v = elim (Option-cases t.free) [
  | inl nothing ↦
      (let longer = length-append t.nodes (blank ∷ []) in
        let one : length (blank ∷ []) ≡ 1 = refl in
        (
          length t.nodes,
          record t { nodes = t.nodes ++ blank ∷ [] },
          new_node-from_list t none nothing,
          record {
            nodes =
                All-append _ t.nodes (blank ∷ [])
                  (All-map
                    (λ x h.
                      NodeIn-mono (length t.nodes) (length (t.nodes ++ blank ∷ [])) x (omega arith)
                        h)
                    t.nodes v.nodes)
                  (record { right = tt; left = tt; parent = tt }, tt);
            root = (v.root.0, v.root.1, omega (arith, v.root.2));
            free = rw nothing tt;
          },
          omega arith,
          omega arith,
        ))
  | inr (p, there) ↦
      (let inside : p < length t.nodes = rw there at v.free in
        let (n, e, i) = load-ret t p v inside in
        (
          p,
          record t { free = n.right },
          new_node-from_list t (some p) there
              ∙ ap (λ m. m >>= λ x. ret (some p, record t { free = x.right })) e,
          record { nodes = v.nodes; root = v.root; free = i.right },
          inside,
          omega arith,
        ))
]
