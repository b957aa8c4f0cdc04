-- ===== src/Acl/Growth.antt =====
-- acl/radix_tree.go: one round of the second loop of insert, which puts a node below another.
use mathlib.Core.Path.{subst}
use vermouth.Acl.{RadixTree, RadixNode, Ptr, blank}
use vermouth.Acl.Trails.{Trail, trail_beq_iff, trail_eq, index_of, index_of-append, index_of-bound}
use vermouth.Acl.Represents.{
  NodeAt, Represents, get-set_self, get-set_other, get-append_left, get-append_last, other_NodeAt,
  index_of-apart,
}
use vermouth.Acl.Valid.{length-set}
use vermouth.Prelude.{
  ℕ, refl, sym, ap, inl, inr, Bool, true, false, none, some, List, [], arith, Bool-cases,
  Option-cases, Str, beq_refl, length, set, length-append, ◌+◌, ◌≤◌, ◌<◌, ◌≡◌, ◌∙◌, ◌≢◌, ◌⊎◌, ◌∷◌,
  ◌++◌, ◌==◌, if◌then◌else◌, nat_eq, str_eq,
}

pub set-append_last :
    {A : Type 0} (xs : List A) (y z : A) → set (xs ++ y ∷ []) (length xs) z ≡ xs ++ z ∷ []
set-append_last [] y z = refl
set-append_last (x ∷ xs) y z = ap (λ ys. x ∷ ys) (set-append_last xs y z)

abbrev pub fresh : Ptr → RadixNode
fresh parent = record blank { parent = parent }

-- with_child, for the bit itself
abbrev pub with_bit : Bool → Ptr → RadixNode → RadixNode
with_bit b next n = if b then record n { right = next } else record n { left = next }

-- The tree with a new node below the node n at i.
abbrev pub grown : RadixTree → ℕ → Bool → RadixNode → RadixTree
grown t i b n = record t {
  nodes = set (t.nodes ++ fresh (some i) ∷ []) i (with_bit b (some (length t.nodes)) n);
}

-- The trails with another one behind them.
pub old_index :
    (ps : List Trail) (p r : Trail) (j : ℕ)
    → index_of ps r ≡ some j
    → index_of (ps ++ p ∷ []) r ≡ some j
old_index ps p r j h = rw (index_of-append ps p r, h) refl

pub new_index :
    (ps : List Trail) (p : Trail)
    → index_of ps p ≡ none
    → index_of (ps ++ p ∷ []) p ≡ some (length ps)
new_index ps p h = rw (index_of-append ps p p, h, beq_refl p) refl

pub kept_index : (ps : List Trail) (p r : Trail) → p ≢ r → index_of (ps ++ p ∷ []) r ≡ index_of ps r
kept_index ps p r h = ground (arith, index_of-append ps p r, trail_beq_iff p r)

pub longer_trail : (c : Bool) (p : Trail) → p ≢ c ∷ p
longer_trail c p h = let e = ap length h in omega (arith, e)

other_sibling : (b c : Bool) (p r : Trail) → b ≢ c → b ∷ p ≢ c ∷ r
other_sibling b c p r h e = h cc

longer : (t : RadixTree) (i : ℕ) → i < length t.nodes → i < length (t.nodes ++ fresh (some i) ∷ [])
longer t i h = omega (arith, length-append t.nodes (fresh (some i) ∷ []))

-- The children of the node that the new one is put below.
parent_NodeAt :
    (t : RadixTree) (ps : List Trail) (value : Trail → Str) (p : Trail) (i : ℕ) (b : Bool)
    → length t.nodes ≡ length ps
    → i < length t.nodes
    → index_of ps (b ∷ p) ≡ none
    → (x : NodeAt t ps value p i) → NodeAt (grown t i b x.node) (ps ++ (b ∷ p) ∷ []) value p i
parent_NodeAt t ps value p i true size inside missing x = record {
  node = record x.node { right = some (length t.nodes) };
  stands = get-set_self (t.nodes ++ fresh (some i) ∷ []) i _ (longer t i inside);
  valued = x.valued;
  left =
      x.left ∙ sym (kept_index ps (true ∷ p) (false ∷ p) (other_sibling true false p p (λ f. cc)));
  right = ap some size ∙ sym (new_index ps (true ∷ p) missing);
}
parent_NodeAt t ps value p i false size inside missing x = record {
  node = record x.node { left = some (length t.nodes) };
  stands = get-set_self (t.nodes ++ fresh (some i) ∷ []) i _ (longer t i inside);
  valued = x.valued;
  left = ap some size ∙ sym (new_index ps (false ∷ p) missing);
  right =
      x.right ∙ sym (kept_index ps (false ∷ p) (true ∷ p) (other_sibling false true p p (λ f. cc)));
}

fresh_NodeAt :
    (t : RadixTree) (ps : List Trail) (value : Trail → Str) (i : ℕ) (b : Bool) (n : RadixNode)
    (q : Trail)
    → Represents t ps value
    → index_of ps q ≡ none
    → i < length t.nodes
    → NodeAt (grown t i b n) (ps ++ q ∷ []) value q (length ps)
fresh_NodeAt t ps value i b n q rep missing inside = record {
  node = fresh (some i);
  stands = rw⁻¹ rep.size (
      get-set_other (t.nodes ++ fresh (some i) ∷ []) i (length t.nodes) _ (λ e. omega (arith, e))
      ∙ get-append_last t.nodes (fresh (some i)));
  valued = sym (rep.outside q missing);
  left = sym (kept_index ps q (false ∷ q) (longer_trail false q) ∙ rep.closed false q missing);
  right = sym (kept_index ps q (true ∷ q) (longer_trail true q) ∙ rep.closed true q missing);
}

-- Any other node.
rest_NodeAt :
    (t : RadixTree) (ps : List Trail) (value : Trail → Str) (p : Trail) (i : ℕ) (b : Bool)
    (n : RadixNode) (r : Trail) (j : ℕ)
    → Represents t ps value
    → index_of ps p ≡ some i
    → index_of ps r ≡ some j
    → p ≢ r
    → NodeAt (grown t i b n) (ps ++ (b ∷ p) ∷ []) value r j
rest_NodeAt t ps value p i b n r j rep e f apart =
    let inside : j < length t.nodes = rw rep.size (index_of-bound ps r j f) in
    other_NodeAt t _ ps _ value value r j
      (get-set_other (t.nodes ++ fresh (some i) ∷ []) i j _ (index_of-apart ps p r i j e f apart)
        ∙ get-append_left t.nodes _ j inside)
      refl (λ c. kept_index ps (b ∷ p) (c ∷ r) (λ h. apart cc)) (rep.at r j f)

-- Which trails the longer list has.
index_of-cases :
    (ps : List Trail) (q r : Trail) (j : ℕ)
    → index_of (ps ++ q ∷ []) r ≡ some j
    → (index_of ps r ≡ some j) ⊎ ((index_of ps r ≡ none) × (q ≡ r) × (j ≡ length ps))
index_of-cases ps q r j h = elim (Option-cases (index_of ps r)) [
  | inr (k, old) ↦ (let e = old_index ps q r k old in let f : k ≡ j = cc in inl (old ∙ ap some f))
  | inl new ↦ elim (Bool-cases (q == r)) [
    | inl same ↦
        (let e = (trail_beq_iff q r).0 same in
          let f = new_index ps q (ap (index_of ps) e ∙ new) in
          let g = ap (index_of (ps ++ q ∷ [])) e in inr (new, e, cc))
    | inr apart ↦ (let e = kept_index ps q r (λ f. (let g = (trail_beq_iff q r).1 f in cc)) in cc)
  ]
]

index_of-none :
    (ps : List Trail) (q r : Trail)
    → index_of (ps ++ q ∷ []) r ≡ none
    → (index_of ps r ≡ none) × (q ≢ r)
index_of-none ps q r h = elim (Option-cases (index_of ps r)) [
  | inr (k, old) ↦ (let e = old_index ps q r k old in absurd cc)
  | inl new ↦ (
    new,
    λ e.
        (let f = new_index ps q (ap (index_of ps) e ∙ new) in
          let g = ap (index_of (ps ++ q ∷ [])) e in cc),
  )
]

pub grow-Represents :
    (t : RadixTree) (ps : List Trail) (value : Trail → Str) (p : Trail) (i : ℕ) (b : Bool)
    → Represents t ps value
    → (e : index_of ps p ≡ some i) → index_of ps (b ∷ p) ≡ none
    → length p < 32
    → (x : NodeAt t ps value p i) → Represents (grown t i b x.node) (ps ++ (b ∷ p) ∷ []) value
grow-Represents t ps value p i b rep e missing deep x =
    let inside : i < length t.nodes = rw rep.size (index_of-bound ps p i e) in
    record {
      root = rep.root;
      free = rep.free;
      size =
          length-set (t.nodes ++ fresh (some i) ∷ []) i _
          ∙ length-append t.nodes _
          ∙ ap (λ m. m + 1) rep.size
          ∙ sym (length-append ps _);
      first = old_index ps (b ∷ p) [] 0 rep.first;
      closed = λ c r h.
          let (old, apart) = index_of-none ps (b ∷ p) r h in
          kept_index ps (b ∷ p) (c ∷ r)
            (λ f. (let g : p ≡ r = cc in let k = ap (index_of ps) g in cc))
          ∙ rep.closed c r old;
      shallow = λ r j h. elim (index_of-cases ps (b ∷ p) r j h) [
        | inl old ↦ rep.shallow r j old
        | inr (_, same, _) ↦ subst (λ r. length r ≤ 32) same (omega (arith, deep))
      ];
      outside = λ r h. (let (old, _) = index_of-none ps (b ∷ p) r h in rep.outside r old);
      at = λ r j h. elim (index_of-cases ps (b ∷ p) r j h) [
        | inr (_, same, last) ↦
            (let q : NodeAt (grown t i b x.node) (ps ++ (b ∷ p) ∷ []) value (b ∷ p) (length ps) =
                fresh_NodeAt t ps value i b x.node (b ∷ p) rep missing inside in
              subst (λ r. NodeAt (grown t i b x.node) (ps ++ (b ∷ p) ∷ []) value r j) same
                (subst (λ j. NodeAt (grown t i b x.node) (ps ++ (b ∷ p) ∷ []) value (b ∷ p) j)
                  (sym last) q))
        | inl old ↦ elim (Bool-cases (p == r)) [
          | inr apart ↦
              rest_NodeAt t ps value p i b x.node r j rep e old
                (λ f. (let g = (trail_beq_iff p r).1 f in cc))
          | inl eq ↦
              (let same = (trail_beq_iff p r).0 eq in
                let k : i ≡ j = (let g = ap (index_of ps) same in cc) in
                subst (λ r. NodeAt (grown t i b x.node) (ps ++ (b ∷ p) ∷ []) value r j) same
                  (subst (λ j. NodeAt (grown t i b x.node) (ps ++ (b ∷ p) ∷ []) value p j) k
                    (parent_NodeAt t ps value p i b rep.size inside missing x)))
        ]
      ];
    }
