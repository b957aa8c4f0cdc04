-- ===== src/Acl/Represents.antt =====
-- acl/radix_tree.go: what a tree that no network was deleted from stands for, a value at every trail,
-- and what the steps of insert do to it.
use mathlib.Core.Path.{subst}
use vermouth.Prelude.{
  ℕ, zero, suc, refl, sym, ap, inl, inr, Bool, true, false, none, some, List, [], arith, Bool-cases,
  Str, beq_refl, length, get_elem?, set, ret, ◌≤◌, ◌<◌, ◌≡◌, ◌∙◌, ◌≢◌, ◌∷◌, ◌++◌, ◌==◌,
  if◌then◌else◌, nat_eq, str_eq,
}
use vermouth.Acl.{RadixTree, RadixNode, load, update, blank, new_radix_tree, set_value}
use vermouth.Acl.Trails.{
  Trail, trail_beq, trail_beq_iff, trail_eq, index_of, index_of_unique, index_of-bound,
}
use vermouth.Acl.Valid.{length-set}

-- The node at the trail p.
pub record NodeAt (t : RadixTree) (ps : List Trail) (value : Trail → Str) (p : Trail) (i : ℕ)
    : Type 0 where
  pub node : RadixNode
  pub stands : get_elem? t.nodes i ≡ some node
  pub valued : node.value ≡ value p
  pub left : node.left ≡ index_of ps (false ∷ p)
  pub right : node.right ≡ index_of ps (true ∷ p)

-- The nodes stand at the trails of the list, the first of which is the root's; every trail's
-- beginning is there too, none is longer than an address, and where there is no node, no value is.
pub record Represents (t : RadixTree) (ps : List Trail) (value : Trail → Str) : Type 0 where
  pub root : t.root ≡ some 0
  pub free : t.free ≡ none
  pub size : length t.nodes ≡ length ps
  pub first : index_of ps [] ≡ some 0
  pub closed : (b : Bool) (p : Trail) → index_of ps p ≡ none → index_of ps (b ∷ p) ≡ none
  pub shallow : (p : Trail) (i : ℕ) → index_of ps p ≡ some i → length p ≤ 32
  pub outside : (p : Trail) → index_of ps p ≡ none → value p ≡ []
  pub at : (p : Trail) (i : ℕ) → index_of ps p ≡ some i → NodeAt t ps value p i

pub get-set_self :
    {A : Type 0} (xs : List A) (i : ℕ) (x : A) → i < length xs → get_elem? (set xs i x) i ≡ some x
get-set_self [] i x h = elim h [ ]
get-set_self (y ∷ xs) zero x h = refl
get-set_self (y ∷ xs) (suc i) x h = get-set_self xs i x (omega arith)

pub get-set_other :
    {A : Type 0} (xs : List A) (i j : ℕ) (x : A) → i ≢ j → get_elem? (set xs i x) j ≡ get_elem? xs j
get-set_other [] i j x h = refl
get-set_other (y ∷ xs) zero zero x h = absurd (h refl)
get-set_other (y ∷ xs) zero (suc j) x h = refl
get-set_other (y ∷ xs) (suc i) zero x h = refl
get-set_other (y ∷ xs) (suc i) (suc j) x h = get-set_other xs i j x (λ e. h (ap suc e))

pub get-append_left :
    {A : Type 0} (xs ys : List A) (i : ℕ) → i < length xs → get_elem? (xs ++ ys) i ≡ get_elem? xs i
get-append_left [] ys i h = elim h [ ]
get-append_left (x ∷ xs) ys zero h = refl
get-append_left (x ∷ xs) ys (suc i) h = get-append_left xs ys i (omega arith)

pub get-append_last :
    {A : Type 0} (xs : List A) (y : A) → get_elem? (xs ++ y ∷ []) (length xs) ≡ some y
get-append_last [] y = refl
get-append_last (x ∷ xs) y = get-append_last xs y

-- Nowhere a value.
abbrev pub nothing : Trail → Str
nothing p = []

root_alone : (p : Trail) (i : ℕ) → index_of ([] ∷ []) p ≡ some i → (p ≡ []) × (i ≡ 0)
unfolding index_of trail_beq
root_alone [] i h = (refl, cc)
root_alone (b ∷ p) i h = cc

root_node : NodeAt new_radix_tree ([] ∷ []) nothing [] 0
unfolding new_radix_tree index_of trail_beq
root_node = record { node = blank; stands = refl; valued = refl; left = refl; right = refl }

pub new-Represents : Represents new_radix_tree ([] ∷ []) nothing
unfolding new_radix_tree index_of trail_beq
new-Represents = record {
  root = refl;
  free = refl;
  size = refl;
  first = refl;
  closed = λ b p h. refl;
  shallow = λ p i h. let (e, _) = root_alone p i h in rw e (omega arith);
  outside = λ p h. refl;
  at = λ p i h.
      let (e, f) = root_alone p i h in
      subst (λ q. NodeAt new_radix_tree ([] ∷ []) nothing q i) (sym e)
        (subst (λ j. NodeAt new_radix_tree ([] ∷ []) nothing [] j) (sym f) root_node);
}

-- The values with another one at p.
abbrev pub put : (Trail → Str) → Trail → Str → Trail → Str
put value p v r = if p == r then v else value r

pub put-other : (value : Trail → Str) (p r : Trail) (v : Str) → p ≢ r → put value p v r ≡ value r
put-other value p r v h = ground (arith, trail_beq_iff p r)

pub put_self : (value : Trail → Str) (p : Trail) (v : Str) → put value p v p ≡ v
put_self value p v = rw (beq_refl p) refl

-- A node at another place than i is there after a change at i, where it has the same children and
-- the same value.
pub other_NodeAt :
    (t t' : RadixTree) (ps qs : List Trail) (value value' : Trail → Str) (r : Trail) (j : ℕ)
    → get_elem? t'.nodes j ≡ get_elem? t.nodes j
    → value' r ≡ value r
    → ((c : Bool) → index_of qs (c ∷ r) ≡ index_of ps (c ∷ r))
    → NodeAt t ps value r j
    → NodeAt t' qs value' r j
other_NodeAt t t' ps qs value value' r j same worth kids x = record {
  node = x.node;
  stands = same ∙ x.stands;
  valued = x.valued ∙ sym worth;
  left = x.left ∙ sym (kids false);
  right = x.right ∙ sym (kids true);
}

pub index_of-apart :
    (ps : List Trail) (p r : Trail) (i j : ℕ)
    → index_of ps p ≡ some i
    → index_of ps r ≡ some j
    → p ≢ r
    → i ≢ j
index_of-apart ps p r i j e f h same = h (index_of_unique ps p r i e (f ∙ ap some (sym same)))

-- A change of the value at p.
pub set_value-Represents :
    (t : RadixTree) (ps : List Trail) (value : Trail → Str) (p : Trail) (i : ℕ) (v : Str)
    → Represents t ps value
    → index_of ps p ≡ some i
    → (t' : RadixTree) × (update t (some i) (set_value v) ≡ ret t')
      × Represents t' ps (put value p v)
unfolding update
set_value-Represents t ps value p i v rep e =
    let there = rep.at p i e in
    let inside : i < length t.nodes = rw rep.size (index_of-bound ps p i e) in
    let t' = record t { nodes = set t.nodes i (set_value v there.node) } in
    (
      t',
      rw (there.stands, update, load) refl,
      record {
        root = rep.root;
        free = rep.free;
        size = length-set t.nodes i _ ∙ rep.size;
        first = rep.first;
        closed = rep.closed;
        shallow = rep.shallow;
        outside =
            λ r n. put-other value p r v (λ q. let f = ap (index_of ps) q in cc) ∙ rep.outside r n;
        at = λ r j n. elim (Bool-cases (p == r)) [
          | inl same ↦
              (let q = (trail_beq_iff p r).0 same in
                subst (λ r. (j : ℕ) → index_of ps r ≡ some j → NodeAt t' ps (put value p v) r j) q
                  (λ j n.
                    let k : i ≡ j = cc in
                    subst (λ j. NodeAt t' ps (put value p v) p j) k
                      (record {
                        node = set_value v there.node;
                        stands = get-set_self t.nodes i _ inside;
                        valued = sym (put_self value p v);
                        left = there.left;
                        right = there.right;
                      }))
                  j n)
          | inr apart ↦
              (let h : p ≢ r = λ q. (let z = (trail_beq_iff p r).1 q in cc) in
                other_NodeAt t t' ps ps value (put value p v) r j
                  (get-set_other t.nodes i j _ (index_of-apart ps p r i j e n h))
                  (put-other value p r v h) (λ c. refl) (rep.at r j n))
        ];
      },
    )
