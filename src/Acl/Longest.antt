-- ===== src/Acl/Longest.antt =====
-- acl/radix_tree.go: search on a tree that networks were added to, against the list of the networks.
use vermouth.Acl.Walk.{child-index, insert-Inserts}
use vermouth.Acl.Leading.{path_same, shift_right}
use vermouth.Acl.Represents.{new-Represents, Represents, put, nothing}
use vermouth.Acl.{
  max_ipv4_bit, search_key, load, net_mask, insert, new_radix_tree, RadixTree, search_from,
}
use vermouth.Acl.Trails.{trail_eq, length-path, index_of, bit_at, Trail, path}
use vermouth.Prelude.{
  ℕ, zero, suc, refl, sym, ap, inl, inr, Bool, none, List, [], arith, Option-cases, Str, str_beq,
  length, All, Go, ret, ◌+◌, ◌-◌, ◌^◌, ◌≤◌, ◌<◌, ◌≡◌, ◌∙◌, ◌&&◌, ◌∷◌, ◌==◌, if◌then◌else◌, ◌>>=◌,
  ◌>>◌, nat_eq, str_eq,
}

-- A network: an address, the number of bits that count, and the value that is kept for it.
pub record Network : Type 0 where
  pub key : ℕ
  pub cidr : ℕ
  pub value : Str

-- A network of 32 bits at most.
pub record IsProper (n : Network) : Type 0 where
  pub bits : n.cidr ≤ 32
  pub narrow : n.key < 2 ^ 32

-- The networks, the newest first, put into a new tree.
abbrev pub insert_all : List Network → Go RadixTree
insert_all [] = ret new_radix_tree
insert_all (n ∷ ns) = insert_all ns >>= λ t. insert t n.key (net_mask n.cidr) n.value

-- Whether the network has l bits, and they are the first l bits of the address.
abbrev pub covers : ℕ → ℕ → Network → Bool
covers l key n = n.cidr == l && shift_right (32 - l) n.key == shift_right (32 - l) key

-- The value of the newest network of l bits that covers the address.
abbrev pub value_of_length : ℕ → ℕ → List Network → Str
value_of_length l key [] = []
value_of_length l key (n ∷ ns) = if covers l key n then n.value else value_of_length l key ns

-- The value of the longest network of at most l bits that covers the address, where the empty value
-- counts as none.
unfoldable pub longest_match : ℕ → ℕ → List Network → Str
longest_match zero key ns = value_of_length 0 key ns
longest_match (suc l) key ns =
    let v = value_of_length (suc l) key ns in if v == [] then longest_match l key ns else v

-- The values that the networks leave at the trails.
abbrev pub value_at : List Network → Trail → Str
value_at [] = nothing
value_at (n ∷ ns) = put (value_at ns) (path n.cidr n.key) n.value

insert_all-Represents :
    (ns : List Network)
    → All IsProper ns
    → (t : RadixTree) × (ps : List Trail) × (insert_all ns ≡ ret t) × Represents t ps (value_at ns)
insert_all-Represents [] h = (new_radix_tree, [] ∷ [], refl, new-Represents)
insert_all-Represents (n ∷ ns) (h, hs) =
    let (t, ps, made, rep) = insert_all-Represents ns hs in
    let (t', qs, ran, after) = insert-Inserts t ps (value_at ns) n.key n.cidr n.value rep h.bits in
    (t', qs, ap (λ m. m >>= λ t. insert t n.key (net_mask n.cidr) n.value) made ∙ ran, after)

-- The last value on k rounds of the way down, from round j on.
last_value : ℕ → ℕ → ℕ → (Trail → Str) → Str → Str
last_value zero j key value v = v
last_value (suc k) j key value v =
    last_value k (suc j) key value (if value (path j key) == [] then v else value (path j key))

last_value-outside :
    (k j key : ℕ) (t : RadixTree) (ps : List Trail) (value : Trail → Str) (v : Str)
    → Represents t ps value
    → index_of ps (path j key) ≡ none
    → last_value k j key value v ≡ v
unfolding last_value path vermouth.Prelude.str_beq
last_value-outside zero j key t ps value v rep e = refl
last_value-outside (suc k) j key t ps value v rep e =
    rw (rep.outside (path j key) e)
      (last_value-outside k (suc j) key t ps value v rep (rep.closed _ (path j key) e))

search_from-ended :
    (fuel : ℕ) (t : RadixTree) (key bit : ℕ) (v : Str) → search_from fuel t key bit none v ≡ ret v
unfolding search_from
search_from-ended zero t key bit v = refl
search_from-ended (suc fuel) t key bit v = refl

search_from-last :
    (k fuel j key : ℕ) (t : RadixTree) (ps : List Trail) (value : Trail → Str) (v : Str)
    → Represents t ps value
    → j + k ≡ 33
    → k ≤ fuel
    → search_from fuel t key (bit_at j) (index_of ps (path j key)) v
      ≡ ret (last_value k j key value v)
unfolding search_from last_value path bit_at
search_from-last zero fuel j key t ps value v rep s f =
    elim (Option-cases (index_of ps (path j key))) [
      | inl gone ↦ rw gone (search_from-ended fuel t key (bit_at j) v)
      | inr (i, there) ↦
          (let low = rep.shallow (path j key) i there in
            let deep = length-path j key in
            absurd (too_deep (length (path j key)) j low deep (omega arith)))
    ]
  where
    too_deep : (l j : ℕ) → l ≤ 32 → l ≡ j → j ≡ 33 → ⊥
    too_deep l j h e f = omega arith
search_from-last (suc k) zero j key t ps value v rep s f = elim f [ ]
search_from-last (suc k) (suc fuel) j key t ps value v rep s f =
    elim (Option-cases (index_of ps (path j key))) [
      | inl gone ↦ rw gone (ap ret (sym (last_value-outside (suc k) j key t ps value v rep gone)))
      | inr (i, there) ↦
          (let x = rep.at (path j key) i there in
            let kid = child-index t ps value (path j key) i x key (bit_at j) in
            let w = if value (path j key) == [] then v else value (path j key) in
            let rest =
              search_from-last k fuel (suc j) key t ps value w rep (omega arith) (omega arith) in
            rw (there, search_from, load, x.stands, x.valued)
              (ap (λ o. search_from fuel t key (bit_at (suc j)) o w) kid ∙ rest))
    ]

value_of_length-worth :
    (l key : ℕ) (ns : List Network)
    → All IsProper ns
    → key < 2 ^ 32
    → l ≤ 32
    → value_at ns (path l key) ≡ value_of_length l key ns
value_of_length-worth l key [] h k le = refl
value_of_length-worth l key (n ∷ ns) (h, hs) k le =
    rw (same, value_of_length-worth l key ns hs k le) refl
  where
    same : (path n.cidr n.key == path l key) ≡ covers l key n
    same = path_same l n.cidr n.key key le h.bits h.narrow k

last_value-longest :
    (k l key : ℕ) (ns : List Network) (value : Trail → Str)
    → ((j : ℕ) → j ≤ 32 → value (path j key) ≡ value_of_length j key ns)
    → l + k ≡ 32
    → last_value k (suc l) key value (longest_match l key ns) ≡ longest_match 32 key ns
unfolding last_value longest_match
last_value-longest zero l key ns value h s = let e : l ≡ 32 = omega arith in rw e refl
last_value-longest (suc k) l key ns value h s =
    rw (h (suc l) (omega arith)) (last_value-longest k (suc l) key ns value h (omega arith))

kept : (x : Str) → (if x == [] then [] else x) ≡ x
unfolding str_beq
kept [] = refl
kept (c ∷ x) = refl

last_value-first :
    (k key : ℕ) (ns : List Network) (value : Trail → Str)
    → ((j : ℕ) → j ≤ 32 → value (path j key) ≡ value_of_length j key ns)
    → k ≡ 32
    → last_value (suc k) 0 key value [] ≡ longest_match 32 key ns
unfolding last_value longest_match
last_value-first k key ns value h s =
    ap (last_value k 1 key value) (kept (value (path 0 key)) ∙ h 0 (omega arith))
    ∙ last_value-longest k 0 key ns value h (omega arith)

pub search_key-Represents :
    (t : RadixTree) (ps : List Trail) (ns : List Network) (key : ℕ)
    → Represents t ps (value_at ns)
    → All IsProper ns
    → key < 2 ^ 32
    → search_key t key ≡ ret (longest_match 32 key ns)
unfolding search_key path bit_at
search_key-Represents t ps ns key rep h k =
    let values : (j : ℕ) → j ≤ 32 → value_at ns (path j key) ≡ value_of_length j key ns =
      λ j le. value_of_length-worth j key ns h k le in
    let found =
      search_from-last 33 (length t.nodes + 33) 0 key t ps (value_at ns) [] rep (omega arith)
        (omega arith) in
    ap (λ o. search_from (length t.nodes + 33) t key max_ipv4_bit o []) (rep.root ∙ sym rep.first)
    ∙ found
    ∙ ap ret (last_value-first 32 key ns (value_at ns) values refl)

-- Whatever networks are put into a new tree, each insert returns, and search of any address then
-- returns the value of the longest of the networks that cover the address: of the one that was put
-- last, where two of this length do, and the empty value where none does. A network that was put with
-- the empty value counts as none.
pub search_key-longest_match :
    (ns : List Network) (key : ℕ)
    → All IsProper ns
    → key < 2 ^ 32
    → (t : RadixTree) × (insert_all ns ≡ ret t) × (search_key t key ≡ ret (longest_match 32 key ns))
search_key-longest_match ns key h k =
    let (t, ps, made, rep) = insert_all-Represents ns h in
    (t, made, search_key-Represents t ps ns key rep h k)
