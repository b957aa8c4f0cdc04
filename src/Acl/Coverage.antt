-- ===== src/Acl/Coverage.antt =====
-- acl/radix_tree.go: the addresses that AccessControl forbids after networks were added by Add.
use vermouth.Golib.Strconv.{atoi}
use vermouth.Net.{inet_toi}
use vermouth.Acl.Longest.{IsProper, value_of_length, covers, Network, longest_match}
use vermouth.Golib.Strings.{first, rest, split}
use vermouth.Acl.{second}
use vermouth.Prelude.{
  ℕ, zero, suc, refl, inl, inr, Bool, false, not, some, List, [], arith, leb, nat_beq_iff,
  Bool-cases, Str, str_beq, str_beq_iff, beq_refl, All, ret, pos, ◌≡◌, ◌≢◌, ◌&&◌, ◌||◌, ◌∷◌, ◌==◌,
  nat_eq, str_eq,
}

-- The text of a network, which is also its value: an address, a slash and a number of bits.
pub record IsNetwork (n : Network) : Type 0 where
  pub address : inet_toi (first (split b'/' n.value)) ≡ ret (some n.key)
  pub mask : Str
  pub behind : second (split b'/' n.value) ≡ some mask
  pub number : atoi mask ≡ some (pos n.cidr)
  pub proper : IsProper n

pub IsNetwork-value : (n : Network) → IsNetwork n → n.value ≢ []
unfolding second split rest
IsNetwork-value n h e = let none_behind = rw e at h.behind in cc

-- Whether some network of the list covers the address.
abbrev pub is_covered : ℕ → List Network → Bool
is_covered key [] = false
is_covered key (n ∷ ns) = covers n.cidr key n || is_covered key ns

covers-length : (l key : ℕ) (n : Network) → covers l key n ≡ (n.cidr == l && covers n.cidr key n)
covers-length l key n = elim (Bool-cases (n.cidr == l)) [
  | inl same ↦ (let e = (nat_beq_iff n.cidr l).0 same in rw (e, beq_refl l) refl)
  | inr apart ↦ rw apart refl
]

-- Whether a network of l bits, and of l at most, covers the address.
abbrev has_length : ℕ → ℕ → List Network → Bool
has_length l key [] = false
has_length l key (n ∷ ns) = covers l key n || has_length l key ns

unfoldable pub covered_up_to : ℕ → ℕ → List Network → Bool
covered_up_to zero key ns = has_length 0 key ns
covered_up_to (suc l) key ns = has_length (suc l) key ns || covered_up_to l key ns

covered_up_to-nil : (l key : ℕ) → covered_up_to l key [] ≡ false
unfolding covered_up_to
covered_up_to-nil zero key = refl
covered_up_to-nil (suc l) key = covered_up_to-nil l key

covered_up_to-cons :
    (l key : ℕ) (n : Network) (ns : List Network)
    → covered_up_to l key (n ∷ ns) ≡ (leb n.cidr l && covers n.cidr key n || covered_up_to l key ns)
unfolding covered_up_to
covered_up_to-cons zero key n ns = rw (covers-length 0 key n) (ground arith)
covered_up_to-cons (suc l) key n ns =
    rw (covers-length (suc l) key n, covered_up_to-cons l key n ns) (ground arith)

pub covered_up_to-all :
    (key : ℕ) (ns : List Network) → All IsNetwork ns → covered_up_to 32 key ns ≡ is_covered key ns
covered_up_to-all key [] h = covered_up_to-nil 32 key
covered_up_to-all key (n ∷ ns) (h, hs) =
    rw (covered_up_to-cons 32 key n ns, covered_up_to-all key ns hs)
      (let le = h.proper.bits in ground arith)

value_of_length-empty :
    (l key : ℕ) (ns : List Network)
    → All IsNetwork ns
    → (value_of_length l key ns == []) ≡ not (has_length l key ns)
unfolding str_beq
value_of_length-empty l key [] h = refl
value_of_length-empty l key (n ∷ ns) (h, hs) =
    let filled = IsNetwork-value n h in
    ground (arith, value_of_length-empty l key ns hs, str_beq_iff n.value [])

pub longest_match-empty :
    (l key : ℕ) (ns : List Network)
    → All IsNetwork ns
    → (longest_match l key ns == []) ≡ not (covered_up_to l key ns)
unfolding longest_match str_beq covered_up_to
longest_match-empty zero key ns h = value_of_length-empty 0 key ns h
longest_match-empty (suc l) key ns h =
    ground (arith, value_of_length-empty (suc l) key ns h, longest_match-empty l key ns h)
