-- ===== src/Prefix/Mapping.antt =====
-- prefix/hash_prefixer.go: what MappingPath answers for a path.
use vermouth.Prelude.{
  ℕ, suc, refl, sym, ap, inl, inr, true, false, Option, none, some, List, [], arith, Bool-cases,
  Str, codes, length, take, drop, ret, >>=-eq-ret, ok, err, ◌≤◌, ◌<◌, ◌≡◌, ◌≢◌, ◌⊎◌, ◌∷◌, ◌++◌,
  nat_eq, str_eq,
}
use vermouth.Golib.Strings.{glue}
use vermouth.Net.{Request}
use vermouth.Balancer
use vermouth.Balancer.{Balancer}
use vermouth.Prefix.{
  HashPrefixer, find_prefix, mapping_path, path_not_found, balance_at, answer, or_root, route,
  Mapped,
}
use vermouth.Prelude.Map
use vermouth.Prefix.Found.{parts, upto, find_prefix-splits, find_prefix-has, find_prefix-longest}
use native.Mathlib.Nat.{le_trans}

-- What a successful answer for a path and a request says: a balancer is registered at the prefix,
-- the rest of the path follows the prefix (or the prefix is the root and the path is kept whole), no
-- registered text of whole parts of the path is longer, and the real path is the host that this
-- balancer answers for the request, with the rest behind it. The prefixer afterwards holds the
-- balancer that the answer leaves.
pub record Routes (p p' : HashPrefixer) (path : Str) (r : Option Request) (m : Mapped)
    : Type 0 where
  pub balancer : Balancer
  pub registered : Map.get p.mapping m.prefix ≡ some balancer
  pub splits : (m.prefix ++ m.api_path ≡ path) ⊎ ((m.prefix ≡ codes "/") × (m.api_path ≡ path))
  pub longest :
      (n : ℕ)
      → n < length (parts path)
      → Map.has p.mapping (upto (suc n) path) ≡ true
      → length (upto (suc n) path) ≤ length m.prefix
  pub host : Str
  pub next : Balancer
  pub chosen : Balancer.balance balancer [] r ≡ ret (some host, next)
  pub real : m.real_path ≡ host ++ m.api_path
  pub left : p' ≡ record { mapping = Map.put p.mapping m.prefix next }

answer-ok :
    (prefix tail : Str) (q p' : HashPrefixer) (host : Option Str) (m : Mapped)
    → answer prefix tail q host ≡ ret (ok m, p')
    → (h : Str) × (host ≡ some h)
      × (m.prefix ≡ prefix)
      × (m.api_path ≡ tail)
      × (m.real_path ≡ h ++ tail)
      × (p' ≡ q)
unfolding answer
answer-ok prefix tail q p' none m e = cc
answer-ok prefix tail q p' (some h) m e =
    let is : record { prefix = prefix; api_path = tail; real_path = h ++ tail } ≡ m = cc in
    (
      h,
      refl,
      ap (λ (x : Mapped). x.prefix) (sym is),
      ap (λ (x : Mapped). x.api_path) (sym is),
      ap (λ (x : Mapped). x.real_path) (sym is),
      cc,
    )

-- The balancer of a prefix answers a host, and the answer is made of the prefix, the rest and this
-- host.
record Balanced (p p' : HashPrefixer) (prefix tail : Str) (lb : Balancer) (r : Option Request)
    (m : Mapped) : Type 0 where
  pub host : Str
  pub next : Balancer
  pub chosen : Balancer.balance lb [] r ≡ ret (some host, next)
  pub prefix_is : m.prefix ≡ prefix
  pub tail_is : m.api_path ≡ tail
  pub real_is : m.real_path ≡ host ++ tail
  pub left : p' ≡ record { mapping = Map.put p.mapping prefix next }

balance_at-ok :
    (p p' : HashPrefixer) (prefix tail : Str) (lb : Balancer) (r : Option Request) (m : Mapped)
    → balance_at p prefix tail lb r ≡ ret (ok m, p')
    → Balanced p p' prefix tail lb r m
unfolding balance_at
balance_at-ok p p' prefix tail lb r m e =
    let ((host, lb'), ran, e') = >>=-eq-ret (Balancer.balance lb [] r) _ e in
    let (h, some_host, at, behind, real, left) = answer-ok prefix tail _ p' host m e' in
    record {
      host = h;
      next = lb';
      chosen = rw (← some_host) ran;
      prefix_is = at;
      tail_is = behind;
      real_is = real;
      left = left;
    }

route-ok :
    (p p' : HashPrefixer) (prefix tail : Str) (r : Option Request) (lb : Option Balancer)
    (m : Mapped)
    → route p prefix tail r lb ≡ ret (ok m, p')
    → (b : Balancer) × (lb ≡ some b) × Balanced p p' prefix tail b r m
unfolding route
route-ok p p' prefix tail r none m e = cc
route-ok p p' prefix tail r (some lb) m e = (lb, refl, balance_at-ok p p' prefix tail lb r m e)

-- A successful answer has the prefix that was found, or the root, and what is left of the path.
mapping_path-ok :
    (p p' : HashPrefixer) (path : Str) (r : Option Request) (m : Mapped)
    → mapping_path p path r ≡ ret (ok m, p')
    → (b : Balancer) × (Map.get p.mapping (or_root (find_prefix p path).0) ≡ some b)
      × Balanced p p' (or_root (find_prefix p path).0) (drop (find_prefix p path).1 path) b r m
unfolding mapping_path
mapping_path-ok p p' path r m e =
    let prefix = or_root (find_prefix p path).0 in
    route-ok p p' prefix (drop (find_prefix p path).1 path) r (Map.get p.mapping prefix) m e

or_root-splits :
    (f : Str × ℕ) (path : Str)
    → f.0 ++ drop f.1 path ≡ path
    → (or_root f.0 ++ drop f.1 path ≡ path) ⊎ ((or_root f.0 ≡ codes "/") × (drop f.1 path ≡ path))
or_root-splits ([], n) path e = inr (refl, e)
or_root-splits (c ∷ f, n) path e = inl e

length-or_root : (f : Str) → length f ≤ length (or_root f)
length-or_root [] = omega arith
length-or_root (c ∷ f) = omega arith

-- For a path that begins with a slash, every successful answer of MappingPath routes the path, to
-- the host that the balancer of the prefix answers.
pub mapping_path-Routes :
    (p p' : HashPrefixer) (s : Str) (r : Option Request) (m : Mapped)
    → mapping_path p (b'/' ∷ s) r ≡ ret (ok m, p')
    → Routes p p' (b'/' ∷ s) r m
mapping_path-Routes p p' s r m e =
    let (b, held, is) = mapping_path-ok p p' (b'/' ∷ s) r m e in
    record {
      balancer = b;
      registered = rw is.prefix_is held;
      splits =
          rw (is.prefix_is, is.tail_is)
            (or_root-splits (find_prefix p (b'/' ∷ s)) (b'/' ∷ s) (find_prefix-splits p s));
      longest = λ n lt reg.
          rw is.prefix_is (le_trans (find_prefix-longest p (b'/' ∷ s) n lt reg) (length-or_root _));
      host = is.host;
      next = is.next;
      chosen = is.chosen;
      real = rw is.tail_is is.real_is;
      left = rw is.prefix_is is.left;
    }

answer-not_found :
    (prefix tail : Str) (q p' : HashPrefixer) (host : Option Str)
    → answer prefix tail q host ≢ ret (err path_not_found, p')
unfolding answer
answer-not_found prefix tail q p' none = ground arith
answer-not_found prefix tail q p' (some h) = ground arith

balance_at-not_found :
    (p p' : HashPrefixer) (prefix tail : Str) (lb : Balancer) (r : Option Request)
    → balance_at p prefix tail lb r ≢ ret (err path_not_found, p')
unfolding balance_at
balance_at-not_found p p' prefix tail lb r e =
    let ((host, lb'), _, e') = >>=-eq-ret (Balancer.balance lb [] r) _ e in
    answer-not_found prefix tail _ p' host e'

-- If the root, or what was found, is not registered, then nothing was found.
find_prefix-empty :
    (p : HashPrefixer) (path : Str)
    → Map.has p.mapping (or_root (find_prefix p path).0) ≡ false
    → (find_prefix p path).0 ≡ []
find_prefix-empty p path h = elim (find_prefix-has p path) [
  | inl there ↦ or_root-empty (find_prefix p path).0 there h
  | inr nothing ↦ ap (λ (f : Str × ℕ). f.0) nothing
]
  where
    or_root-empty :
        (f : Str) → Map.has p.mapping f ≡ true → Map.has p.mapping (or_root f) ≡ false → f ≡ []
    or_root-empty [] t h = refl
    or_root-empty (c ∷ f) t h = cc

route-not_found :
    (p p' : HashPrefixer) (prefix tail : Str) (r : Option Request) (lb : Option Balancer)
    → route p prefix tail r lb ≡ ret (err path_not_found, p')
    → (lb ≡ none) × (p' ≡ p)
unfolding route
route-not_found p p' prefix tail r none e = (refl, cc)
route-not_found p p' prefix tail r (some lb) e =
    absurd (balance_at-not_found p p' prefix tail lb r e)

length-glue-take :
    (vs : List Str) (n : ℕ) → n < length vs → 0 < length (glue b'/' (take (suc n) vs))
unfolding glue
length-glue-take [] n h = elim h [ ]
length-glue-take (v ∷ vs) n h = omega arith

length-upto : (n : ℕ) (path : Str) → n < length (parts path) → 0 < length (upto (suc n) path)
length-upto n path h = length-glue-take (parts path) n h

-- The error PathNotFoundError is returned only if neither the root nor any text of whole parts of
-- the path is registered, and it leaves the prefixer as it was.
pub mapping_path-not_found :
    (p p' : HashPrefixer) (path : Str) (r : Option Request)
    → mapping_path p path r ≡ ret (err path_not_found, p')
    → (p' ≡ p)
      × (Map.has p.mapping (codes "/") ≡ false)
      × ((n : ℕ) → n < length (parts path) → Map.has p.mapping (upto (suc n) path) ≡ false)
unfolding mapping_path
mapping_path-not_found p p' path r e =
    let f = find_prefix p path in
    let (gone, same) =
      route-not_found p p' (or_root f.0) (drop f.1 path) r (Map.get p.mapping (or_root f.0)) e in
    let missing = Map.has_of_none p.mapping (or_root f.0) gone in
    let empty = find_prefix-empty p path missing in
    (
      same,
      rw empty at missing,
      λ n lt. elim (Bool-cases (Map.has p.mapping (upto (suc n) path))) [
        | inl there ↦ absurd (
            omega (
              arith,
              find_prefix-longest p path n lt there,
              ap length empty,
              length-upto n path lt,
            ))
        | inr not_there ↦ not_there
      ],
    )
