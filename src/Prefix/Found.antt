-- ===== src/Prefix/Found.antt =====
-- prefix/hash_prefixer.go: the prefix that the loop of MappingPath finds for a path.
use vermouth.Prelude.{
  ℕ, suc, inl, inr, true, List, [], Option-cases, Str, length, take, drop, drop-append, ◌≤◌, ◌<◌,
  ◌≡◌, ◌∙◌, ◌⊎◌, ◌∷◌, ◌++◌, nat_eq, str_eq,
}
use vermouth.Golib.Strings.{split, rest, glue, glue-rest-split}
use vermouth.Prefix.{HashPrefixer, find_prefix}
use vermouth.Prefix.Scan.{best, or_start, scan-best, best-has, best-prefix, best-longest}
use vermouth.Prelude.Map

-- The parts of a path behind its first slash, and the text of the first n of them.
abbrev pub parts : Str → List Str
parts path = rest (split b'/' path)

abbrev pub upto : ℕ → Str → Str
upto n path = glue b'/' (take n (parts path))

find_prefix-best :
    (p : HashPrefixer) (path : Str)
    → find_prefix p path ≡ or_start (best p.mapping [] (parts path)) ([], 0)
unfolding find_prefix
find_prefix-best p path = scan-best p.mapping (parts path) [] [] 0

split_at : (q r w : Str) → q ++ r ≡ w → q ++ drop (length q) w ≡ w
split_at q r w e = rw (← e) (rw (drop-append q r))

-- For a path that begins with a slash, the prefix that is found, with what the offset leaves of the
-- path behind it, is the path.
pub find_prefix-splits :
    (p : HashPrefixer) (s : Str)
    → (find_prefix p (b'/' ∷ s)).0 ++ drop (find_prefix p (b'/' ∷ s)).1 (b'/' ∷ s) ≡ b'/' ∷ s
find_prefix-splits p s = elim (Option-cases (best p.mapping [] (parts (b'/' ∷ s)))) [
  | inl nothing ↦ rw (find_prefix-best, nothing)
  | inr (q, found) ↦
      let (r, e) = best-prefix p.mapping (parts (b'/' ∷ s)) [] q found in
      rw (find_prefix-best, found) (split_at q r (b'/' ∷ s) (e ∙ glue-rest-split b'/' s))
]

pub find_prefix-has :
    (p : HashPrefixer) (path : Str)
    → (Map.has p.mapping (find_prefix p path).0 ≡ true) ⊎ (find_prefix p path ≡ ([], 0))
find_prefix-has p path = elim (Option-cases (best p.mapping [] (parts path))) [
  | inl nothing ↦ inr (rw (find_prefix-best, nothing))
  | inr (q, found) ↦ inl (rw (find_prefix-best, found) (best-has p.mapping (parts path) [] q found))
]

pub find_prefix-longest :
    (p : HashPrefixer) (path : Str) (n : ℕ)
    → n < length (parts path)
    → Map.has p.mapping (upto (suc n) path) ≡ true
    → length (upto (suc n) path) ≤ length (find_prefix p path).0
find_prefix-longest p path n h r =
    let (q, found, le) = best-longest p.mapping (parts path) [] n h r in
    rw (find_prefix-best, found) le
