-- ===== src/Golib/Sort.antt =====
-- Go's package sort, for integers that are not negative: Ints, Search and SearchInts.
use vermouth.Prelude.{
  ℕ, zero, suc, refl, ap, Bool, List, [], arith, ltb, leb, contains, ◌+◌, ◌/◌, ◌≡◌, ◌∙◌, ◌||◌, ◌∷◌,
  ◌==◌, if◌then◌else◌, nat_eq, str_eq,
}

unfoldable pub insert : ℕ → List ℕ → List ℕ
insert x [] = x ∷ []
insert x (y ∷ ys) = if leb x y then x ∷ y ∷ ys else y ∷ insert x ys

-- sort.Ints
unfoldable pub sort_ints : List ℕ → List ℕ
unfolding insert
sort_ints [] = []
sort_ints (x ∷ xs) = insert x (sort_ints xs)

pub contains-insert : (x : ℕ) (ys : List ℕ) (a : ℕ) → contains (insert x ys) a ≡ contains (x ∷ ys) a
unfolding insert contains
contains-insert x [] a = refl
contains-insert x (y ∷ ys) a = ground (arith, contains-insert x ys a)

pub contains-sort_ints : (xs : List ℕ) (a : ℕ) → contains (sort_ints xs) a ≡ contains xs a
unfolding sort_ints contains
contains-sort_ints [] a = refl
contains-sort_ints (x ∷ xs) a =
    contains-insert x (sort_ints xs) a ∙ ap (λ b. (x == a) || b) (contains-sort_ints xs a)

-- The loop of sort.Search. The interval halves, so fuel of its length and one is enough.
unfoldable pub search_from : ℕ → ℕ → ℕ → (ℕ → Bool) → ℕ
search_from zero i j f = i
search_from (suc fuel) i j f =
    let h = (i + j) / 2 in
    let upper = search_from fuel (h + 1) j f in
    let lower = search_from fuel i h f in if ltb i j then (if f h then lower else upper) else i

unfoldable pub search_first : ℕ → (ℕ → Bool) → ℕ
unfolding search_from
search_first n f = search_from (suc n) 0 n f
