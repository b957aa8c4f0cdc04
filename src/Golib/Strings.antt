-- ===== src/Golib/Strings.antt =====
-- Go's package strings, for separators of one byte.
use vermouth.Prelude.{
  ℕ, suc, refl, Bool, true, false, Option, none, some, List, [], arith, nat_beq, nat_beq_iff, Str,
  beq_refl, length, drop, ◌≡◌, ◌&&◌, ◌||◌, ◌∷◌, ◌++◌, ◌==◌, if◌then◌else◌, nat_eq, str_eq,
}

abbrev cons_head : ℕ → List Str → List Str
cons_head c [] = (c ∷ []) ∷ []
cons_head c (x ∷ xs) = (c ∷ x) ∷ xs

-- strings.Split(s, sep)
unfoldable pub split : ℕ → Str → List Str
split sep [] = [] ∷ []
split sep (c ∷ s) = if c == sep then [] ∷ split sep s else cons_head c (split sep s)

-- strings.LastIndex(s, c), with `none` for -1
unfoldable pub last_index : ℕ → Str → Option ℕ
last_index c [] = none
last_index c (x ∷ s) = elim (last_index c s) [
  | some i ↦ some (suc i)
  | none ↦ if x == c then some 0 else none
]

-- strings.Index(s, c), with `none` for -1
unfoldable pub index : ℕ → Str → Option ℕ
index c [] = none
index c (x ∷ s) =
    if x == c then some 0 else elim (index c s) [ some i ↦ some (suc i) | none ↦ none ]

-- strings.HasPrefix and strings.Contains
unfoldable pub has_prefix : Str → Str → Bool
has_prefix [] s = true
has_prefix (p ∷ ps) [] = false
has_prefix (p ∷ ps) (c ∷ s) = p == c && has_prefix ps s

unfoldable pub contains_text : Str → Str → Bool
unfolding has_prefix
contains_text t [] = has_prefix t []
contains_text t (c ∷ s) = has_prefix t (c ∷ s) || contains_text t s

-- strings.Replace(s, old, new, 1), for an old that is not empty
unfoldable pub replace_first : Str → Str → Str → Str
unfolding has_prefix
replace_first old new [] = []
replace_first old new (c ∷ s) =
    if has_prefix old (c ∷ s) then new ++ drop (length old) (c ∷ s) else c ∷ replace_first old new s

-- The first part and the others. `split` never returns an empty list.
unfoldable pub first : List Str → Str
first [] = []
first (x ∷ xs) = x

-- s[0] == c, where the text has a first byte
abbrev pub first_is : ℕ → Str → Bool
first_is c [] = false
first_is c (x ∷ s) = nat_beq x c

unfoldable pub rest : List Str → List Str
rest [] = []
rest (x ∷ xs) = xs

-- Each part with the separator in front.
unfoldable pub glue : ℕ → List Str → Str
glue sep [] = []
glue sep (x ∷ xs) = (sep ∷ x) ++ glue sep xs

glue-cons_head :
    (sep c : ℕ) (s : Str) (xs : List Str)
    → glue sep xs ≡ sep ∷ s
    → glue sep (cons_head c xs) ≡ sep ∷ c ∷ s
unfolding glue
glue-cons_head sep c s [] h = cc
glue-cons_head sep c s (x ∷ xs) h = cc

-- The parts of a text, each with the separator in front, are the text with the separator in front.
pub glue-split : (sep : ℕ) (s : Str) → glue sep (split sep s) ≡ sep ∷ s
unfolding split glue
glue-split sep [] = refl
glue-split sep (c ∷ s) =
    ground (arith, glue-split sep s, glue-cons_head sep c s (split sep s), nat_beq_iff c sep)

pub glue-rest-split : (sep : ℕ) (s : Str) → glue sep (rest (split sep (sep ∷ s))) ≡ sep ∷ s
unfolding split rest
glue-rest-split sep s = rw (beq_refl sep) (glue-split sep s)
