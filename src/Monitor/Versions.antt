-- ===== src/Monitor/Versions.antt =====
-- static/403/script.js: a version in the text of a user agent, as the regular expressions of sayswho
-- read it.
use vermouth.Prelude.{
  ℕ, refl, Bool, true, false, Option, none, some, [], arith, nat_beq, Str, codes, All, ◌≡◌, ◌||◌,
  ◌∷◌, ◌++◌, ◌==◌, nat_eq, str_eq,
}
use vermouth.Monitor.Identity.{
  is_digit, is_upper, is_word, is_space, word, digits, number, skip, search_text, named, rv_at,
  either_brand, brand_at, version_at, rename_opr, optional_slash,
}

-- One digit or more.
abbrev pub IsVersion : Str → Type 0
IsVersion [] = ⊥
IsVersion (x ∷ d) = All (λ c. is_digit c ≡ true) (x ∷ d)

-- A text goes on with something that is no digit.
abbrev pub IsTail : Str → Type 0
IsTail [] = Unit
IsTail (c ∷ r) = is_digit c ≡ false

pub digits-append : (d r : Str) → All (λ c. is_digit c ≡ true) d → IsTail r → digits (d ++ r) ≡ d
unfolding digits
digits-append [] [] h t = refl
digits-append [] (c ∷ r) h t = rw t refl
digits-append (x ∷ d) r (h, hs) t = rw (h, digits-append d r hs t) refl

pub number-version : (d r : Str) → IsVersion d → IsTail r → number (d ++ r) ≡ some d
unfolding number
number-version [] r h t = absurd h
number-version (x ∷ d) r h t = rw (digits-append (x ∷ d) r h t, number) refl

pub skip-version :
    (d r : Str) → IsVersion d → skip is_space (optional_slash (b'/' ∷ d ++ r)) ≡ d ++ r
unfolding skip
skip-version [] r h = absurd h
skip-version (x ∷ d) r (h, hs) = ground arith

pub search-digits {ℓ} :
    {A : Type ℓ} (f : Bool → Str → Option A) (after : Bool) (d r : Str)
    → ((b : Bool) (x : ℕ) (s : Str) → is_digit x ≡ true → f b (x ∷ s) ≡ none)
    → IsVersion d
    → search_text f after (d ++ r) ≡ search_text f true r
unfolding search_text
search-digits f after [] r miss h = absurd h
search-digits f after (x ∷ []) r miss (h, hs) =
    let w : is_word x ≡ true = ground arith in rw (miss after x r h, w, search_text) refl
search-digits f after (x ∷ y ∷ d) r miss (h, hs) =
    rw (miss after x (y ∷ d ++ r) h, search_text) (search-digits f (is_word x) (y ∷ d) r miss hs)

pub either_brand-digit :
    (after : Bool) (x : ℕ) (s : Str) → is_digit x ≡ true → either_brand after (x ∷ s) ≡ none
unfolding either_brand brand_at word
either_brand-digit after x s h =
    let o : nat_beq b'O' x ≡ false = ground arith in
    let e : nat_beq b'E' x ≡ false = ground arith in rw (o, e, either_brand, brand_at, word) refl

pub version_at-digit :
    (after : Bool) (x : ℕ) (s : Str) → is_digit x ≡ true → version_at after (x ∷ s) ≡ none
unfolding version_at word
version_at-digit after x s h =
    let u : is_upper x ≡ false = ground arith in
    let v : nat_beq b'v' x ≡ false = ground arith in rw (u, v, version_at, word) refl

pub rename_opr-digits : (d : Str) → All (λ c. is_digit c ≡ true) d → rename_opr d ≡ d
unfolding rename_opr word
rename_opr-digits [] h = refl
rename_opr-digits (x ∷ d) (h, hs) =
    let o : nat_beq b'O' x ≡ false = ground arith in
    rw (o, rename_opr, word, rename_opr-digits d hs) refl

pub All-of : (d : Str) → IsVersion d → All (λ c. is_digit c ≡ true) d
All-of [] h = absurd h
All-of (x ∷ d) h = h

pub named-chrome :
    (d r : Str)
    → IsVersion d
    → IsTail r
    → named (codes "chrome") false (codes "Chrome/" ++ d ++ r) ≡ some (codes "Chrome", d)
unfolding named
named-chrome d r h t = rw (skip-version d r h, number-version d r h t) refl

pub named-firefox :
    (d r : Str)
    → IsVersion d
    → IsTail r
    → named (codes "firefox") false (codes "Firefox/" ++ d ++ r) ≡ some (codes "Firefox", d)
unfolding named
named-firefox d r h t = rw (skip-version d r h, number-version d r h t) refl

pub brand_at-opr :
    (d r : Str)
    → IsVersion d
    → IsTail r
    → brand_at (codes "OPR") false (codes "OPR/" ++ d ++ r) ≡ some (codes "OPR", d)
unfolding brand_at
brand_at-opr d r h t = rw (number-version d r h t) refl

pub brand_at-edge :
    (d r : Str)
    → IsVersion d
    → IsTail r
    → brand_at (codes "Edge") false (codes "Edge/" ++ d ++ r) ≡ some (codes "Edge", d)
unfolding brand_at
brand_at-edge d r h t = rw (number-version d r h t) refl

pub skip-rv :
    (d r : Str) → IsVersion d → skip (λ c. c == b' ' || c == b':') (b':' ∷ d ++ r) ≡ d ++ r
unfolding skip
skip-rv [] r h = absurd h
skip-rv (x ∷ d) r (h, hs) = ground arith

pub rv_at-version :
    (d r : Str) → IsVersion d → IsTail r → rv_at false (codes "rv:" ++ d ++ r) ≡ some d
unfolding rv_at
rv_at-version d r h t = rw (skip-rv d r h, number-version d r h t) refl
