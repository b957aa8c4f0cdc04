-- ===== src/Monitor/Identity.antt =====
-- static/403/script.js: navigator.sayswho, the name and the version of the browser as the page shows
-- them. A text is the list of its code units. The regular expressions are written out as functions:
-- each of them has one way to match at a place, and the first place counts.
use mathlib.Core.Option
use vermouth.Prelude.{
  ℕ, Bool, true, false, not, Option, none, some, List, [], leb, Str, codes, ◌+◌, ◌&&◌, ◌||◌, ◌∷◌,
  ◌++◌, ◌==◌, if◌then◌else◌, nat_eq, str_eq,
}

pub record Navigator : Type 0 where
  pub user_agent : Str
  pub app_name : Str
  pub app_version : Str

abbrev pub is_digit : ℕ → Bool
is_digit c = leb b'0' c && leb c b'9'

abbrev pub is_upper : ℕ → Bool
is_upper c = leb b'A' c && leb c b'Z'

-- \w
abbrev pub is_word : ℕ → Bool
is_word c = is_digit c || is_upper c || leb b'a' c && leb c b'z' || c == b'_'

-- \s
abbrev pub is_space : ℕ → Bool
is_space c =
    leb 9 c && leb c 13
    || c == 32
    || c == 160
    || c == 5760
    || leb 8192 c && leb c 8202
    || c == 8232
    || c == 8233
    || c == 8239
    || c == 8287
    || c == 12288
    || c == 65279

-- How a character of an expression meets one of a text; with the flag i, the expression is in
-- lower case.
abbrev pub exact : ℕ → ℕ → Bool
exact p c = p == c

abbrev pub any_case : ℕ → ℕ → Bool
any_case p c = p == (if is_upper c then c + 32 else c)

-- The text at the front that a word meets, and what follows it.
unfoldable pub word : (ℕ → ℕ → Bool) → Str → Str → Option (Str × Str)
word meets [] s = some ([], s)
word meets (p ∷ ps) [] = none
word meets (p ∷ ps) (c ∷ s) = elim (meets p c) [
  | false ↦ none
  | true ↦ Option.map (λ m. (c ∷ m.0, m.1)) (word meets ps s)
]

-- (\d+): the digits at the front, if there are any
unfoldable pub digits : Str → Str
digits [] = []
digits (c ∷ s) = if is_digit c then c ∷ digits s else []

unfoldable pub number : Str → Option Str
unfolding digits
number s = elim (digits s) [ [] ↦ none | c ∷ cs ↦ some (c ∷ cs) ]

-- p* and p+ of a class of characters
unfoldable pub skip : (ℕ → Bool) → Str → Str
skip p [] = []
skip p (c ∷ s) = if p c then skip p s else c ∷ s

abbrev pub is_front : (ℕ → Bool) → Str → Bool
is_front p [] = false
is_front p (c ∷ s) = p c

-- The first place where an expression matches. The expression is told whether the character before
-- the place is a word's, for \b.
unfoldable pub search_text {ℓ} : {A : Type ℓ} → (Bool → Str → Option A) → Bool → Str → Option A
search_text f after [] = f after []
search_text f after (c ∷ s) = elim (f after (c ∷ s)) [
  | some a ↦ some a
  | none ↦ search_text f (is_word c) s
]

abbrev pub optional_slash : Str → Str
optional_slash [] = []
optional_slash (c ∷ s) = if c == b'/' then s else c ∷ s

-- One of the names, with its number: \/?\s*(\d+). `ahead` is whether (?=\/) follows the name.
unfoldable pub named : Str → Bool → Str → Option (Str × Str)
unfolding word number skip
named name ahead s = elim (word any_case name s) [
  | none ↦ none
  | some (m, r) ↦
      if ahead && not (is_front (λ c. c == b'/') r)
      then none
      else Option.map (λ d. (m, d)) (number (skip is_space (optional_slash r)))
]

unfoldable pub named_any : List (Str × Bool) → Str → Option (Str × Str)
unfolding named
named_any [] s = none
named_any ((name, ahead) ∷ names) s = elim (named name ahead s) [
  | some m ↦ some m
  | none ↦ named_any names s
]

abbrev pub names : List (Str × Bool)
names =
    (codes "opera", false)
    ∷ (codes "chrome", false)
    ∷ (codes "safari", false)
    ∷ (codes "firefox", false)
    ∷ (codes "msie", false)
    ∷ (codes "trident", true)
    ∷ []

-- /(opera|chrome|safari|firefox|msie|trident(?=\/))\/?\s*(\d+)/i
unfoldable pub browser : Str → Option (Str × Str)
unfolding search_text named_any
browser = search_text (λ after. named_any names) false

-- /trident/i.test
unfoldable pub is_trident : Str → Bool
unfolding search_text word
is_trident s = elim (search_text (λ after. word any_case (codes "trident")) false s) [
  | none ↦ false
  | some m ↦ true
]

-- /\brv[ :]+(\d+)/
unfoldable pub rv_at : Bool → Str → Option Str
unfolding word number skip
rv_at after s = elim (word exact (codes "rv") s) [
  | none ↦ none
  | some (m, r) ↦
      if after || not (is_front (λ c. c == b' ' || c == b':') r)
      then none
      else number (skip (λ c. c == b' ' || c == b':') r)
]

-- /\b(OPR|Edge)\/(\d+)/, for one of the two
unfoldable pub brand_at : Str → Bool → Str → Option (Str × Str)
unfolding word number
brand_at brand after s = elim (word exact brand s) [
  | none ↦ none
  | some (m, r) ↦
      if after || not (is_front (λ c. c == b'/') r)
      then none
      else Option.map (λ d. (m, d)) (number (optional_slash r))
]

unfoldable pub either_brand : Bool → Str → Option (Str × Str)
unfolding brand_at
either_brand after s = elim (brand_at (codes "OPR") after s) [
  | some m ↦ some m
  | none ↦ brand_at (codes "Edge") after s
]

-- /version\/(\d+)/i
unfoldable pub version_at : Bool → Str → Option Str
unfolding word number
version_at after s = elim (word any_case (codes "version/") s) [
  | none ↦ none
  | some (m, r) ↦ number r
]

-- replace('OPR', 'Opera')
unfoldable pub rename_opr : Str → Str
unfolding word
rename_opr [] = []
rename_opr (c ∷ s) = elim (word exact (codes "OPR") (c ∷ s)) [
  | some (m, r) ↦ codes "Opera" ++ r
  | none ↦ c ∷ rename_opr s
]

-- M.splice(1, 1, v), for a list with a second item
abbrev pub with_version : Option Str → List Str → List Str
with_version none m = m
with_version (some v) [] = v ∷ []
with_version (some v) (x ∷ []) = x ∷ v ∷ []
with_version (some v) (x ∷ y ∷ m) = x ∷ v ∷ m

-- join(' ')
unfoldable pub join : List Str → Str
join [] = []
join (x ∷ []) = x
join (x ∷ y ∷ xs) = x ++ b' ' ∷ join (y ∷ xs)

-- The end of sayswho, for the list M.
unfoldable pub titled : Str → List Str → Str
unfolding search_text version_at join
titled ua m = join (with_version (search_text version_at false ua) m)

abbrev pub or_empty : Option Str → Str
or_empty none = []
or_empty (some s) = s

-- sayswho, for the match of the first expression
unfoldable pub says_of : Navigator → Option (Str × Str) → Str
unfolding search_text rv_at either_brand is_trident rename_opr titled join
says_of n none = titled n.user_agent (n.app_name ∷ n.app_version ∷ codes "-?" ∷ [])
says_of n (some (name, version)) =
    if is_trident name
    then codes "IE " ++ or_empty (search_text rv_at false n.user_agent)
    else if name == codes "Chrome"
    then elim (search_text either_brand false n.user_agent) [
      | some (brand, d) ↦ rename_opr (join (brand ∷ d ∷ []))
      | none ↦ titled n.user_agent (name ∷ version ∷ [])
    ]
    else titled n.user_agent (name ∷ version ∷ [])

-- navigator.sayswho
unfoldable pub says_who : Navigator → Str
unfolding browser says_of
says_who n = says_of n (browser n.user_agent)
