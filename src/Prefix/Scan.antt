-- ===== src/Prefix/Scan.antt =====
-- The loop of MappingPath against a direct description of what it looks for.
use vermouth.Prelude.{
  ℕ, zero, suc, refl, ap, inl, inr, Bool, true, false, Option, none, some, List, [], append-nil,
  append_assoc, arith, Option-cases, Str, length, take, length-append, ◌+◌, ◌≤◌, ◌<◌, ◌≡◌, ◌∙◌, ◌⊎◌,
  ◌∷◌, ◌++◌, if◌then◌else◌, nat_eq, str_eq,
}
use vermouth.Golib.Strings.{glue}
use vermouth.Balancer.{Balancer}
use vermouth.Prefix.{scan}
use vermouth.Prelude.Map
use vermouth.Prelude.Map.{Map}

-- The last registered text among those that grow from `next` by one part at a time.
unfoldable pub best : Map Str Balancer → Str → List Str → Option Str
best m next [] = none
best m next (v ∷ vs) = elim (best m (next ++ b'/' ∷ v) vs) [
  | some p ↦ some p
  | none ↦ if Map.has m (next ++ b'/' ∷ v) then some (next ++ b'/' ∷ v) else none
]

abbrev pub or_start : Option Str → Str × ℕ → Str × ℕ
or_start none start = start
or_start (some p) start = (p, length p)

or_start-found :
    (o : Option Str) (n : Str) (b : Bool) (start : Str × ℕ)
    → or_start o (if b then (n, length n) else start)
      ≡ or_start (elim o [ some p ↦ some p | none ↦ if b then some n else none ]) start
or_start-found none n true start = refl
or_start-found none n false start = refl
or_start-found (some p) n b start = refl

pair_if :
    (b : Bool) (n prefix : Str) (i offset : ℕ)
    → ◌≡◌ {A = Str × ℕ}
        ((if b then n else prefix), (if b then i else offset))
        (if b then (n, i) else (prefix, offset))
pair_if true n prefix i offset = refl
pair_if false n prefix i offset = refl

length-next : (next v : Str) → length next + (length v + 1) ≡ length (next ++ b'/' ∷ v)
length-next next v = omega (arith, length-append {0} next (b'/' ∷ v))

-- The loop keeps the prefix and the offset that it starts with, or replaces both.
pub scan-best :
    (m : Map Str Balancer) (vs : List Str) (next prefix : Str) (offset : ℕ)
    → scan m next (length next) prefix offset vs ≡ or_start (best m next vs) (prefix, offset)
unfolding scan best
scan-best m [] next prefix offset = refl
scan-best m (v ∷ vs) next prefix offset = rw (length-next next v) (
    scan-best m vs (next ++ b'/' ∷ v) _ _
    ∙ ap (or_start (best m (next ++ b'/' ∷ v) vs)) (pair_if (Map.has m (next ++ b'/' ∷ v)) _ _ _ _)
    ∙ or_start-found (best m (next ++ b'/' ∷ v) vs) _ (Map.has m (next ++ b'/' ∷ v)) _)

-- What is found is registered, is the beginning of the whole text, and is no shorter than the start.
pub best-has :
    (m : Map Str Balancer) (vs : List Str) (next p : Str)
    → best m next vs ≡ some p
    → Map.has m p ≡ true
unfolding best
best-has m [] next p h = cc
best-has m (v ∷ vs) next p h = ground (arith, best-has m vs (next ++ b'/' ∷ v) p)

-- What a step of `best` returns comes from the later parts, or is the text of this step.
best-step :
    (m : Map Str Balancer) (v : Str) (vs : List Str) (next p : Str)
    → best m next (v ∷ vs) ≡ some p
    → (best m (next ++ b'/' ∷ v) vs ≡ some p) ⊎ (next ++ b'/' ∷ v ≡ p)
unfolding best
best-step m v vs next p h = ground arith

pub best-prefix :
    (m : Map Str Balancer) (vs : List Str) (next p : Str)
    → best m next vs ≡ some p
    → (r : Str) × (p ++ r ≡ next ++ glue b'/' vs)
unfolding best glue
best-prefix m [] next p h = cc
best-prefix m (v ∷ vs) next p h = elim (best-step m v vs next p h) [
  | inl later ↦
      let (r, e) = best-prefix m vs (next ++ b'/' ∷ v) p later in
      (r, e ∙ append_assoc next (b'/' ∷ v) (glue b'/' vs))
  | inr here ↦ (glue b'/' vs, rw (← here) (append_assoc next (b'/' ∷ v) (glue b'/' vs)))
]

best-length :
    (m : Map Str Balancer) (vs : List Str) (next p : Str)
    → best m next vs ≡ some p
    → length next ≤ length p
unfolding best
best-length m [] next p h = cc
best-length m (v ∷ vs) next p h = elim (best-step m v vs next p h) [
  | inl later ↦
      omega (arith, best-length m vs (next ++ b'/' ∷ v) p later, length-append {0} next (b'/' ∷ v))
  | inr here ↦ omega (arith, ap length here, length-append {0} next (b'/' ∷ v))
]

best-here :
    (m : Map Str Balancer) (v : Str) (vs : List Str) (next : Str)
    → Map.has m (next ++ b'/' ∷ v) ≡ true
    → (p : Str) × (best m next (v ∷ vs) ≡ some p) × (length (next ++ b'/' ∷ v) ≤ length p)
unfolding best
best-here m v vs next r = elim (Option-cases (best m (next ++ b'/' ∷ v) vs)) [
  | inl none_ahead ↦ (next ++ b'/' ∷ v, rw (none_ahead, r), omega arith)
  | inr (p, found) ↦ (p, rw found, best-length m vs (next ++ b'/' ∷ v) p found)
]

best-later :
    (m : Map Str Balancer) (v : Str) (vs : List Str) (next p : Str)
    → best m (next ++ b'/' ∷ v) vs ≡ some p
    → best m next (v ∷ vs) ≡ some p
unfolding best
best-later m v vs next p h = rw h

-- Every registered text on the way is no longer than what is found.
pub best-longest :
    (m : Map Str Balancer) (vs : List Str) (next : Str) (n : ℕ)
    → n < length vs
    → Map.has m (next ++ glue b'/' (take (suc n) vs)) ≡ true
    → (p : Str) × (best m next vs ≡ some p)
      × (length (next ++ glue b'/' (take (suc n) vs)) ≤ length p)
unfolding glue
best-longest m [] next n h r = elim h [ ]
best-longest m (v ∷ vs) next zero h r =
    rw (append-nil (b'/' ∷ v)) (best-here m v vs next (rw (append-nil (b'/' ∷ v)) at r))
best-longest m (v ∷ vs) next (suc n) h r =
    let e = append_assoc next (b'/' ∷ v) (glue b'/' (take (suc n) vs)) in
    let (p, found, le) = best-longest m vs (next ++ b'/' ∷ v) n (omega arith) (rw e r) in
    (p, best-later m v vs next p found, omega (arith, ap length e))
