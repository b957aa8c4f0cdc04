-- ===== src/Prelude/Map.antt =====
-- Go's map as an association list without repeated keys: `put` is m[k] = v, `remove` is delete.
-- A range over the map meets the entries in the order of the list.
use mathlib.Core.Path.{◌≡◌, refl}
use mathlib.Core.Logic.{◌≢◌}
use mathlib.Core.Bool.{Bool, true, false}
use mathlib.Core.Option.{Option, none, some}
use mathlib.Core.List.{List, [], ◌∷◌}
use native.Mathlib.Omega.{arith}
use vermouth.Prelude.Tests.{Eq, ◌==◌, if◌then◌else◌}

abbrev pub Map {ℓ κ} : Type ℓ → Type κ → Type (ℓ ⊔ κ)
Map K V = List (K × V)

-- v, ok := m[k], with `ok` alone
abbrev pub is_some {ℓ} : {V : Type ℓ} → Option V → Bool
is_some none = false
is_some (some v) = true

module _ {ℓ κ} {K : Type ℓ} {V : Type κ} ⦃e : Eq K⦄ where
  unfoldable pub get : Map K V → K → Option V
  get [] k = none
  get ((j, v) ∷ m) k = if j == k then some v else get m k

  unfoldable pub remove : Map K V → K → Map K V
  remove [] k = []
  remove ((j, v) ∷ m) k = if j == k then remove m k else (j, v) ∷ remove m k

  unfoldable pub put : Map K V → K → V → Map K V
  unfolding remove
  put m k v = (k, v) ∷ remove m k

  unfoldable pub has : Map K V → K → Bool
  unfolding get
  has m k = is_some (get m k)

  pub get-remove : (m : Map K V) (k j : K) → get (remove m k) j ≡ (if k == j then none else get m j)
  unfolding get remove
  get-remove [] k j = ground arith
  get-remove ((i, v) ∷ m) k j =
      ground (arith, get-remove m k j, e.equal_iff i k, e.equal_iff i j, e.equal_iff k j)

  pub get-put :
      (m : Map K V) (k j : K) (v : V) → get (put m k v) j ≡ (if k == j then some v else get m j)
  unfolding get put
  get-put m k j v = ground (arith, get-remove m k j)

  pub has-put :
      (m : Map K V) (k j : K) (v : V) → has (put m k v) j ≡ (if k == j then true else has m j)
  unfolding has
  has-put m k j v = ground (arith, get-put m k j v)

  pub has-remove :
      (m : Map K V) (k j : K) → has (remove m k) j ≡ (if k == j then false else has m j)
  unfolding has
  has-remove m k j = ground (arith, get-remove m k j)

  pub get-is_some : (m : Map K V) (k : K) → has m k ≡ true → (v : V) × (get m k ≡ some v)
  unfolding has
  get-is_some m k h = ground arith

  pub get-is_none : (m : Map K V) (k : K) → has m k ≡ false → get m k ≡ none
  unfolding has
  get-is_none m k h = ground arith

  pub get-put_self : (m : Map K V) (k : K) (v : V) → get (put m k v) k ≡ some v
  get-put_self m k v = ground (arith, get-put m k k v, e.equal_iff k k)

  pub get-remove_self : (m : Map K V) (k : K) → get (remove m k) k ≡ none
  get-remove_self m k = ground (arith, get-remove m k k, e.equal_iff k k)

  pub has_of_get : (m : Map K V) (k : K) → get m k ≢ none → has m k ≡ true
  unfolding has
  has_of_get m k h = ground arith

  pub has_of_none : (m : Map K V) (k : K) → get m k ≡ none → has m k ≡ false
  unfolding has
  has_of_none m k h = rw h

  pub remove-absent : (m : Map K V) (k : K) → has m k ≡ false → remove m k ≡ m
  unfolding has get remove
  remove-absent [] k h = refl
  remove-absent ((j, v) ∷ m) k h = ground (arith, remove-absent m k)
