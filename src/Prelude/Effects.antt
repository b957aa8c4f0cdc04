-- ===== src/Prelude/Effects.antt =====
-- What a call of a Go function can do: return, panic, or wait for ever on a lock or in a loop.
-- An operation that may fail returns a `Result`, Go's pair of a value and an error.
use mathlib.Core.Path.{◌≡◌, refl}
use mathlib.Core.Bool.{Bool, true, false, ◌||◌}
use Prim.Native.Nat.{ℕ, ◌+◌, ◌-◌}
use vermouth.Prelude.Tests.{ltb, if◌then◌else◌}

pub data Go {ℓ} (A : Type ℓ) : Type ℓ where
  ret : A → Go A
  panic : Go A
  block : Go A

infixl 5 ◌>>=◌ ◌>>◌
abbrev pub ◌>>=◌ {ℓ κ} : {A : Type ℓ} {B : Type κ} → Go A → (A → Go B) → Go B
ret a >>= f = f a
panic >>= f = panic
block >>= f = block

abbrev pub ◌>>◌ {ℓ κ} : {A : Type ℓ} {B : Type κ} → Go A → Go B → Go B
m >> k = m >>= λ _. k

pub >>=-eq-ret {ℓ κ} :
    {A : Type ℓ} {B : Type κ} (m : Go A) (f : A → Go B) {b : B}
    → (m >>= f) ≡ ret b
    → (a : A) × (m ≡ ret a) × (f a ≡ ret b)
>>=-eq-ret (ret a) f h = (a, refl, h)
>>=-eq-ret panic f h = cc
>>=-eq-ret block f h = cc

pub ret-injective {ℓ} : {A : Type ℓ} {a b : A} → ret a ≡ ret b → a ≡ b
ret-injective h = cc

-- sync.RWMutex: whether a writer holds it, and how many readers do.
pub record RwMutex : Type 0 where
  pub writer : Bool
  pub readers : ℕ

abbrev pub unlocked : RwMutex
unlocked = record { writer = false; readers = 0 }

-- In a run where nobody else releases the lock, a caller that finds it taken waits for ever.
unfoldable pub lock : RwMutex → Go RwMutex
lock m = if m.writer || ltb 0 m.readers then block else ret (record m { writer = true })

unfoldable pub unlock : RwMutex → RwMutex
unlock m = record m { writer = false }

unfoldable pub r_lock : RwMutex → Go RwMutex
r_lock m = if m.writer then block else ret (record m { readers = m.readers + 1 })

unfoldable pub r_unlock : RwMutex → RwMutex
r_unlock m = record m { readers = m.readers - 1 }

pub data Result {ℓ κ} (E : Type ℓ) (A : Type κ) : Type (ℓ ⊔ κ) where
  ok : A → Result E A
  err : E → Result E A

pub >>=-ext {ℓ κ} :
    {A : Type ℓ} {B : Type κ} (m : Go A) {f g : A → Go B}
    → ((a : A) → f a ≡ g a)
    → (m >>= f) ≡ (m >>= g)
>>=-ext (ret a) h = h a
>>=-ext panic h = refl
>>=-ext block h = refl
