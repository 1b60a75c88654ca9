-- ===== src/Base/Results.antt =====
-- The outcome of code that can panic (a slice index out of range, `unwrap` or `expect` of `None`,
-- a failed `assert!`) or run into undefined behaviour (`unreachable_unchecked`).
use mathlib.Core.Option.{Option, none, some}
use mathlib.Core.Bool.{Bool, true, false}
use mathlib.Core.Path.{◌≡◌, refl}
use native.Mathlib.Omega.{arith}

pub data Outcome {ℓ} (A : Type ℓ) : Type ℓ where
  ok : A → Outcome A
  panic : Outcome A
  undefined_behaviour : Outcome A

infixl 5 ◌>>=◌ ◌>>◌
abbrev pub ◌>>=◌ {ℓ κ} : {A : Type ℓ} {B : Type κ} → Outcome A → (A → Outcome B) → Outcome B
ok a >>= f = f a
panic >>= f = panic
undefined_behaviour >>= f = undefined_behaviour

abbrev pub ◌>>◌ {ℓ κ} : {A : Type ℓ} {B : Type κ} → Outcome A → Outcome B → Outcome B
m >> k = m >>= λ _. k

-- `unwrap`, `expect`.
abbrev pub unwrap {ℓ} : {A : Type ℓ} → Option A → Outcome A
unwrap none = panic
unwrap (some a) = ok a

-- `unwrap_or_else(|| unsafe { unreachable_unchecked() })`.
abbrev pub unwrap_unchecked {ℓ} : {A : Type ℓ} → Option A → Outcome A
unwrap_unchecked none = undefined_behaviour
unwrap_unchecked (some a) = ok a

-- `assert!`.
abbrev pub assert : Bool → Outcome (Unit {0})
assert true = ok tt
assert false = panic

-- The steps of a chain that succeeds succeed.
pub bind-ok :
    {A B : Type 0} (m : Outcome A) (f : A → Outcome B) (b : B)
    → (m >>= f) ≡ ok b
    → (a : A) × (m ≡ ok a) × (f a ≡ ok b)
bind-ok (ok a) f b h = (a, refl, h)
bind-ok panic f b h = absurd (ground arith)
bind-ok undefined_behaviour f b h = absurd (ground arith)

pub ok-injective : {A : Type 0} {a b : A} → ok a ≡ ok b → a ≡ b
ok-injective h = ground arith

pub unwrap-ok : {A : Type 0} (o : Option A) (a : A) → unwrap o ≡ ok a → o ≡ some a
unwrap-ok o a h = ground arith

-- `Result`.
pub data Result {ℓ κ} (E : Type ℓ) (A : Type κ) : Type (ℓ ⊔ κ) where
  err : E → Result E A
  good : A → Result E A
