-- ===== src/Base/Nat.antt =====
-- Boolean tests on the native numbers, the conditional, and machine words.
use Prim.Native.Nat.{ℕ, ◌+◌, ◌-◌, ◌%◌, ◌≤◌, ◌<◌, compare, Ordering}
use mathlib.Core.Path.{◌≡◌, refl}
use mathlib.Core.Logic.{◌↔◌, ◌⊎◌, inl, inr}
use mathlib.Core.Bool.{Bool, true, false}
use mathlib.Core.Option.{Option, none, some}
use native.Mathlib.Omega.{arith}

abbrev pub ltb : ℕ → ℕ → Bool
ltb a b = elim (compare a b) [ Ordering.lt ↦ true | _ ↦ false ]

abbrev pub leb : ℕ → ℕ → Bool
leb a b = elim (compare a b) [ Ordering.gt ↦ false | _ ↦ true ]

infix 50 ◌==◌
abbrev pub ◌==◌ : ℕ → ℕ → Bool
a == b = elim (compare a b) [ Ordering.eq ↦ true | _ ↦ false ]

infix 1 if◌then◌else◌
abbrev pub if◌then◌else◌ {ℓ} : {A : Type ℓ} → Bool → A → A → A
if true then x else y = x
if false then x else y = y

pub ==_iff : (a b : ℕ) → ((a == b) ≡ true) ↔ (a ≡ b)
==_iff a b = ground arith

pub Bool-cases : (b : Bool) → (b ≡ true) ⊎ (b ≡ false)
Bool-cases true = inl refl
Bool-cases false = inr refl

pub Option-cases {ℓ} : {A : Type ℓ} (o : Option A) → (o ≡ none) ⊎ ((a : A) × (o ≡ some a))
Option-cases none = inl refl
Option-cases (some a) = inr (a, refl)

-- The number of values of a u32, and of a u64 (and usize on the 64-bit targets).
abbrev pub u32_size : ℕ
u32_size = 4294967296

abbrev pub u64_size : ℕ
u64_size = 18446744073709551616

-- Release builds wrap around; a difference of two words wraps where it would be negative.
unfoldable pub u32_add : ℕ → ℕ → ℕ
u32_add a b = (a + b) % u32_size

unfoldable pub u32_sub : ℕ → ℕ → ℕ
u32_sub a b = if ltb a b then a + u32_size - b else a - b

unfoldable pub usize_sub : ℕ → ℕ → ℕ
usize_sub a b = if ltb a b then a + u64_size - b else a - b

pub u32_add_lem : (a b : ℕ) → a + b < u32_size → u32_add a b ≡ a + b
unfolding u32_add
u32_add_lem a b h = omega arith

pub u32_sub_lem : (a b : ℕ) → b ≤ a → u32_sub a b ≡ a - b
unfolding u32_sub
u32_sub_lem a b h = ground arith

pub usize_sub_lem : (a b : ℕ) → b ≤ a → usize_sub a b ≡ a - b
unfolding usize_sub
usize_sub_lem a b h = ground arith

pub ==_self : (a : ℕ) → (a == a) ≡ true
==_self a = ground arith

-- The nanoseconds of a second.
abbrev pub nanos : ℕ
nanos = 1000000000
