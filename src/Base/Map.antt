-- ===== src/Base/Map.antt =====
-- The hash maps of the source (`hashbrown::HashMap`, `indexmap::IndexMap`) as association lists,
-- keys in order of insertion: an `IndexMap` is this list; code that depends on the order of a
-- `HashMap` takes that order as a parameter.
use Prim.Native.Nat.{ℕ, zero, suc}
use Prim.Native.String.{String}
use mathlib.Core.Path.{◌≡◌, refl, ap, ◌∙◌}
use mathlib.Core.Logic.{◌↔◌, inl, inr}
use mathlib.Core.Bool.{Bool, true, false, ◌||◌}
use mathlib.Core.Option.{Option, none, some}
use mathlib.Core.List.{List, [], ◌∷◌}
use native.Mathlib.Omega.{arith}
use text.Mathlib.Text.{◌==◌ as str_eq}
use text.Mathlib.TextEquality.{eq_iff}
use persia.Base.Nat.{◌==◌, ==_iff, if◌then◌else◌, Bool-cases}
use persia.Base.Lists.{get_elem?}

-- The `Eq` bound of a key type.
pub record Eq {ℓ} (K : Type ℓ) : Type ℓ where
  pub beq : K → K → Bool
  pub beq_iff : (a b : K) → (beq a b ≡ true) ↔ (a ≡ b)

instance abbrev pub nat_eq : Eq ℕ
nat_eq = record { beq = ◌==◌; beq_iff = ==_iff }

instance abbrev pub string_eq : Eq String
string_eq = record { beq = str_eq; beq_iff = eq_iff }

abbrev pub Map {ℓ κ} : Type ℓ → Type κ → Type (ℓ ⊔ κ)
Map K V = List (K × V)

abbrev pub is_some {ℓ} : {A : Type ℓ} → Option A → Bool
is_some none = false
is_some (some a) = true

pub beq_self {ℓ} : {K : Type ℓ} ⦃e : Eq K⦄ (k : K) → e.beq k k ≡ true
beq_self ⦃e⦄ k = (e.beq_iff k k).1 refl

module _ {ℓ κ} {K : Type ℓ} {V : Type κ} ⦃e : Eq K⦄ where
  unfoldable pub get : Map K V → K → Option V
  get [] k = none
  get ((j, v) ∷ m) k = if e.beq j k then some v else get m k

  -- A key that is there keeps its place.
  unfoldable pub insert : Map K V → K → V → Map K V
  insert [] k v = (k, v) ∷ []
  insert ((j, w) ∷ m) k v = if e.beq j k then (j, v) ∷ m else (j, w) ∷ insert m k v

  unfoldable pub remove : Map K V → K → Map K V
  remove [] k = []
  remove ((j, w) ∷ m) k = if e.beq j k then remove m k else (j, w) ∷ remove m k

  unfoldable pub contains_key : Map K V → K → Bool
  contains_key [] k = false
  contains_key ((j, w) ∷ m) k = e.beq j k || contains_key m k

  pub get-insert :
      (m : Map K V) (k : K) (v : V) (j : K)
      → get (insert m k v) j ≡ (if e.beq k j then some v else get m j)
  unfolding get insert
  get-insert [] k v j = refl
  get-insert ((i, w) ∷ m) k v j =
      ground (arith, e.beq_iff i k, e.beq_iff i j, e.beq_iff k j, get-insert m k v j)

  pub get-remove :
      (m : Map K V) (k j : K) → get (remove m k) j ≡ (if e.beq k j then none else get m j)
  unfolding get remove
  get-remove [] k j = ground arith
  get-remove ((i, w) ∷ m) k j =
      ground (arith, e.beq_iff i k, e.beq_iff i j, e.beq_iff k j, get-remove m k j)

  pub get-insert_self : (m : Map K V) (k : K) (v : V) → get (insert m k v) k ≡ some v
  get-insert_self m k v = rw (get-insert, beq_self)

  abbrev pub UniqueKeys : Map K V → Type 0
  UniqueKeys [] = Unit
  UniqueKeys ((k, v) ∷ m) = (contains_key m k ≡ false) × UniqueKeys m

  pub contains_key-get : (m : Map K V) (k : K) → contains_key m k ≡ is_some (get m k)
  unfolding contains_key get
  contains_key-get [] k = refl
  contains_key-get ((j, v) ∷ m) k = ground (arith, contains_key-get m k)

  contains_key-insert :
      (m : Map K V) (k : K) (v : V) (j : K)
      → contains_key (insert m k v) j ≡ (e.beq k j || contains_key m j)
  contains_key-insert m k v j =
      rw (contains_key-get (insert m k v) j, get-insert m k v j, contains_key-get m j)
        (split (e.beq k j) (get m j))
    where
      split : (b : Bool) (o : Option V) → is_some (if b then some v else o) ≡ (b || is_some o)
      split true o = refl
      split false o = refl

  pub insert-UniqueKeys : (m : Map K V) (k : K) (v : V) → UniqueKeys m → UniqueKeys (insert m k v)
  unfolding insert contains_key
  insert-UniqueKeys [] k v u = (refl, tt)
  insert-UniqueKeys ((j, w) ∷ m) k v u = elim (Bool-cases (e.beq j k)) [
    | inl h ↦ rw h u
    | inr h ↦ rw h (rw (contains_key-insert m k v j) (apart h u.0), insert-UniqueKeys m k v u.1)
  ]
    where
      apart : e.beq j k ≡ false → contains_key m j ≡ false → (e.beq k j || contains_key m j) ≡ false
      apart h g = ground (arith, e.beq_iff j k, e.beq_iff k j)

module _ {K : Type 0} {V : Type 0} ⦃e : Eq K⦄ where
  -- The entry of a key is the one that a lookup finds.
  pub get_of_entry :
      (m : Map K V) (i : ℕ) (k : K) (v : V)
      → UniqueKeys m
      → get_elem? m i ≡ some (k, v)
      → get m k ≡ some v
  unfolding get contains_key
  get_of_entry [] i k v u h = ground arith
  get_of_entry ((j, w) ∷ m) zero k v u h = ground (arith, beq_self k)
  get_of_entry ((j, w) ∷ m) (suc i) k v u h =
      rw
        (other (e.beq j k)
          (λ q.
            ap (contains_key m) ((e.beq_iff j k).0 q)
            ∙ rw (contains_key-get m k, get_of_entry m i k v u.1 h) refl)
          u.0)
        (get_of_entry m i k v u.1 h)
    where
      other :
          (b : Bool) → (b ≡ true → contains_key m j ≡ true) → contains_key m j ≡ false → b ≡ false
      other true f g = ground (arith, f refl)
      other false f g = refl

-- The order in which the loops over a `HashMap` visit its entries: each entry once, in an order
-- that only the map determines. So `iter` and a later `into_iter` of one map agree: the source relies on
-- that where it numbers the entries, although hashbrown does not document it.
pub record HashOrder : Type 1 where
  pub order : {V : Type 0} → Map ℕ V → Map ℕ V
  pub get-order : {V : Type 0} (m : Map ℕ V) (k : ℕ) → get (order m) k ≡ get m k
  pub order-UniqueKeys : {V : Type 0} (m : Map ℕ V) → UniqueKeys m → UniqueKeys (order m)
