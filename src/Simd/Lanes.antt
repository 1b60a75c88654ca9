-- ===== src/Simd/Lanes.antt =====
-- The floats, the vectors of eight and the two kinds of loop of rust/persia-simd/src/lib.rs.
use persia.Base.{
  ℕ, zero, suc, ◌+◌, List, [], ◌∷◌, get_elem?, set, Outcome, ok, undefined_behaviour, ◌>>=◌, unwrap,
}

-- The f32 of the source with the operations that it uses. An intrinsic does one operation
-- in each of the eight lanes of a vector: those of AVX2 that round or order in their own way are fields of their own.
pub record Floats : Type 1 where
  pub F : Type 0
  pub zero : F
  pub one : F
  pub of_nat : ℕ → F
  pub add : F → F → F
  pub sub : F → F → F
  pub mul : F → F → F
  pub div : F → F → F
  pub neg : F → F
  pub sqrt : F → F
  pub recip : F → F
  pub max : F → F → F
  pub min : F → F → F
  -- The lanes of _mm256_fmadd_ps (a * b + c, rounded once), _mm256_fnmadd_ps (- a * b + c, rounded
  -- once), _mm256_rsqrt_ps (approximate), _mm256_max_ps and _mm256_min_ps.
  pub fmadd : F → F → F → F
  pub fnmadd : F → F → F → F
  pub rsqrt : F → F
  pub lane_max : F → F → F
  pub lane_min : F → F → F

-- `__m256`.
pub record M256 {ℓ} (F : Type ℓ) : Type ℓ where
  pub lane0 : F
  pub lane1 : F
  pub lane2 : F
  pub lane3 : F
  pub lane4 : F
  pub lane5 : F
  pub lane6 : F
  pub lane7 : F

module _ {ℓ} {F : Type ℓ} where
  -- `_mm256_set1_ps`.
  abbrev pub set1_ps : F → M256 F
  set1_ps x = record {
    lane0 = x;
    lane1 = x;
    lane2 = x;
    lane3 = x;
    lane4 = x;
    lane5 = x;
    lane6 = x;
    lane7 = x;
  }

  abbrev pub lanewise : (F → F) → M256 F → M256 F
  lanewise f a = record {
    lane0 = f a.lane0;
    lane1 = f a.lane1;
    lane2 = f a.lane2;
    lane3 = f a.lane3;
    lane4 = f a.lane4;
    lane5 = f a.lane5;
    lane6 = f a.lane6;
    lane7 = f a.lane7;
  }

  abbrev pub lanewise2 : (F → F → F) → M256 F → M256 F → M256 F
  lanewise2 f a b = record {
    lane0 = f a.lane0 b.lane0;
    lane1 = f a.lane1 b.lane1;
    lane2 = f a.lane2 b.lane2;
    lane3 = f a.lane3 b.lane3;
    lane4 = f a.lane4 b.lane4;
    lane5 = f a.lane5 b.lane5;
    lane6 = f a.lane6 b.lane6;
    lane7 = f a.lane7 b.lane7;
  }

  abbrev pub lanewise3 : (F → F → F → F) → M256 F → M256 F → M256 F → M256 F
  lanewise3 f a b c = record {
    lane0 = f a.lane0 b.lane0 c.lane0;
    lane1 = f a.lane1 b.lane1 c.lane1;
    lane2 = f a.lane2 b.lane2 c.lane2;
    lane3 = f a.lane3 b.lane3 c.lane3;
    lane4 = f a.lane4 b.lane4 c.lane4;
    lane5 = f a.lane5 b.lane5 c.lane5;
    lane6 = f a.lane6 b.lane6 c.lane6;
    lane7 = f a.lane7 b.lane7 c.lane7;
  }

  -- The eight floats at the front of a slice; a read or write beyond the slice is undefined behaviour.
  abbrev pub load_front : List F → Outcome (M256 F)
  load_front (a ∷ b ∷ c ∷ d ∷ e ∷ f ∷ g ∷ h ∷ xs) = ok record {
    lane0 = a;
    lane1 = b;
    lane2 = c;
    lane3 = d;
    lane4 = e;
    lane5 = f;
    lane6 = g;
    lane7 = h;
  }
  load_front xs = undefined_behaviour

  abbrev pub store_front : List F → M256 F → Outcome (List F)
  store_front (a ∷ b ∷ c ∷ d ∷ e ∷ f ∷ g ∷ h ∷ xs) v =
      ok (v.lane0 ∷ v.lane1 ∷ v.lane2 ∷ v.lane3 ∷ v.lane4 ∷ v.lane5 ∷ v.lane6 ∷ v.lane7 ∷ xs)
  store_front xs v = undefined_behaviour

  -- `_mm256_loadu_ps` at an offset.
  abbrev pub loadu_ps : List F → ℕ → Outcome (M256 F)
  loadu_ps xs zero = load_front xs
  loadu_ps [] (suc n) = undefined_behaviour
  loadu_ps (x ∷ xs) (suc n) = loadu_ps xs n

  -- `_mm256_storeu_ps` at an offset.
  abbrev pub storeu_ps : List F → ℕ → M256 F → Outcome (List F)
  storeu_ps xs zero v = store_front xs v
  storeu_ps [] (suc n) v = undefined_behaviour
  storeu_ps (x ∷ xs) (suc n) v = do ys ← storeu_ps xs n v; ok (x ∷ ys)

  -- `xs[i]` and `xs[i] = v`.
  abbrev pub index : List F → ℕ → Outcome F
  index xs i = unwrap (get_elem? xs i)

  abbrev pub write : List F → ℕ → F → Outcome (List F)
  write xs i v = do old ← index xs i; ok (set xs i v)

module _ {ℓ} {S : Type ℓ} where
  -- `for i in (0..end).step_by(8)`, with the number of steps.
  abbrev pub for_step8 : (body : ℕ → S → Outcome S) (n i : ℕ) → S → Outcome S
  for_step8 body zero i s = ok s
  for_step8 body (suc n) i s = body i s >>= for_step8 body n (i + 8)

  -- `for i in end..length`, with the number of steps.
  abbrev pub for_range : (body : ℕ → S → Outcome S) (n i : ℕ) → S → Outcome S
  for_range body zero i s = ok s
  for_range body (suc n) i s = body i s >>= for_range body n (i + 1)
