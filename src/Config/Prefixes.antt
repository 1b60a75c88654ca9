-- ===== src/Config/Prefixes.antt =====
-- The prefixes that `parse_embedding_config` (persia-embedding-config/src/lib.rs) gives.
use Prim.Native.String.{String}
use native.Mathlib.Nat.{pow-suc, mul-lt-mul_of_pos_right, one-le-pow, mod-eq_of_lt, mul-div_cancel}
use persia.Base.{
  ℕ, zero, suc, ◌+◌, ◌-◌, ◌*◌, ◌/◌, ◌^◌, ◌%◌, ◌≤◌, ◌<◌, ◌≡◌, refl, sym, ap, subst, ◌∙◌, inl, inr,
  Bool-cases, Bool, true, false, Option, none, some, List, [], ◌∷◌, arith, ltb, ◌==◌, if◌then◌else◌,
  u32_size, u64_size, u32_sub, length, omap, ok, bind-ok, ok-injective, unwrap-ok, unwrap, assert,
}
use persia.Base.Map.{string_eq, Map, get}
use persia.Config.{SlotConfig, checked_shl, group_prefix, get_index_of, set_prefixes}

pow_add : (a b : ℕ) → 2 ^ a * 2 ^ b ≡ 2 ^ (a + b)
pow_add zero b = one_mul (2 ^ b) ∙ ap (λ n. 2 ^ n) (zero_add b)
  where
    one_mul : (n : ℕ) → 1 * n ≡ n
    one_mul n = omega arith

    zero_add : (n : ℕ) → n ≡ 0 + n
    zero_add n = omega arith
pow_add (suc a) b =
    ap (λ n. n * 2 ^ b) (pow-suc 2 a)
    ∙ swap (2 ^ a) (2 ^ b)
    ∙ ap (λ n. n * 2) (pow_add a b)
    ∙ sym (pow-suc 2 (a + b))
    ∙ ap (λ n. 2 ^ n) (suc_add a b)
  where
    swap : (x y : ℕ) → x * 2 * y ≡ x * y * 2
    swap x y = grind arith

    suc_add : (x y : ℕ) → suc (x + y) ≡ suc x + y
    suc_add x y = omega arith

word : (bits : ℕ) → bits ≤ 64 → 2 ^ bits * 2 ^ (64 - bits) ≡ u64_size
word bits h = pow_add bits (64 - bits) ∙ ap (λ n. 2 ^ n) (sum bits h)
  where
    sum : (n : ℕ) → n ≤ 64 → n + (64 - n) ≡ 64
    sum n b = omega arith

bias : (bits : ℕ) → bits ≤ 64 → u32_sub 64 (bits % u32_size) ≡ 64 - bits
unfolding u32_sub
bias bits h = ground arith

shift_test : (bits : ℕ) → 0 < bits → ltb (64 - bits) 64 ≡ true
shift_test bits h = ground arith

-- A prefix whose group fits in the bits is the number of the group in the top bits of the word.
pub group_prefix-value :
    (bits feature_group_index : ℕ)
    → 0 < bits
    → bits ≤ 64
    → feature_group_index + 1 < 2 ^ bits
    → group_prefix bits feature_group_index ≡ ok ((feature_group_index + 1) * 2 ^ (64 - bits))
unfolding group_prefix checked_shl
group_prefix-value bits i pos le fits =
    rw (bias bits le, shift_test bits pos)
      (ap ok (
        mod-eq_of_lt (
          subst (λ n. (i + 1) * 2 ^ (64 - bits) < n) (word bits le)
            (mul-lt-mul_of_pos_right fits (one-le-pow (64 - bits) 2 (omega arith))))))

-- The group after those that fit gets the prefix 0, which is none: the shift loses its bits, and
-- no overflow is reported.
pub group_prefix-lost :
    (bits feature_group_index : ℕ)
    → 0 < bits
    → bits ≤ 64
    → feature_group_index + 1 ≡ 2 ^ bits
    → group_prefix bits feature_group_index ≡ ok 0
unfolding group_prefix checked_shl
group_prefix-lost bits i pos le full =
    rw (bias bits le, shift_test bits pos)
      (ap (λ n. ok (n * 2 ^ (64 - bits) % u64_size)) full
        ∙ ap (λ n. ok (n % u64_size)) (word bits le))

mul_cancel : (a b p : ℕ) → 0 < p → a * p ≡ b * p → a ≡ b
mul_cancel a b p h e = sym (mul-div_cancel a h) ∙ ap (λ n. n / p) e ∙ mul-div_cancel b h

get_index_of-bound :
    {V : Type 0} (m : Map String V) (k : String) (i : ℕ) → get_index_of m k ≡ some i → i < length m
unfolding get_index_of
get_index_of-bound [] k i h = ground arith
get_index_of-bound ((j, v) ∷ m) k i h =
    step (string_eq.beq j k) (get_index_of m k) i (get_index_of-bound m k) h
  where
    step :
        (t : Bool) (o : Option ℕ) (i : ℕ)
        → ((n : ℕ) → o ≡ some n → n < length m)
        → (if t then some 0 else omap suc o) ≡ some i
        → i < suc (length m)
    step true o i f h = ground arith
    step false none i f h = ground arith
    step false (some n) i f h = ground (arith, f n refl)

omap-suc : (o : Option ℕ) (i : ℕ) → omap suc o ≡ some i → (n : ℕ) × (o ≡ some n) × (i ≡ suc n)
omap-suc none i h = absurd (ground arith)
omap-suc (some n) i h = (n, refl, ground arith)

clash : (o : Option ℕ) (i : ℕ) → some 0 ≡ some i → omap suc o ≡ some i → ⊥
clash none i h g = ground arith
clash (some n) i h g = ground arith

same_pred : (n' n i : ℕ) → i ≡ suc n' → i ≡ suc n → n' ≡ n
same_pred n' n i a b = omega arith

get_index_of-injective :
    {V : Type 0} (m : Map String V) (j k : String) (i : ℕ)
    → get_index_of m j ≡ some i
    → get_index_of m k ≡ some i
    → j ≡ k
unfolding get_index_of
get_index_of-injective [] j k i h g = ground arith
get_index_of-injective ((l, v) ∷ m) j k i h g = elim (Bool-cases (string_eq.beq l j)) [
  | inl x ↦ elim (Bool-cases (string_eq.beq l k)) [
    | inl y ↦ sym ((string_eq.beq_iff l j).0 x) ∙ (string_eq.beq_iff l k).0 y
    | inr y ↦ absurd (clash (get_index_of m k) i (rw x at h) (rw y at g))
  ]
  | inr x ↦ elim (Bool-cases (string_eq.beq l k)) [
    | inl y ↦ absurd (clash (get_index_of m j) i (rw y at g) (rw x at h))
    | inr y ↦
        let (n, e, d) = omap-suc (get_index_of m j) i (rw x at h) in
        let (n', e', d') = omap-suc (get_index_of m k) i (rw y at g) in
        get_index_of-injective m j k n e
          (subst (λ r. get_index_of m k ≡ some r) (same_pred n' n i d' d) e')
  ]
]

some-injective : (a b : ℕ) → some a ≡ some b → a ≡ b
some-injective a b h = ground arith

-- What the third loop gives to a slot.
set_prefixes-slot :
    (bits : ℕ) (m : Map String String) (groups : Map String (List String))
    (slots slots' : Map String SlotConfig) (a : String) (s : SlotConfig)
    → set_prefixes bits m groups slots ≡ ok slots'
    → get slots' a ≡ some s
    → (group : String) × (i : ℕ) × (get m a ≡ some group)
      × (get_index_of groups group ≡ some i)
      × (group_prefix bits i ≡ ok s.index_prefix)
unfolding set_prefixes get
set_prefixes-slot bits m groups [] slots' a s h g =
    absurd (absent (subst (λ x. get x a ≡ some s) (sym (ok-injective h)) g))
  where
    absent : get [] a ≡ some s → ⊥
    absent e = ground arith
set_prefixes-slot bits m groups ((n, slot) ∷ slots) slots' a s h g =
    let (u, _, h1) = bind-ok (assert (slot.index_prefix == 0)) _ slots' h in
    let (group, e, h2) = bind-ok (unwrap (get m n)) _ slots' h1 in
    let (i, d, h3) = bind-ok (unwrap (get_index_of groups group)) _ slots' h2 in
    let (p, q, h4) = bind-ok (group_prefix bits i) _ slots' h3 in
    let (rest, r, h5) = bind-ok (set_prefixes bits m groups slots) _ slots' h4 in
    elim (Bool-cases (string_eq.beq n a)) [
      | inl k ↦ (
        group,
        i,
        subst (λ x. get m x ≡ some group) ((string_eq.beq_iff n a).0 k)
            (unwrap-ok (get m n) group e),
        unwrap-ok (get_index_of groups group) i d,
        q
            ∙ ap ok (
                some-injective p s.index_prefix (
                  ap (omap (λ x. x.index_prefix))
                    (rw k at (subst (λ x. get x a ≡ some s) (sym (ok-injective h5)) g)))),
      )
      | inr k ↦
          set_prefixes-slot bits m groups slots rest a s r
            (rw k at (subst (λ x. get x a ≡ some s) (sym (ok-injective h5)) g))
    ]

-- The third loop of `parse_embedding_config`: when there are fewer groups than the prefix bits
-- tell apart, two slots with the same prefix are in the same feature group.
pub set_prefixes-separates :
    (bits : ℕ) (m : Map String String) (groups : Map String (List String))
    (slots slots' : Map String SlotConfig) (a b : String) (s t : SlotConfig)
    → 0 < bits
    → bits ≤ 64
    → length groups < 2 ^ bits
    → set_prefixes bits m groups slots ≡ ok slots'
    → get slots' a ≡ some s
    → get slots' b ≡ some t
    → s.index_prefix ≡ t.index_prefix
    → (group : String) × (get m a ≡ some group) × (get m b ≡ some group)
set_prefixes-separates bits m groups slots slots' a b s t pos le few h ga gb same =
    let (g, i, e, d, p) = set_prefixes-slot bits m groups slots slots' a s h ga in
    let (g', i', e', d', p') = set_prefixes-slot bits m groups slots slots' b t h gb in
    (
      g,
      e,
      e'
          ∙ ap some (
              get_index_of-injective groups g' g i
                (d'
                  ∙ ap some (
                      sym (
                        equal i i' (get_index_of-bound groups g i d)
                          (get_index_of-bound groups g' i' d') (p ∙ ap ok same) p')))
                d),
    )
  where
    pred_eq : {x y : ℕ} → x + 1 ≡ y + 1 → x ≡ y
    pred_eq h = omega arith

    equal :
        (i i' : ℕ)
        → i < length groups
        → i' < length groups
        → group_prefix bits i ≡ ok t.index_prefix
        → group_prefix bits i' ≡ ok t.index_prefix
        → i ≡ i'
    equal i i' x y p q = pred_eq (
        mul_cancel (i + 1) (i' + 1) (2 ^ (64 - bits)) (one-le-pow (64 - bits) 2 (omega arith)) (
          ok-injective (
            sym (group_prefix-value bits i pos le (omega arith))
            ∙ p
            ∙ sym q
            ∙ group_prefix-value bits i' pos le (omega arith))))
