-- ===== src/Worker/Postprocess/Layout.antt =====
-- The layout of a feature whose embeddings are not summed up (`lookup_batched_all_slots_postprocess`).
use native.Mathlib.Nat.{mul-le-mul_right}
use persia.Base.{
  ℕ, zero, suc, ◌+◌, ◌*◌, ◌≤◌, ◌<◌, ◌≡◌, refl, sym, subst, ◌∙◌, inl, inr, Bool-cases, true, ◌&&◌,
  some, List, [], ◌∷◌, arith, ltb, ◌==◌, length, length-set, length-replicate, get_elem?,
  get_elem?-set, set, elem, replicate, Outcome, ok,
}
use persia.Base.Map.{nat_eq, Map, get}
use persia.Common.{SingleSignInFeatureBatch}
use persia.Worker.Postprocess.{place_index, place_samples, place_signs, raw_layout}

-- The places of a sign are in the batch.
abbrev pub Placed : (batch_size : ℕ) → List (ℕ × ℕ) → Type 0
Placed batch_size [] = Unit
Placed batch_size ((b, c) ∷ samples) = (b < batch_size) × Placed batch_size samples

-- Every sign has a row and places in the batch.
abbrev pub Known : (batch_size : ℕ) → Map ℕ ℕ → List SingleSignInFeatureBatch → Type 0
Known batch_size id2idx [] = Unit
Known batch_size id2idx (x ∷ items) =
    ((idx : ℕ) × (get id2idx x.sign ≡ some idx))
    × Placed batch_size x.in_which_batch_samples
    × Known batch_size id2idx items

-- The tensors have the size of the batch, and no sample has more than `fixed` signs.
pub record Laid (batch_size fixed : ℕ) (index sample_id_num : List ℕ) : Type 0 where
  pub index_size : length index ≡ batch_size * fixed
  pub num_size : length sample_id_num ≡ batch_size
  pub bounded : (b n : ℕ) → get_elem? sample_id_num b ≡ some n → n ≤ fixed

abbrev pub Lays : (batch_size fixed : ℕ) → Outcome (List ℕ × List ℕ) → Type 0
Lays batch_size fixed r = (t : List ℕ × List ℕ) × (r ≡ ok t) × Laid batch_size fixed t.0 t.1

some_of_lt : (xs : List ℕ) (i : ℕ) → i < length xs → (x : ℕ) × (get_elem? xs i ≡ some x)
some_of_lt [] i h = absurd (omega arith)
some_of_lt (x ∷ xs) zero h = (x, refl)
some_of_lt (x ∷ xs) (suc i) h = some_of_lt xs i (omega arith)

both : (n c fixed : ℕ) → (ltb n fixed && ltb c fixed) ≡ true → (n < fixed) × (c < fixed)
both n c fixed h = ground arith

in_tensor :
    (b c batch_size fixed : ℕ) → b < batch_size → c < fixed → b * fixed + c < batch_size * fixed
in_tensor b c batch_size fixed h k = omega (arith, mul-le-mul_right fixed h, next b fixed)
  where
    next : (b f : ℕ) → suc b * f ≡ b * f + f
    next b f = grind arith

kept :
    (nums : List ℕ) (b n j m fixed : ℕ)
    → b < length nums
    → n < fixed
    → (get_elem? nums j ≡ some m → m ≤ fixed)
    → get_elem? (set nums b (n + 1)) j ≡ some m
    → m ≤ fixed
kept nums b n j m fixed h nf old q = elim (Bool-cases (b == j)) [
  | inl k ↦
      omega
        (arith, some-injective (n + 1) m (sym (get_elem?-set nums b j (n + 1) h ∙ rw k refl) ∙ q))
  | inr k ↦ old (sym (get_elem?-set nums b j (n + 1) h ∙ rw k refl) ∙ q)
]
  where
    some-injective : (x y : ℕ) → some x ≡ some y → x ≡ y
    some-injective x y e = ground arith

place_index-Lays :
    (batch_size fixed idx b c : ℕ) (index nums : List ℕ)
    → b < batch_size
    → Laid batch_size fixed index nums
    → Lays batch_size fixed (place_index fixed idx b c index nums)
unfolding place_index
place_index-Lays batch_size fixed idx b c index nums h l =
    let (n, e) = some_of_lt nums b (subst (λ k. b < k) (sym l.num_size) h) in
    elim (Bool-cases (ltb n fixed && ltb c fixed)) [
      | inr k ↦ ((index, nums), rw (e, k) refl, l)
      | inl k ↦
          let (nf, cf) = both n c fixed k in
          let (old, d) = some_of_lt index (b * fixed + c) (
            subst (λ k. b * fixed + c < k) (sym l.index_size)
              (in_tensor b c batch_size fixed h cf)) in
          (
            (set index (b * fixed + c) (idx + 1), set nums b (n + 1)),
            rw (e, k, d) refl,
            record {
              index_size = length-set index (b * fixed + c) (idx + 1) ∙ l.index_size;
              num_size = length-set nums b (n + 1) ∙ l.num_size;
              bounded = λ j m q.
                  kept nums b n j m fixed (subst (λ k. b < k) (sym l.num_size) h) nf (l.bounded j m)
                    q;
            },
          )
    ]

place_samples-Lays :
    (batch_size fixed idx : ℕ) (samples : List (ℕ × ℕ)) (index nums : List ℕ)
    → Placed batch_size samples
    → Laid batch_size fixed index nums
    → Lays batch_size fixed (place_samples fixed idx samples index nums)
unfolding place_samples
place_samples-Lays batch_size fixed idx [] index nums p l = ((index, nums), refl, l)
place_samples-Lays batch_size fixed idx ((b, c) ∷ samples) index nums p l =
    let (t, e, l1) = place_index-Lays batch_size fixed idx b c index nums p.0 l in
    let (t', d, l2) = place_samples-Lays batch_size fixed idx samples t.0 t.1 p.1 l1 in
    (t', rw e d, l2)

place_signs-Lays :
    (batch_size fixed : ℕ) (id2idx : Map ℕ ℕ) (ids : List ℕ) (items : List SingleSignInFeatureBatch)
    (index nums : List ℕ)
    → Known batch_size id2idx items
    → Laid batch_size fixed index nums
    → Lays batch_size fixed (place_signs fixed id2idx ids items index nums)
unfolding place_signs
place_signs-Lays batch_size fixed id2idx ids [] index nums k l = ((index, nums), refl, l)
place_signs-Lays batch_size fixed id2idx ids (x ∷ items) index nums ((idx, q), p, k) l =
    elim (Bool-cases (elem idx ids)) [
      | inl m ↦
          let (t, e, l1) = place_signs-Lays batch_size fixed id2idx ids items index nums k l in
          (t, rw (q, m) e, l1)
      | inr m ↦
          let (t, e, l1) =
            place_samples-Lays batch_size fixed idx x.in_which_batch_samples index nums p l in
          let (t', d, l2) =
            place_signs-Lays batch_size fixed id2idx (idx ∷ ids) items t.0 t.1 k l1 in
          (t', rw (q, m, e) d, l2)
    ]

replicate-zero : (n j m : ℕ) → get_elem? (replicate n 0) j ≡ some m → m ≡ 0
replicate-zero zero j m h = ground arith
replicate-zero (suc n) zero m h = ground arith
replicate-zero (suc n) (suc j) m h = replicate-zero n j m h

-- When every sign has a row and its places are in the batch, the layout neither panics nor writes
-- out of range: it succeeds with tensors of the size of the batch, in which no sample has more
-- than `sample_fixed_size` signs.
pub raw_layout-Lays :
    (batch_size fixed : ℕ) (id2idx : Map ℕ ℕ) (items : List SingleSignInFeatureBatch)
    → Known batch_size id2idx items
    → Lays batch_size fixed (raw_layout batch_size fixed id2idx items)
unfolding raw_layout
raw_layout-Lays batch_size fixed id2idx items k =
    place_signs-Lays batch_size fixed id2idx [] items (replicate (batch_size * fixed) 0)
      (replicate batch_size 0) k
      (record {
        index_size = length-replicate (batch_size * fixed) 0;
        num_size = length-replicate batch_size 0;
        bounded = λ b n q. omega (arith, replicate-zero batch_size b n q);
      })
