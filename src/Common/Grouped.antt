-- ===== src/Common/Grouped.antt =====
-- What `FeatureBatch::new` (persia-common/src/lib.rs) makes of a batch: where each sign occurs, and
-- at which index of the lookup result its embedding will stand.
use Prim.Native.String.{String}
use persia.Base.{
  ℕ, zero, suc, ◌+◌, ◌%◌, ◌≤◌, ◌≡◌, refl, sym, ap, subst, ◌∙◌, ◌||◌, ==_iff, inl, inr, Bool-cases,
  Bool, true, false, Option, some, List, [], ◌∷◌, ◌++◌, map, arith, ltb, ◌==◌, if◌then◌else◌,
  length, get_elem?, omap, ok, u32_size,
}
use persia.Base.Map.{
  nat_eq, Map, get, insert, UniqueKeys, contains_key, get-insert, get-insert_self,
  insert-UniqueKeys, get_of_entry, HashOrder,
}
use persia.Common.{
  SingleSignInFeatureBatch, FeatureBatch, u16_size, or_default, push_sample, group_row, group_batch,
  number_signs, single_sign, feature_batch,
}

-- The places of a sign in a row, from the column `col_idx` on, and in a batch, row by row. The
-- code keeps both numbers in a u16.
abbrev pub row_places : (sign batch_idx col_idx : ℕ) → List ℕ → List (ℕ × ℕ)
row_places sign batch_idx col_idx [] = []
row_places sign batch_idx col_idx (id ∷ indices) =
    if id == sign
    then (batch_idx % u16_size, col_idx % u16_size)
      ∷ row_places sign batch_idx (col_idx + 1) indices
    else row_places sign batch_idx (col_idx + 1) indices

abbrev pub places : (sign batch_idx : ℕ) → List (List ℕ) → List (ℕ × ℕ)
places sign batch_idx [] = []
places sign batch_idx (indices ∷ batch) =
    row_places sign batch_idx 0 indices ++ places sign (batch_idx + 1) batch

append_assoc : (xs ys zs : List (ℕ × ℕ)) → (xs ++ ys) ++ zs ≡ xs ++ (ys ++ zs)
append_assoc [] ys zs = refl
append_assoc (x ∷ xs) ys zs = ap (◌∷◌ x) (append_assoc xs ys zs)

append_nil : (xs : List (ℕ × ℕ)) → xs ++ [] ≡ xs
append_nil [] = refl
append_nil (x ∷ xs) = ap (◌∷◌ x) (append_nil xs)

push_sample-get :
    (m : Map ℕ (List (ℕ × ℕ))) (id : ℕ) (p : ℕ × ℕ) (sign : ℕ)
    → or_default (get (push_sample m id p) sign)
      ≡ (if id == sign then or_default (get m sign) ++ p ∷ [] else or_default (get m sign))
unfolding push_sample
push_sample-get m id p sign = elim (Bool-cases (id == sign)) [
  | inl h ↦ rw h (
      ap or_default (
        subst
          (λ j.
            get (insert m id (or_default (get m id) ++ p ∷ [])) j
            ≡ some (or_default (get m j) ++ p ∷ []))
          ((==_iff id sign).0 h) (get-insert_self m id (or_default (get m id) ++ p ∷ []))))
  | inr h ↦ rw (get-insert m id (or_default (get m id) ++ p ∷ []) sign, h) refl
]

place :
    (t : Bool) (xs : List (ℕ × ℕ)) (p : ℕ × ℕ) (ys : List (ℕ × ℕ))
    → (if t then xs ++ p ∷ [] else xs) ++ ys ≡ xs ++ (if t then p ∷ ys else ys)
place true xs p ys = append_assoc xs (p ∷ []) ys
place false xs p ys = refl

group_row-places :
    (m : Map ℕ (List (ℕ × ℕ))) (b c : ℕ) (row : List ℕ) (sign : ℕ)
    → or_default (get (group_row m b c row) sign)
      ≡ or_default (get m sign) ++ row_places sign b c row
unfolding group_row
group_row-places m b c [] sign = sym (append_nil _)
group_row-places m b c (id ∷ row) sign =
    group_row-places (push_sample m id (b % u16_size, c % u16_size)) b (c + 1) row sign
    ∙ rw (push_sample-get m id (b % u16_size, c % u16_size) sign) (
        place (id == sign) (or_default (get m sign)) (b % u16_size, c % u16_size)
          (row_places sign b (c + 1) row))

group_batch-places :
    (m : Map ℕ (List (ℕ × ℕ))) (b : ℕ) (batch : List (List ℕ)) (sign : ℕ)
    → or_default (get (group_batch m b batch) sign) ≡ or_default (get m sign) ++ places sign b batch
unfolding group_batch
group_batch-places m b [] sign = sym (append_nil _)
group_batch-places m b (row ∷ batch) sign =
    group_batch-places (group_row m b 0 row) (b + 1) batch sign
    ∙ ap (λ xs. xs ++ places sign (b + 1) batch) (group_row-places m b 0 row sign)
    ∙ append_assoc (or_default (get m sign)) (row_places sign b 0 row) (places sign (b + 1) batch)

group_row-UniqueKeys :
    (m : Map ℕ (List (ℕ × ℕ))) (b c : ℕ) (row : List ℕ)
    → UniqueKeys m
    → UniqueKeys (group_row m b c row)
unfolding group_row push_sample
group_row-UniqueKeys m b c [] u = u
group_row-UniqueKeys m b c (id ∷ row) u =
    group_row-UniqueKeys (push_sample m id (b % u16_size, c % u16_size)) b (c + 1) row
      (insert-UniqueKeys m id _ u)

group_batch-UniqueKeys :
    (m : Map ℕ (List (ℕ × ℕ))) (b : ℕ) (batch : List (List ℕ))
    → UniqueKeys m
    → UniqueKeys (group_batch m b batch)
unfolding group_batch
group_batch-UniqueKeys m b [] u = u
group_batch-UniqueKeys m b (row ∷ batch) u =
    group_batch-UniqueKeys (group_row m b 0 row) (b + 1) batch (group_row-UniqueKeys m b 0 row u)

or_false : (a b : Bool) → (a || b) ≡ false → (a ≡ false) × (b ≡ false)
or_false a b h = ground arith

-- A key that is no longer to come keeps its number.
number_signs-other :
    (m : Map ℕ ℕ) (idx : ℕ) (entries : Map ℕ (List (ℕ × ℕ))) (sign : ℕ)
    → contains_key entries sign ≡ false
    → get (number_signs m idx entries) sign ≡ get m sign
unfolding number_signs contains_key
number_signs-other m idx [] sign h = refl
number_signs-other m idx ((id, samples) ∷ entries) sign h =
    number_signs-other (insert m id idx) (idx + 1) entries sign (or_false (id == sign) _ h).1
    ∙ get-insert m id idx sign
    ∙ rw (or_false (id == sign) _ h).0 refl

add_zero : (a : ℕ) → a ≡ a + 0
add_zero a = omega arith

zero_add : (a : ℕ) → 0 + a ≡ a
zero_add a = omega arith

key_eq :
    {i j : ℕ} {x y : List (ℕ × ℕ)}
    → Path (Option (ℕ × List (ℕ × ℕ))) (some (i, x)) (some (j, y))
    → i ≡ j
key_eq h = ground arith

same_key : {i j : ℕ} → i ≡ j → (i == j) ≡ true
same_key h = ground arith

number_signs-index :
    (m : Map ℕ ℕ) (idx : ℕ) (entries : Map ℕ (List (ℕ × ℕ))) (i : ℕ) (sign : ℕ)
    (samples : List (ℕ × ℕ))
    → UniqueKeys entries
    → get_elem? entries i ≡ some (sign, samples)
    → get (number_signs m idx entries) sign ≡ some (idx + i)
unfolding number_signs
number_signs-index m idx [] i sign samples u h = ground arith
number_signs-index m idx ((id, old) ∷ entries) zero sign samples u h =
    number_signs-other (insert m id idx) (idx + 1) entries sign
      (subst (λ j. contains_key entries j ≡ false) (key_eq h) u.0)
    ∙ get-insert m id idx sign
    ∙ rw (same_key (key_eq h)) (ap some (add_zero idx))
number_signs-index m idx ((id, old) ∷ entries) (suc i) sign samples u h =
    number_signs-index (insert m id idx) (idx + 1) entries i sign samples u.1 h
    ∙ ap some (assoc idx i)
  where
    assoc : (a b : ℕ) → a + 1 + b ≡ a + suc b
    assoc a b = omega arith

get_elem?-map :
    (xs : Map ℕ (List (ℕ × ℕ))) (i : ℕ) (x : SingleSignInFeatureBatch)
    → get_elem? (map single_sign xs) i ≡ some x
    → get_elem? xs i ≡ some (x.sign, x.in_which_batch_samples)
get_elem?-map [] i x h = ground arith
get_elem?-map ((k, v) ∷ xs) zero x h = ap (omap (λ s. (s.sign, s.in_which_batch_samples))) h
get_elem?-map ((k, v) ∷ xs) (suc i) x h = get_elem?-map xs i x h

-- The entries of a batch, in the order of the map.
abbrev entries_of : HashOrder → List (List ℕ) → Map ℕ (List (ℕ × ℕ))
entries_of h batch = h.order (group_batch [] 0 batch)

entries-UniqueKeys : (h : HashOrder) (batch : List (List ℕ)) → UniqueKeys (entries_of h batch)
entries-UniqueKeys h batch =
    h.order-UniqueKeys (group_batch [] 0 batch) (group_batch-UniqueKeys [] 0 batch tt)

entry-places :
    (h : HashOrder) (batch : List (List ℕ)) (i : ℕ) (sign : ℕ) (samples : List (ℕ × ℕ))
    → get_elem? (entries_of h batch) i ≡ some (sign, samples)
    → samples ≡ places sign 0 batch
unfolding get
entry-places h batch i sign samples e =
    ap or_default (
      sym (get_of_entry (entries_of h batch) i sign samples (entries-UniqueKeys h batch) e)
      ∙ h.get-order (group_batch [] 0 batch) sign)
    ∙ group_batch-places [] 0 batch sign

abbrev grouped : HashOrder → String → List (List ℕ) → FeatureBatch
grouped h feature_name batch = record {
  feature_name = feature_name;
  index_batch = map single_sign (entries_of h batch);
  sample_num_signs = map (λ indices. length indices % u32_size) batch;
  hashed2index_batch_idx = number_signs [] 0 (entries_of h batch);
  batch_size = length batch % u16_size;
}

-- `FeatureBatch::new` of at most 65535 samples succeeds, and each of its entries holds every place
-- of its sign in the batch, row by row, and the lookup table leads from the sign to the index of
-- the entry.
pub feature_batch-entries :
    (h : HashOrder) (feature_name : String) (batch : List (List ℕ))
    → length batch ≤ 65535
    → (f : FeatureBatch) × (feature_batch h feature_name batch ≡ ok f)
      × ((i : ℕ) (x : SingleSignInFeatureBatch)
          → get_elem? f.index_batch i ≡ some x
          → (x.in_which_batch_samples ≡ places x.sign 0 batch)
            × (get f.hashed2index_batch_idx x.sign ≡ some i))
unfolding feature_batch
feature_batch-entries h feature_name batch small = (
  grouped h feature_name batch,
  rw (fits (length batch) small) refl,
  λ i x e.
      let entry = get_elem?-map (entries_of h batch) i x e in
      (
        entry-places h batch i x.sign x.in_which_batch_samples entry,
        number_signs-index [] 0 (entries_of h batch) i x.sign x.in_which_batch_samples
              (entries-UniqueKeys h batch) entry
            ∙ ap some (zero_add i),
      ),
)
  where
    fits : (n : ℕ) → n ≤ 65535 → ltb 65535 n ≡ false
    fits n b = ground arith
