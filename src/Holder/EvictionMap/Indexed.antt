-- ===== src/Holder/EvictionMap/Indexed.antt =====
-- The invariant of `EvictionMap` (eviction_map.rs): the hash map leads from each key to the slot of
-- its value.
use persia.Base.{
  ℕ, ◌-◌, ◌≡◌, refl, sym, ap, subst, ◌∙◌, Bool, inl, inr, Bool-cases, true, false, Option, none,
  some, List, [], ◌∷◌, ◌++◌, arith, if◌then◌else◌, omap, ◌⊎◌,
}
use persia.Base.Map.{Eq, get as map_get}
use persia.Holder.LinkedList.Chain.{Cells}
use persia.Holder.LinkedList.Invariant.{Repr}
use persia.Holder.EvictionMap.{EvictionMap}

abbrev pub cell_index : {V : Type 0} → ℕ × V → ℕ
cell_index c = c.0 - 1

module _ {K : Type 0} {V : Type 0} ⦃e : Eq K⦄ (hashmap_key : V → K) where
  -- The cell of a key.
  abbrev pub find : Cells V → K → Option (ℕ × V)
  find [] key = none
  find (c ∷ xs) key = if e.beq (hashmap_key c.1) key then some c else find xs key

  -- The cells of the other keys.
  abbrev pub without : Cells V → K → Cells V
  without [] key = []
  without (c ∷ xs) key = if e.beq (hashmap_key c.1) key then without xs key else c ∷ without xs key

  abbrev pub UniqueKeys : Cells V → Type 0
  UniqueKeys [] = Unit
  UniqueKeys (c ∷ xs) = (find xs (hashmap_key c.1) ≡ none) × UniqueKeys xs

  -- The cells are those of the list, each key has one, and the hash map knows its index.
  pub record Indexes (m : EvictionMap K V) (xs : Cells V) (free : List ℕ) : Type 0 where
    pub list : Repr m.linkedlist xs free
    pub unique : UniqueKeys xs
    pub indexed : (key : K) → map_get m.hashmap key ≡ omap cell_index (find xs key)

  -- A key that no cell has, and one that splits the cells at its own.
  pub record Split (xs : Cells V) (key : K) : Type 0 where
    pub before : Cells V
    pub cell : ℕ × V
    pub after : Cells V
    pub cells : xs ≡ before ++ cell ∷ after
    pub found : find xs key ≡ some cell
    pub kept : without xs key ≡ before ++ after
    pub owner : hashmap_key cell.1 ≡ key

  without-find : (xs : Cells V) (key : K) → find xs key ≡ none → without xs key ≡ xs
  without-find [] key h = refl
  without-find (c ∷ xs) key h = elim (Bool-cases (e.beq (hashmap_key c.1) key)) [
    | inl k ↦ ground (arith, k, h)
    | inr k ↦ rw k (ap (◌∷◌ c) (without-find xs key (ground (arith, k, h))))
  ]

  pub find-cases :
      (xs : Cells V) (key : K)
      → UniqueKeys xs
      → ((find xs key ≡ none) × (without xs key ≡ xs)) ⊎ Split xs key
  find-cases [] key u = inl (refl, refl)
  find-cases (c ∷ xs) key u = elim (Bool-cases (e.beq (hashmap_key c.1) key)) [
    | inl k ↦ inr record {
      before = [];
      cell = c;
      after = xs;
      cells = refl;
      found = rw k refl;
      kept = rw k (
          without-find xs key
            (subst (λ j. find xs j ≡ none) ((e.beq_iff (hashmap_key c.1) key).0 k) u.0));
      owner = (e.beq_iff (hashmap_key c.1) key).0 k;
    }
    | inr k ↦ elim (find-cases xs key u.1) [
      | inl (h, w) ↦ inl (rw k h, rw k (ap (◌∷◌ c) w))
      | inr s ↦ inr record {
        before = c ∷ s.before;
        cell = s.cell;
        after = s.after;
        cells = ap (◌∷◌ c) s.cells;
        found = rw k s.found;
        kept = rw k (ap (◌∷◌ c) s.kept);
        owner = s.owner;
      }
    ]
  ]

  if_none : (b : Bool) (o : Option (ℕ × V)) → o ≡ none → (if b then none else o) ≡ none
  if_none true o h = refl
  if_none false o h = h

  -- What the cells of a key say of it after they have changed.
  pub find-append :
      (xs ys : Cells V) (key : K)
      → find (xs ++ ys) key ≡ elim (find xs key) [ none ↦ find ys key | some c ↦ some c ]
  find-append [] ys key = refl
  find-append (c ∷ xs) ys key = elim (Bool-cases (e.beq (hashmap_key c.1) key)) [
    | inl k ↦ rw k refl
    | inr k ↦ rw k (find-append xs ys key)
  ]

  other :
      (key j : K) (c : ℕ × V)
      → e.beq (hashmap_key c.1) key ≡ true
      → e.beq key j ≡ false
      → e.beq (hashmap_key c.1) j ≡ false
  other key j c k q = subst (λ i. e.beq i j ≡ false) (sym ((e.beq_iff (hashmap_key c.1) key).0 k)) q

  mine :
      (key j : K) (c : ℕ × V)
      → e.beq (hashmap_key c.1) key ≡ false
      → e.beq (hashmap_key c.1) j ≡ true
      → e.beq key j ≡ false
  mine key j c k q =
      ground
        (arith, e.beq_iff (hashmap_key c.1) key, e.beq_iff (hashmap_key c.1) j, e.beq_iff key j)

  pub find-without :
      (xs : Cells V) (key j : K)
      → find (without xs key) j ≡ (if e.beq key j then none else find xs j)
  find-without [] key j = ground arith
  find-without (c ∷ xs) key j = elim (Bool-cases (e.beq (hashmap_key c.1) key)) [
    | inl k ↦
        rw (k, find-without xs key j)
          (elim (Bool-cases (e.beq key j)) [ inl q ↦ rw q | inr q ↦ rw (q, other key j c k q) ])
    | inr k ↦ rw k (elim (Bool-cases (e.beq (hashmap_key c.1) j)) [
      | inl q ↦ rw (q, mine key j c k q) refl
      | inr q ↦ rw (q, find-without xs key j) refl
    ])
  ]

  pub UniqueKeys-without : (xs : Cells V) (key : K) → UniqueKeys xs → UniqueKeys (without xs key)
  UniqueKeys-without [] key u = tt
  UniqueKeys-without (c ∷ xs) key u = elim (Bool-cases (e.beq (hashmap_key c.1) key)) [
    | inl k ↦ rw k (UniqueKeys-without xs key u.1)
    | inr k ↦ rw k (
      find-without xs key (hashmap_key c.1) ∙ if_none (e.beq key (hashmap_key c.1)) _ u.0,
      UniqueKeys-without xs key u.1,
    )
  ]

  not_found :
      (b : Bool) (c : ℕ × V) (o : Option (ℕ × V))
      → (if b then some c else o) ≡ none
      → (b ≡ false) × (o ≡ none)
  not_found b c o h = ground arith

  beq_swap : (i j : K) → e.beq i j ≡ false → e.beq j i ≡ false
  beq_swap i j h = ground (arith, e.beq_iff i j, e.beq_iff j i)

  pub UniqueKeys-snoc :
      (xs : Cells V) (c : ℕ × V)
      → find xs (hashmap_key c.1) ≡ none
      → UniqueKeys xs
      → UniqueKeys (xs ++ c ∷ [])
  UniqueKeys-snoc [] c h u = (refl, tt)
  UniqueKeys-snoc (b ∷ xs) c h u =
      let (apart, rest) = not_found _ b _ h in
      (
        find-append xs (c ∷ []) (hashmap_key b.1)
            ∙ rw (u.0, beq_swap (hashmap_key b.1) (hashmap_key c.1) apart) refl,
        UniqueKeys-snoc xs c rest u.1,
      )
