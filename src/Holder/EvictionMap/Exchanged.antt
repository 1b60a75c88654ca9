-- ===== src/Holder/EvictionMap/Exchanged.antt =====
-- The cells of an `EvictionMap` (eviction_map.rs) with another value in the cell of a key.
use persia.Base.{
  ℕ, ◌≡◌, refl, sym, ap, subst, ◌∙◌, Bool, inl, inr, Bool-cases, true, false, Option, none, some,
  List, [], ◌∷◌, arith, ◌==◌, ==_iff, if◌then◌else◌, omap, length, ◌||◌, suc,
}
use persia.Base.Map.{Eq}
use persia.Holder.LinkedList.Chain.{Cells, first_or, last_or, has, Distinct}
use persia.Holder.EvictionMap.Indexed.{cell_index, find, UniqueKeys}
use persia.Holder.EvictionMap.Replayed.{values}

module _ {K : Type 0} {V : Type 0} ⦃e : Eq K⦄ (hashmap_key : V → K) where
  -- The values with `v` in place of the value of the key.
  abbrev pub replaced : List V → K → V → List V
  replaced [] key v = []
  replaced (u ∷ vs) key v = (if e.beq (hashmap_key u) key then v else u) ∷ replaced vs key v

  abbrev pub put_cell : K → V → ℕ × V → ℕ × V
  put_cell key v c = (c.0, if e.beq (hashmap_key c.1) key then v else c.1)

  abbrev pub put : Cells V → K → V → Cells V
  put [] key v = []
  put (c ∷ xs) key v = put_cell key v c ∷ put xs key v

  pub values-put :
      (xs : Cells V) (key : K) (v : V)
      → values hashmap_key (put xs key v) ≡ replaced (values hashmap_key xs) key v
  values-put [] key v = refl
  values-put (c ∷ xs) key v = ap (◌∷◌ (put_cell key v c).1) (values-put xs key v)

  pub first_or-put :
      (z : ℕ) (xs : Cells V) (key : K) (v : V) → first_or z (put xs key v) ≡ first_or z xs
  first_or-put z [] key v = refl
  first_or-put z (c ∷ xs) key v = refl

  pub last_or-put :
      (z : ℕ) (xs : Cells V) (key : K) (v : V) → last_or z (put xs key v) ≡ last_or z xs
  last_or-put z [] key v = refl
  last_or-put z (c ∷ xs) key v = last_or-put c.0 xs key v

  has-put : (j : ℕ) (xs : Cells V) (key : K) (v : V) → has j (put xs key v) ≡ has j xs
  has-put j [] key v = refl
  has-put j (c ∷ xs) key v = ap (λ b. (j == c.0) || b) (has-put j xs key v)

  pub Distinct-put : (xs : Cells V) (key : K) (v : V) → Distinct xs → Distinct (put xs key v)
  Distinct-put [] key v d = tt
  Distinct-put (c ∷ xs) key v d = (has-put c.0 xs key v ∙ d.0, Distinct-put xs key v d.1)

  pub length-put : (xs : Cells V) (key : K) (v : V) → length (put xs key v) ≡ length xs
  length-put [] key v = refl
  length-put (c ∷ xs) key v = ap suc (length-put xs key v)

  module _ (key : K) (v : V) (own : hashmap_key v ≡ key) where
    put_cell-key : (c : ℕ × V) → hashmap_key (put_cell key v c).1 ≡ hashmap_key c.1
    put_cell-key c = elim (Bool-cases (e.beq (hashmap_key c.1) key)) [
      | inl h ↦ rw h (own ∙ sym ((e.beq_iff (hashmap_key c.1) key).0 h))
      | inr h ↦ rw h refl
    ]

    pub find-put :
        (xs : Cells V) (k : K)
        → find hashmap_key (put xs key v) k ≡ omap (put_cell key v) (find hashmap_key xs k)
    find-put [] k = refl
    find-put (c ∷ xs) k =
        ap (λ j. if e.beq j k then some (put_cell key v c) else find hashmap_key (put xs key v) k)
          (put_cell-key c)
        ∙ split (e.beq (hashmap_key c.1) k) (find-put xs k)
      where
        split :
            (b : Bool)
            → find hashmap_key (put xs key v) k ≡ omap (put_cell key v) (find hashmap_key xs k)
            → (if b then some (put_cell key v c) else find hashmap_key (put xs key v) k)
              ≡ omap (put_cell key v) (if b then some c else find hashmap_key xs k)
        split true q = refl
        split false q = q

    pub UniqueKeys-put :
        (xs : Cells V) → UniqueKeys hashmap_key xs → UniqueKeys hashmap_key (put xs key v)
    UniqueKeys-put [] u = tt
    UniqueKeys-put (c ∷ xs) u = (
      find-put xs (hashmap_key (put_cell key v c).1)
          ∙ ap (λ k. omap (put_cell key v) (find hashmap_key xs k)) (put_cell-key c)
          ∙ ap (omap (put_cell key v)) u.0,
      UniqueKeys-put xs u.1,
    )

    pub same_index :
        (o : Option (ℕ × V)) → omap cell_index (omap (put_cell key v) o) ≡ omap cell_index o
    same_index none = refl
    same_index (some c) = refl

  -- The cell at the slot `i` is the only one of the key.
  abbrev pub Agree : (i : ℕ) (key : K) → Cells V → Type 0
  Agree i key [] = Unit
  Agree i key (c ∷ xs) = ((i == c.0) ≡ e.beq (hashmap_key c.1) key) × Agree i key xs

  Agree-absent :
      (i : ℕ) (key : K) (xs : Cells V)
      → has i xs ≡ false
      → find hashmap_key xs key ≡ none
      → Agree i key xs
  Agree-absent i key [] h f = tt
  Agree-absent i key (c ∷ xs) h f = elim (Bool-cases (e.beq (hashmap_key c.1) key)) [
    | inl q ↦ absurd (clash (rw q at f))
    | inr q ↦ (ground arith, Agree-absent i key xs (ground arith) (rw q at f))
  ]
    where
      clash : {c : ℕ × V} → Path (Option (ℕ × V)) (some c) none → ⊥
      clash k = cc

  find-has :
      (xs : Cells V) (key : K) (c : ℕ × V) → find hashmap_key xs key ≡ some c → has c.0 xs ≡ true
  find-has [] key c f = absurd (ground (arith, f))
  find-has (b ∷ xs) key c f = elim (Bool-cases (e.beq (hashmap_key b.1) key)) [
    | inl q ↦ ground (arith, ap (λ (o : Option (ℕ × V)). omap (λ (d : ℕ × V). d.0) o) (rw q at f))
    | inr q ↦ ground (arith, find-has xs key c (rw q at f))
  ]

  pub Agree-found :
      (xs : Cells V) (key : K) (c : ℕ × V)
      → find hashmap_key xs key ≡ some c
      → Distinct xs
      → UniqueKeys hashmap_key xs
      → Agree c.0 key xs
  Agree-found [] key c f d u = absurd (ground (arith, f))
  Agree-found (b ∷ xs) key c f d u = elim (Bool-cases (e.beq (hashmap_key b.1) key)) [
    | inl q ↦
        let same : b.0 ≡ c.0 =
          some_index (ap (λ (o : Option (ℕ × V)). omap (λ (d : ℕ × V). d.0) o) (rw q at f)) in
        subst (λ i. Agree i key (b ∷ xs)) same
          (
            rw q (ground arith),
            Agree-absent b.0 key xs d.0 (
                subst (λ k. find hashmap_key xs k ≡ none) ((e.beq_iff (hashmap_key b.1) key).0 q)
                  u.0),
          )
    | inr q ↦
        (rw q (apart (find-has xs key c (rw q at f))), Agree-found xs key c (rw q at f) d.1 u.1)
  ]
    where
      some_index : {i j : ℕ} → Path (Option ℕ) (some i) (some j) → i ≡ j
      some_index k = cc

      apart : has c.0 xs ≡ true → (c.0 == b.0) ≡ false
      apart h =
          no_clash (c.0 == b.0)
            (λ k. sym (subst (λ j. has j xs ≡ true) ((==_iff c.0 b.0).0 k) h) ∙ d.0)
        where
          no_clash : (t : Bool) → (t ≡ true → true ≡ false) → t ≡ false
          no_clash true k = k refl
          no_clash false k = refl
