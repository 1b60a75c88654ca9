-- ===== src/Holder/EvictionMap/Refreshed.antt =====
-- What the operations of `EvictionMap` (eviction_map.rs) do to its invariant, and what they return.
use persia.Base.{
  ℕ, suc, ◌+◌, ◌-◌, ◌<◌, ◌≡◌, refl, sym, ap, subst, ◌∙◌, inl, inr, Bool, true, false, Option, none,
  some, List, [], ◌∷◌, ◌++◌, arith, if◌then◌else◌, length, omap, ok, u32_size,
}
use persia.Base.Map.{Eq, insert as map_insert, get-insert, beq_self}
use persia.Holder.LinkedList.{ArrayLinkedList, node}
use persia.Holder.LinkedList.Chain.{Cells, slot, first_or, last_or, Seg-back}
use persia.Holder.LinkedList.Slots.{slot_pos}
use persia.Holder.LinkedList.Invariant.{Repr}
use persia.Holder.LinkedList.Remove.{remove}
use persia.Holder.LinkedList.Read.{index}
use persia.Holder.LinkedList.Pushed.{push_back-Repr}
use persia.Holder.LinkedList.Removed.{remove-Repr}
use persia.Holder.LinkedList.Overwritten.{index-slot}
use persia.Holder.EvictionMap.{EvictionMap, get, get_refresh}
use persia.Holder.EvictionMap.Indexed.{
  find, without, UniqueKeys, Indexes, Split, find-cases, find-append, find-without,
  UniqueKeys-without, UniqueKeys-snoc, cell_index,
}

pred_suc_pos : (i : ℕ) → 0 < i → suc (i - 1) ≡ i
pred_suc_pos i h = omega arith

module _ {V : Type 0} (l : ArrayLinkedList V) (ys zs : Cells V) (c : ℕ × V) (free : List ℕ)
    (r : Repr l (ys ++ c ∷ zs) free) where
  held : slot l.elements c.0 ≡ some (node (last_or 0 ys) (first_or 0 zs) c.1)
  held = (Seg-back l.elements 0 ys (c ∷ zs) 0 r.chain).0

  held_pos : 0 < c.0
  held_pos = (slot_pos l.elements c.0 _ held).0

  -- The value of a cell is found under its index.
  pub index-cell : index l (cell_index c) ≡ ok (some c.1)
  index-cell = index-slot l (cell_index c) _ (
      subst (λ i. slot l.elements i ≡ some (node (last_or 0 ys) (first_or 0 zs) c.1))
        (sym (pred_suc_pos c.0 held_pos)) held)

  -- `remove` under the index of a cell.
  pub remove-cell :
      (l' : ArrayLinkedList V) × (remove l (cell_index c) ≡ ok (some c.1, l'))
      × Repr l' (ys ++ zs) (c.0 ∷ free)
      × (length l'.elements ≡ length l.elements)
  remove-cell =
      subst
        (λ i.
          (l' : ArrayLinkedList V) × (remove l (cell_index c) ≡ ok (some c.1, l'))
          × Repr l' (ys ++ zs) (i ∷ free)
          × (length l'.elements ≡ length l.elements))
        (pred_suc_pos c.0 held_pos)
        (remove-Repr l (cell_index c) c.1 ys zs free
          (subst (λ i. Repr l (ys ++ (i, c.1) ∷ zs) free) (sym (pred_suc_pos c.0 held_pos)) r))

module _ {K : Type 0} {V : Type 0} ⦃e : Eq K⦄ (hashmap_key : V → K) where
  -- The value that a map holds for a key.
  abbrev pub value_of : Cells V → K → Option V
  value_of xs key = omap (λ c. c.1) (find hashmap_key xs key)

  -- On a map with the invariant, `get` finds the value of each key, and neither panics nor reads a free slot.
  pub get-value_of :
      (m : EvictionMap K V) (xs : Cells V) (free : List ℕ) (key : K)
      → Indexes hashmap_key m xs free
      → get m key ≡ ok (value_of xs key)
  unfolding get
  get-value_of m xs free key inv = elim (find-cases hashmap_key xs key inv.unique) [
    | inl (h, w) ↦ rw (inv.indexed key, get, h) refl
    | inr s ↦
        rw (inv.indexed key, get, s.found)
          (index-cell m.linkedlist s.before s.after s.cell free
            (subst (λ ws. Repr m.linkedlist ws free) s.cells inv.list))
  ]

  -- A cell of `key` that is appended to the cells of the other keys.
  find-moved :
      (xs : Cells V) (key j : K) (c : ℕ × V)
      → hashmap_key c.1 ≡ key
      → find hashmap_key (without hashmap_key xs key ++ c ∷ []) j
        ≡ (if e.beq key j then some c else find hashmap_key xs j)
  find-moved xs key j c h =
      find-append hashmap_key (without hashmap_key xs key) (c ∷ []) j
      ∙ rw (find-without hashmap_key xs key j) (
          split (e.beq (hashmap_key c.1) j) (e.beq key j) (find hashmap_key xs j)
            (ap (λ i. e.beq i j) h))
    where
      split :
          (a b : Bool) (o : Option (ℕ × V))
          → a ≡ b
          → Path
              (Option (ℕ × V))
              (elim (if b then none else o) [
                | none ↦ (if a then some c else none)
                | some d ↦ some d
              ])
              (if b then some c else o)
      split a true o q = rw q refl
      split a false none q = rw q refl
      split a false (some d) q = refl

  moved-UniqueKeys :
      (xs : Cells V) (key : K) (c : ℕ × V)
      → hashmap_key c.1 ≡ key
      → UniqueKeys hashmap_key xs
      → UniqueKeys hashmap_key (without hashmap_key xs key ++ c ∷ [])
  moved-UniqueKeys xs key c h u =
      UniqueKeys-snoc hashmap_key (without hashmap_key xs key) c
        (find-without hashmap_key xs key (hashmap_key c.1) ∙ rw (h, beq_self key) refl)
        (UniqueKeys-without hashmap_key xs key u)

  -- The map after the value of `key` has moved to the cell `c` at the end of the list.
  pub moved-Indexes :
      (m : EvictionMap K V) (l : ArrayLinkedList V) (xs : Cells V) (free free' : List ℕ) (key : K)
      (c : ℕ × V)
      → hashmap_key c.1 ≡ key
      → Indexes hashmap_key m xs free
      → Repr l (without hashmap_key xs key ++ c ∷ []) free'
      → Indexes hashmap_key
          (record m { hashmap = map_insert m.hashmap key (cell_index c); linkedlist = l })
          (without hashmap_key xs key ++ c ∷ [])
          free'
  moved-Indexes m l xs free free' key c h inv r = record {
    list = r;
    unique = moved-UniqueKeys xs key c h inv.unique;
    indexed = λ j.
        get-insert m.hashmap key (cell_index c) j
        ∙ rw (inv.indexed j, find-moved xs key j c h)
            (choose (e.beq key j) (find hashmap_key xs j));
  }
    where
      choose :
          (b : Bool) (o : Option (ℕ × V))
          → (if b then some (cell_index c) else omap cell_index o)
            ≡ omap cell_index (if b then some c else o)
      choose true o = refl
      choose false o = refl

  -- The cells after `key` was looked up: its own is the last one.
  unfoldable pub refreshed_cells : Cells V → K → Cells V
  refreshed_cells xs key = elim (find hashmap_key xs key) [
    | none ↦ xs
    | some c ↦ without hashmap_key xs key ++ c ∷ []
  ]

  refresh_found :
      (m : EvictionMap K V) (xs : Cells V) (free : List ℕ) (key : K)
      → Indexes hashmap_key m xs free
      → length m.linkedlist.elements + 1 < u32_size
      → (s : Split hashmap_key xs key)
      → (m' : EvictionMap K V) × (get_refresh m key ≡ ok (some s.cell.1, m'))
        × Indexes hashmap_key m' (without hashmap_key xs key ++ s.cell ∷ []) free
  unfolding get_refresh
  refresh_found m xs free key inv room s =
      let (l1, removed, r1, same) =
        remove-cell m.linkedlist s.before s.after s.cell free
          (subst (λ ws. Repr m.linkedlist ws free) s.cells inv.list) in
      let (l2, pushed, r2) =
        push_back-Repr l1 s.cell.1 (s.before ++ s.after) (s.cell.0 ∷ free) r1
          (subst (λ n. n + 1 < u32_size) (sym same) room) in
      (
        record m { hashmap = map_insert m.hashmap key (cell_index s.cell); linkedlist = l2 },
        rw
            (
              inv.indexed key,
              get_refresh,
              s.found,
              removed,
              pushed,
              index-cell l2 (s.before ++ s.after) [] s.cell free r2,
            )
            refl,
        moved-Indexes m l2 xs free free key s.cell s.owner inv
            (subst (λ ws. Repr l2 (ws ++ s.cell ∷ []) free) (sym s.kept) r2),
      )

  -- On a map with the invariant and fewer than 2^32 - 1 slots, `get_refresh` returns the value of each key, and when there is one, it moves to the end of the
  -- list, where it is evicted last; the other values keep their order, and the invariant holds again.
  pub get_refresh-Indexes :
      (m : EvictionMap K V) (xs : Cells V) (free : List ℕ) (key : K)
      → Indexes hashmap_key m xs free
      → length m.linkedlist.elements + 1 < u32_size
      → (m' : EvictionMap K V) × (get_refresh m key ≡ ok (value_of xs key, m'))
        × Indexes hashmap_key m' (refreshed_cells xs key) free
  unfolding get_refresh refreshed_cells
  get_refresh-Indexes m xs free key inv room = elim (find-cases hashmap_key xs key inv.unique) [
    | inl (h, w) ↦ (m, rw (inv.indexed key, get_refresh, h) refl, rw (h, refreshed_cells) inv)
    | inr s ↦
        let (m', e, inv') = refresh_found m xs free key inv room s in
        (m', rw s.found e, rw (refreshed_cells, s.found) inv')
  ]
