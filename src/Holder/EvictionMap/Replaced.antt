-- ===== src/Holder/EvictionMap/Replaced.antt =====
-- A value of an `EvictionMap` (eviction_map.rs) written through `get_mut`: what a write to the slot
-- of a key does to the map and to its values.
use persia.Base.{
  ℕ, zero, ◌-◌, ◌≡◌, Option-cases, get_elem?, ◌<◌, u32_size, refl, sym, ap, subst, ◌∙◌, Bool, inl,
  inr, Bool-cases, true, false, Option, none, some, List, [], ◌∷◌, arith, ◌==◌, ==_iff,
  if◌then◌else◌, omap, set, length-set, suc,
}
use persia.Base.Map.{Eq, get as map_get}
use persia.Holder.LinkedList.{LinkedListNode, ArrayLinkedList, node}
use persia.Holder.LinkedList.Chain.{Cells, slot, first_or, Seg}
use persia.Holder.LinkedList.Slots.{vacant, slot-set, frame_free}
use persia.Holder.LinkedList.Invariant.{Repr}
use persia.Holder.EvictionMap.{EvictionMap}
use persia.Holder.EvictionMap.Refreshed.{value_of}
use persia.Holder.EvictionMap.Indexed.{cell_index, find}
use persia.Holder.EvictionMap.Replayed.{lookup, lookup-values, Holds}
use persia.Holder.EvictionMap.Exchanged.{
  replaced, put, values-put, first_or-put, last_or-put, Distinct-put, length-put, find-put,
  UniqueKeys-put, same_index, Agree, Agree-found,
}

module _ {K : Type 0} {V : Type 0} ⦃e : Eq K⦄ (hashmap_key : V → K) where
  -- The slots after the write, when the slot `i` had the cell of the key.
  Seg-put :
      (els els' : List (LinkedListNode V)) (p : ℕ) (xs : Cells V) (q i : ℕ) (key : K) (v : V)
      → Agree hashmap_key i key xs
      → ((j : ℕ) (n : LinkedListNode V)
          → slot els j ≡ some n
          → slot els' j ≡ some (if i == j then record n { item = some v } else n))
      → Seg els p xs q
      → Seg els' p (put hashmap_key xs key v) q
  Seg-put els els' p [] q i key v a same s = tt
  Seg-put els els' p (c ∷ xs) q i key v a same s = (
    same c.0 (node p (first_or q xs) c.1) s.0
        ∙ rw (a.0, first_or-put hashmap_key q xs key v) (split (e.beq (hashmap_key c.1) key)),
    Seg-put els els' c.0 xs q i key v a.1 same s.1,
  )
    where
      split :
          (b : Bool)
          → Path
              (Option (LinkedListNode V))
              (some (
                if b
                then record (node p (first_or q xs) c.1) { item = some v }
                else node p (first_or q xs) c.1))
              (some (node p (first_or q xs) (if b then v else c.1)))
      split true = refl
      split false = refl

  -- The slot of a cell holds its value.
  find-slot :
      (els : List (LinkedListNode V)) (p : ℕ) (xs : Cells V) (q : ℕ) (key : K) (c : ℕ × V)
      → Seg els p xs q
      → find hashmap_key xs key ≡ some c
      → (n : LinkedListNode V) × (slot els c.0 ≡ some n) × (n.item ≡ some c.1)
  find-slot els p [] q key c s f = absurd (ground (arith, f))
  find-slot els p (b ∷ xs) q key c s f = elim (Bool-cases (e.beq (hashmap_key b.1) key)) [
    | inl h ↦
        let same : b ≡ c = some_injective (rw h at f) in
        subst
          (λ (d : ℕ × V). (n : LinkedListNode V) × (slot els d.0 ≡ some n) × (n.item ≡ some d.1))
          same (node p (first_or q xs) b.1, s.0, refl)
    | inr h ↦ find-slot els b.0 xs q key c s.1 (rw h at f)
  ]
    where
      some_injective : {x y : ℕ × V} → some x ≡ some y → x ≡ y
      some_injective k = cc

  read-slot :
      (els : List (LinkedListNode V)) (i : ℕ) (n : LinkedListNode V)
      → slot els i ≡ some n
      → get_elem? els (i - 1) ≡ some n
  read-slot els zero n h = absurd (ground (arith, h))
  read-slot els (suc i) n h = rw (suc_sub_one i) h
    where
      suc_sub_one : (k : ℕ) → suc k - 1 ≡ k
      suc_sub_one k = omega arith

  -- The list after the value of the slot `i` was written.
  abbrev written : ArrayLinkedList V → (i : ℕ) → LinkedListNode V → V → ArrayLinkedList V
  written l i n v = record l { elements = set l.elements (i - 1) (record n { item = some v }) }

  Repr-put :
      (l : ArrayLinkedList V) (xs : Cells V) (free : List ℕ) (key : K) (v old : V) (i : ℕ)
      (n : LinkedListNode V)
      → Repr l xs free
      → Agree hashmap_key i key xs
      → slot l.elements i ≡ some n
      → n.item ≡ some old
      → Repr (written l i n v) (put hashmap_key xs key v) free
  Repr-put l xs free key v old i n r a there full = record {
    first = r.first ∙ sym (first_or-put hashmap_key 0 xs key v);
    last = r.last ∙ sym (last_or-put hashmap_key 0 xs key v);
    counted = r.counted ∙ sym (length-put hashmap_key xs key v);
    chain = Seg-put l.elements _ 0 xs 0 i key v a kept r.chain;
    distinct = Distinct-put hashmap_key xs key v r.distinct;
    free_first = r.free_first;
    free_chain = frame_free l.elements _ free (λ j h. unfree j) r.free_chain;
    free_distinct = r.free_distinct;
    small =
        subst (λ k. k < u32_size) (sym (length-set l.elements (i - 1) (record n { item = some v })))
          r.small;
  }
    where
      now : LinkedListNode V
      now = record n { item = some v }

      kept :
          (j : ℕ) (n' : LinkedListNode V)
          → slot l.elements j ≡ some n'
          → slot (set l.elements (i - 1) now) j
            ≡ some (if i == j then record n' { item = some v } else n')
      kept j n' h = slot-set l.elements i j n now there ∙ elim (Bool-cases (i == j)) [
        | inl q ↦
            let same : n ≡ n' =
              some_injective
                (sym (subst (λ k. slot l.elements k ≡ some n) ((==_iff i j).0 q) there) ∙ h) in
            rw q (ap (λ (x : LinkedListNode V). some (record x { item = some v })) same)
        | inr q ↦ rw q h
      ]
        where
          some_injective : {x y : LinkedListNode V} → some x ≡ some y → x ≡ y
          some_injective k = cc

      unfree : (j : ℕ) → vacant (slot (set l.elements (i - 1) now) j) ≡ vacant (slot l.elements j)
      unfree j = ap vacant (slot-set l.elements i j n now there) ∙ elim (Bool-cases (i == j)) [
        | inl q ↦ rw (q, ← (==_iff i j).0 q, there, full) refl
        | inr q ↦ rw q refl
      ]

  -- A key that the map holds has a slot, and a write of another value of the key to it leaves a map
  -- that holds that value in place of the old one.
  pub write-Holds :
      (m : EvictionMap K V) (vs : List V) (key : K) (old v : V)
      → Holds hashmap_key m vs
      → lookup hashmap_key vs key ≡ some old
      → hashmap_key v ≡ key
      → (i : ℕ) × (n : LinkedListNode V) × (map_get m.hashmap key ≡ some i)
        × (get_elem? m.linkedlist.elements i ≡ some n)
        × Holds hashmap_key
            (record m {
              linkedlist = record m.linkedlist {
                elements = set m.linkedlist.elements i (record n { item = some v });
              };
            })
            (replaced hashmap_key vs key v)
  write-Holds m vs key old v h q own =
      let xs = h.cells in
      elim (Option-cases (find hashmap_key xs key)) [
        | inl f ↦ absurd (clash (sym (ap (omap (λ (d : ℕ × V). d.1)) f) ∙ value))
        | inr (c, f) ↦
            let (n, there, full) =
              find-slot m.linkedlist.elements 0 xs 0 key c h.indexes.list.chain f in
            (
              c.0 - 1,
              n,
              h.indexes.indexed key ∙ ap (omap cell_index) f,
              read-slot m.linkedlist.elements c.0 n there,
              record {
                cells = put hashmap_key xs key v;
                free = h.free;
                indexes = record {
                  list =
                      Repr-put m.linkedlist xs h.free key v c.1 c.0 n h.indexes.list
                        (Agree-found hashmap_key xs key c f h.indexes.list.distinct
                          h.indexes.unique)
                        there full;
                  unique = UniqueKeys-put hashmap_key key v own xs h.indexes.unique;
                  indexed = λ k.
                      h.indexes.indexed k
                      ∙ sym (
                          ap (omap cell_index) (find-put hashmap_key key v own xs k)
                          ∙ same_index hashmap_key key v own (find hashmap_key xs k));
                };
                values_cells =
                    values-put hashmap_key xs key v
                    ∙ ap (λ ws. replaced hashmap_key ws key v) h.values_cells;
              },
            )
      ]
    where
      value : value_of hashmap_key h.cells key ≡ some old
      value =
          lookup-values hashmap_key h.cells key
          ∙ ap (λ ws. lookup hashmap_key ws key) h.values_cells
          ∙ q

      clash : Path (Option V) none (some old) → ⊥
      clash k = cc
