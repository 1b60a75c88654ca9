-- ===== src/Holder/EvictionMap/Evicted.antt =====
-- What `insert` of `EvictionMap` (eviction_map.rs) does when it evicts a value.
use persia.Base.{
  ℕ, suc, ◌+◌, ◌-◌, ◌%◌, ◌<◌, ◌≡◌, refl, sym, ap, subst, ◌∙◌, inl, inr, Bool, true, false, Option,
  none, some, List, [], ◌∷◌, ◌++◌, arith, ltb, if◌then◌else◌, length, length-append, omap, Outcome,
  ok, u32_size, tail_of,
}
use persia.Base.Map.{Eq, insert as map_insert, remove as map_remove, get as map_get, get-remove}
use persia.Holder.LinkedList.{ArrayLinkedList, node}
use persia.Holder.LinkedList.Chain.{Cells, Seg, slot, first_or, last_or, Seg-back}
use persia.Holder.LinkedList.Slots.{slot_pos}
use persia.Holder.LinkedList.Invariant.{Repr, next_slot}
use persia.Holder.LinkedList.Remove.{pop_front, remove}
use persia.Holder.LinkedList.Insert.{push_back}
use persia.Holder.LinkedList.Read.{index, list_len}
use persia.Holder.LinkedList.Pushed.{push_back-Repr}
use persia.Holder.LinkedList.Popped.{pop_front-front}
use persia.Holder.LinkedList.Overwritten.{index-slot}
use persia.Holder.EvictionMap.{EvictionMap, get, insert}
use persia.Holder.EvictionMap.Indexed.{find, without, UniqueKeys, Indexes, find-cases, cell_index}
use persia.Holder.EvictionMap.Refreshed.{value_of, moved-Indexes}
use persia.Holder.EvictionMap.Inserted.{freed}

pred_suc_pos : (i : ℕ) → 0 < i → suc (i - 1) ≡ i
pred_suc_pos i h = omega arith

-- The value of a cell of a chain is found under its index.
index-Seg :
    {V : Type 0} (l : ArrayLinkedList V) (ys zs : Cells V) (c : ℕ × V)
    → Seg l.elements 0 (ys ++ c ∷ zs) 0
    → index l (cell_index c) ≡ ok (some c.1)
index-Seg l ys zs c s =
    let held = (Seg-back l.elements 0 ys (c ∷ zs) 0 s).0 in
    index-slot l (cell_index c) _ (
      subst (λ i. slot l.elements i ≡ some (node (last_or 0 ys) (first_or 0 zs) c.1))
        (sym (pred_suc_pos c.0 (slot_pos l.elements c.0 _ held).0)) held)

-- The slot of the first cell.
front_slot :
    {V : Type 0} (l : ArrayLinkedList V) (c : ℕ × V) (zs : Cells V)
    → Seg l.elements 0 (c ∷ zs) 0
    → suc (c.0 - 1) ≡ c.0
front_slot l c zs s = pred_suc_pos c.0 (slot_pos l.elements c.0 _ s.0).0

over : (n k capacity : ℕ) → n ≡ k → k < u32_size → capacity < k → ltb capacity (n % u32_size) ≡ true
over n k capacity h s b = ground arith

module _ {K : Type 0} {V : Type 0} ⦃e : Eq K⦄ (hashmap_key : V → K) where
  -- The map knows the values of these cells, and no others.
  abbrev pub Finds : EvictionMap K V → Cells V → Type 0
  Finds m xs = (key : K) → get m key ≡ ok (value_of hashmap_key xs key)

  -- Lookups need the chain of the values only, not that of the free slots.
  find-Seg :
      (m : EvictionMap K V) (xs : Cells V)
      → Seg m.linkedlist.elements 0 xs 0
      → UniqueKeys hashmap_key xs
      → ((key : K) → map_get m.hashmap key ≡ omap cell_index (find hashmap_key xs key))
      → Finds m xs
  unfolding get
  find-Seg m xs s u known key = elim (find-cases hashmap_key xs key u) [
    | inl (h, w) ↦ rw (known key, get, h) refl
    | inr t ↦
        rw (known key, get, t.found)
          (index-Seg m.linkedlist t.before t.after t.cell
            (subst (λ ws. Seg m.linkedlist.elements 0 ws 0) t.cells s))
  ]

  -- The map without its first value.
  evicted :
      (m : EvictionMap K V) (c : ℕ × V) (zs : Cells V) (free : List ℕ)
      → Indexes hashmap_key m (c ∷ zs) free
      → (l' : ArrayLinkedList V) × (pop_front m.linkedlist ≡ ok (some c.1, l'))
        × Finds (record m { hashmap = map_remove m.hashmap (hashmap_key c.1); linkedlist = l' }) zs
  evicted m c zs free inv =
      let at_front =
        subst (λ i. Repr m.linkedlist ((i, c.1) ∷ zs) free)
          (sym (front_slot m.linkedlist c zs inv.list.chain)) inv.list in
      let (l', popped, first, last, count, chain, head, size) =
        pop_front-front m.linkedlist (c.0 - 1) c.1 zs free at_front in
      (
        l',
        popped,
        find-Seg (record m { hashmap = map_remove m.hashmap (hashmap_key c.1); linkedlist = l' }) zs
            chain inv.unique.1
            (λ key.
              get-remove m.hashmap (hashmap_key c.1) key
              ∙ rw (inv.indexed key)
                  (drop_key (e.beq (hashmap_key c.1) key) key (e.beq_iff (hashmap_key c.1) key).0)),
      )
    where
      drop_key :
          (t : Bool) (key : K)
          → (t ≡ true → hashmap_key c.1 ≡ key)
          → (if t then none else omap cell_index (if t then some c else find hashmap_key zs key))
            ≡ omap cell_index (find hashmap_key zs key)
      drop_key true key f =
          ap (omap cell_index)
            (sym (subst (λ j. find hashmap_key zs j ≡ none) (f refl) inv.unique.0))
      drop_key false key f = refl

  insert-run :
      (m : EvictionMap K V) (key : K) (v x : V) (old : Option V) (l1 l2 l3 : ArrayLinkedList V)
      (idx : ℕ)
      → Path
          (Outcome (Option V × ArrayLinkedList V))
          (elim (map_get m.hashmap key) [
            | some i ↦ remove m.linkedlist i
            | none ↦ ok (none, m.linkedlist)
          ])
          (ok (old, l1))
      → push_back l1 v ≡ ok (idx, l2)
      → ltb m.capacity (l2.count % u32_size) ≡ true
      → pop_front l2 ≡ ok (some x, l3)
      → insert hashmap_key m key v
        ≡ ok (
          (old, some x),
          record m {
            hashmap = map_remove (map_insert m.hashmap key idx) (hashmap_key x);
            linkedlist = l3;
          },
        )
  unfolding insert list_len
  insert-run m key v x old l1 l2 l3 idx removed pushed full popped =
      rw (removed, pushed, full, popped) refl

  without-front :
      (c : ℕ × V) (xs : Cells V) (key : K)
      → e.beq (hashmap_key c.1) key ≡ false
      → without hashmap_key (c ∷ xs) key ≡ c ∷ without hashmap_key xs key
  without-front c xs key h = rw h refl

  -- On a map with the invariant, for a value of the key and with fewer than 2^32 - 1 slots and cells, an
  -- `insert` beyond the capacity evicts the value at the front of the list, when that is not the old
  -- value of the key: it returns both, and right after it, the map finds the new value and every
  -- value but those two.
  pub insert-evicts :
      (m : EvictionMap K V) (c : ℕ × V) (xs : Cells V) (free : List ℕ) (key : K) (v : V)
      → Indexes hashmap_key m (c ∷ xs) free
      → hashmap_key v ≡ key
      → e.beq (hashmap_key c.1) key ≡ false
      → length m.linkedlist.elements + 1 < u32_size
      → length (without hashmap_key xs key) + 2 < u32_size
      → m.capacity < length (without hashmap_key xs key) + 2
      → (m' : EvictionMap K V) × (i : ℕ) × (insert hashmap_key m key v
          ≡ ok ((value_of hashmap_key (c ∷ xs) key, some c.1), m'))
        × Finds m' (without hashmap_key xs key ++ (i, v) ∷ [])
  insert-evicts m c xs free key v inv owner other room small full =
      let f = freed hashmap_key m (c ∷ xs) free key inv in
      let i = next_slot f.list f.free in
      let rest = without hashmap_key xs key in
      let (l2, pushed, r2) =
        push_back-Repr f.list v (without hashmap_key (c ∷ xs) key) f.free f.chained
          (subst (λ n. n + 1 < u32_size) (sym f.same) room) in
      let r2' =
        subst (λ ws. Repr l2 (ws ++ (i, v) ∷ []) (tail_of f.free)) (without-front c xs key other)
          r2 in
      let m2 : EvictionMap K V = record m {
        hashmap = map_insert m.hashmap key (i - 1);
        linkedlist = l2;
      } in
      let inv2 =
        subst (λ ws. Indexes hashmap_key m2 (ws ++ (i, v) ∷ []) (tail_of f.free))
          (without-front c xs key other)
          (moved-Indexes hashmap_key m l2 (c ∷ xs) free (tail_of f.free) key (i, v) owner inv r2) in
      let (l3, popped, finds) = evicted m2 c (rest ++ (i, v) ∷ []) (tail_of f.free) inv2 in
      (
        record m {
          hashmap = map_remove (map_insert m.hashmap key (i - 1)) (hashmap_key c.1);
          linkedlist = l3;
        },
        i,
        insert-run m key v c.1 (value_of hashmap_key (c ∷ xs) key) f.list l2 l3 (i - 1) f.removed
            pushed
            (over l2.count (length rest + 2) m.capacity (r2'.counted ∙ snoc_size rest (i, v)) small
              full)
            popped,
        finds,
      )
    where
      snoc_size : (ys : Cells V) (b : ℕ × V) → suc (length (ys ++ b ∷ [])) ≡ length ys + 2
      snoc_size ys b = omega (arith, length-append ys (b ∷ []))
