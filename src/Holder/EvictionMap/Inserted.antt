-- ===== src/Holder/EvictionMap/Inserted.antt =====
-- What `with_capacity` and `insert` of `EvictionMap` (eviction_map.rs) do, while nothing is evicted.
use persia.Base.{
  ℕ, ◌+◌, ◌-◌, ◌≤◌, ◌<◌, ◌%◌, ◌≡◌, refl, sym, ap, subst, ◌∙◌, inl, inr, false, Option, none, some,
  List, [], ◌∷◌, ◌++◌, arith, ltb, length, length-append, Outcome, ok, u32_size, u32_add, tail_of,
}
use persia.Base.Map.{Eq, get as map_get, insert as map_insert}
use persia.Holder.LinkedList.{ArrayLinkedList, with_capacity as list_with_capacity}
use persia.Holder.LinkedList.Chain.{Cells}
use persia.Holder.LinkedList.Invariant.{Repr, next_slot}
use persia.Holder.LinkedList.Remove.{remove}
use persia.Holder.LinkedList.Read.{list_len}
use persia.Holder.LinkedList.Pushed.{push_back-Repr}
use persia.Holder.LinkedList.Constructed.{with_capacity-Repr, slots_from}
use persia.Holder.EvictionMap.{EvictionMap, with_capacity, insert}
use persia.Holder.EvictionMap.Indexed.{without, Indexes, find-cases}
use persia.Holder.EvictionMap.Refreshed.{value_of, moved-Indexes, remove-cell}

module _ {K : Type 0} {V : Type 0} ⦃e : Eq K⦄ (hashmap_key : V → K) where
  -- A new map holds no key.
  pub with_capacity-Indexes :
      (capacity : ℕ)
      → capacity + 1 < u32_size
      → Indexes hashmap_key (with_capacity capacity) [] (slots_from (capacity + 1) 1)
  unfolding with_capacity u32_add map_get
  with_capacity-Indexes capacity h = record {
    list =
        subst (λ n. Repr {A = V} n [] (slots_from (capacity + 1) 1))
          (ap list_with_capacity (sum capacity h)) (with_capacity-Repr V (capacity + 1) h);
    unique = tt;
    indexed = λ key. refl;
  }
    where
      sum : (c : ℕ) → c + 1 < u32_size → c + 1 ≡ (c % u32_size + 1) % u32_size
      sum c b = omega arith

  -- What the removal of the old value leaves of the list.
  pub record Freed (m : EvictionMap K V) (xs : Cells V) (key : K) : Type 0 where
    pub list : ArrayLinkedList V
    pub free : List ℕ
    pub same : length list.elements ≡ length m.linkedlist.elements
    pub chained : Repr list (without hashmap_key xs key) free
    pub removed :
        Path
          (Outcome (Option V × ArrayLinkedList V))
          (elim (map_get m.hashmap key) [
            | some idx ↦ remove m.linkedlist idx
            | none ↦ ok (none, m.linkedlist)
          ])
          (ok (value_of hashmap_key xs key, list))

  pub freed :
      (m : EvictionMap K V) (xs : Cells V) (free : List ℕ) (key : K)
      → Indexes hashmap_key m xs free
      → Freed m xs key
  freed m xs free key inv = elim (find-cases hashmap_key xs key inv.unique) [
    | inl (h, w) ↦ record {
      list = m.linkedlist;
      free = free;
      same = refl;
      chained = subst (λ ws. Repr m.linkedlist ws free) (sym w) inv.list;
      removed = rw (inv.indexed key, h) refl;
    }
    | inr s ↦
        let (l1, e, r1, same) =
          remove-cell m.linkedlist s.before s.after s.cell free
            (subst (λ ws. Repr m.linkedlist ws free) s.cells inv.list) in
        record {
          list = l1;
          free = s.cell.0 ∷ free;
          same = same;
          chained = subst (λ ws. Repr l1 ws (s.cell.0 ∷ free)) (sym s.kept) r1;
          removed = rw (inv.indexed key, s.found) e;
        }
  ]

  not_over : (n k capacity : ℕ) → n ≡ k → k ≤ capacity → ltb capacity (n % u32_size) ≡ false
  not_over n k capacity h b = ground arith

  -- On a map with the invariant, for a value of the key and with room for a slot below 2^32, an
  -- `insert` within the capacity returns the old value of the key and evicts nothing; the new value
  -- is the last of the list, the values of the other keys keep their order, and the invariant holds.
  pub insert-Indexes :
      (m : EvictionMap K V) (xs : Cells V) (free : List ℕ) (key : K) (v : V)
      → Indexes hashmap_key m xs free
      → hashmap_key v ≡ key
      → length m.linkedlist.elements + 1 < u32_size
      → length (without hashmap_key xs key) + 1 ≤ m.capacity
      → (m' : EvictionMap K V) × (i : ℕ) × (free' : List ℕ) × (insert hashmap_key m key v
          ≡ ok ((value_of hashmap_key xs key, none), m'))
        × Indexes hashmap_key m' (without hashmap_key xs key ++ (i, v) ∷ []) free'
  unfolding insert list_len
  insert-Indexes m xs free key v inv owner room fits =
      let f = freed m xs free key inv in
      let (l2, pushed, r2) =
        push_back-Repr f.list v (without hashmap_key xs key) f.free f.chained
          (subst (λ n. n + 1 < u32_size) (sym f.same) room) in
      (
        record m {
          hashmap = map_insert m.hashmap key (next_slot f.list f.free - 1);
          linkedlist = l2;
        },
        next_slot f.list f.free,
        tail_of f.free,
        rw
            (
              f.removed,
              pushed,
              not_over l2.count _ m.capacity
                  (r2.counted
                    ∙ length-append (without hashmap_key xs key)
                        ((next_slot f.list f.free, v) ∷ []))
                  fits,
            )
            refl,
        moved-Indexes hashmap_key m l2 xs free (tail_of f.free) key (next_slot f.list f.free, v)
            owner inv r2,
      )
