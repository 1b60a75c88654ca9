-- ===== src/Holder/LinkedList/Popped.antt =====
-- `pop_front` of array_linked_list.rs: what it returns, and where it leaves the chain of the free
-- slots. `remove` frees the slot at `index` by `free_index = index + 1`; `pop_front` writes
-- `free_index = index`, which names the slot before the one that it freed.
use persia.Base.{
  ℕ, suc, ◌-◌, ◌≡◌, refl, subst, ◌∙◌, ◌⊎◌, inl, inr, false, some, List, [], ◌∷◌, arith, ◌==◌,
  if◌then◌else◌, length, length-set, set, ok,
}
use persia.Holder.LinkedList.{LinkedListNode, ArrayLinkedList, deleted, with_prev}
use persia.Holder.LinkedList.Remove.{pop_front}
use persia.Holder.LinkedList.Chain.{Cells, slot, first_or, last_or, Seg}
use persia.Holder.LinkedList.Slots.{relink, slot-set, slot-relink-some, length-relink}
use persia.Holder.LinkedList.Links.{
  set_prev_of_next-relink, set_prev_of_free-relink, frame_prev, flip_ne, first_nonzero,
}
use persia.Holder.LinkedList.Invariant.{Repr}
use persia.Holder.LinkedList.Unlinked
use persia.Holder.LinkedList.Removed

module _ {A : Type 0} (l : ArrayLinkedList A) (k : ℕ) (v : A) (zs : Cells A) (free : List ℕ)
    (r : Repr l ((suc k, v) ∷ zs) free) where
  abbrev pub cut : List (LinkedListNode A)
  cut = relink (set l.elements k (deleted l.free_index)) (first_or 0 zs) (with_prev 0)

  unfoldable pub popped : ArrayLinkedList A
  popped = record {
    count = l.count - 1;
    first_index = first_or 0 zs;
    last_index = if first_or 0 zs == 0 then 0 else l.last_index;
    free_index = k;
    end_index = l.end_index;
    elements = relink cut l.free_index (with_prev k);
  }

  first_here : l.first_index ≡ suc k
  first_here = r.first

  cut_free : (l.free_index ≡ 0) ⊎ ((n : LinkedListNode A) × (slot cut l.free_index ≡ some n))
  cut_free = elim (Unlinked.free_slot l.elements free l.free_index r.free_first r.free_chain) [
    | inl e ↦ inl e
    | inr (n, e) ↦
        let f = l.free_index in
        let els1 = set l.elements k (deleted f) in
        let here = Removed.here l k v [] zs free r in
        let e1 : slot els1 f ≡ some n =
          subst (λ i. slot (set l.elements i (deleted f)) f ≡ some n)
            (Removed.pred_suc l k v [] zs free r)
            (slot-set l.elements (suc k) f _ (deleted f) here
              ∙ rw
                  (flip_ne f (suc k)
                    (Removed.free_apart l k v [] zs free r (suc k) _ here (λ z. cc)))
                  e) in
        inr (
          (if first_or 0 zs == f then with_prev 0 n else n),
          slot-relink-some els1 (first_or 0 zs) (with_prev 0) f n e1,
        )
  ]

  pub pop_front-popped : pop_front l ≡ ok (some v, popped)
  unfolding pop_front popped
  pop_front-popped =
      let q = first_or 0 zs in
      let l1 = record l {
        first_index = suc k;
        elements = set l.elements k (deleted l.free_index);
      } in
      let l2 = record l1 { last_index = if q == 0 then 0 else l.last_index; elements = cut } in
      let l3 = record l2 { first_index = q; count = l.count - 1 } in
      rw
        (
          first_here,
          nonzero,
          Removed.pred_suc l k v [] zs free r,
          Removed.slot_read l k v [] zs free r,
          set_prev_of_next-relink l1 q 0 (Removed.prev-Live l k v [] zs free r),
          Removed.counted_down l k v [] zs free r,
          set_prev_of_free-relink l3 k cut_free,
        )
        refl
    where
      nonzero : (suc k == 0) ≡ false
      nonzero = ground arith

  pub popped_slot :
      (j : ℕ) (n : LinkedListNode A)
      → (suc k == j) ≡ false
      → (l.free_index == j) ≡ false
      → slot l.elements j ≡ some n
      → slot (relink cut l.free_index (with_prev k)) j
        ≡ some (if j == first_or 0 zs then with_prev 0 n else n)
  popped_slot j n other used e =
      let f = l.free_index in
      let q = first_or 0 zs in
      let els1 = set l.elements k (deleted f) in
      let n1 = if q == j then with_prev 0 n else n in
      let e1 : slot els1 j ≡ some n =
        subst (λ i. slot (set l.elements i (deleted f)) j ≡ some n)
          (Removed.pred_suc l k v [] zs free r)
          (slot-set l.elements (suc k) j _ (deleted f) (Removed.here l k v [] zs free r)
            ∙ rw other e) in
      slot-relink-some cut f (with_prev k) j n1 (slot-relink-some els1 q (with_prev 0) j n e1)
      ∙ Unlinked.kept (with_prev k n1) n1 (f == j) used
      ∙ Unlinked.flipped (with_prev 0) n q j

  -- The cells that are left are a list.
  pub popped_last : (if first_or 0 zs == 0 then 0 else l.last_index) ≡ last_or 0 zs
  popped_last =
      Unlinked.last_join [] zs (suc k, v) l.last_index r.last
        (λ b xs e.
          first_nonzero l.elements (suc k) b xs 0
            (subst (λ ws. Seg l.elements (suc k) ws 0) e r.chain.1))

  pub popped_chain : Seg (relink cut l.free_index (with_prev k)) 0 zs 0
  popped_chain =
      frame_prev l.elements _ (suc k) 0 zs 0 r.distinct.1
        (λ j n h e.
          popped_slot j n (Removed.back_apart l k v [] zs free r j h).0
            (Removed.free_apart l k v [] zs free r j n e
              (Removed.live_item l k v [] zs free r zs (suc k) 0 j n r.chain.1 h e))
            e)
        r.chain.1

module _ {A : Type 0} where
  -- `pop_front` of a list that is not empty returns the first value, and the other cells stay in
  -- their order; `free_index` then holds the index of the freed slot counted from 0.
  pub pop_front-front :
      (l : ArrayLinkedList A) (k : ℕ) (v : A) (zs : Cells A) (free : List ℕ)
      → Repr l ((suc k, v) ∷ zs) free
      → (l' : ArrayLinkedList A) × (pop_front l ≡ ok (some v, l'))
        × (l'.first_index ≡ first_or 0 zs)
        × (l'.last_index ≡ last_or 0 zs)
        × (l'.count ≡ length zs)
        × Seg l'.elements 0 zs 0
        × (l'.free_index ≡ k)
        × (length l'.elements ≡ length l.elements)
  unfolding popped
  pop_front-front l k v zs free r = (
    popped l k v zs free r,
    pop_front-popped l k v zs free r,
    refl,
    popped_last l k v zs free r,
    omega (arith, r.counted),
    popped_chain l k v zs free r,
    refl,
    length-relink _ l.free_index (with_prev k)
        ∙ length-relink _ (first_or 0 zs) (with_prev 0)
        ∙ length-set l.elements k (deleted l.free_index),
  )
