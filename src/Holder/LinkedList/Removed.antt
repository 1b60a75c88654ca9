-- ===== src/Holder/LinkedList/Removed.antt =====
-- What `remove` of array_linked_list.rs does to the list of cells.
use persia.Base.{
  ℕ, suc, ◌-◌, ◌<◌, ◌≡◌, refl, sym, ap, subst, ◌∙◌, ◌≢◌, ◌⊎◌, inl, inr, Bool-cases, true, false,
  Option, none, some, List, ◌∷◌, ◌++◌, arith, ◌==◌, ==_iff, if◌then◌else◌, length, length-append,
  length-set, lt-length_of_some, set, ok, elem, u32_size, u32_add, usize_sub, u32_add_lem,
  usize_sub_lem,
}
use persia.Holder.LinkedList.{
  LinkedListNode, ArrayLinkedList, node, deleted, at, with_next, with_prev, connect_indices,
}
use persia.Holder.LinkedList.Remove.{remove}
use persia.Holder.LinkedList.Chain.{
  Cells, slot, first_or, last_or, has, Distinct, Seg, Seg-append, Seg-front, Seg-back, occupied,
  has_head,
}
use persia.Holder.LinkedList.Slots.{
  vacant, relink, slot-set, slot-relink-some, length-relink, frame_free,
}
use persia.Holder.LinkedList.Links.{
  Live, set_next_of_prev-relink, set_prev_of_next-relink, set_prev_of_free-relink,
  vacant-relink_next, vacant-relink_prev, last-Live, first-Live, frame_next, frame_prev,
  Distinct-append, Distinct-split, last_nonzero, first_nonzero, first_apart, last_apart,
  occupied_not_free, head_apart, flip_ne, positive_slot,
}
use persia.Holder.LinkedList.Invariant.{Repr}
use persia.Holder.LinkedList.Unlinked.{
  unlinked, unlinked_front, unlinked_back, unlinked_here, Live-set, Live-relink_prev, first_join,
  last_join, free_slot,
}

module _ {A : Type 0} (l : ArrayLinkedList A) (k : ℕ) (v : A) (ys zs : Cells A) (free : List ℕ)
    (r : Repr l (ys ++ (suc k, v) ∷ zs) free) where
  pub pred_suc : suc k - 1 ≡ k
  pred_suc = omega arith

  pub here : slot l.elements (suc k) ≡ some (node (last_or 0 ys) (first_or 0 zs) v)
  here = (Seg-back l.elements 0 ys ((suc k, v) ∷ zs) 0 r.chain).0

  pub front_chain : Seg l.elements 0 ys (suc k)
  front_chain = Seg-front l.elements 0 ys ((suc k, v) ∷ zs) 0 r.chain

  pub back_chain : Seg l.elements (suc k) zs 0
  back_chain = (Seg-back l.elements 0 ys ((suc k, v) ∷ zs) 0 r.chain).1

  front-Distinct : Distinct ys
  front-Distinct = (Distinct-split ys ((suc k, v) ∷ zs) r.distinct).0

  pub back-Distinct : (has (suc k) zs ≡ false) × Distinct zs
  back-Distinct = (Distinct-split ys ((suc k, v) ∷ zs) r.distinct).1

  parts_apart : (j : ℕ) → has j ys ≡ true → has j ((suc k, v) ∷ zs) ≡ false
  parts_apart = (Distinct-split ys ((suc k, v) ∷ zs) r.distinct).2

  not_in_front : has (suc k) ys ≡ false
  not_in_front = elim (Bool-cases (has (suc k) ys)) [
    | inl h ↦ cc (sym (has_head (suc k, v) zs) ∙ parts_apart (suc k) h)
    | inr h ↦ h
  ]

  nonzero : (suc k == 0) ≡ false
  nonzero = ground arith

  front_apart : (j : ℕ) → has j ys ≡ true → ((suc k == j) ≡ false) × (has j zs ≡ false)
  front_apart j h = apart_cell j (parts_apart j h)
    where
      apart_cell :
          (j : ℕ) → has j ((suc k, v) ∷ zs) ≡ false → ((suc k == j) ≡ false) × (has j zs ≡ false)
      apart_cell j h = ground arith

  pub back_apart : (j : ℕ) → has j zs ≡ true → ((suc k == j) ≡ false) × (has j ys ≡ false)
  back_apart j h = (
    elim (Bool-cases (suc k == j)) [
      | inl e ↦ cc (sym h ∙ subst (λ i. has i zs ≡ false) ((==_iff (suc k) j).0 e) back-Distinct.0)
      | inr e ↦ e
    ],
    elim (Bool-cases (has j ys)) [ inl e ↦ cc (sym h ∙ (front_apart j e).1) | inr e ↦ e ],
  )

  pub free_apart :
      (j : ℕ) (n : LinkedListNode A)
      → slot l.elements j ≡ some n
      → n.item ≢ none
      → (l.free_index == j) ≡ false
  free_apart j n e live =
      subst (λ i. (i == j) ≡ false) (sym r.free_first)
        (head_apart free j (occupied_not_free l.elements free j n r.free_chain e live)
          (positive_slot l.elements j n e).1)

  pub live_item :
      (xs : Cells A) (p q j : ℕ) (n : LinkedListNode A)
      → Seg l.elements p xs q
      → has j xs ≡ true
      → slot l.elements j ≡ some n
      → n.item ≢ none
  live_item xs p q j n s h e =
      let (m, e', live) = occupied l.elements p xs q j s h in
      let same : some n ≡ some m = sym e ∙ e' in λ z. live (sym (ap (λ o. item_of o) same) ∙ z)
    where
      item_of : Option (LinkedListNode A) → Option A
      item_of none = none
      item_of (some n) = n.item

  abbrev after : List (LinkedListNode A)
  after = unlinked l.elements (suc k) (last_or 0 ys) (first_or 0 zs) l.free_index

  after_chain : Seg after 0 (ys ++ zs) 0
  after_chain =
      Seg-append after 0 ys zs 0
        (frame_next l.elements after 0 ys (suc k) (first_or 0 zs) front-Distinct
          (λ j n h e.
            unlinked_front l.elements (suc k) (last_or 0 ys) (first_or 0 zs) l.free_index _ here j n
              (front_apart j h).0 (free_apart j n e (live_item ys 0 (suc k) j n front_chain h e))
              (first_apart zs j (front_apart j h).1 (positive_slot l.elements j n e).1) e)
          front_chain)
        (frame_prev l.elements after (suc k) (last_or 0 ys) zs 0 back-Distinct.1
          (λ j n h e.
            unlinked_back l.elements (suc k) (last_or 0 ys) (first_or 0 zs) l.free_index _ here j n
              (back_apart j h).0 (free_apart j n e (live_item zs (suc k) 0 j n back_chain h e))
              (last_apart ys j (back_apart j h).1 (positive_slot l.elements j n e).1) e)
          back_chain)

  at_here : slot after (suc k) ≡ some (deleted l.free_index)
  at_here =
      unlinked_here l.elements (suc k) (last_or 0 ys) (first_or 0 zs) l.free_index _ here
        (free_apart (suc k) _ here (λ z. cc)) (last_apart ys (suc k) not_in_front nonzero)
        (first_apart zs (suc k) back-Distinct.0 nonzero)

  pub prev-Live : Live (set l.elements k (deleted l.free_index)) (first_or 0 zs)
  prev-Live =
      subst (λ i. Live (set l.elements i (deleted l.free_index)) (first_or 0 zs)) pred_suc
        (Live-set l.elements (suc k) (last_or 0 ys) (first_or 0 zs) l.free_index _ here
          (first_or 0 zs) (deleted l.free_index)
          (flip_ne (first_or 0 zs) (suc k) (first_apart zs (suc k) back-Distinct.0 nonzero))
          (first-Live l.elements (suc k) zs back_chain))

  next-Live :
      Live
        (relink
          (set l.elements k (deleted l.free_index))
          (first_or 0 zs)
          (with_prev (last_or 0 ys)))
        (last_or 0 ys)
  next-Live =
      Live-relink_prev (set l.elements k (deleted l.free_index)) (first_or 0 zs) (last_or 0 ys)
        (last_or 0 ys)
        (subst (λ i. Live (set l.elements i (deleted l.free_index)) (last_or 0 ys)) pred_suc
          (Live-set l.elements (suc k) (last_or 0 ys) (first_or 0 zs) l.free_index _ here
            (last_or 0 ys) (deleted l.free_index)
            (flip_ne (last_or 0 ys) (suc k) (last_apart ys (suc k) not_in_front nonzero))
            (last-Live l.elements ys (suc k) front_chain)))

  -- The first free slot keeps its place in its chain.
  vacant_kept : (j : ℕ) → (suc k == j) ≡ false → vacant (slot after j) ≡ vacant (slot l.elements j)
  unfolding unlinked
  vacant_kept j other =
      let els1 = set l.elements (suc k - 1) (deleted l.free_index) in
      let els2 = relink els1 (first_or 0 zs) (with_prev (last_or 0 ys)) in
      let els3 = relink els2 (last_or 0 ys) (with_next (first_or 0 zs)) in
      vacant-relink_prev els3 l.free_index (suc k) j
      ∙ vacant-relink_next els2 (last_or 0 ys) (first_or 0 zs) j (
          subst
            (λ i.
              Live
                (relink (set l.elements i (deleted l.free_index)) (first_or 0 zs)
                  (with_prev (last_or 0 ys)))
                (last_or 0 ys))
            (sym pred_suc) next-Live)
      ∙ vacant-relink_prev els1 (first_or 0 zs) (last_or 0 ys) j
      ∙ ap vacant (slot-set l.elements (suc k) j _ (deleted l.free_index) here ∙ rw other refl)

  here_not_free : elem (suc k) free ≡ false
  here_not_free = occupied_not_free l.elements free (suc k) _ r.free_chain here (λ z. cc)

  free_member_apart : (j : ℕ) → elem j free ≡ true → (suc k == j) ≡ false
  free_member_apart j h = elim (Bool-cases (suc k == j)) [
    | inl e ↦ cc (sym h ∙ subst (λ i. elem i free ≡ false) ((==_iff (suc k) j).0 e) here_not_free)
    | inr e ↦ e
  ]

  removed : ArrayLinkedList A
  removed = record {
    count = l.count - 1;
    first_index = if last_or 0 ys == 0 then first_or 0 zs else l.first_index;
    last_index = if first_or 0 zs == 0 then last_or 0 ys else l.last_index;
    free_index = suc k;
    end_index = l.end_index;
    elements = after;
  }

  length-removed : length removed.elements ≡ length l.elements
  unfolding removed unlinked
  length-removed =
      length-relink _ l.free_index (with_prev (suc k))
      ∙ length-relink _ (last_or 0 ys) (with_next (first_or 0 zs))
      ∙ length-relink _ (first_or 0 zs) (with_prev (last_or 0 ys))
      ∙ length-set l.elements (suc k - 1) (deleted l.free_index)

  removed-Repr : Repr removed (ys ++ zs) (suc k ∷ free)
  unfolding removed unlinked
  removed-Repr = record {
    first =
        first_join ys zs (suc k, v) l.first_index r.first
          (λ b xs e.
            last_nonzero l.elements b xs (suc k)
              (subst (λ ws. Seg l.elements 0 ws (suc k)) e front_chain));
    last =
        last_join ys zs (suc k, v) l.last_index r.last
          (λ b xs e.
            first_nonzero l.elements (suc k) b xs 0
              (subst (λ ws. Seg l.elements (suc k) ws 0) e back_chain));
    counted = omega (arith, r.counted, length-append ys zs, length-append ys ((suc k, v) ∷ zs));
    chain = after_chain;
    distinct = Distinct-append ys zs front-Distinct back-Distinct.1 (λ j h. (front_apart j h).1);
    free_first = refl;
    free_chain = (
      ap vacant at_here ∙ ap some r.free_first,
      frame_free l.elements after free (λ j h. vacant_kept j (free_member_apart j h)) r.free_chain,
    );
    free_distinct = (here_not_free, r.free_distinct);
    small = subst (λ n. n < u32_size) (sym length-removed) r.small;
  }

  pub slot_read : at l.elements k ≡ ok (node (last_or 0 ys) (first_or 0 zs) v)
  unfolding at
  slot_read = rw here refl

  index_next : u32_add k 1 ≡ suc k
  index_next =
      u32_add_lem k 1 (omega (arith, lt-length_of_some l.elements k here, r.small)) ∙ omega arith

  pub counted_down : usize_sub l.count 1 ≡ l.count - 1
  counted_down =
      usize_sub_lem l.count 1 (omega (arith, r.counted, length-append ys ((suc k, v) ∷ zs)))

  abbrev mid : List (LinkedListNode A)
  mid =
      relink
        (relink (set l.elements k (deleted l.free_index)) (first_or 0 zs)
          (with_prev (last_or 0 ys)))
        (last_or 0 ys) (with_next (first_or 0 zs))

  mid_free : (l.free_index ≡ 0) ⊎ ((n : LinkedListNode A) × (slot mid l.free_index ≡ some n))
  mid_free = elim (free_slot l.elements free l.free_index r.free_first r.free_chain) [
    | inl e ↦ inl e
    | inr (n, e) ↦
        let f = l.free_index in
        let els1 = set l.elements k (deleted f) in
        let n1 = if first_or 0 zs == f then with_prev (last_or 0 ys) n else n in
        let n2 = if last_or 0 ys == f then with_next (first_or 0 zs) n1 else n1 in
        let e1 : slot els1 f ≡ some n =
          subst (λ i. slot (set l.elements i (deleted f)) f ≡ some n) pred_suc
            (slot-set l.elements (suc k) f _ (deleted f) here
              ∙ rw (flip_ne f (suc k) (free_apart (suc k) _ here (λ z. cc))) e) in
        inr (
          n2,
          slot-relink-some (relink els1 (first_or 0 zs) (with_prev (last_or 0 ys))) (last_or 0 ys)
              (with_next (first_or 0 zs)) f n1
              (slot-relink-some els1 (first_or 0 zs) (with_prev (last_or 0 ys)) f n e1),
        )
  ]

  remove-removed : remove l k ≡ ok (some v, removed)
  unfolding remove removed connect_indices unlinked
  remove-removed =
      let l1 = record l { elements = set l.elements k (deleted l.free_index) } in
      let q = first_or 0 zs in
      let p = last_or 0 ys in
      let l2 = record l1 {
        last_index = if q == 0 then p else l.last_index;
        elements = relink l1.elements q (with_prev p);
      } in
      let l3 = record l2 {
        first_index = if p == 0 then q else l.first_index;
        elements = relink l2.elements p (with_next q);
        count = l.count - 1;
      } in
      rw
        (
          slot_read,
          set_prev_of_next-relink l1 q p prev-Live,
          set_next_of_prev-relink l2 p q next-Live,
          counted_down,
          index_next,
          set_prev_of_free-relink l3 (suc k) mid_free,
        )
        (rw pred_suc refl)

module _ {A : Type 0} where
  -- `remove` of the slot of a cell returns its value, unlinks the cell, leaves the other cells in
  -- their order and their slots, and makes the slot the next free one. The vector keeps its length.
  pub remove-Repr :
      (l : ArrayLinkedList A) (k : ℕ) (v : A) (ys zs : Cells A) (free : List ℕ)
      → Repr l (ys ++ (suc k, v) ∷ zs) free
      → (l' : ArrayLinkedList A) × (remove l k ≡ ok (some v, l'))
        × Repr l' (ys ++ zs) (suc k ∷ free)
        × (length l'.elements ≡ length l.elements)
  remove-Repr l k v ys zs free r = (
    removed l k v ys zs free r,
    remove-removed l k v ys zs free r,
    removed-Repr l k v ys zs free r,
    length-removed l k v ys zs free r,
  )
