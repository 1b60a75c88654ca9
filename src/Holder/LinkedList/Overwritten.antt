-- ===== src/Holder/LinkedList/Overwritten.antt =====
-- The consequence of the slot that `pop_front` of array_linked_list.rs frees: where the slot before
-- the popped one is in use, the next `push_back` writes over it.
use persia.Base.{
  ℕ, suc, ◌+◌, ◌-◌, ◌≤◌, ◌≡◌, refl, sym, ap, subst, ◌∙◌, ◌≢◌, inl, inr, Bool-cases, Bool, true,
  false, none, some, List, [], ◌∷◌, arith, ◌==◌, ==_self, if◌then◌else◌, set, ok, u32_sub_lem,
}
use persia.Holder.LinkedList.{
  LinkedListNode, ArrayLinkedList, back_node, at, with_next, with_prev, insert_free_element,
}
use persia.Holder.LinkedList.Insert.{push_back}
use persia.Holder.LinkedList.Remove.{pop_front}
use persia.Holder.LinkedList.Read.{index}
use persia.Holder.LinkedList.Chain.{Cells, slot, first_or}
use persia.Holder.LinkedList.Slots.{relink, slot-set, slot-relink-some, at-slot}
use persia.Holder.LinkedList.Links.{Live, set_next_of_prev-relink, last-Live}
use persia.Holder.LinkedList.Invariant.{Repr}
use persia.Holder.LinkedList.Removed
use persia.Holder.LinkedList.Popped.{
  popped, pop_front-popped, popped_slot, popped_last, popped_chain,
}

module _ {A : Type 0} where
  pub index-slot :
      (l : ArrayLinkedList A) (k : ℕ) (n : LinkedListNode A)
      → slot l.elements (suc k) ≡ some n
      → index l k ≡ ok n.item
  unfolding index at
  index-slot l k n e = rw e refl

  item_next :
      (n : LinkedListNode A) (v : ℕ) (b : Bool) → (if b then with_next v n else n).item ≡ n.item
  item_next n v true = refl
  item_next n v false = refl

  item_prev :
      (n : LinkedListNode A) (v : ℕ) (b : Bool) → (if b then with_prev v n else n).item ≡ n.item
  item_prev n v true = refl
  item_prev n v false = refl

  pub slot_of_index :
      (l : ArrayLinkedList A) (k : ℕ) (w : A)
      → index l k ≡ ok (some w)
      → (n : LinkedListNode A) × (slot l.elements (suc k) ≡ some n) × (n.item ≡ some w)
  unfolding index at
  slot_of_index l k w h = ground arith

  -- `push_back` fills the slot that `free_index` names, whatever it holds.
  push_back-recycles :
      (l : ArrayLinkedList A) (k : ℕ) (m : LinkedListNode A) (x : A)
      → l.free_index ≡ suc k
      → slot l.elements (suc k) ≡ some m
      → Live l.elements l.last_index
      → (l' : ArrayLinkedList A) × (push_back l x ≡ ok (k, l')) × (index l' k ≡ ok (some x))
  unfolding push_back insert_free_element
  push_back-recycles l k m x free here live =
      let b = back_node l.last_index x in
      let els = set l.elements (suc k - 1) b in
      let l1 = record l { free_index = m.next_index; elements = els } in
      let new_slot : slot els (suc k) ≡ some b =
        slot-set l.elements (suc k) (suc k) m b here ∙ rw ==_self refl in
      let l2 = record l1 {
        first_index = if l.last_index == 0 then suc k else l.first_index;
        last_index = suc k;
        count = l.count + 1;
        elements = relink els l.last_index (with_next (suc k));
      } in
      (
        l2,
        rw
            (
              free,
              nonzero,
              at-slot l.elements (suc k) m here,
              set_next_of_prev-relink l1 l.last_index (suc k)
                  (live_after l.last_index l.last_index live),
              u32_sub_lem (suc k) 1 one_le,
              pred_suc,
            )
            refl,
        index-slot l2 k _ (slot-relink-some els l.last_index (with_next (suc k)) (suc k) b new_slot)
            ∙ ap ok (item_next b (suc k) (l.last_index == suc k)),
      )
    where
      nonzero : (suc k == 0) ≡ false
      nonzero = ground arith

      one_le : 1 ≤ suc k
      one_le = omega arith

      pred_suc : suc k - 1 ≡ k
      pred_suc = omega arith

      live_after :
          (p q : ℕ) → Live l.elements p → Live (set l.elements (suc k - 1) (back_node q x)) p
      live_after p q (inl e) = inl e
      live_after p q (inr (n, e, live)) =
          let b = back_node q x in
          elim (Bool-cases (suc k == p)) [
            | inl h ↦ inr (b, slot-set l.elements (suc k) p m b here ∙ rw h refl, λ z. cc)
            | inr h ↦ inr (n, slot-set l.elements (suc k) p m b here ∙ rw h e, live)
          ]

  -- Where the slot just before the first cell's is occupied, `pop_front` leaves its value in place,
  -- and the next `push_back` returns its index and replaces the value there by the new one.
  pub pop_front-push_back_overwrites :
      (l : ArrayLinkedList A) (k : ℕ) (v w x : A) (zs : Cells A) (free : List ℕ)
      → Repr l ((suc (suc k), v) ∷ zs) free
      → index l k ≡ ok (some w)
      → (l' l'' : ArrayLinkedList A) × (pop_front l ≡ ok (some v, l'))
        × (index l' k ≡ ok (some w))
        × (push_back l' x ≡ ok (k, l''))
        × (index l'' k ≡ ok (some x))
  unfolding popped
  pop_front-push_back_overwrites l k v w x zs free r held =
      let (m, here, item) = slot_of_index l k w held in
      let live : m.item ≢ none = λ z. some_ne (sym item ∙ z) in
      let m' = if suc k == first_or 0 zs then with_prev 0 m else m in
      let l' = popped l (suc k) v zs free r in
      let popped_here =
        popped_slot l (suc k) v zs free r (suc k) m (suc_ne k)
          (Removed.free_apart l (suc k) v [] zs free r (suc k) m here live) here in
      let live_end =
        subst (Live l'.elements) (sym (popped_last l (suc k) v zs free r))
          (last-Live l'.elements zs 0 (popped_chain l (suc k) v zs free r)) in
      let (l'', pushed, read) = push_back-recycles l' k m' x refl popped_here live_end in
      (
        l',
        l'',
        pop_front-popped l (suc k) v zs free r,
        index-slot l' k m' popped_here ∙ ap ok (item_prev m 0 (suc k == first_or 0 zs) ∙ item),
        pushed,
        read,
      )
    where
      some_ne : {w : A} → ¬ (some w ≡ none)
      some_ne e = cc

      suc_ne : (k : ℕ) → (suc (suc k) == suc k) ≡ false
      suc_ne k = ground arith
