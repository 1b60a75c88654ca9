-- ===== src/Holder/LinkedList/Pushed.antt =====
-- What `push_back`, `push_front` and `insert_between` of array_linked_list.rs do to the list of cells.
use persia.Base.{
  ℕ, ◌+◌, ◌-◌, ◌<◌, ◌≡◌, refl, sym, subst, ◌∙◌, ◌≢◌, inl, inr, Bool-cases, true, false, none, some,
  List, [], ◌∷◌, ◌++◌, arith, ◌==◌, ==_self, if◌then◌else◌, length, length-append, ok, tail_of,
  u32_size, u32_sub_lem,
}
use persia.Holder.LinkedList.{
  LinkedListNode, ArrayLinkedList, node, back_node, with_next, insert_free_element,
}
use persia.Holder.LinkedList.Insert.{push_back}
use persia.Holder.LinkedList.Chain.{
  Cells, slot, first_or, last_or, has, Seg, Seg-append, occupied, last_or-append,
}
use persia.Holder.LinkedList.Slots.{relink, slot-relink, length-relink, frame_free}
use persia.Holder.LinkedList.Links.{
  Live, set_next_of_prev-relink, vacant-relink_next, last-Live, frame_next, Distinct-append,
  relinked, not_relinked, last_nonzero,
}
use persia.Holder.LinkedList.Invariant.{Repr, next_slot, Filled, insert_free_element-Filled}

first_ne : (p f : ℕ) → p ≡ 0 → 0 < f → (p == f) ≡ false
first_ne p f e h = ground arith

flip_ne : (a b : ℕ) → (a == b) ≡ false → (b == a) ≡ false
flip_ne a b h = ground arith

-- The head of a list after an append, where the code tests for an empty list by an end's index.
first_after :
    {A : Type 0} (xs : Cells A) (f : ℕ) (v : A) (end first : ℕ)
    → end ≡ last_or 0 xs
    → first ≡ first_or 0 xs
    → ((c : ℕ × A) (ys : Cells A) → xs ≡ c ∷ ys → (last_or c.0 ys == 0) ≡ false)
    → (if end == 0 then f else first) ≡ first_or 0 (xs ++ (f, v) ∷ [])
first_after [] f v end first e k nz = rw e refl
first_after (c ∷ ys) f v end first e k nz = rw (e, nz c ys refl) k

module _ {A : Type 0} {l : ArrayLinkedList A} {n : LinkedListNode A} {free : List ℕ}
    {l' : ArrayLinkedList A} (fl : Filled l n free l') where
  -- Filling a free slot leaves the occupied ones alone.
  pub slot_kept :
      (p : ℕ) (m : LinkedListNode A)
      → slot l.elements p ≡ some m
      → m.item ≢ none
      → ((next_slot l free == p) ≡ false) × (slot l'.elements p ≡ some m)
  slot_kept p m e live = elim (Bool-cases (next_slot l free == p)) [
    | inl k ↦ absurd (live (fl.unused m (ground arith)))
    | inr k ↦ (k, fl.slots p ∙ ground arith)
  ]

  pub Live-Filled : (p : ℕ) → Live l.elements p → Live l'.elements p
  Live-Filled p (inl e) = inl e
  Live-Filled p (inr (m, e, live)) = inr (m, (slot_kept p m e live).1, live)

  pub fresh_slot :
      (xs : Cells A) (p q : ℕ) → Seg l.elements p xs q → has (next_slot l free) xs ≡ false
  fresh_slot xs p q s = elim (Bool-cases (has (next_slot l free) xs)) [
    | inl k ↦
        let (m, e, live) = occupied l.elements p xs q (next_slot l free) s k in
        absurd (live (fl.unused m e))
    | inr k ↦ k
  ]

  -- The same, for the slots of a segment.
  pub segment_kept :
      (p q : ℕ) (xs : Cells A) (j : ℕ) (m : LinkedListNode A)
      → Seg l.elements p xs q
      → has j xs ≡ true
      → slot l.elements j ≡ some m
      → ((next_slot l free == j) ≡ false) × (slot l'.elements j ≡ some m)
  segment_kept p q xs j m s h e =
      let (m', e', live) = occupied l.elements p xs q j s h in
      slot_kept j m e (λ k. live (ground arith))

  Live-ne : (p : ℕ) → Live l.elements p → (p == next_slot l free) ≡ false
  Live-ne p (inl e) = first_ne p (next_slot l free) e fl.positive
  Live-ne p (inr (m, e, live)) = flip_ne (next_slot l free) p (slot_kept p m e live).0

  apart_fresh :
      (v : A) (xs : Cells A) (j : ℕ)
      → has (next_slot l free) xs ≡ false
      → has j xs ≡ true
      → has j ((next_slot l free, v) ∷ []) ≡ false
  apart_fresh v xs j fresh h = ground arith

module _ {A : Type 0} (l l1 : ArrayLinkedList A) (v : A) (xs : Cells A) (free : List ℕ)
    (r : Repr l xs free) (fl : Filled l (back_node l.last_index v) free l1) where
  at_last : l1.last_index ≡ last_or 0 xs
  at_last = fl.same_last ∙ r.last

  back-Live : Live l1.elements l1.last_index
  back-Live =
      subst (Live l1.elements) (sym at_last)
        (Live-Filled fl (last_or 0 xs) (last-Live l.elements xs 0 r.chain))

  pushed_back : ArrayLinkedList A
  pushed_back = record l1 {
    count = l1.count + 1;
    first_index = if l1.last_index == 0 then next_slot l free else l1.first_index;
    last_index = next_slot l free;
    elements = relink l1.elements l1.last_index (with_next (next_slot l free));
  }

  back_slots :
      (j : ℕ) (n : LinkedListNode A)
      → has j xs ≡ true
      → slot l.elements j ≡ some n
      → slot (relink l1.elements l1.last_index (with_next (next_slot l free))) j
        ≡ some (if j == last_or 0 xs then with_next (next_slot l free) n else n)
  back_slots j n h e =
      let (_, kept) = segment_kept fl 0 0 xs j n r.chain h e in
      slot-relink l1.elements l1.last_index (with_next (next_slot l free)) j
      ∙ relinked (slot l1.elements j) (with_next (next_slot l free)) l1.last_index (last_or 0 xs) j
          n kept at_last

  back_new :
      slot (relink l1.elements l1.last_index (with_next (next_slot l free))) (next_slot l free)
      ≡ some (node (last_or 0 xs) 0 v)
  back_new =
      slot-relink l1.elements l1.last_index (with_next (next_slot l free)) (next_slot l free)
      ∙ not_relinked (slot l1.elements (next_slot l free)) (with_next (next_slot l free))
          l1.last_index (next_slot l free)
          (subst (λ i. (i == next_slot l free) ≡ false) (sym at_last)
            (Live-ne fl (last_or 0 xs) (last-Live l.elements xs 0 r.chain)))
      ∙ fl.slots (next_slot l free)
      ∙ rw (==_self, r.last) refl

  back_first :
      (if l1.last_index == 0 then next_slot l free else l1.first_index)
      ≡ first_or 0 (xs ++ (next_slot l free, v) ∷ [])
  back_first =
      first_after xs (next_slot l free) v l1.last_index l1.first_index at_last
        (fl.same_first ∙ r.first)
        (λ c ys e. last_nonzero l.elements c ys 0 (subst (λ zs. Seg l.elements 0 zs 0) e r.chain))

  pushed_back-Repr : Repr pushed_back (xs ++ (next_slot l free, v) ∷ []) (tail_of free)
  unfolding pushed_back
  pushed_back-Repr = record {
    first = back_first;
    last = sym (last_or-append 0 xs ((next_slot l free, v) ∷ []));
    counted =
        omega (arith, r.counted, fl.same_count, length-append xs ((next_slot l free, v) ∷ []));
    chain =
        Seg-append _ 0 xs ((next_slot l free, v) ∷ []) 0
          (frame_next l.elements _ 0 xs 0 (next_slot l free) r.distinct back_slots r.chain)
          (back_new, tt);
    distinct =
        Distinct-append xs ((next_slot l free, v) ∷ []) r.distinct (refl, tt)
          (λ j h. apart_fresh fl v xs j (fresh_slot fl xs 0 0 r.chain) h);
    free_first = fl.free_first;
    free_chain =
        frame_free l1.elements _ (tail_of free)
          (λ j h. vacant-relink_next l1.elements l1.last_index (next_slot l free) j back-Live)
          fl.free_chain;
    free_distinct = fl.free_distinct;
    small =
        omega
          (arith, fl.small, length-relink l1.elements l1.last_index (with_next (next_slot l free)));
  }

  push_back-pushed :
      insert_free_element l (back_node l.last_index v) ≡ ok (next_slot l free, l1)
      → push_back l v ≡ ok (next_slot l free - 1, pushed_back)
  unfolding push_back pushed_back
  push_back-pushed filled =
      rw
        (
          filled,
          set_next_of_prev-relink l1 l1.last_index (next_slot l free) back-Live,
          u32_sub_lem (next_slot l free) 1 fl.positive,
        )
        refl

module _ {A : Type 0} where
  -- On a list with the invariant and fewer than 2^32 - 1 slots, `push_back` returns the index of the slot that it fills and puts the value at the end.
  pub push_back-Repr :
      (l : ArrayLinkedList A) (v : A) (xs : Cells A) (free : List ℕ)
      → Repr l xs free
      → length l.elements + 1 < u32_size
      → (l' : ArrayLinkedList A) × (push_back l v ≡ ok (next_slot l free - 1, l'))
        × Repr l' (xs ++ (next_slot l free, v) ∷ []) (tail_of free)
  push_back-Repr l v xs free r room =
      let (l1, filled, fl) =
        insert_free_element-Filled l (back_node l.last_index v) xs free r room in
      (
        pushed_back l l1 v xs free r fl,
        push_back-pushed l l1 v xs free r fl filled,
        pushed_back-Repr l l1 v xs free r fl,
      )
