-- ===== src/Holder/LinkedList/Invariant.antt =====
-- The invariant of `ArrayLinkedList` (array_linked_list.rs), and what the writes that its methods
-- share do to it.
use persia.Base.{
  ℕ, suc, ◌+◌, ◌-◌, ◌%◌, ◌<◌, ◌≡◌, refl, false, none, some, List, [], ◌∷◌, ◌++◌, arith, ◌==◌,
  if◌then◌else◌, length, length-append, length-set, ok, set, head_or, tail_of, u32_size,
}
use persia.Holder.LinkedList.{LinkedListNode, ArrayLinkedList, insert_free_element}
use persia.Holder.LinkedList.Chain.{Cells, slot, first_or, last_or, Distinct, Seg}
use persia.Holder.LinkedList.Slots.{
  FreeSeg, DistinctFree, slot-set, at-slot, slot_pos, slot-append, slot_of_vacant, frame_free,
}

-- The list stands for the cells `xs`, in order, and `free` are its free slots, the next one first.
pub record Repr {A : Type 0} (l : ArrayLinkedList A) (xs : Cells A) (free : List ℕ) : Type 0 where
  pub first : l.first_index ≡ first_or 0 xs
  pub last : l.last_index ≡ last_or 0 xs
  pub counted : l.count ≡ length xs
  pub chain : Seg l.elements 0 xs 0
  pub distinct : Distinct xs
  pub free_first : l.free_index ≡ head_or 0 free
  pub free_chain : FreeSeg l.elements free
  pub free_distinct : DistinctFree free
  pub small : length l.elements < u32_size

-- The slot that the next value gets.
abbrev pub next_slot : {A : Type 0} → ArrayLinkedList A → List ℕ → ℕ
next_slot l [] = suc (length l.elements)
next_slot l (f ∷ free) = f

pub positive_test : (i : ℕ) → 0 < i → (i == 0) ≡ false
positive_test i h = ground arith

module _ {A : Type 0} where
  -- `insert_free_element` fills a slot that was free or beyond the vector, and no other.
  pub record Filled (l : ArrayLinkedList A) (n : LinkedListNode A) (free : List ℕ)
      (l' : ArrayLinkedList A) : Type 0 where
    pub slots :
        (j : ℕ) → slot l'.elements j ≡ (if next_slot l free == j then some n else slot l.elements j)
    pub same_first : l'.first_index ≡ l.first_index
    pub same_last : l'.last_index ≡ l.last_index
    pub same_count : l'.count ≡ l.count
    pub free_first : l'.free_index ≡ head_or 0 (tail_of free)
    pub free_chain : FreeSeg l'.elements (tail_of free)
    pub free_distinct : DistinctFree (tail_of free)
    pub positive : 0 < next_slot l free
    pub below : next_slot l free < u32_size
    pub small : length l'.elements < u32_size
    pub unused :
        (m : LinkedListNode A) → slot l.elements (next_slot l free) ≡ some m → m.item ≡ none

  pub insert_free_element-Filled :
      (l : ArrayLinkedList A) (n : LinkedListNode A) (xs : Cells A) (free : List ℕ)
      → Repr l xs free
      → length l.elements + 1 < u32_size
      → (l' : ArrayLinkedList A) × (insert_free_element l n ≡ ok (next_slot l free, l'))
        × Filled l n free l'
  unfolding insert_free_element
  insert_free_element-Filled l n xs [] r h = (
    record l { elements = l.elements ++ n ∷ [] },
    rw (r.free_first, small_suc) refl,
    record {
      slots = λ j. ground (arith, slot-append l.elements n j);
      same_first = refl;
      same_last = refl;
      same_count = refl;
      free_first = r.free_first;
      free_chain = tt;
      free_distinct = tt;
      positive = omega arith;
      below = omega arith;
      small = omega (arith, length-append l.elements (n ∷ []));
      unused = λ m e. absurd (omega (arith, slot_pos l.elements (suc (length l.elements)) m e));
    },
  )
    where
      small_suc : (length l.elements + 1) % u32_size ≡ suc (length l.elements)
      small_suc = omega arith
  insert_free_element-Filled l n xs (f ∷ free) r h =
      let (m, e, vac, nxt) = slot_of_vacant l.elements f (head_or 0 free) r.free_chain.0 in
      let (pos, le) = slot_pos l.elements f m e in
      (
        record l { free_index = m.next_index; elements = set l.elements (f - 1) n },
        rw (r.free_first, positive_test f pos, at-slot l.elements f m e) refl,
        record {
          slots = λ j. slot-set l.elements f j m n e;
          same_first = refl;
          same_last = refl;
          same_count = refl;
          free_first = nxt;
          free_chain =
              frame_free l.elements _ free
                (λ j k. ground (arith, slot-set l.elements f j m n e, r.free_distinct.0))
                r.free_chain.1;
          free_distinct = r.free_distinct.1;
          positive = pos;
          below = omega arith;
          small = omega (arith, length-set l.elements (f - 1) n);
          unused = λ m' e'. ground arith;
        },
      )
