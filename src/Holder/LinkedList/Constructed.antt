-- ===== src/Holder/LinkedList/Constructed.antt =====
-- `with_capacity` and `clear` of array_linked_list.rs give an empty list whose slots are all free.
use persia.Base.{
  ℕ, zero, suc, ◌+◌, ◌%◌, ◌<◌, ◌≡◌, refl, sym, ap, subst, ◌∙◌, false, some, List, [], ◌∷◌, arith,
  ◌==◌, if◌then◌else◌, length, get_elem?, elem, u32_size,
}
use persia.Holder.LinkedList.{
  LinkedListNode, ArrayLinkedList, deleted, new, fill_from, fill_elements, with_capacity,
}
use persia.Holder.LinkedList.Read.{clear}
use persia.Holder.LinkedList.Slots.{vacant, FreeSeg, DistinctFree}
use persia.Holder.LinkedList.Invariant.{Repr, positive_test}

-- `n` slots from `i` on.
pub slots_from : (n i : ℕ) → List ℕ
slots_from zero i = []
slots_from (suc n) i = i ∷ slots_from n (suc i)

below_not_elem : (n i j : ℕ) → j < i → elem j (slots_from n i) ≡ false
unfolding slots_from
below_not_elem zero i j h = refl
below_not_elem (suc n) i j h = ground (arith, below_not_elem n (suc i) j)

slots_from-DistinctFree : (n i : ℕ) → DistinctFree (slots_from n i)
unfolding slots_from
slots_from-DistinctFree zero i = tt
slots_from-DistinctFree (suc n) i =
    (below_not_elem n (suc i) i (omega arith), slots_from-DistinctFree n (suc i))

add_0 : (a : ℕ) → a + 0 ≡ a
add_0 a = omega arith

add_suc : (a j : ℕ) → a + suc j ≡ suc a + j
add_suc a j = omega arith

-- Each slot but the last one links to the next.
get_elem?-fill_from :
    (A : Type 0) (n i j : ℕ)
    → j < n
    → get_elem? (fill_from {A = A} n i) j ≡ some (deleted (if suc j == n then 0 else i + suc j))
unfolding fill_from
get_elem?-fill_from A zero i j h = absurd (omega arith)
get_elem?-fill_from A (suc zero) i zero h = refl
get_elem?-fill_from A (suc zero) i (suc j) h = absurd (omega arith)
get_elem?-fill_from A (suc (suc n)) i zero h = ground arith
get_elem?-fill_from A (suc (suc n)) i (suc j) h =
    ground (arith, get_elem?-fill_from A (suc n) (i + 1) j)

pub length-fill_from : (A : Type 0) (n i : ℕ) → length (fill_from {A = A} n i) ≡ n
unfolding fill_from
length-fill_from A zero i = refl
length-fill_from A (suc zero) i = refl
length-fill_from A (suc (suc n)) i = ap suc (length-fill_from A (suc n) (i + 1))

-- The link of the slot `j` after the slot `a`, of `m` slots.
abbrev link_at : (m a j : ℕ) → ℕ
link_at m a j = if suc j == m then 0 else suc (a + suc j)

link_at-suc : (m a j : ℕ) → link_at (suc m) a (suc j) ≡ link_at m (suc a) j
link_at-suc m a j = ground arith

module _ {A : Type 0} where
  FreeSeg-slots_from :
      (els : List (LinkedListNode A)) (m a : ℕ)
      → ((j : ℕ) → j < m → get_elem? els (a + j) ≡ some (deleted (link_at m a j)))
      → FreeSeg els (slots_from m (suc a))
  unfolding slots_from
  FreeSeg-slots_from els zero a h = tt
  FreeSeg-slots_from els (suc zero) a h = (
    ap vacant (subst (λ i. get_elem? els i ≡ some (deleted 0)) (add_0 a) (h 0 (omega arith))),
    tt,
  )
  FreeSeg-slots_from els (suc (suc m)) a h = (
    ap vacant (
        subst (λ i. get_elem? els i ≡ some (deleted (suc (suc a)))) (add_0 a)
          (h 0 (omega arith) ∙ ap (λ i. some (deleted i)) two)),
    FreeSeg-slots_from els (suc m) (suc a) (λ j k.
        subst (λ i. get_elem? els i ≡ some (deleted (link_at (suc m) (suc a) j))) (add_suc a j)
          (h (suc j) (omega arith) ∙ ap (λ i. some (deleted i)) (link_at-suc (suc m) a j))),
  )
    where
      two : link_at (suc (suc m)) a 0 ≡ suc (suc a)
      two = ground arith

zero_add : (j : ℕ) → j ≡ 0 + j
zero_add j = omega arith

fill_from-slots : (A : Type 0) (n : ℕ) → FreeSeg (fill_from {A = A} n 1) (slots_from n 1)
fill_from-slots A n = FreeSeg-slots_from (fill_from n 1) n 0 (λ j h.
    subst (λ i. get_elem? (fill_from {A = A} n 1) i ≡ some (deleted (link_at n 0 j))) (zero_add j)
      (get_elem?-fill_from A n 1 j h ∙ ap (λ i. some (deleted i)) (same n j)))
  where
    same : (n j : ℕ) → (if suc j == n then 0 else 1 + suc j) ≡ link_at n 0 j
    same n j = ground arith

-- The list with `n` more free slots, as `fill_elements` leaves it.
abbrev pub filled : (A : Type 0) (n : ℕ) → ArrayLinkedList A
filled A n = record {
  count = 0;
  first_index = 0;
  last_index = 0;
  free_index = 1;
  end_index = suc n;
  elements = fill_from (suc n) 1;
}

with_capacity-filled : (A : Type 0) (n : ℕ) → with_capacity {A = A} (suc n) ≡ filled A n
unfolding with_capacity fill_elements new
with_capacity-filled A n = rw (positive_test (suc n) (omega arith)) refl

filled-Repr : (A : Type 0) (n : ℕ) → suc n < u32_size → Repr (filled A n) [] (slots_from (suc n) 1)
unfolding slots_from
filled-Repr A n h = record {
  first = refl;
  last = refl;
  counted = refl;
  chain = tt;
  distinct = tt;
  free_first = refl;
  free_chain = fill_from-slots A (suc n);
  free_distinct = slots_from-DistinctFree (suc n) 1;
  small = omega (arith, length-fill_from A (suc n) 1, h);
}

-- The list that `with_capacity` returns is empty, and its slots are free, the first one first.
pub with_capacity-Repr :
    (A : Type 0) (capacity : ℕ)
    → capacity < u32_size
    → Repr (with_capacity {A = A} capacity) [] (slots_from capacity 1)
unfolding with_capacity fill_elements new slots_from
with_capacity-Repr A zero h = record {
  first = refl;
  last = refl;
  counted = refl;
  chain = tt;
  distinct = tt;
  free_first = refl;
  free_chain = tt;
  free_distinct = tt;
  small = omega arith;
}
with_capacity-Repr A (suc n) h =
    subst (λ l. Repr l [] (slots_from (suc n) 1)) (sym (with_capacity-filled A n))
      (filled-Repr A n h)

-- `clear` frees every slot and keeps their number.
pub clear-Repr :
    {A : Type 0} (l : ArrayLinkedList A)
    → length l.elements < u32_size
    → Repr (clear l) [] (slots_from (length l.elements) 1)
unfolding clear with_capacity
clear-Repr {A} l h =
    subst (λ n. Repr {A = A} (with_capacity n) [] (slots_from (length l.elements) 1)) (sym small)
      (with_capacity-Repr A (length l.elements) h)
  where
    small : length l.elements % u32_size ≡ length l.elements
    small = omega arith
