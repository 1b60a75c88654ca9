-- ===== src/Holder/LinkedList/Visited.antt =====
-- The loops over the iterators of array_linked_list.rs visit the values in the order of the chain.
use persia.Base.{
  ℕ, zero, suc, ◌-◌, ◌<◌, ◌≡◌, refl, ap, ◌∙◌, true, some, List, [], ◌∷◌, arith, ltb, ◌==◌, ==_self,
  if◌then◌else◌, length, ok,
}
use persia.Holder.LinkedList.{ArrayLinkedList, node}
use persia.Holder.LinkedList.Chain.{Cells, slot, last_or, Distinct, Seg, ne-last_or}
use persia.Holder.LinkedList.Slots.{at-slot, slot_pos}
use persia.Holder.LinkedList.Invariant.{Repr}
use persia.Holder.LinkedList.Iterate.{Indexed, indexed, next, collect}

-- What an iterator yields for the cells: an index counts from 0.
abbrev pub items {ℓ} : {A : Type ℓ} → Cells A → List (ℕ × A)
items [] = []
items (c ∷ xs) = (c.0 - 1, c.1) ∷ items xs

pos_test : (i : ℕ) → 0 < i → ltb 0 i ≡ true
pos_test i h = ground arith

module _ {A : Type 0} (l : ArrayLinkedList A) where
  abbrev cursor : (front_index back_index : ℕ) → Indexed A
  cursor f b = record { front_index = f; back_index = b; array = l }

  next-node :
      (i p q b : ℕ) (a : A)
      → slot l.elements i ≡ some (node p q a)
      → next (cursor i b) ≡ ok (some (i - 1, a), if i == b then cursor 0 0 else cursor q b)
  unfolding next
  next-node i p q b a e =
      rw (pos_test i (slot_pos l.elements i _ e).0, at-slot l.elements i _ e) refl

  collect_end : (n b : ℕ) → collect next n (cursor 0 b) ≡ ok []
  unfolding collect next
  collect_end zero b = refl
  collect_end (suc n) b = refl

  -- From the first cell on, when `n` calls are enough.
  collect-Seg :
      (n p : ℕ) (c : ℕ × A) (xs : Cells A)
      → length xs < n
      → Distinct (c ∷ xs)
      → Seg l.elements p (c ∷ xs) 0
      → collect next n (cursor c.0 (last_or c.0 xs)) ≡ ok (items (c ∷ xs))
  unfolding collect
  collect-Seg zero p c xs h d s = absurd (omega arith)
  collect-Seg (suc n) p c [] h d s =
      rw (next-node c.0 p 0 c.0 c.1 s.0, ==_self) (rw (collect_end n 0) refl)
  collect-Seg (suc n) p c (b ∷ xs) h d s =
      rw (next-node c.0 p b.0 (last_or b.0 xs) c.1 s.0, ne-last_or c.0 b xs d.0)
        (rw (collect-Seg n c.0 b xs (omega arith) d.1 s.1) refl)

indexed-cursor :
    {A : Type 0} (l : ArrayLinkedList A) (f b : ℕ)
    → l.first_index ≡ f
    → l.last_index ≡ b
    → indexed l ≡ cursor l f b
unfolding indexed
indexed-cursor l f b e d = λ i. record { front_index = e i; back_index = d i; array = l }

-- A loop over `indexed()` ends, and it visits the values from front to back with their indices,
-- when it may take more steps than there are values.
pub indexed-visits :
    {A : Type 0} (l : ArrayLinkedList A) (xs : Cells A) (free : List ℕ)
    → Repr l xs free
    → (n : ℕ) → length xs < n
    → collect next n (indexed l) ≡ ok (items xs)
indexed-visits l [] free r n h =
    ap (collect next n) (indexed-cursor l 0 0 r.first r.last) ∙ collect_end l n 0
indexed-visits l (c ∷ xs) free r n h =
    ap (collect next n) (indexed-cursor l c.0 (last_or c.0 xs) r.first r.last)
    ∙ collect-Seg l n 0 c xs (omega arith) r.distinct r.chain
