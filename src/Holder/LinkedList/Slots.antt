-- ===== src/Holder/LinkedList/Slots.antt =====
-- Writes to one slot of the vector in array_linked_list.rs, and the chain of the free slots.
use persia.Base.{
  ℕ, zero, suc, ◌-◌, ◌≤◌, ◌<◌, ◌≡◌, refl, ◌∙◌, inl, inr, Bool-cases, Option-cases, true, false,
  Option, none, some, List, [], ◌∷◌, ◌++◌, arith, ◌==◌, if◌then◌else◌, length, set, get_elem?-set,
  length-set, lt-length_of_some, get_elem?-append_length, ok, omap, head_or, elem,
}
use persia.Holder.LinkedList.{LinkedListNode, at, modify}
use persia.Holder.LinkedList.Chain.{slot}

-- The chain link of a free slot.
module _ {ℓ} {A : Type ℓ} where
  abbrev pub free_link : Option A → ℕ → Option ℕ
  free_link none k = some k
  free_link (some a) k = none

  abbrev pub vacant : Option (LinkedListNode A) → Option ℕ
  vacant none = none
  vacant (some n) = free_link n.item n.next_index

  abbrev pub FreeSeg : List (LinkedListNode A) → List ℕ → Type 0
  FreeSeg els [] = Unit
  FreeSeg els (f ∷ fs) = (vacant (slot els f) ≡ some (head_or 0 fs)) × FreeSeg els fs

abbrev pub DistinctFree : List ℕ → Type 0
DistinctFree [] = Unit
DistinctFree (f ∷ fs) = (elem f fs ≡ false) × DistinctFree fs

module _ {A : Type 0} where
  -- The vector after a write to the slot `i`, if there is one.
  unfoldable pub relink :
      List (LinkedListNode A) → ℕ → (LinkedListNode A → LinkedListNode A) → List (LinkedListNode A)
  relink els i f = elim (slot els i) [ none ↦ els | some n ↦ set els (i - 1) (f n) ]

  pub slot-set :
      (els : List (LinkedListNode A)) (i j : ℕ) (n m : LinkedListNode A)
      → slot els i ≡ some n
      → slot (set els (i - 1) m) j ≡ (if i == j then some m else slot els j)
  slot-set els zero j n m h = ground arith
  slot-set els (suc i) zero n m h = ground arith
  slot-set els (suc i) (suc j) n m h =
      rw suc-sub_one (ground (arith, get_elem?-set els i j m, lt-length_of_some els i h))
    where
      suc-sub_one : suc i - 1 ≡ i
      suc-sub_one = omega arith

  pub slot-relink :
      (els : List (LinkedListNode A)) (i : ℕ) (f : LinkedListNode A → LinkedListNode A) (j : ℕ)
      → slot (relink els i f) j ≡ (if i == j then omap f (slot els j) else slot els j)
  unfolding relink
  slot-relink els i f j = elim (Option-cases (slot els i)) [
    | inl e ↦
        rw (e, relink) (elim (Bool-cases (i == j)) [ inl k ↦ ground (arith, e) | inr k ↦ rw k ])
    | inr (n, e) ↦ rw (e, relink) (ground (arith, slot-set els i j n (f n) e))
  ]

  pub length-relink :
      (els : List (LinkedListNode A)) (i : ℕ) (f : LinkedListNode A → LinkedListNode A)
      → length (relink els i f) ≡ length els
  unfolding relink
  length-relink els i f = elim (Option-cases (slot els i)) [
    | inl e ↦ rw (e, relink)
    | inr (n, e) ↦ rw (e, relink) (length-set els (i - 1) (f n))
  ]

  pub at-slot :
      (els : List (LinkedListNode A)) (i : ℕ) (n : LinkedListNode A)
      → slot els i ≡ some n
      → at els (i - 1) ≡ ok n
  unfolding at
  at-slot els zero n h = ground arith
  at-slot els (suc i) n h = rw (suc_sub_one i, h)
    where
      suc_sub_one : (k : ℕ) → suc k - 1 ≡ k
      suc_sub_one k = omega arith

  pub modify-relink :
      (els : List (LinkedListNode A)) (i : ℕ) (f : LinkedListNode A → LinkedListNode A)
      (n : LinkedListNode A)
      → slot els i ≡ some n
      → modify els (i - 1) f ≡ ok (relink els i f)
  unfolding modify relink
  modify-relink els i f n h = rw (at-slot els i n h, h, relink) refl

  pub set-relink :
      (els : List (LinkedListNode A)) (i : ℕ) (m n : LinkedListNode A)
      → slot els i ≡ some n
      → set els (i - 1) m ≡ relink els i (λ _. m)
  unfolding relink
  set-relink els i m n h = rw (h, relink) refl

  pub slot_pos :
      (els : List (LinkedListNode A)) (i : ℕ) (n : LinkedListNode A)
      → slot els i ≡ some n
      → (0 < i) × (i ≤ length els)
  slot_pos els zero n h = ground arith
  slot_pos els (suc i) n h = ground (arith, lt-length_of_some els i h)

  pub slot-append :
      (els : List (LinkedListNode A)) (n : LinkedListNode A) (j : ℕ)
      → slot (els ++ n ∷ []) j ≡ (if j == suc (length els) then some n else slot els j)
  slot-append els n zero = ground arith
  slot-append els n (suc j) = ground (arith, get_elem?-append_length els n j)

  pub slot_of_vacant :
      (els : List (LinkedListNode A)) (i k : ℕ)
      → vacant (slot els i) ≡ some k
      → (n : LinkedListNode A) × (slot els i ≡ some n) × (n.item ≡ none) × (n.next_index ≡ k)
  slot_of_vacant els i k h = elim (Option-cases (slot els i)) [
    | inl e ↦ ground arith
    | inr (n, e) ↦ (n, e, ground arith, ground arith)
  ]

  pub frame_free :
      (els els' : List (LinkedListNode A)) (fs : List ℕ)
      → ((j : ℕ) → elem j fs ≡ true → vacant (slot els' j) ≡ vacant (slot els j))
      → FreeSeg els fs
      → FreeSeg els' fs
  frame_free els els' [] same s = tt
  frame_free els els' (f ∷ fs) same s =
      (ground (arith, same f, s.0), frame_free els els' fs (λ j h. same j (ground arith)) s.1)

  pub slot-relink-some :
      (els : List (LinkedListNode A)) (i : ℕ) (f : LinkedListNode A → LinkedListNode A) (j : ℕ)
      (n : LinkedListNode A)
      → slot els j ≡ some n
      → slot (relink els i f) j ≡ some (if i == j then f n else n)
  slot-relink-some els i f j n e = slot-relink els i f j ∙ ground arith
