-- ===== src/Holder/LinkedList/Chain.antt =====
-- Segments of the two chains through the slots of array_linked_list.rs, and how a write to a slot
-- carries over to a segment. Slots are named by the links' indices, which count from 1.
use persia.Base.{
  ℕ, zero, suc, ◌≡◌, refl, ap, ◌≢◌, inl, inr, Bool-cases, Bool, true, false, ◌||◌, Option, none,
  some, List, [], ◌∷◌, ◌++◌, arith, ◌==◌, ==_self, if◌then◌else◌, get_elem?,
}
use persia.Holder.LinkedList.{LinkedListNode, node}

-- A value with the index of its slot.
abbrev pub Cells {ℓ} : Type ℓ → Type ℓ
Cells A = List (ℕ × A)

module _ {ℓ} {A : Type ℓ} where
  abbrev pub slot : List (LinkedListNode A) → ℕ → Option (LinkedListNode A)
  slot els zero = none
  slot els (suc i) = get_elem? els i

  abbrev pub first_or : ℕ → Cells A → ℕ
  first_or z [] = z
  first_or z (c ∷ xs) = c.0

  abbrev pub last_or : ℕ → Cells A → ℕ
  last_or z [] = z
  last_or z (c ∷ xs) = last_or c.0 xs

  abbrev pub has : ℕ → Cells A → Bool
  has j [] = false
  has j (c ∷ xs) = (j == c.0) || has j xs

  abbrev pub Distinct : Cells A → Type 0
  Distinct [] = Unit
  Distinct (c ∷ xs) = (has c.0 xs ≡ false) × Distinct xs

  -- From the slot before them, `prev`, the links lead through the slots of the cells to `next`.
  abbrev pub Seg : List (LinkedListNode A) → (prev : ℕ) → Cells A → (next : ℕ) → Type ℓ
  Seg els prev [] next = Unit
  Seg els prev (c ∷ xs) next =
      (slot els c.0 ≡ some (node prev (first_or next xs) c.1)) × Seg els c.0 xs next

module _ {A : Type 0} where
  pub first_or-append :
      (z : ℕ) (xs ys : Cells A) → first_or z (xs ++ ys) ≡ first_or (first_or z ys) xs
  first_or-append z [] ys = refl
  first_or-append z (c ∷ xs) ys = refl

  pub last_or-append : (z : ℕ) (xs ys : Cells A) → last_or z (xs ++ ys) ≡ last_or (last_or z xs) ys
  last_or-append z [] ys = refl
  last_or-append z (c ∷ xs) ys = last_or-append c.0 xs ys

  pub has-append : (j : ℕ) (xs ys : Cells A) → has j (xs ++ ys) ≡ (has j xs || has j ys)
  has-append j [] ys = refl
  has-append j (c ∷ xs) ys = ground (arith, has-append j xs ys)

  pub Seg-append :
      (els : List (LinkedListNode A)) (p : ℕ) (xs ys : Cells A) (q : ℕ)
      → Seg els p xs (first_or q ys)
      → Seg els (last_or p xs) ys q
      → Seg els p (xs ++ ys) q
  Seg-append els p [] ys q s t = t
  Seg-append els p (c ∷ xs) ys q s t =
      (ground (arith, s.0, first_or-append q xs ys), Seg-append els c.0 xs ys q s.1 t)

  pub Seg-front :
      (els : List (LinkedListNode A)) (p : ℕ) (xs ys : Cells A) (q : ℕ)
      → Seg els p (xs ++ ys) q
      → Seg els p xs (first_or q ys)
  Seg-front els p [] ys q s = tt
  Seg-front els p (c ∷ xs) ys q s =
      (ground (arith, s.0, first_or-append q xs ys), Seg-front els c.0 xs ys q s.1)

  pub Seg-back :
      (els : List (LinkedListNode A)) (p : ℕ) (xs ys : Cells A) (q : ℕ)
      → Seg els p (xs ++ ys) q
      → Seg els (last_or p xs) ys q
  Seg-back els p [] ys q s = s
  Seg-back els p (c ∷ xs) ys q s = Seg-back els c.0 xs ys q s.1

  -- The slots of a segment are occupied.
  pub occupied :
      (els : List (LinkedListNode A)) (p : ℕ) (xs : Cells A) (q j : ℕ)
      → Seg els p xs q
      → has j xs ≡ true
      → (n : LinkedListNode A) × (slot els j ≡ some n) × (n.item ≢ none)
  occupied els p [] q j s h = cc
  occupied els p (c ∷ xs) q j s h = elim (Bool-cases (j == c.0)) [
    | inl e ↦ (node p (first_or q xs) c.1, ground (arith, s.0), λ k. cc)
    | inr e ↦ occupied els c.0 xs q j s.1 (ground arith)
  ]

  pub has_head : (c : ℕ × A) (xs : Cells A) → has c.0 (c ∷ xs) ≡ true
  has_head c xs = ground arith

  pub has-last_or : (c : ℕ × A) (xs : Cells A) → has (last_or c.0 xs) (c ∷ xs) ≡ true
  has-last_or c [] = ground arith
  has-last_or c (b ∷ xs) = ground (arith, has-last_or b xs)

  pub ne-last_or :
      (j : ℕ) (c : ℕ × A) (xs : Cells A) → has j (c ∷ xs) ≡ false → (j == last_or c.0 xs) ≡ false
  ne-last_or j c xs h =
      ground (arith, has-last_or c xs, λ (e : j ≡ last_or c.0 xs). ap (λ k. has k (c ∷ xs)) e)

  -- A segment lives on in other slots that agree with its own, but for the link back from its
  -- first slot and the link forward from its last.
  pub frame :
      (els els' : List (LinkedListNode A)) (p p' : ℕ) (xs : Cells A) (q q' : ℕ)
      → Distinct xs
      → ((j : ℕ) (n : LinkedListNode A)
          → has j xs ≡ true
          → slot els j ≡ some n
          → slot els' j
            ≡ some (record n {
              next_index = if j == last_or p xs then q' else n.next_index;
              prev_index = if j == first_or q xs then p' else n.prev_index;
            }))
      → Seg els p xs q
      → Seg els' p' xs q'
  frame els els' p p' [] q q' d same s = tt
  frame els els' p p' (c ∷ []) q q' d same s =
      (ground (arith, same c.0 (node p q c.1) (ground arith) s.0), tt)
  frame els els' p p' (c ∷ b ∷ xs) q q' d same s = (
    rw (ne-last_or c.0 b xs d.0, ==_self) at (same c.0 (node p b.0 c.1) (has_head c (b ∷ xs)) s.0),
    frame els els' c.0 c.0 (b ∷ xs) q q' d.1
        (λ j n h e. ground (arith, same j n (ground arith) e, s.1.0)) s.1,
  )
