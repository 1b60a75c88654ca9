-- ===== src/Holder/LinkedList/Links.antt =====
-- The writes `*next_of_prev(i) = v` and `*prev_of_next(i) = v` of array_linked_list.rs, as pure
-- changes of the vector.
use persia.Base.{
  ℕ, ◌≡◌, refl, ◌≢◌, ◌⊎◌, inl, inr, Bool-cases, Bool, true, false, ◌||◌, Option, none, some, List,
  [], ◌∷◌, ◌++◌, arith, ltb, ◌==◌, ==_iff, ◌∙◌, sym, subst, if◌then◌else◌, ok, omap, elem, head_or,
}
use persia.Holder.LinkedList.{
  LinkedListNode, ArrayLinkedList, node, with_next, with_prev, set_prev_of_next, set_next_of_prev,
  set_prev_of_free,
}
use persia.Holder.LinkedList.Chain.{
  Cells, slot, first_or, last_or, has, Distinct, Seg, occupied, frame, has-last_or, ne-last_or,
  has-append,
}
use persia.Holder.LinkedList.Slots.{vacant, FreeSeg, relink, slot-relink, modify-relink, slot_pos}

or_false : (a b : Bool) → (a || b) ≡ false → (a ≡ false) × (b ≡ false)
or_false a b h = ground arith

pub flip_ne : (a b : ℕ) → (a == b) ≡ false → (b == a) ≡ false
flip_ne a b h = ground arith

pub head_apart :
    (fs : List ℕ) (j : ℕ) → elem j fs ≡ false → (j == 0) ≡ false → (head_or 0 fs == j) ≡ false
head_apart [] j h z = ground arith
head_apart (f ∷ fs) j h z = ground arith

module _ {A : Type 0} where
  -- An end of the list, or an occupied slot.
  abbrev pub Live : List (LinkedListNode A) → ℕ → Type 0
  Live els p = (p ≡ 0) ⊎ ((n : LinkedListNode A) × (slot els p ≡ some n) × (n.item ≢ none))

  pub positive_slot :
      (els : List (LinkedListNode A)) (p : ℕ) (n : LinkedListNode A)
      → slot els p ≡ some n
      → (ltb 0 p ≡ true) × ((p == 0) ≡ false)
  positive_slot els p n e = ground (arith, slot_pos els p n e)

  pub set_next_of_prev-relink :
      (l : ArrayLinkedList A) (p v : ℕ)
      → Live l.elements p
      → set_next_of_prev l p true v
        ≡ ok (record l {
          first_index = if p == 0 then v else l.first_index;
          elements = relink l.elements p (with_next v);
        })
  unfolding set_next_of_prev relink
  set_next_of_prev-relink l p v (inl e) = rw e refl
  set_next_of_prev-relink l p v (inr (n, e, _)) =
      let (pos, nz) = positive_slot l.elements p n e in
      rw (pos, nz, modify-relink l.elements p (with_next v) n e) refl

  pub set_prev_of_next-relink :
      (l : ArrayLinkedList A) (p v : ℕ)
      → Live l.elements p
      → set_prev_of_next l p true v
        ≡ ok (record l {
          last_index = if p == 0 then v else l.last_index;
          elements = relink l.elements p (with_prev v);
        })
  unfolding set_prev_of_next relink
  set_prev_of_next-relink l p v (inl e) = rw e refl
  set_prev_of_next-relink l p v (inr (n, e, _)) =
      let (pos, nz) = positive_slot l.elements p n e in
      rw (pos, nz, modify-relink l.elements p (with_prev v) n e) refl

  pub set_prev_of_free-relink :
      (l : ArrayLinkedList A) (v : ℕ)
      → (l.free_index ≡ 0) ⊎ ((n : LinkedListNode A) × (slot l.elements l.free_index ≡ some n))
      → set_prev_of_free l v
        ≡ ok (record l { elements = relink l.elements l.free_index (with_prev v) })
  unfolding set_prev_of_free relink
  set_prev_of_free-relink l v (inl e) = rw e refl
  set_prev_of_free-relink l v (inr (n, e)) =
      let (pos, nz) = positive_slot l.elements l.free_index n e in
      rw (pos, modify-relink l.elements l.free_index (with_prev v) n e) refl

  -- Neither write touches the chain of the free slots.
  pub vacant-relink_next :
      (els : List (LinkedListNode A)) (p v j : ℕ)
      → Live els p
      → vacant (slot (relink els p (with_next v)) j) ≡ vacant (slot els j)
  vacant-relink_next els p v j (inl e) = ground (arith, slot-relink els p (with_next v) j)
  vacant-relink_next els p v j (inr (n, e, live)) =
      ground (arith, slot-relink els p (with_next v) j)

  pub vacant-relink_prev :
      (els : List (LinkedListNode A)) (p v j : ℕ)
      → vacant (slot (relink els p (with_prev v)) j) ≡ vacant (slot els j)
  vacant-relink_prev els p v j = ground (arith, slot-relink els p (with_prev v) j)

  -- Both ends of a segment are live.
  pub last-Live :
      (els : List (LinkedListNode A)) (xs : Cells A) (q : ℕ)
      → Seg els 0 xs q
      → Live els (last_or 0 xs)
  last-Live els [] q s = inl refl
  last-Live els (c ∷ xs) q s = inr (occupied els 0 (c ∷ xs) q (last_or c.0 xs) s (has-last_or c xs))

  pub first-Live :
      (els : List (LinkedListNode A)) (p : ℕ) (xs : Cells A)
      → Seg els p xs 0
      → Live els (first_or 0 xs)
  first-Live els p [] s = inl refl
  first-Live els p (c ∷ xs) s = inr (node p (first_or 0 xs) c.1, s.0, λ k. cc)

  first_prev :
      (els : List (LinkedListNode A)) (p : ℕ) (xs : Cells A) (q j : ℕ) (n : LinkedListNode A)
      → Seg els p xs q
      → has j xs ≡ true
      → slot els j ≡ some n
      → (j == first_or q xs) ≡ true
      → n.prev_index ≡ p
  first_prev els p [] q j n s h e k = cc
  first_prev els p (c ∷ xs) q j n s h e k = ground (arith, s.0)

  last_next :
      (els : List (LinkedListNode A)) (p : ℕ) (xs : Cells A) (q j : ℕ) (n : LinkedListNode A)
      → Seg els p xs q
      → has j xs ≡ true
      → slot els j ≡ some n
      → (j == last_or p xs) ≡ true
      → n.next_index ≡ q
  last_next els p [] q j n s h e k = cc
  last_next els p (c ∷ []) q j n s h e k = ground (arith, s.0)
  last_next els p (c ∷ b ∷ xs) q j n s h e k =
      let at_end : j ≡ last_or b.0 xs = (==_iff j (last_or b.0 xs)).0 k in
      last_next els c.0 (b ∷ xs) q j n s.1
        (subst (λ i. has i (b ∷ xs) ≡ true) (sym at_end) (has-last_or b xs)) e k

  merge_next :
      (n : LinkedListNode A) (q p : ℕ) (a b : Bool)
      → (b ≡ true → n.prev_index ≡ p)
      → some (if a then with_next q n else n)
        ≡ some (record n {
          next_index = if a then q else n.next_index;
          prev_index = if b then p else n.prev_index;
        })
  merge_next n q p true true h = cc (h refl)
  merge_next n q p true false h = refl
  merge_next n q p false true h = cc (h refl)
  merge_next n q p false false h = refl

  merge_prev :
      (n : LinkedListNode A) (q p : ℕ) (a b : Bool)
      → (a ≡ true → n.next_index ≡ q)
      → some (if b then with_prev p n else n)
        ≡ some (record n {
          next_index = if a then q else n.next_index;
          prev_index = if b then p else n.prev_index;
        })
  merge_prev n q p true true h = cc (h refl)
  merge_prev n q p true false h = cc (h refl)
  merge_prev n q p false true h = refl
  merge_prev n q p false false h = refl

  -- `frame` for a write to the last slot only, and for one to the first slot only.
  pub frame_next :
      (els els' : List (LinkedListNode A)) (p : ℕ) (xs : Cells A) (q q' : ℕ)
      → Distinct xs
      → ((j : ℕ) (n : LinkedListNode A)
          → has j xs ≡ true
          → slot els j ≡ some n
          → slot els' j ≡ some (if j == last_or p xs then with_next q' n else n))
      → Seg els p xs q
      → Seg els' p xs q'
  frame_next els els' p xs q q' d same s =
      frame els els' p p xs q q' d
        (λ j n h e.
          same j n h e
          ∙ merge_next n q' p (j == last_or p xs) (j == first_or q xs)
              (first_prev els p xs q j n s h e))
        s

  pub frame_prev :
      (els els' : List (LinkedListNode A)) (p p' : ℕ) (xs : Cells A) (q : ℕ)
      → Distinct xs
      → ((j : ℕ) (n : LinkedListNode A)
          → has j xs ≡ true
          → slot els j ≡ some n
          → slot els' j ≡ some (if j == first_or q xs then with_prev p' n else n))
      → Seg els p xs q
      → Seg els' p' xs q
  frame_prev els els' p p' xs q d same s =
      frame els els' p p' xs q q d
        (λ j n h e.
          same j n h e
          ∙ merge_prev n q p' (j == last_or p xs) (j == first_or q xs)
              (last_next els p xs q j n s h e))
        s

  pub Distinct-append :
      (xs ys : Cells A)
      → Distinct xs
      → Distinct ys
      → ((j : ℕ) → has j xs ≡ true → has j ys ≡ false)
      → Distinct (xs ++ ys)
  Distinct-append [] ys d e apart = e
  Distinct-append (c ∷ xs) ys d e apart = (
    ground (arith, has-append c.0 xs ys, apart c.0, d.0),
    Distinct-append xs ys d.1 e (λ j h. apart j (ground arith)),
  )

  -- How a write by `relink` shows at a slot.
  pub relinked :
      (o : Option (LinkedListNode A)) (f : LinkedListNode A → LinkedListNode A) (a b j : ℕ)
      (n : LinkedListNode A)
      → o ≡ some n
      → a ≡ b
      → (if a == j then omap f o else o) ≡ some (if j == b then f n else n)
  relinked o f a b j n e h = ground arith

  pub not_relinked :
      (o : Option (LinkedListNode A)) (f : LinkedListNode A → LinkedListNode A) (a j : ℕ)
      → (a == j) ≡ false
      → (if a == j then omap f o else o) ≡ o
  not_relinked o f a j h = rw h

  pub last_nonzero :
      (els : List (LinkedListNode A)) (c : ℕ × A) (xs : Cells A) (q : ℕ)
      → Seg els 0 (c ∷ xs) q
      → (last_or c.0 xs == 0) ≡ false
  last_nonzero els c xs q s =
      let (n, e, _) = occupied els 0 (c ∷ xs) q (last_or c.0 xs) s (has-last_or c xs) in
      (positive_slot els (last_or c.0 xs) n e).1

  pub first_nonzero :
      (els : List (LinkedListNode A)) (p : ℕ) (c : ℕ × A) (xs : Cells A) (q : ℕ)
      → Seg els p (c ∷ xs) q
      → (c.0 == 0) ≡ false
  first_nonzero els p c xs q s = (positive_slot els c.0 (node p (first_or q xs) c.1) s.0).1

  pub Distinct-split :
      (xs ys : Cells A)
      → Distinct (xs ++ ys)
      → Distinct xs × Distinct ys × ((j : ℕ) → has j xs ≡ true → has j ys ≡ false)
  Distinct-split [] ys d = (tt, d, λ j h. cc)
  Distinct-split (c ∷ xs) ys d =
      let (front, back, apart) = Distinct-split xs ys d.1 in
      let (here, there) = or_false (has c.0 xs) (has c.0 ys) (sym (has-append c.0 xs ys) ∙ d.0) in
      (
        (here, front),
        back,
        λ j h. elim (Bool-cases (j == c.0)) [
          | inl k ↦ subst (λ i. has i ys ≡ false) (sym ((==_iff j c.0).0 k)) there
          | inr k ↦ apart j (ground arith)
        ],
      )

  -- The ends of a segment are not a slot outside of it.
  pub first_apart :
      (xs : Cells A) (j : ℕ) → has j xs ≡ false → (j == 0) ≡ false → (first_or 0 xs == j) ≡ false
  first_apart [] j h z = ground arith
  first_apart (c ∷ xs) j h z = ground arith

  pub last_apart :
      (xs : Cells A) (j : ℕ) → has j xs ≡ false → (j == 0) ≡ false → (last_or 0 xs == j) ≡ false
  last_apart [] j h z = ground arith
  last_apart (c ∷ xs) j h z = flip_ne j (last_or c.0 xs) (ne-last_or j c xs h)

  pub free_vacant :
      (els : List (LinkedListNode A)) (fs : List ℕ) (j : ℕ)
      → FreeSeg els fs
      → elem j fs ≡ true
      → (k : ℕ) × (vacant (slot els j) ≡ some k)
  free_vacant els [] j s h = cc
  free_vacant els (f ∷ fs) j s h = elim (Bool-cases (j == f)) [
    | inl e ↦ (head_or 0 fs, ground (arith, s.0))
    | inr e ↦ free_vacant els fs j s.1 (ground arith)
  ]

  -- So an occupied slot is not in the chain of the free ones.
  pub occupied_not_free :
      (els : List (LinkedListNode A)) (fs : List ℕ) (j : ℕ) (n : LinkedListNode A)
      → FreeSeg els fs
      → slot els j ≡ some n
      → n.item ≢ none
      → elem j fs ≡ false
  occupied_not_free els fs j n s e live = elim (Bool-cases (elem j fs)) [
    | inl h ↦ let (k, vac) = free_vacant els fs j s h in absurd (live (ground arith))
    | inr h ↦ h
  ]
