-- ===== src/Holder/LinkedList/Grown.antt =====
-- How many slots array_linked_list.rs has after `push_back` and `remove`.
use persia.Base.{
  ℕ, ◌+◌, ◌-◌, ◌≤◌, ◌≡◌, refl, sym, ap, subst, ◌∙◌, Bool, true, false, Option, List, [], ◌∷◌, ◌++◌,
  arith, ltb, ◌==◌, if◌then◌else◌, length, length-append, length-set, set, Outcome, ok, ◌>>=◌,
  bind-ok, unwrap_unchecked, Bool-cases, inl, inr, ok-injective, u32_add, u32_size, usize_sub, ◌%◌,
}
use persia.Holder.LinkedList.{
  LinkedListNode, ArrayLinkedList, at, modify, back_node, with_next, with_prev, insert_free_element,
  set_next_of_prev, set_prev_of_next, connect_indices, set_prev_of_free, deleted, is_some,
}
use persia.Holder.LinkedList.Insert.{push_back}
use persia.Holder.LinkedList.Remove.{remove, pop_front}

module _ {A : Type 0} where
  abbrev pub slots : ArrayLinkedList A → ℕ
  slots l = length l.elements

  modify-slots :
      (els els' : List (LinkedListNode A)) (i : ℕ) (f : LinkedListNode A → LinkedListNode A)
      → modify els i f ≡ ok els'
      → length els' ≡ length els
  unfolding modify
  modify-slots els els' i f h =
      let (n, e, q) = bind-ok (at els i) (λ n. ok (set els i (f n))) els' h in
      ap length (sym (ok-injective q)) ∙ length-set els i (f n)

  -- A write to a link, or to a field when the link is 0.
  write-slots :
      (b : Bool) (l k l' : ArrayLinkedList A) (i : ℕ) (f : LinkedListNode A → LinkedListNode A)
      → slots k ≡ slots l
      → Path
          (Outcome (ArrayLinkedList A))
          (if b then modify l.elements i f >>= (λ els. ok (record l { elements = els })) else ok k)
          (ok l')
      → slots l' ≡ slots l
  write-slots true l k l' i f same h =
      let (els, e, p) =
        bind-ok (modify l.elements i f) (λ els. ok (record l { elements = els })) l' h in
      ap slots (sym (ok-injective p)) ∙ modify-slots l.elements els i f e
  write-slots false l k l' i f same h = ap slots (sym (ok-injective h)) ∙ same

  -- The field that a link 0 stands for, as a list.
  branch :
      (active : Bool) (a b : ArrayLinkedList A)
      → Path
          (Outcome (ArrayLinkedList A))
          (if active then ok a else ok b)
          (ok (if active then a else b))
  branch true a b = refl
  branch false a b = refl

  either :
      (active : Bool) (a b l : ArrayLinkedList A)
      → slots a ≡ slots l
      → slots b ≡ slots l
      → slots (if active then a else b) ≡ slots l
  either true a b l h k = h
  either false a b l h k = k

  set_next_of_prev-slots :
      (l l' : ArrayLinkedList A) (index : ℕ) (active : Bool) (v : ℕ)
      → set_next_of_prev l index active v ≡ ok l'
      → slots l' ≡ slots l
  unfolding set_next_of_prev
  set_next_of_prev-slots l l' index active v h =
      let a : ArrayLinkedList A = record l { first_index = v } in
      let b : ArrayLinkedList A = record l { free_index = v } in
      write-slots (ltb 0 index) l (if active then a else b) l' (index - 1) (with_next v)
        (either active a b l refl refl)
        (subst
          (λ z.
            (if ltb 0 index
              then (modify l.elements (index - 1) (with_next v)
                  >>= (λ els. ok (record l { elements = els })))
              else z)
            ≡ ok l')
          (branch active a b) h)

  set_prev_of_next-slots :
      (l l' : ArrayLinkedList A) (index : ℕ) (active : Bool) (v : ℕ)
      → set_prev_of_next l index active v ≡ ok l'
      → slots l' ≡ slots l
  unfolding set_prev_of_next
  set_prev_of_next-slots l l' index active v h =
      let a : ArrayLinkedList A = record l { last_index = v } in
      let b : ArrayLinkedList A = record l { end_index = v } in
      write-slots (ltb 0 index) l (if active then a else b) l' (index - 1) (with_prev v)
        (either active a b l refl refl)
        (subst
          (λ z.
            (if ltb 0 index
              then (modify l.elements (index - 1) (with_prev v)
                  >>= (λ els. ok (record l { elements = els })))
              else z)
            ≡ ok l')
          (branch active a b) h)

  set_prev_of_free-slots :
      (l l' : ArrayLinkedList A) (v : ℕ) → set_prev_of_free l v ≡ ok l' → slots l' ≡ slots l
  unfolding set_prev_of_free
  set_prev_of_free-slots l l' v h =
      write-slots (ltb 0 l.free_index) l l l' (l.free_index - 1) (with_prev v) refl h

  connect_indices-slots :
      (l l' : ArrayLinkedList A) (prev_index next_index : ℕ) (active : Bool)
      → connect_indices l prev_index next_index active ≡ ok l'
      → slots l' ≡ slots l
  unfolding connect_indices
  connect_indices-slots l l' p n active h =
      let (l1, e, q) =
        bind-ok (set_prev_of_next l n active p) (λ k. set_next_of_prev k p active n) l' h in
      set_next_of_prev-slots l1 l' p active n q ∙ set_prev_of_next-slots l l1 n active p e

  abbrev recycled : ArrayLinkedList A → LinkedListNode A → LinkedListNode A → ArrayLinkedList A
  recycled l n r = record l {
    free_index = r.next_index;
    elements = set l.elements (l.free_index - 1) n;
  }

  insert_free_element-slots :
      (l l' : ArrayLinkedList A) (n : LinkedListNode A) (i : ℕ)
      → insert_free_element l n ≡ ok (i, l')
      → slots l' ≤ slots l + 1
  unfolding insert_free_element
  insert_free_element-slots l l' n i h = split (l.free_index == 0) h
    where
      pair :
          (k : ArrayLinkedList A) (j : ℕ)
          → Path (Outcome (ℕ × ArrayLinkedList A)) (ok (j, k)) (ok (i, l'))
          → slots l' ≡ slots k
      pair k j q = ap (λ (c : ℕ × ArrayLinkedList A). slots c.1) (sym (ok-injective q))

      split :
          (b : Bool)
          → Path
              (Outcome (ℕ × ArrayLinkedList A))
              (if b
                then ok (
                  (length l.elements + 1) % u32_size,
                  record l { elements = l.elements ++ n ∷ [] },
                )
                else (at l.elements (l.free_index - 1)
                    >>= (λ r. ok (l.free_index, recycled l n r))))
              (ok (i, l'))
          → slots l' ≤ slots l + 1
      split true q = omega (
        arith,
        pair (record l { elements = l.elements ++ n ∷ [] }) _ q,
        length-append l.elements (n ∷ []),
      )
      split false q =
          let (r, e, p) =
            bind-ok (at l.elements (l.free_index - 1)) (λ r. ok (l.free_index, recycled l n r))
              (i, l') q in
          omega (arith, pair (recycled l n r) _ p, length-set l.elements (l.free_index - 1) n)

  -- A list gets one slot more at most.
  pub push_back-slots :
      (l l' : ArrayLinkedList A) (v : A) (i : ℕ)
      → push_back l v ≡ ok (i, l')
      → slots l' ≤ slots l + 1
  unfolding push_back
  push_back-slots l l' v i h =
      let ((p, l1), e, q) =
        bind-ok (insert_free_element l (back_node l.last_index v)) _ (i, l') h in
      let (l2, e', q') = bind-ok (set_next_of_prev l1 l1.last_index true p) _ (i, l') q in
      omega (
        arith,
        insert_free_element-slots l l1 _ p e,
        set_next_of_prev-slots l1 l2 l1.last_index true p e',
        ap (λ (c : ℕ × ArrayLinkedList A). slots c.1) (ok-injective q'),
      )

  pub remove-slots :
      (l l' : ArrayLinkedList A) (i : ℕ) (v : Option A)
      → remove l i ≡ ok (v, l')
      → slots l' ≡ slots l
  unfolding remove
  remove-slots l l' i v h =
      let (n, e, q) = bind-ok (at l.elements i) _ (v, l') h in
      let l1 : ArrayLinkedList A = record l {
        elements = set l.elements i (deleted l.free_index);
      } in
      let (l2, e2, q2) =
        bind-ok (connect_indices l1 n.prev_index n.next_index (is_some n.item)) _ (v, l') q in
      let l3 : ArrayLinkedList A = record l2 {
        count = if is_some n.item then usize_sub l2.count 1 else l2.count;
      } in
      let (l4, e4, q4) = bind-ok (set_prev_of_free l3 (u32_add i 1)) _ (v, l') q2 in
      omega (
        arith,
        length-set l.elements i (deleted l.free_index),
        connect_indices-slots l1 l2 _ _ _ e2,
        set_prev_of_free-slots l3 l4 _ e4,
        ap (λ (c : Option A × ArrayLinkedList A). slots c.1) (ok-injective q4),
      )

  pub pop_front-slots :
      (l l' : ArrayLinkedList A) (v : Option A) → pop_front l ≡ ok (v, l') → slots l' ≡ slots l
  unfolding pop_front
  pop_front-slots l l' v h = elim (Bool-cases (l.first_index == 0)) [
    | inl z ↦ ap (λ (c : Option A × ArrayLinkedList A). slots c.1) (sym (ok-injective (rw z at h)))
    | inr z ↦
        let (n, e, q) = bind-ok (at l.elements (l.first_index - 1)) _ (v, l') (rw z at h) in
        let l1 : ArrayLinkedList A = record l {
          elements = set l.elements (l.first_index - 1) (deleted l.free_index);
        } in
        let (l2, e2, q2) = bind-ok (set_prev_of_next l1 n.next_index true 0) _ (v, l') q in
        let l3 : ArrayLinkedList A = record l2 {
          first_index = n.next_index;
          count = usize_sub l2.count 1;
        } in
        let (l4, e4, q4) = bind-ok (set_prev_of_free l3 (l.first_index - 1)) _ (v, l') q2 in
        let (w, e5, q5) = bind-ok (unwrap_unchecked n.item) _ (v, l') q4 in
        omega (
          arith,
          length-set l.elements (l.first_index - 1) (deleted l.free_index),
          set_prev_of_next-slots l1 l2 _ _ _ e2,
          set_prev_of_free-slots l3 l4 _ e4,
          ap (λ (c : Option A × ArrayLinkedList A). slots c.1) (ok-injective q5),
        )
  ]
