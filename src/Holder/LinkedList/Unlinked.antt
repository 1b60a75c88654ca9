-- ===== src/Holder/LinkedList/Unlinked.antt =====
-- Writes that `remove` of array_linked_list.rs makes to the vector, slot by slot, and the ends of the
-- list once a cell is gone.
use persia.Base.{
  ℕ, ◌-◌, ◌≡◌, refl, sym, ap, ◌∙◌, ◌⊎◌, inl, inr, Bool, true, false, some, List, [], ◌∷◌, ◌++◌,
  arith, ◌==◌, ==_self, if◌then◌else◌, set, head_or,
}
use persia.Holder.LinkedList.{LinkedListNode, deleted, with_next, with_prev}
use persia.Holder.LinkedList.Chain.{Cells, slot, first_or, last_or, last_or-append}
use persia.Holder.LinkedList.Slots.{
  FreeSeg, relink, slot-set, slot-relink, slot-relink-some, slot_of_vacant,
}
use persia.Holder.LinkedList.Links.{Live, not_relinked}

module _ {A : Type 0} where
  -- The vector after `remove` of the slot `i` between the slots `p` and `q`.
  unfoldable pub unlinked :
      List (LinkedListNode A) → (i p q free_index : ℕ) → List (LinkedListNode A)
  unlinked els i p q free_index =
      relink
        (relink (relink (set els (i - 1) (deleted free_index)) q (with_prev p)) p (with_next q))
        free_index (with_prev i)

  pub kept :
      (o : LinkedListNode A) (n : LinkedListNode A) (b : Bool)
      → b ≡ false
      → some (if b then o else n) ≡ some n
  kept o n b h = rw h

  pub flipped :
      (f : LinkedListNode A → LinkedListNode A) (n : LinkedListNode A) (a b : ℕ)
      → some (if a == b then f n else n) ≡ some (if b == a then f n else n)
  flipped f n a b = ground arith

  module _ (els : List (LinkedListNode A)) (i p q free_index : ℕ) (m : LinkedListNode A)
      (here : slot els i ≡ some m) where
    -- A slot that is neither the removed one nor the first free one.
    unlinked-slot :
        (j : ℕ) (n : LinkedListNode A)
        → (i == j) ≡ false
        → (free_index == j) ≡ false
        → slot els j ≡ some n
        → (n' : LinkedListNode A) × (n' ≡ (if q == j then with_prev p n else n))
          × (slot (unlinked els i p q free_index) j ≡ some (if p == j then with_next q n' else n'))
    unfolding unlinked
    unlinked-slot j n other used e =
        let els1 = set els (i - 1) (deleted free_index) in
        let e1 : slot els1 j ≡ some n = slot-set els i j m (deleted free_index) here ∙ rw other e in
        let n1 = if q == j then with_prev p n else n in
        let n2 = if p == j then with_next q n1 else n1 in
        let e2 = slot-relink-some els1 q (with_prev p) j n e1 in
        let e3 = slot-relink-some (relink els1 q (with_prev p)) p (with_next q) j n1 e2 in
        (
          n1,
          refl,
          slot-relink-some (relink (relink els1 q (with_prev p)) p (with_next q)) free_index
                (with_prev i) j n2 e3
              ∙ kept (with_prev i n2) n2 (free_index == j) used,
        )

    pub unlinked_front :
        (j : ℕ) (n : LinkedListNode A)
        → (i == j) ≡ false
        → (free_index == j) ≡ false
        → (q == j) ≡ false
        → slot els j ≡ some n
        → slot (unlinked els i p q free_index) j ≡ some (if j == p then with_next q n else n)
    unlinked_front j n other used nq e =
        let (n', same, e') = unlinked-slot j n other used e in
        let same' : n' ≡ n = same ∙ rw nq refl in
        e'
        ∙ ap (λ k. some (if p == j then with_next q k else k)) same'
        ∙ flipped (with_next q) n p j

    pub unlinked_back :
        (j : ℕ) (n : LinkedListNode A)
        → (i == j) ≡ false
        → (free_index == j) ≡ false
        → (p == j) ≡ false
        → slot els j ≡ some n
        → slot (unlinked els i p q free_index) j ≡ some (if j == q then with_prev p n else n)
    unlinked_back j n other used np e =
        let (n', same, e') = unlinked-slot j n other used e in
        e' ∙ kept (with_next q n') n' (p == j) np ∙ ap some same ∙ flipped (with_prev p) n q j

    pub unlinked_here :
        (free_index == i) ≡ false
        → (p == i) ≡ false
        → (q == i) ≡ false
        → slot (unlinked els i p q free_index) i ≡ some (deleted free_index)
    unfolding unlinked
    unlinked_here nf np nq =
        let els1 = set els (i - 1) (deleted free_index) in
        let els2 = relink els1 q (with_prev p) in
        let els3 = relink els2 p (with_next q) in
        slot-relink els3 free_index (with_prev i) i
        ∙ not_relinked (slot els3 i) (with_prev i) free_index i nf
        ∙ slot-relink els2 p (with_next q) i
        ∙ not_relinked (slot els2 i) (with_next q) p i np
        ∙ slot-relink els1 q (with_prev p) i
        ∙ not_relinked (slot els1 i) (with_prev p) q i nq
        ∙ slot-set els i i m (deleted free_index) here
        ∙ rw ==_self refl

    -- The slots between which a live slot lies stay live.
    pub Live-set :
        (a : ℕ) (v : LinkedListNode A) → (i == a) ≡ false → Live els a → Live (set els (i - 1) v) a
    Live-set a v other (inl e) = inl e
    Live-set a v other (inr (n, e, live)) = inr (n, slot-set els i a m v here ∙ rw other e, live)

  pub Live-relink_prev :
      (els : List (LinkedListNode A)) (q v a : ℕ) → Live els a → Live (relink els q (with_prev v)) a
  Live-relink_prev els q v a (inl e) = inl e
  Live-relink_prev els q v a (inr (n, e, live)) = inr (
    (if q == a then with_prev v n else n),
    slot-relink-some els q (with_prev v) a n e,
    λ k. live (item_kept n v (q == a) ∙ k),
  )
    where
      item_kept :
          (n : LinkedListNode A) (v : ℕ) (b : Bool) → n.item ≡ (if b then with_prev v n else n).item
      item_kept n v true = refl
      item_kept n v false = refl

module _ {A : Type 0} where
  -- The ends of the list once the cell `c` is gone, where the code tests for an end of the chain.
  pub first_join :
      (ys zs : Cells A) (c : ℕ × A) (first : ℕ)
      → first ≡ first_or 0 (ys ++ c ∷ zs)
      → ((b : ℕ × A) (xs : Cells A) → ys ≡ b ∷ xs → (last_or b.0 xs == 0) ≡ false)
      → (if last_or 0 ys == 0 then first_or 0 zs else first) ≡ first_or 0 (ys ++ zs)
  first_join [] zs c first e nz = refl
  first_join (b ∷ ys) zs c first e nz = rw (nz b ys refl) e

  pub last_join :
      (ys zs : Cells A) (c : ℕ × A) (last : ℕ)
      → last ≡ last_or 0 (ys ++ c ∷ zs)
      → ((b : ℕ × A) (xs : Cells A) → zs ≡ b ∷ xs → (b.0 == 0) ≡ false)
      → (if first_or 0 zs == 0 then last_or 0 ys else last) ≡ last_or 0 (ys ++ zs)
  last_join ys [] c last e nz = sym (last_or-append 0 ys [])
  last_join ys (b ∷ zs) c last e nz =
      rw (nz b zs refl) (e ∙ last_or-append 0 ys (c ∷ b ∷ zs) ∙ sym (last_or-append 0 ys (b ∷ zs)))

  pub free_slot :
      (els : List (LinkedListNode A)) (free : List ℕ) (f : ℕ)
      → f ≡ head_or 0 free
      → FreeSeg els free
      → (f ≡ 0) ⊎ ((n : LinkedListNode A) × (slot els f ≡ some n))
  free_slot els [] f e s = inl e
  free_slot els (g ∷ free) f e s =
      let (n, found, _, _) = slot_of_vacant els g (head_or 0 free) s.0 in
      inr (n, ap (slot els) e ∙ found)
