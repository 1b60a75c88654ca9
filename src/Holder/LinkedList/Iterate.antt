-- ===== src/Holder/LinkedList/Iterate.antt =====
-- array_linked_list.rs: the iterators. `Indexed` walks the list from both ends; `Indices` and
-- `Values` keep one half of its items; `IntoIndexed` takes the values out.
use persia.Base.{
  ℕ, zero, suc, ◌-◌, Option, none, some, List, [], ◌∷◌, ltb, ◌==◌, if◌then◌else◌, set, Outcome, ok,
  ◌>>=◌, unwrap_unchecked,
}
use persia.Holder.LinkedList.{ArrayLinkedList, is_some, at}

pub record Indexed {ℓ} (A : Type ℓ) : Type ℓ where
  pub front_index : ℕ
  pub back_index : ℕ
  pub array : ArrayLinkedList A

-- What a loop of at most `n` calls of `step` collects: it ends at the first `None`.
unfoldable pub collect {ℓ κ} :
    {S : Type κ} {B : Type ℓ} → (S → Outcome (Option B × S)) → ℕ → S → Outcome (List B)
collect step zero it = ok []
collect step (suc n) it = do
  (item, it') ← step it
  elim item [ none ↦ ok [] | some b ↦ do rest ← collect step n it'; ok (b ∷ rest) ]

module _ {ℓ} {A : Type ℓ} where
  -- `Indexed::new`.
  unfoldable pub indexed : ArrayLinkedList A → Indexed A
  indexed l = record { front_index = l.first_index; back_index = l.last_index; array = l }

  -- `Indexed::after`.
  unfoldable pub indexed_after : ArrayLinkedList A → (prev_index : ℕ) → Outcome (Indexed A)
  indexed_after l prev_index = do
    element ← at l.elements prev_index
    ok (
        if is_some element.item
        then record { front_index = element.next_index; back_index = l.last_index; array = l }
        else record { front_index = 0; back_index = 0; array = l })

  -- `Indexed::before`.
  unfoldable pub indexed_before : ArrayLinkedList A → (next_index : ℕ) → Outcome (Indexed A)
  indexed_before l next_index = do
    element ← at l.elements next_index
    ok (
        if is_some element.item
        then record { front_index = l.first_index; back_index = element.prev_index; array = l }
        else record { front_index = 0; back_index = 0; array = l })

  unfoldable pub next : Indexed A → Outcome (Option (ℕ × A) × Indexed A)
  next it =
      if ltb 0 it.front_index
      then (do
        element ← at it.array.elements (it.front_index - 1)
        let it' =
            if it.front_index == it.back_index
            then record it { front_index = 0; back_index = 0 }
            else record it { front_index = element.next_index }
        v ← unwrap_unchecked element.item
        ok (some (it.front_index - 1, v), it'))
      else ok (none, it)

  unfoldable pub next_back : Indexed A → Outcome (Option (ℕ × A) × Indexed A)
  next_back it =
      if ltb 0 it.back_index
      then (do
        element ← at it.array.elements (it.back_index - 1)
        let it' =
            if it.front_index == it.back_index
            then record it { front_index = 0; back_index = 0 }
            else record it { back_index = element.prev_index }
        v ← unwrap_unchecked element.item
        ok (some (it.back_index - 1, v), it'))
      else ok (none, it)

  -- `IntoIndexed::next` on the array that it owns.
  unfoldable pub into_next : ArrayLinkedList A → Outcome (Option (ℕ × A) × ArrayLinkedList A)
  into_next l =
      if ltb 0 l.first_index
      then (do
        let i = l.first_index - 1
        element ← at l.elements i
        let l' =
            if l.first_index == l.last_index
            then record l { first_index = 0; last_index = 0 }
            else record l { first_index = element.next_index }
        v ← unwrap_unchecked element.item
        ok (
          some (i, v),
          record l' { elements = set l.elements i (record element { item = none }) },
        ))
      else ok (none, l)
