-- ===== src/Holder/LinkedList/Read.antt =====
-- array_linked_list.rs: the methods that read the list, `clear`, and the iterators.
use persia.Base.{
  ℕ, ◌-◌, ◌%◌, Bool, ◌&&◌, Option, none, some, ltb, ◌==◌, if◌then◌else◌, u32_size, length, Outcome,
  ok, ◌>>=◌, unwrap_unchecked,
}
use persia.Holder.LinkedList.{ArrayLinkedList, at, new, fill_elements}

module _ {ℓ} {A : Type ℓ} where
  unfoldable pub front_index : ArrayLinkedList A → Option ℕ
  front_index l = if ltb 0 l.first_index then some (l.first_index - 1) else none

  unfoldable pub back_index : ArrayLinkedList A → Option ℕ
  back_index l = if ltb 0 l.last_index then some (l.last_index - 1) else none

  unfoldable pub front : ArrayLinkedList A → Outcome (Option A)
  front l =
      if ltb 0 l.first_index
      then (do n ← at l.elements (l.first_index - 1); v ← unwrap_unchecked n.item; ok (some v))
      else ok none

  unfoldable pub back : ArrayLinkedList A → Outcome (Option A)
  back l =
      if ltb 0 l.last_index
      then (do n ← at l.elements (l.last_index - 1); v ← unwrap_unchecked n.item; ok (some v))
      else ok none

  unfoldable pub is_empty : ArrayLinkedList A → Bool
  is_empty l = l.first_index == 0 && l.last_index == 0

  unfoldable pub clear : ArrayLinkedList A → ArrayLinkedList A
  clear l = fill_elements new (length l.elements % u32_size)

  unfoldable pub list_len : ArrayLinkedList A → ℕ
  list_len l = l.count % u32_size

  unfoldable pub capacity : ArrayLinkedList A → ℕ
  capacity l = length l.elements % u32_size

  -- `list[index]`.
  unfoldable pub index : ArrayLinkedList A → ℕ → Outcome (Option A)
  index l i = do n ← at l.elements i; ok n.item
