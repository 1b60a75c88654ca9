-- ===== src/Holder/LinkedList/Insert.antt =====
-- array_linked_list.rs: the methods that add a value.
use persia.Base.{
  ℕ, ◌+◌, true, Option, none, some, if◌then◌else◌, u32_add, u32_sub, Outcome, ok, ◌>>=◌,
}
use persia.Holder.LinkedList.{
  ArrayLinkedList, is_some, node, front_node, back_node, at, insert_free_element, set_prev_of_next,
  set_next_of_prev,
}

module _ {ℓ} {A : Type ℓ} where
  unfoldable pub push_front : ArrayLinkedList A → A → Outcome (ℕ × ArrayLinkedList A)
  push_front l value = do
    (next_index, l1) ← insert_free_element l (front_node l.first_index value)
    l2 ← set_prev_of_next l1 l1.first_index true next_index
    ok (u32_sub next_index 1, record l2 { first_index = next_index; count = l2.count + 1 })

  unfoldable pub push_back : ArrayLinkedList A → A → Outcome (ℕ × ArrayLinkedList A)
  push_back l value = do
    (prev_index, l1) ← insert_free_element l (back_node l.last_index value)
    l2 ← set_next_of_prev l1 l1.last_index true prev_index
    ok (u32_sub prev_index 1, record l2 { last_index = prev_index; count = l2.count + 1 })

  unfoldable pub insert_between :
      ArrayLinkedList A → (prev_index next_index : ℕ) → A → Outcome (ℕ × ArrayLinkedList A)
  insert_between l prev_index next_index value = do
    (index, l1) ← insert_free_element l (node prev_index next_index value)
    l2 ← set_next_of_prev l1 prev_index true index
    l3 ← set_prev_of_next l2 next_index true index
    ok (u32_sub index 1, record l3 { count = l3.count + 1 })

  unfoldable pub insert_after :
      ArrayLinkedList A → (prev_index : ℕ) → A → Outcome (Option ℕ × ArrayLinkedList A)
  insert_after l prev_index value = do
    n ← at l.elements prev_index
    if is_some n.item
        then (do
          (i, l') ← insert_between l (u32_add prev_index 1) n.next_index value
          ok (some i, l'))
        else ok (none, l)

  unfoldable pub insert_before :
      ArrayLinkedList A → (next_index : ℕ) → A → Outcome (Option ℕ × ArrayLinkedList A)
  insert_before l next_index value = do
    n ← at l.elements next_index
    if is_some n.item
        then (do
          (i, l') ← insert_between l n.prev_index (u32_add next_index 1) value
          ok (some i, l'))
        else ok (none, l)
