-- ===== src/Holder/LinkedList/Remove.antt =====
-- array_linked_list.rs: the methods that take a value out or replace one.
use persia.Base.{
  ℕ, ◌+◌, ◌-◌, true, Option, none, some, ltb, ◌==◌, if◌then◌else◌, u32_add, usize_sub, set, Outcome,
  ok, ◌>>=◌, unwrap_unchecked,
}
use persia.Holder.LinkedList.{
  ArrayLinkedList, is_some, front_node, back_node, deleted, at, modify, with_next, with_prev,
  set_prev_of_next, set_next_of_prev, set_prev_of_free, connect_indices,
}

module _ {ℓ} {A : Type ℓ} where
  unfoldable pub remove : ArrayLinkedList A → (index : ℕ) → Outcome (Option A × ArrayLinkedList A)
  remove l index = do
    n ← at l.elements index
    let l1 = record l { elements = set l.elements index (deleted l.free_index) }
    l2 ← connect_indices l1 n.prev_index n.next_index (is_some n.item)
    let l3 = record l2 { count = if is_some n.item then usize_sub l2.count 1 else l2.count }
    l4 ← set_prev_of_free l3 (u32_add index 1)
    ok (n.item, record l4 { free_index = u32_add index 1 })

  unfoldable pub replace_front :
      ArrayLinkedList A → (index : ℕ) → A → Outcome (Option A × ArrayLinkedList A)
  replace_front l index value = do
    n ← at l.elements index
    let l1 = record l { elements = set l.elements index (front_node l.first_index value) }
    l2 ← connect_indices l1 n.prev_index n.next_index (is_some n.item)
    let l3 = record l2 { count = if is_some n.item then l2.count else l2.count + 1 }
    els ←
        (if ltb 0 l3.first_index
          then modify l3.elements (l3.first_index - 1) (with_prev (u32_add index 1))
          else ok l3.elements)
    ok (n.item, record l3 { elements = els; first_index = u32_add index 1 })

  unfoldable pub replace_back :
      ArrayLinkedList A → (index : ℕ) → A → Outcome (Option A × ArrayLinkedList A)
  replace_back l index value = do
    n ← at l.elements index
    let l1 = record l { elements = set l.elements index (back_node l.last_index value) }
    l2 ← connect_indices l1 n.prev_index n.next_index (is_some n.item)
    let l3 = record l2 { count = if is_some n.item then l2.count else l2.count + 1 }
    els ←
        (if ltb 0 l3.last_index
          then modify l3.elements (l3.last_index - 1) (with_next (u32_add index 1))
          else ok l3.elements)
    ok (n.item, record l3 { elements = els; last_index = u32_add index 1 })

  unfoldable pub pop_front : ArrayLinkedList A → Outcome (Option A × ArrayLinkedList A)
  pop_front l = if l.first_index == 0 then ok (none, l) else do
    let index = l.first_index - 1
    n ← at l.elements index
    let l1 = record l { elements = set l.elements index (deleted l.free_index) }
    l2 ← set_prev_of_next l1 n.next_index true 0
    let l3 = record l2 { first_index = n.next_index; count = usize_sub l2.count 1 }
    l4 ← set_prev_of_free l3 index
    v ← unwrap_unchecked n.item
    ok (some v, record l4 { free_index = index })

  unfoldable pub pop_back : ArrayLinkedList A → Outcome (Option A × ArrayLinkedList A)
  pop_back l = if l.last_index == 0 then ok (none, l) else do
    let index = l.last_index - 1
    n ← at l.elements index
    let l1 = record l {
      elements = set l.elements index (deleted l.free_index);
      last_index = n.prev_index;
    }
    l2 ← set_next_of_prev l1 n.prev_index true 0
    let l3 = record l2 { count = usize_sub l2.count 1 }
    l4 ← set_prev_of_free l3 index
    v ← unwrap_unchecked n.item
    ok (some v, record l4 { free_index = index })
