-- ===== src/Holder/LinkedList.antt =====
-- rust/persia-embedding-holder/src/array_linked_list.rs: a vector of slots with two chains through
-- it, the doubly linked list of the values and the singly linked list of the free slots. An index
-- in a link counts from 1, and 0 ends a chain; the indices that callers see count from 0. A method
-- that takes `&mut self` returns the new list beside its result. This file has the types, the
-- constructors and the writes that the methods share; `Insert`, `Remove` and `Read` have the methods.
pub mod Chain
pub mod Slots
pub mod Invariant
pub mod Links
pub mod Grown
pub mod Pushed
pub mod Unlinked
pub mod Removed
pub mod Popped
pub mod Overwritten
pub mod Iterate
pub mod Visited
pub mod Constructed
pub mod Insert
pub mod Remove
pub mod Read
use persia.Base.{
  ℕ, zero, suc, ◌+◌, ◌-◌, ◌%◌, Bool, true, false, ◌&&◌, Option, none, some, List, [], ◌∷◌, ◌++◌,
  ltb, ◌==◌, if◌then◌else◌, u32_size, u32_add, u32_sub, usize_sub, length, get_elem?, set, Outcome,
  ok, panic, ◌>>=◌, ◌>>◌, unwrap, unwrap_unchecked,
}

pub record LinkedListNode {ℓ} (A : Type ℓ) : Type ℓ where
  pub next_index : ℕ
  pub prev_index : ℕ
  pub item : Option A

pub record ArrayLinkedList {ℓ} (A : Type ℓ) : Type ℓ where
  pub count : ℕ
  pub first_index : ℕ
  pub last_index : ℕ
  pub free_index : ℕ
  pub end_index : ℕ
  pub elements : List (LinkedListNode A)

abbrev pub is_some {ℓ} : {A : Type ℓ} → Option A → Bool
is_some none = false
is_some (some a) = true

module _ {ℓ} {A : Type ℓ} where
  abbrev pub node : (prev_index next_index : ℕ) → A → LinkedListNode A
  node prev_index next_index value = record {
    next_index = next_index;
    prev_index = prev_index;
    item = some value;
  }

  abbrev pub front_node : (first_index : ℕ) → A → LinkedListNode A
  front_node first_index value = record {
    next_index = first_index;
    prev_index = 0;
    item = some value;
  }

  abbrev pub back_node : (last_index : ℕ) → A → LinkedListNode A
  back_node last_index value = record { next_index = 0; prev_index = last_index; item = some value }

  abbrev pub deleted : (free_index : ℕ) → LinkedListNode A
  deleted free_index = record { next_index = free_index; prev_index = 0; item = none }

  unfoldable pub new : ArrayLinkedList A
  new = record {
    count = 0;
    first_index = 0;
    last_index = 0;
    free_index = 0;
    end_index = 0;
    elements = [];
  }

  -- The loop of `fill_elements`: the slots from `i` on, of which `n` are still to be pushed.
  unfoldable pub fill_from : (n i : ℕ) → List (LinkedListNode A)
  fill_from zero i = []
  fill_from (suc zero) i = deleted 0 ∷ []
  fill_from (suc (suc n)) i = deleted (i + 1) ∷ fill_from (suc n) (i + 1)

  unfoldable pub fill_elements : ArrayLinkedList A → (capacity : ℕ) → ArrayLinkedList A
  fill_elements l capacity = if capacity == 0 then l else record l {
    elements = l.elements ++ fill_from capacity 1;
    free_index = 1;
    end_index = capacity;
  }

  unfoldable pub with_capacity : (capacity : ℕ) → ArrayLinkedList A
  with_capacity capacity = fill_elements new capacity

  -- `elements[i]`.
  unfoldable pub at : List (LinkedListNode A) → ℕ → Outcome (LinkedListNode A)
  at els i = unwrap (get_elem? els i)

  -- A write through `&mut elements[i]`.
  unfoldable pub modify :
      List (LinkedListNode A)
      → ℕ
      → (LinkedListNode A → LinkedListNode A)
      → Outcome (List (LinkedListNode A))
  modify els i f = do n ← at els i; ok (set els i (f n))

  abbrev pub with_next : ℕ → LinkedListNode A → LinkedListNode A
  with_next i n = record n { next_index = i }

  abbrev pub with_prev : ℕ → LinkedListNode A → LinkedListNode A
  with_prev i n = record n { prev_index = i }

  unfoldable pub insert_free_element :
      ArrayLinkedList A → LinkedListNode A → Outcome (ℕ × ArrayLinkedList A)
  insert_free_element l element =
      if l.free_index == 0
      then ok
          ((length l.elements + 1) % u32_size, record l { elements = l.elements ++ element ∷ [] })
      else do
        recycle_element ← at l.elements (l.free_index - 1)
        ok (
          l.free_index,
          record l {
            free_index = recycle_element.next_index;
            elements = set l.elements (l.free_index - 1) element;
          },
        )

  -- `*self.prev_of_next(index, active) = v`.
  unfoldable pub set_prev_of_next :
      ArrayLinkedList A → (index : ℕ) (active : Bool) (v : ℕ) → Outcome (ArrayLinkedList A)
  set_prev_of_next l index active v =
      if ltb 0 index
      then (do els ← modify l.elements (index - 1) (with_prev v); ok (record l { elements = els }))
      else if active
      then ok (record l { last_index = v })
      else ok (record l { end_index = v })

  -- `*self.next_of_prev(index, active) = v`.
  unfoldable pub set_next_of_prev :
      ArrayLinkedList A → (index : ℕ) (active : Bool) (v : ℕ) → Outcome (ArrayLinkedList A)
  set_next_of_prev l index active v =
      if ltb 0 index
      then (do els ← modify l.elements (index - 1) (with_next v); ok (record l { elements = els }))
      else if active
      then ok (record l { first_index = v })
      else ok (record l { free_index = v })

  unfoldable pub connect_indices :
      ArrayLinkedList A → (prev_index next_index : ℕ) (active : Bool) → Outcome (ArrayLinkedList A)
  connect_indices l prev_index next_index active = do
    l' ← set_prev_of_next l next_index active prev_index
    set_next_of_prev l' prev_index active next_index

  -- `if free_index > 0 { elements[free_index - 1].prev_index = v }`.
  unfoldable pub set_prev_of_free : ArrayLinkedList A → ℕ → Outcome (ArrayLinkedList A)
  set_prev_of_free l v =
      if ltb 0 l.free_index
      then (do
        els ← modify l.elements (l.free_index - 1) (with_prev v)
        ok (record l { elements = els }))
      else ok l
