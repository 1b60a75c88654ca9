-- ===== src/DataOrder.antt =====
-- rust/persia-core/src/forward.rs: `PerisaDataOrderManager` puts the batches that arrive in any order
-- back in the order of their ids. The heap is a list in the order in which it pops: the smallest id
-- first. The clock is `now`, in nanoseconds; the threads and the channels around the loop are not
-- modelled: what is sent is what is handed to the channel, and a batch whose send fails is lost, as
-- in the source, where only a message is logged.
pub mod Ordered
use persia.Base.{
  ℕ, zero, suc, ◌+◌, ◌-◌, ◌/◌, ◌%◌, nanos, Option, none, some, List, [], ◌∷◌, ltb, leb,
  if◌then◌else◌, length, u64_size,
}

-- The id of a batch, and the rest of it.
pub record PersiaBatchImpl (D : Type 0) : Type 0 where
  pub content : D
  pub batch_id : Option ℕ

pub record PerisaDataOrderManager (D : Type 0) : Type 0 where
  pub world_size : ℕ
  pub expect_batch_id : ℕ
  pub data_buffer : List (PersiaBatchImpl D)
  pub latest_pop : ℕ

abbrev pub unwrap_or : Option ℕ → ℕ → ℕ
unwrap_or none d = d
unwrap_or (some n) d = n

-- `BinaryHeap::push` under the reversed order of the ids.
unfoldable pub push_batch :
    {D : Type 0} → List (PersiaBatchImpl D) → PersiaBatchImpl D → List (PersiaBatchImpl D)
push_batch [] b = b ∷ []
push_batch (c ∷ heap) b =
    if ltb (unwrap_or b.batch_id 0) (unwrap_or c.batch_id 0)
    then b ∷ c ∷ heap
    else c ∷ push_batch heap b

module _ {D : Type 0} where
  -- `PerisaDataOrderManager::new`.
  unfoldable pub new_manager : (world_size rank_id now : ℕ) → PerisaDataOrderManager D
  new_manager world_size rank_id now = record {
    world_size = world_size;
    expect_batch_id = rank_id;
    data_buffer = [];
    latest_pop = now;
  }

  unfoldable pub pop_from_buffer :
      (now : ℕ) → PerisaDataOrderManager D → Option (PersiaBatchImpl D) × PerisaDataOrderManager D
  pop_from_buffer now m = elim m.data_buffer [
    | [] ↦ (none, m)
    | popped ∷ heap ↦ (
      some popped,
      record m {
        data_buffer = heap;
        latest_pop = now;
        expect_batch_id = (unwrap_or popped.batch_id m.expect_batch_id + m.world_size) % u64_size;
      },
    )
  ]

  -- The batches of a loop that ends at the first `None`.
  abbrev pub sent_with :
      Option (PersiaBatchImpl D) → List (PersiaBatchImpl D) → List (PersiaBatchImpl D)
  sent_with none sent = sent
  sent_with (some b) sent = b ∷ sent

  -- The loop that sends the batches that are due, for a heap of at most `n`.
  unfoldable pub send_due :
      (now n : ℕ) → PerisaDataOrderManager D → List (PersiaBatchImpl D) × PerisaDataOrderManager D
  send_due now zero m = ([], m)
  send_due now (suc n) m = elim m.data_buffer [
    | [] ↦ ([], m)
    | first ∷ heap ↦
        if leb (unwrap_or first.batch_id 0) m.expect_batch_id
        then (let (popped, m1) = pop_from_buffer now m in
            let (sent, m2) = send_due now n m1 in (sent_with popped sent, m2))
        else ([], m)
  ]

  -- The loop that sends every batch, when none was due for more than a second.
  unfoldable pub send_all :
      (now n : ℕ) → PerisaDataOrderManager D → List (PersiaBatchImpl D) × PerisaDataOrderManager D
  send_all now zero m = ([], m)
  send_all now (suc n) m =
      let (popped, m1) = pop_from_buffer now m in
      let (sent, m2) = send_all now n m1 in
      elim popped [ none ↦ ([], m1) | some b ↦ (b ∷ sent, m2) ]

  -- One round of the worker: a batch arrived, or the wait for one timed out.
  unfoldable pub reorder_round :
      (now : ℕ)
      → PerisaDataOrderManager D
      → Option (PersiaBatchImpl D)
      → List (PersiaBatchImpl D) × PerisaDataOrderManager D
  reorder_round now m (some batch) =
      let heap = push_batch m.data_buffer batch in
      send_due now (length heap) (record m { data_buffer = heap })
  reorder_round now m none =
      if ltb 0 (length m.data_buffer)
      then if ltb 1 ((now - m.latest_pop) / nanos)
        then send_all now (length m.data_buffer) m
        else ([], m)
      else ([], m)
