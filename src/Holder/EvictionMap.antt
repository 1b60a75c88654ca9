-- ===== src/Holder/EvictionMap.antt =====
-- rust/persia-embedding-holder/src/eviction_map.rs: the least-recently-used map that holds a shard of
-- embeddings, a hash map from keys to indices of an `ArrayLinkedList` whose front is the next
-- value to be evicted. The trait `EvictionMapValue` is the parameter `hashmap_key`.
pub mod Indexed
pub mod Refreshed
pub mod Inserted
pub mod Evicted
pub mod Replayed
pub mod Exchanged
pub mod Replaced
use persia.Base.{
  ℕ, ◌+◌, ◌%◌, Bool, Option, none, some, [], ltb, if◌then◌else◌, u32_size, u32_add, Outcome, ok,
  ◌>>=◌, unwrap,
}
use persia.Base.Map.{Eq, Map, get as map_get, insert as map_insert, remove as map_remove}
use persia.Holder.LinkedList.{ArrayLinkedList, with_capacity as list_with_capacity}
use persia.Holder.LinkedList.Insert.{push_back}
use persia.Holder.LinkedList.Remove.{remove as list_remove, pop_front}
use persia.Holder.LinkedList.Read.{index, list_len, clear as list_clear}

pub record EvictionMap {ℓ κ} (K : Type ℓ) (V : Type κ) : Type (ℓ ⊔ κ) where
  pub hashmap : Map K ℕ
  pub linkedlist : ArrayLinkedList V
  pub capacity : ℕ

module _ {ℓ κ} {K : Type ℓ} {V : Type κ} where
  unfoldable pub with_capacity : (capacity : ℕ) → EvictionMap K V
  with_capacity capacity = record {
    hashmap = [];
    linkedlist = list_with_capacity (u32_add (capacity % u32_size) 1);
    capacity = capacity;
  }

  unfoldable pub clear : EvictionMap K V → EvictionMap K V
  clear m = record m { hashmap = []; linkedlist = list_clear m.linkedlist }

  unfoldable pub map_len : EvictionMap K V → ℕ
  map_len m = list_len m.linkedlist

module _ {ℓ κ} {K : Type ℓ} {V : Type κ} ⦃e : Eq K⦄ where
  -- `get`, and `get_mut`, which returns the same value to write to.
  unfoldable pub get : EvictionMap K V → K → Outcome (Option V)
  get m key = elim (map_get m.hashmap key) [ some idx ↦ index m.linkedlist idx | none ↦ ok none ]

  -- `get_refresh`, and `get_refresh_mut`.
  unfoldable pub get_refresh : EvictionMap K V → K → Outcome (Option V × EvictionMap K V)
  get_refresh m key = elim (map_get m.hashmap key) [
    | some idx ↦ do
      (removed, l1) ← list_remove m.linkedlist idx
      v ← unwrap removed
      (new_idx, l2) ← push_back l1 v
      item ← index l2 new_idx
      ok (item, record m { hashmap = map_insert m.hashmap key new_idx; linkedlist = l2 })
    | none ↦ ok (none, m)
  ]

  -- `insert`: the value that `key` had, and the one that is evicted.
  unfoldable pub insert :
      (hashmap_key : V → K)
      → EvictionMap K V
      → K
      → V
      → Outcome ((Option V × Option V) × EvictionMap K V)
  insert hashmap_key m key value = do
    (old, l1) ← (elim (map_get m.hashmap key) [
      | some idx ↦ list_remove m.linkedlist idx
      | none ↦ ok (none, m.linkedlist)
    ])
    (new_idx, l2) ← push_back l1 value
    let hashmap = map_insert m.hashmap key new_idx
    if ltb m.capacity (list_len l2)
        then (do
          (evicted, l3) ← pop_front l2
          ok (
            (old, evicted),
            record m {
              hashmap = elim evicted [
                | none ↦ hashmap
                | some v ↦ map_remove hashmap (hashmap_key v)
              ];
              linkedlist = l3;
            },
          ))
        else ok ((old, none), record m { hashmap = hashmap; linkedlist = l2 })
