-- ===== src/Tests/Maps.antt =====
-- Examples for eviction_map.rs.
use persia.Base.{some, ℕ, ◌≡◌, refl, none, List, [], ◌∷◌, ◌++◌, arith, ok, ◌%◌}
use persia.Base.Map.{nat_eq, get as map_get}
use persia.Holder.LinkedList.{node, deleted}
use persia.Holder.LinkedList.Chain.{Cells}
use persia.Holder.EvictionMap.{EvictionMap, with_capacity, get, get_refresh, insert}
use persia.Holder.EvictionMap.Indexed.{Indexes, without}
use persia.Holder.EvictionMap.Refreshed.{
  value_of, get-value_of, refreshed_cells, get_refresh-Indexes,
}
use persia.Holder.EvictionMap.Replayed.{
  Op, refresh, store, run, replay, lookup, with_capacity-replay,
}
use persia.Holder.EvictionMap.Evicted.{Finds, insert-evicts}
use persia.Holder.EvictionMap.Inserted.{insert-Indexes}

-- The key of a value is its last digit.
abbrev digit : ℕ → ℕ
digit v = v % 10

abbrev two_values : EvictionMap ℕ ℕ
two_values = record {
  hashmap = (6, 0) ∷ (5, 1) ∷ [];
  linkedlist = record {
    count = 2;
    first_index = 2;
    last_index = 1;
    free_index = 3;
    end_index = 3;
    elements = node 2 0 26 ∷ node 0 1 15 ∷ deleted 0 ∷ [];
  };
  capacity = 2;
}

abbrev two_cells : Cells ℕ
two_cells = (2, 15) ∷ (1, 26) ∷ []

two_values-Indexes : Indexes digit two_values two_cells (3 ∷ [])
unfolding map_get
two_values-Indexes = record {
  list = record {
    first = refl;
    last = refl;
    counted = refl;
    chain = (refl, (refl, tt));
    distinct = (refl, (refl, tt));
    free_first = refl;
    free_chain = (refl, tt);
    free_distinct = (refl, tt);
    small = omega arith;
  };
  unique = (refl, (refl, tt));
  indexed = λ key. ground arith;
}

get-value_of_example : get two_values 6 ≡ ok (value_of digit two_cells 6)
get-value_of_example = get-value_of digit two_values two_cells (3 ∷ []) 6 two_values-Indexes

get_refresh-Indexes_example :
    (m' : EvictionMap ℕ ℕ) × (get_refresh two_values 5 ≡ ok (value_of digit two_cells 5, m'))
    × Indexes digit m' (refreshed_cells digit two_cells 5) (3 ∷ [])
get_refresh-Indexes_example =
    get_refresh-Indexes digit two_values two_cells (3 ∷ []) 5 two_values-Indexes (omega arith)

insert-Indexes_example :
    (m' : EvictionMap ℕ ℕ) × (i : ℕ) × (free' : List ℕ) × (insert digit two_values 5 35
      ≡ ok ((value_of digit two_cells 5, none), m'))
    × Indexes digit m' (without digit two_cells 5 ++ (i, 35) ∷ []) free'
insert-Indexes_example =
    insert-Indexes digit two_values two_cells (3 ∷ []) 5 35 two_values-Indexes refl (omega arith)
      (omega arith)

insert-evicts_example :
    (m' : EvictionMap ℕ ℕ) × (i : ℕ) × (insert digit two_values 7 37
      ≡ ok ((value_of digit two_cells 7, some 15), m'))
    × Finds digit m' (without digit ((1, 26) ∷ []) 7 ++ (i, 37) ∷ [])
insert-evicts_example =
    insert-evicts digit two_values (2, 15) ((1, 26) ∷ []) (3 ∷ []) 7 37 two_values-Indexes refl refl
      (omega arith) (omega arith) (omega arith)

abbrev four_calls : List (Op ℕ ℕ)
four_calls = store 15 ∷ store 26 ∷ refresh 5 ∷ store 35 ∷ []

-- The values after the calls: 6 was used before 5.
replay_run : (replay digit four_calls []).1 ≡ 26 ∷ 35 ∷ []
unfolding replay
replay_run = refl

with_capacity-replay_example :
    (m : EvictionMap ℕ ℕ) × (run digit four_calls (with_capacity 2)
      ≡ ok ((replay digit four_calls []).0, m))
    × ((key : ℕ) → get m key ≡ ok (lookup digit (replay digit four_calls []).1 key))
with_capacity-replay_example =
    with_capacity-replay digit 2 four_calls (omega arith)
      (omega arith, (omega arith, (omega arith, tt)))
