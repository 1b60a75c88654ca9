-- ===== src/Tests/Batches.antt =====
-- Examples for persia-common, persia-embedding-config and the split into shards.
use Prim.Native.String.{String}
use persia.Base.{
  ℕ, ◌≡◌, refl, ◌<◌, true, false, none, some, List, [], ◌∷◌, arith, get_elem?, ok, u32_sub,
}
use persia.Base.Map.{nat_eq, string_eq, Map, get, HashOrder}
use persia.Common.{SingleSignInFeatureBatch, FeatureBatch, IdTypeFeatureBatch, feature_batch}
use persia.Common.Grouped.{places, feature_batch-entries}
use persia.Config.{
  SlotConfig, EmbeddingConfig, group_prefix, set_prefixes, get_slot_by_feature_name, get_index_of,
  checked_shl,
}
use persia.Config.Prefixes.{group_prefix-lost, set_prefixes-separates}
use persia.Worker.Preprocess.{SignWithConfig, indices_to_sharded_indices}
use persia.Worker.Sharded.{batch_signs, of_shard, indices_to_sharded_indices-shards}

-- A map that is visited in its own order.
abbrev own_order : HashOrder
own_order = record { order = λ m. m; get-order = λ m k. refl; order-UniqueKeys = λ m u. u }

feature_batch-entries_example :
    (f : FeatureBatch) × (feature_batch own_order "user" ((7 ∷ 8 ∷ []) ∷ (8 ∷ []) ∷ []) ≡ ok f)
    × ((i : ℕ) (x : SingleSignInFeatureBatch)
        → get_elem? f.index_batch i ≡ some x
        → (x.in_which_batch_samples ≡ places x.sign 0 ((7 ∷ 8 ∷ []) ∷ (8 ∷ []) ∷ []))
          × (get f.hashed2index_batch_idx x.sign ≡ some i))
feature_batch-entries_example =
    feature_batch-entries own_order "user" ((7 ∷ 8 ∷ []) ∷ (8 ∷ []) ∷ []) (omega arith)

group_prefix-lost_example : group_prefix 8 255 ≡ ok 0
group_prefix-lost_example = group_prefix-lost 8 255 (omega arith) (omega arith) refl

abbrev slot_without_prefix : SlotConfig
slot_without_prefix = record {
  dim = 8;
  sample_fixed_size = 10;
  embedding_summation = true;
  sqrt_scaling = false;
  hash_stack_config = record { hash_stack_rounds = 0; embedding_size = 0 };
  index_prefix = 0;
}

abbrev slot_with_prefix : ℕ → SlotConfig
slot_with_prefix p = record slot_without_prefix { index_prefix = p }

abbrev group_of_slot : Map String String
group_of_slot = ("a", "g") ∷ ("b", "g") ∷ []

abbrev one_group : Map String (List String)
one_group = ("g", "a" ∷ "b" ∷ []) ∷ []

abbrev slots_before : Map String SlotConfig
slots_before = ("a", slot_without_prefix) ∷ ("b", slot_without_prefix) ∷ []

abbrev slots_after : Map String SlotConfig
slots_after =
    ("a", slot_with_prefix 72057594037927936) ∷ ("b", slot_with_prefix 72057594037927936) ∷ []

run_of_set_prefixes : set_prefixes 8 group_of_slot one_group slots_before ≡ ok slots_after
unfolding set_prefixes get get_index_of group_prefix checked_shl u32_sub
run_of_set_prefixes = refl

found_a : get slots_after "a" ≡ some (slot_with_prefix 72057594037927936)
unfolding get
found_a = refl

found_b : get slots_after "b" ≡ some (slot_with_prefix 72057594037927936)
unfolding get
found_b = refl

set_prefixes-separates_example :
    (group : String) × (get group_of_slot "a" ≡ some group) × (get group_of_slot "b" ≡ some group)
set_prefixes-separates_example =
    set_prefixes-separates 8 group_of_slot one_group slots_before slots_after "a" "b"
      (slot_with_prefix 72057594037927936) (slot_with_prefix 72057594037927936) (omega arith)
      (omega arith) (omega arith) run_of_set_prefixes found_a found_b refl

abbrev config_a : EmbeddingConfig
config_a = record {
  feature_index_prefix_bit = 8;
  slots_config = ("a", slot_without_prefix) ∷ [];
  feature_groups = ("a", "a" ∷ []) ∷ [];
}

abbrev two_signs : IdTypeFeatureBatch
two_signs = record {
  requires_grad = true;
  batches =
      (record {
        feature_name = "a";
        index_batch =
            (record { sign = 4; in_which_batch_samples = (0, 0) ∷ [] })
            ∷ (record { sign = 7; in_which_batch_samples = (0, 1) ∷ [] })
            ∷ [];
        sample_num_signs = 2 ∷ [];
        hashed2index_batch_idx = (4, 0) ∷ (7, 1) ∷ [];
        batch_size = 1;
      })
      ∷ [];
  enter_forward_id_buffer_time = none;
  enter_post_forward_buffer_time = none;
  batcher_idx = none;
}

abbrev same_hash : ℕ → ℕ
same_hash sign = sign

abbrev two_places : List SignWithConfig
two_places =
    (record { sign = 4; sign_idx = 0; feature_idx = 0; dim = 8 })
    ∷ (record { sign = 7; sign_idx = 1; feature_idx = 0; dim = 8 })
    ∷ []

signs_of_two : batch_signs config_a 0 two_signs.batches ≡ ok two_places
unfolding get_slot_by_feature_name get
signs_of_two = refl

indices_to_sharded_indices-shards_example :
    (results : List (List SignWithConfig)) × (indices_to_sharded_indices same_hash config_a 2
        two_signs
      ≡ ok results)
    × ((r : ℕ) → r < 2 → get_elem? results r ≡ some (of_shard same_hash 2 r two_places))
indices_to_sharded_indices-shards_example =
    indices_to_sharded_indices-shards same_hash config_a 2 two_signs two_places (omega arith)
      signs_of_two

abbrev config_b : EmbeddingConfig
config_b = record config_a { slots_config = ("a", slot_with_prefix 216172782113783808) ∷ [] }

abbrev feature_a : FeatureBatch
feature_a = record {
  feature_name = "a";
  index_batch = (record { sign = 4; in_which_batch_samples = (0, 0) ∷ [] }) ∷ [];
  sample_num_signs = 1 ∷ [];
  hashed2index_batch_idx = (4, 0) ∷ [];
  batch_size = 1;
}
