-- ===== src/Config.antt =====
-- rust/persia-embedding-config/src/lib.rs: the embedding config of a job, and
-- `parse_embedding_config`, which gives each slot the prefix of its feature group. Reading the
-- YAML files, the singletons and the other configs are not modelled.
pub mod Prefixes
use Prim.Native.String.{String}
use persia.Base.{
  ℕ, zero, suc, ◌+◌, ◌-◌, ◌*◌, ◌^◌, ◌%◌, Bool, true, false, not, Option, none, some, List, [], ◌∷◌,
  map, ltb, ◌==◌, if◌then◌else◌, u32_size, u64_size, u32_sub, Outcome, ok, panic, ◌>>=◌, ◌>>◌,
  unwrap, assert, omap,
}
use persia.Base.Map.{Eq, string_eq, Map, get, insert, contains_key}

pub record HashStackConfig : Type 0 where
  pub hash_stack_rounds : ℕ
  pub embedding_size : ℕ

pub record SlotConfig : Type 0 where
  pub dim : ℕ
  pub sample_fixed_size : ℕ
  pub embedding_summation : Bool
  pub sqrt_scaling : Bool
  pub hash_stack_config : HashStackConfig
  pub index_prefix : ℕ

pub record EmbeddingConfig : Type 0 where
  pub feature_index_prefix_bit : ℕ
  pub slots_config : Map String SlotConfig
  pub feature_groups : Map String (List String)

unfoldable pub get_slot_by_feature_name :
    EmbeddingConfig → (feature_name : String) → Outcome SlotConfig
get_slot_by_feature_name config feature_name = unwrap (get config.slots_config feature_name)

-- `IndexMap::get_index_of`.
unfoldable pub get_index_of : {V : Type 0} → Map String V → String → Option ℕ
get_index_of [] k = none
get_index_of ((j, v) ∷ m) k = if string_eq.beq j k then some 0 else omap suc (get_index_of m k)

-- `u64::checked_shl`: `None` for a shift by the width or more; the bits that leave the word are lost.
unfoldable pub checked_shl : (value shift : ℕ) → Option ℕ
checked_shl value shift = if ltb shift 64 then some ((value * 2 ^ shift) % u64_size) else none

-- The first loop of `parse_embedding_config`: which group names a slot.
unfoldable pub add_group :
    Map String String → (feature_group_name : String) → List String → Map String String
add_group m feature_group_name [] = m
add_group m feature_group_name (slot_name ∷ slot_names) =
    add_group (insert m slot_name feature_group_name) feature_group_name slot_names

unfoldable pub add_groups : Map String String → Map String (List String) → Map String String
add_groups m [] = m
add_groups m ((feature_group_name, slot_names) ∷ feature_groups) =
    add_groups (add_group m feature_group_name slot_names) feature_groups

-- The second loop: a slot in no group is a group of its own.
unfoldable pub add_single_groups :
    Map String SlotConfig
    → Map String String
    → Map String (List String)
    → Outcome (Map String String × Map String (List String))
add_single_groups [] m feature_groups = ok (m, feature_groups)
add_single_groups ((slot_name, slot) ∷ slots) m feature_groups =
    let alone =
      add_single_groups slots (insert m slot_name slot_name)
        (insert feature_groups slot_name (slot_name ∷ [])) in
    let grouped = add_single_groups slots m feature_groups in
    if contains_key m slot_name
    then grouped
    else if contains_key feature_groups slot_name
    then panic
    else alone

-- The prefix of the group with the index `feature_group_index`.
unfoldable pub group_prefix : (feature_index_prefix_bit feature_group_index : ℕ) → Outcome ℕ
group_prefix feature_index_prefix_bit feature_group_index =
    unwrap
      (checked_shl (feature_group_index + 1) (u32_sub 64 (feature_index_prefix_bit % u32_size)))

-- The third loop.
unfoldable pub set_prefixes :
    (feature_index_prefix_bit : ℕ)
    → Map String String
    → Map String (List String)
    → Map String SlotConfig
    → Outcome (Map String SlotConfig)
set_prefixes bits m feature_groups [] = ok []
set_prefixes bits m feature_groups ((slot_name, slot) ∷ slots) = do
  _ ← assert (slot.index_prefix == 0)
  feature_group_name ← unwrap (get m slot_name)
  feature_group_index ← unwrap (get_index_of feature_groups feature_group_name)
  index_prefix ← group_prefix bits feature_group_index
  rest ← set_prefixes bits m feature_groups slots
  ok ((slot_name, record slot { index_prefix = index_prefix }) ∷ rest)

unfoldable pub parse_embedding_config : EmbeddingConfig → Outcome EmbeddingConfig
parse_embedding_config config = do
  let m = add_groups [] config.feature_groups
  (m', feature_groups) ← add_single_groups config.slots_config m config.feature_groups
  _ ← assert (not (config.feature_index_prefix_bit == 0))
  slots_config ← set_prefixes config.feature_index_prefix_bit m' feature_groups config.slots_config
  ok (record config { slots_config = slots_config; feature_groups = feature_groups })
