-- ===== src/Common.antt =====
-- rust/persia-common/src/lib.rs: the batches of sparse features. `FeatureBatch::new` groups the ids
-- of a batch by sign. The order in which it visits its `HashMap` is the parameter `h`.
pub mod Grouped
use Prim.Native.String.{String}
use persia.Base.{
  ℕ, ◌+◌, ◌%◌, Bool, false, Option, none, some, List, [], ◌∷◌, ◌++◌, map, ltb, if◌then◌else◌,
  length, u32_size, Outcome, ok, panic,
}
use persia.Base.Map.{nat_eq, Map, get, insert, HashOrder}

pub record SingleSignInFeatureBatch : Type 0 where
  pub sign : ℕ
  pub in_which_batch_samples : List (ℕ × ℕ)

pub record FeatureBatch : Type 0 where
  pub feature_name : String
  pub index_batch : List SingleSignInFeatureBatch
  pub sample_num_signs : List ℕ
  pub hashed2index_batch_idx : Map ℕ ℕ
  pub batch_size : ℕ

pub record IdTypeFeatureBatch : Type 0 where
  pub requires_grad : Bool
  pub batches : List FeatureBatch
  pub enter_forward_id_buffer_time : Option ℕ
  pub enter_post_forward_buffer_time : Option ℕ
  pub batcher_idx : Option ℕ

unfoldable pub default_batch : IdTypeFeatureBatch
default_batch = record {
  requires_grad = false;
  batches = [];
  enter_forward_id_buffer_time = none;
  enter_post_forward_buffer_time = none;
  batcher_idx = none;
}

abbrev pub u16_size : ℕ
u16_size = 65536

-- `m.entry(id).or_default()`, read.
abbrev pub or_default : Option (List (ℕ × ℕ)) → List (ℕ × ℕ)
or_default none = []
or_default (some samples) = samples

unfoldable pub push_sample : Map ℕ (List (ℕ × ℕ)) → (id : ℕ) → ℕ × ℕ → Map ℕ (List (ℕ × ℕ))
push_sample m id sample = insert m id (or_default (get m id) ++ sample ∷ [])

unfoldable pub group_row :
    Map ℕ (List (ℕ × ℕ)) → (batch_idx col_idx : ℕ) → List ℕ → Map ℕ (List (ℕ × ℕ))
group_row m batch_idx col_idx [] = m
group_row m batch_idx col_idx (id ∷ indices) =
    group_row (push_sample m id (batch_idx % u16_size, col_idx % u16_size)) batch_idx (col_idx + 1)
      indices

unfoldable pub group_batch :
    Map ℕ (List (ℕ × ℕ)) → (batch_idx : ℕ) → List (List ℕ) → Map ℕ (List (ℕ × ℕ))
group_batch m batch_idx [] = m
group_batch m batch_idx (indices ∷ batch) =
    group_batch (group_row m batch_idx 0 indices) (batch_idx + 1) batch

-- The loop that numbers the signs from `idx` on.
unfoldable pub number_signs : Map ℕ ℕ → (idx : ℕ) → Map ℕ (List (ℕ × ℕ)) → Map ℕ ℕ
number_signs m idx [] = m
number_signs m idx ((id, samples) ∷ entries) = number_signs (insert m id idx) (idx + 1) entries

abbrev pub single_sign : ℕ × List (ℕ × ℕ) → SingleSignInFeatureBatch
single_sign (id, samples) = record { sign = id; in_which_batch_samples = samples }

-- `FeatureBatch::new`.
unfoldable pub feature_batch :
    HashOrder → (feature_name : String) → List (List ℕ) → Outcome FeatureBatch
feature_batch h feature_name batch =
    if ltb 65535 (length batch)
    then panic
    else ok (record {
      feature_name = feature_name;
      index_batch = map single_sign (h.order (group_batch [] 0 batch));
      sample_num_signs = map (λ indices. length indices % u32_size) batch;
      hashed2index_batch_idx = number_signs [] 0 (h.order (group_batch [] 0 batch));
      batch_size = length batch % u16_size;
    })
