-- ===== src/Worker/Preprocess.antt =====
-- embedding_worker_service/mod.rs: `lookup_batched_all_slots_preprocess` and the functions that it
-- calls: the hash stack, the prefix of a feature group, and the split of the signs into shards.
use persia.Base.{
  ℕ, zero, suc, ◌+◌, ◌-◌, ◌*◌, ◌^◌, ◌%◌, List, [], ◌∷◌, ◌++◌, map, ltb, if◌then◌else◌, replicate,
  u32_size, u64_size, u32_sub, Outcome, ok, ◌>>=◌,
}
use persia.Base.Map.{nat_eq, Map, get, insert, HashOrder}
use persia.Common.{
  SingleSignInFeatureBatch, FeatureBatch, IdTypeFeatureBatch, or_default, single_sign,
}
use persia.Config.{EmbeddingConfig, get_slot_by_feature_name}
use persia.Worker.{rem, traverse}

pub record SignWithConfig : Type 0 where
  pub sign : ℕ
  pub sign_idx : ℕ
  pub feature_idx : ℕ
  pub dim : ℕ

-- The result of the loop `hash_stack_indices.iter_mut()` over one sign, from `round` on.
unfoldable pub hash_rounds :
    (hash64 : ℕ → ℕ)
    → (embedding_size distinct_tensor_idx : ℕ) → SingleSignInFeatureBatch
    → (round hashed_sign : ℕ) → List (Map ℕ (List (ℕ × ℕ)))
    → Map ℕ ℕ
    → Outcome (List (Map ℕ (List (ℕ × ℕ))) × Map ℕ ℕ)
hash_rounds hash64 embedding_size idx single round hashed_sign [] hashed2index =
    ok ([], hashed2index)
hash_rounds hash64 embedding_size idx single round hashed_sign (m ∷ ms) hashed2index = do
  low ← rem (hash64 hashed_sign) embedding_size
  let bucket = (low + (round * embedding_size) % u64_size) % u64_size
  (ms', hashed2index') ←
      hash_rounds hash64 embedding_size idx single (round + 1) (hash64 hashed_sign) ms
        (insert hashed2index bucket idx)
  ok (
    insert m bucket (or_default (get m bucket) ++ single.in_which_batch_samples) ∷ ms',
    hashed2index',
  )

-- The loop over the signs.
unfoldable pub hash_signs :
    (hash64 : ℕ → ℕ)
    → (embedding_size distinct_tensor_idx : ℕ) → List SingleSignInFeatureBatch
    → List (Map ℕ (List (ℕ × ℕ)))
    → Map ℕ ℕ
    → Outcome (List (Map ℕ (List (ℕ × ℕ))) × Map ℕ ℕ)
hash_signs hash64 embedding_size idx [] ms hashed2index = ok (ms, hashed2index)
hash_signs hash64 embedding_size idx (single ∷ singles) ms hashed2index = do
  (ms', hashed2index') ← hash_rounds hash64 embedding_size idx single 0 single.sign ms hashed2index
  hash_signs hash64 embedding_size (idx + 1) singles ms' hashed2index'

unfoldable pub stacked_signs :
    HashOrder → List (Map ℕ (List (ℕ × ℕ))) → List SingleSignInFeatureBatch
stacked_signs h [] = []
stacked_signs h (m ∷ ms) = map single_sign (h.order m) ++ stacked_signs h ms

unfoldable pub hashstack_feature :
    (hash64 : ℕ → ℕ) → HashOrder → EmbeddingConfig → FeatureBatch → Outcome FeatureBatch
hashstack_feature hash64 h config f = do
  slot_conf ← get_slot_by_feature_name config f.feature_name
  let rounds = slot_conf.hash_stack_config.hash_stack_rounds
  if ltb 0 rounds
      then (do
        (ms, hashed2index) ←
            hash_signs hash64 slot_conf.hash_stack_config.embedding_size 0 f.index_batch
              (replicate rounds []) []
        ok (record f {
          index_batch = stacked_signs h ms;
          hashed2index_batch_idx = hashed2index;
          sample_num_signs = map (λ x. (x * (rounds % u32_size)) % u32_size) f.sample_num_signs;
        }))
      else ok f

unfoldable pub indices_to_hashstack_indices :
    (hash64 : ℕ → ℕ) → HashOrder → EmbeddingConfig → IdTypeFeatureBatch → Outcome IdTypeFeatureBatch
indices_to_hashstack_indices hash64 h config indices = do
  batches ← traverse (hashstack_feature hash64 h config) indices.batches
  ok (record indices { batches = batches })

-- A shift is taken modulo the width.
unfoldable pub feature_spacing : (feature_index_prefix_bit : ℕ) → ℕ
feature_spacing bits =
    if ltb 0 bits then 2 ^ (u32_sub 64 (bits % u32_size) % 64) - 1 else u64_size - 1

unfoldable pub prefix_sign : (spacing index_prefix : ℕ) → (sign : ℕ) → Outcome ℕ
prefix_sign spacing index_prefix sign = do
  low ← rem sign spacing
  ok ((low + index_prefix) % u64_size)

unfoldable pub prefix_single :
    (spacing index_prefix : ℕ) → SingleSignInFeatureBatch → Outcome SingleSignInFeatureBatch
prefix_single spacing index_prefix single = do
  sign ← prefix_sign spacing index_prefix single.sign
  ok (record single { sign = sign })

unfoldable pub prefix_mapping :
    (spacing index_prefix : ℕ) → Map ℕ ℕ → (index_prefix_mapping : Map ℕ ℕ) → Outcome (Map ℕ ℕ)
prefix_mapping spacing index_prefix [] mapping = ok mapping
prefix_mapping spacing index_prefix ((id, batch_idx) ∷ entries) mapping = do
  id' ← prefix_sign spacing index_prefix id
  prefix_mapping spacing index_prefix entries (insert mapping id' batch_idx)

unfoldable pub prefix_feature : HashOrder → EmbeddingConfig → FeatureBatch → Outcome FeatureBatch
prefix_feature h config f = do
  slot_conf ← get_slot_by_feature_name config f.feature_name
  let spacing = feature_spacing config.feature_index_prefix_bit
  if ltb 0 slot_conf.index_prefix
      then (do
        index_batch ← traverse (prefix_single spacing slot_conf.index_prefix) f.index_batch
        mapping ←
            prefix_mapping spacing slot_conf.index_prefix (h.order f.hashed2index_batch_idx) []
        ok (record f { index_batch = index_batch; hashed2index_batch_idx = mapping }))
      else ok f

unfoldable pub indices_add_prefix :
    HashOrder → EmbeddingConfig → IdTypeFeatureBatch → Outcome IdTypeFeatureBatch
indices_add_prefix h config indices = do
  batches ← traverse (prefix_feature h config) indices.batches
  ok (record indices { batches = batches })

unfoldable pub sign_to_shard_modulo : (hash64 : ℕ → ℕ) → (sign replica_size : ℕ) → Outcome ℕ
sign_to_shard_modulo hash64 sign replica_size = rem (hash64 sign) replica_size

-- `results[i].push(s)`.
unfoldable pub push_shard :
    List (List SignWithConfig) → ℕ → SignWithConfig → List (List SignWithConfig)
push_shard [] i s = []
push_shard (r ∷ results) zero s = (r ++ s ∷ []) ∷ results
push_shard (r ∷ results) (suc i) s = r ∷ push_shard results i s

unfoldable pub shard_signs :
    (hash64 : ℕ → ℕ)
    → (replica_size feature_idx dim sign_idx : ℕ) → List SingleSignInFeatureBatch
    → List (List SignWithConfig)
    → Outcome (List (List SignWithConfig))
shard_signs hash64 replica_size feature_idx dim sign_idx [] results = ok results
shard_signs hash64 replica_size feature_idx dim sign_idx (single ∷ singles) results = do
  replica_index ← sign_to_shard_modulo hash64 single.sign replica_size
  shard_signs hash64 replica_size feature_idx dim (sign_idx + 1) singles (
      push_shard results replica_index
        (record { sign = single.sign; sign_idx = sign_idx; feature_idx = feature_idx; dim = dim }))

unfoldable pub shard_features :
    (hash64 : ℕ → ℕ)
    → EmbeddingConfig
    → (replica_size feature_idx : ℕ) → List FeatureBatch
    → List (List SignWithConfig)
    → Outcome (List (List SignWithConfig))
shard_features hash64 config replica_size feature_idx [] results = ok results
shard_features hash64 config replica_size feature_idx (f ∷ batches) results = do
  slot_conf ← get_slot_by_feature_name config f.feature_name
  results' ← shard_signs hash64 replica_size feature_idx slot_conf.dim 0 f.index_batch results
  shard_features hash64 config replica_size (feature_idx + 1) batches results'

unfoldable pub indices_to_sharded_indices :
    (hash64 : ℕ → ℕ)
    → EmbeddingConfig
    → (replica_size : ℕ) → IdTypeFeatureBatch
    → Outcome (List (List SignWithConfig))
indices_to_sharded_indices hash64 config replica_size indices =
    shard_features hash64 config replica_size 0 indices.batches (replicate replica_size [])

unfoldable pub lookup_batched_all_slots_preprocess :
    (hash64 : ℕ → ℕ)
    → HashOrder
    → EmbeddingConfig
    → (replica_size : ℕ) → IdTypeFeatureBatch
    → Outcome (List (List SignWithConfig) × IdTypeFeatureBatch)
lookup_batched_all_slots_preprocess hash64 h config replica_size indices = do
  indices1 ← indices_to_hashstack_indices hash64 h config indices
  indices2 ← indices_add_prefix h config indices1
  shards ← indices_to_sharded_indices hash64 config replica_size indices2
  ok (shards, indices2)
