-- ===== src/Worker/Gradients.antt =====
-- embedding_worker_service/mod.rs: `update_all_batched_gradients`, up to the requests that it sends.
-- The gradients of the trainer (rust/persia-common/src/grad.rs) are matrices, lists of rows. What
-- the crates half and ndarray do with them is a parameter, as are two tests of floats.
pub mod Summed
pub mod Routed
use Prim.Native.String.{String}
use persia.Base.{
  ℕ, zero, suc, Bool, true, false, not, ◌||◌, Option, none, some, List, [], ◌∷◌, ◌++◌, map, length,
  get_elem?, set, replicate, ltb, ◌==◌, if◌then◌else◌, Outcome, ok, panic, ◌>>=◌, unwrap, assert,
}
use persia.Base.Map.{nat_eq, string_eq, Map, get, insert}
use persia.Common.{SingleSignInFeatureBatch, FeatureBatch, IdTypeFeatureBatch}
use persia.Config.{SlotConfig, EmbeddingConfig, get_slot_by_feature_name}
use persia.Simd.Lanes.{Floats}
use persia.Simd.{add_assign_avx2}
use persia.Worker.{traverse}
use persia.Worker.Preprocess.{sign_to_shard_modulo}

-- What the worker does with f16 and with matrices, and its tests of f32.
pub record GradientFloats (fl : Floats) : Type 1 where
  pub F16 : Type 0
  pub f16_to_f32 : F16 → fl.F
  pub f16_is_nan : F16 → Bool
  pub is_nan : fl.F → Bool
  pub is_finite : fl.F → Bool
  -- `(x - 1.0).abs() > f32::EPSILON`
  pub rescales : fl.F → Bool
  -- `mul_assign` of ndarray by a number and by a column, which panics when the shapes do not fit.
  pub mul_assign : fl.F → List (List fl.F) → List (List fl.F)
  pub mul_assign_column : List fl.F → List (List fl.F) → Outcome (List (List fl.F))

pub data Gradients (H F : Type 0) : Type 0 where
  f16 : List (List H) → Gradients H F
  f32 : List (List F) → Gradients H F

pub record FeatureEmbeddingGradientBatch (H F : Type 0) : Type 0 where
  pub feature_name : String
  pub gradients : Gradients H F
  pub scale_factor : F

pub data SkippableFeatureEmbeddingGradientBatch (H F : Type 0) : Type 0 where
  gradient_batch : FeatureEmbeddingGradientBatch H F → SkippableFeatureEmbeddingGradientBatch H F
  skipped : (feature_name : String) → SkippableFeatureEmbeddingGradientBatch H F

-- `indices_kv`: a later batch of the same name replaces an earlier one.
unfoldable pub indices_kv : Map String FeatureBatch → List FeatureBatch → Map String FeatureBatch
indices_kv m [] = m
indices_kv m (batch ∷ batches) = indices_kv (insert_last m batch) batches
  where
    insert_last : Map String FeatureBatch → FeatureBatch → Map String FeatureBatch
    insert_last [] b = (b.feature_name, b) ∷ []
    insert_last ((name, a) ∷ rest) b =
        let others = insert_last rest b in
        if string_eq.beq name b.feature_name then (name, b) ∷ rest else (name, a) ∷ others

-- `iter().any(..)` over all elements of a matrix.
unfoldable pub any_element : {A : Type 0} → (A → Bool) → List (List A) → Bool
any_element test [] = false
any_element test ([] ∷ rows) = any_element test rows
any_element test ((x ∷ row) ∷ rows) = test x || any_element test (row ∷ rows)

-- `v[i].extend(xs)`.
unfoldable pub extend_at : {A : Type 0} → List (List A) → ℕ → List A → Outcome (List (List A))
extend_at v i xs = do old ← unwrap (get_elem? v i); ok (set v i (old ++ xs))

module _ (fl : Floats) (half : GradientFloats fl) where
  unfoldable pub any_nan : Gradients half.F16 fl.F → Bool
  any_nan (f16 rows) = any_element half.f16_is_nan rows
  any_nan (f32 rows) = any_element half.is_nan rows

  unfoldable pub to_f32 : Gradients half.F16 fl.F → List (List fl.F)
  to_f32 (f16 rows) = map (map half.f16_to_f32) rows
  to_f32 (f32 rows) = rows

  unfoldable pub unscale : (scale_factor : fl.F) → List (List fl.F) → Outcome (List (List fl.F))
  unscale scale_factor rows =
      if half.rescales scale_factor
      then (do
        _ ← assert (half.is_finite (fl.recip scale_factor))
        ok (half.mul_assign (fl.recip scale_factor) rows))
      else ok rows

  unfoldable pub inverse_sqrt : ℕ → fl.F
  inverse_sqrt n = fl.recip (fl.sqrt (fl.of_nat n))

  -- The derivative of the scaling of a slot with `sqrt_scaling`.
  unfoldable pub scale_gradients :
      SlotConfig → FeatureBatch → List (List fl.F) → Outcome (List (List fl.F))
  scale_gradients slot_conf feature_batch rows =
      if slot_conf.sqrt_scaling
      then (if slot_conf.embedding_summation
          then half.mul_assign_column (map inverse_sqrt feature_batch.sample_num_signs) rows
          else if ltb 0 slot_conf.hash_stack_config.hash_stack_rounds
          then ok
              (half.mul_assign (inverse_sqrt slot_conf.hash_stack_config.hash_stack_rounds) rows)
          else ok rows)
      else ok rows

  -- The row of `sign_gradients` for the samples of a sign.
  unfoldable pub add_samples : List (List fl.F) → List fl.F → List (ℕ × ℕ) → Outcome (List fl.F)
  add_samples rows sign_grad [] = ok sign_grad
  add_samples rows sign_grad ((batch_id, col) ∷ samples) = do
    row_grad ← unwrap (get_elem? rows batch_id)
    sign_grad' ← add_assign_avx2 fl sign_grad row_grad
    add_samples rows sign_grad' samples

  unfoldable pub sign_gradient :
      SlotConfig → FeatureBatch → List (List fl.F) → SingleSignInFeatureBatch → Outcome (List fl.F)
  sign_gradient slot_conf feature_batch rows single_sign =
      if not slot_conf.embedding_summation
      then (do
        batch_idx ← unwrap (get feature_batch.hashed2index_batch_idx single_sign.sign)
        row_grad ← unwrap (get_elem? rows batch_idx)
        add_assign_avx2 fl (replicate slot_conf.dim fl.zero) row_grad)
      else add_samples rows (replicate slot_conf.dim fl.zero) single_sign.in_which_batch_samples

  -- The loop that hands the gradients of a feature to the shards, `replica_size` in number.
  unfoldable pub push_gradients :
      (hash64 : ℕ → ℕ) (replica_size : ℕ)
      → List (List fl.F × SingleSignInFeatureBatch)
      → List (List fl.F) × List (List ℕ)
      → Outcome (List (List fl.F) × List (List ℕ))
  push_gradients hash64 replica_size [] sharded = ok sharded
  push_gradients hash64 replica_size ((grad, single) ∷ rest) (gradients, signs) = do
    replica_index ← sign_to_shard_modulo hash64 single.sign replica_size
    gradients' ← extend_at gradients replica_index grad
    signs' ← extend_at signs replica_index (single.sign ∷ [])
    push_gradients hash64 replica_size rest (gradients', signs')

  unfoldable pub zip_signs :
      List (List fl.F) → List SingleSignInFeatureBatch → List (List fl.F × SingleSignInFeatureBatch)
  zip_signs (g ∷ gs) (s ∷ ss) = (g, s) ∷ zip_signs gs ss
  zip_signs gs ss = []

  -- The gradients of a feature; those with a NaN are skipped.
  unfoldable pub push_feature :
      (hash64 : ℕ → ℕ)
      → EmbeddingConfig
      → (replica_size : ℕ) → Map String FeatureBatch
      → SkippableFeatureEmbeddingGradientBatch half.F16 fl.F
      → List (List fl.F) × List (List ℕ)
      → Outcome (List (List fl.F) × List (List ℕ))
  push_feature hash64 config replica_size kv (skipped feature_name) sharded = ok sharded
  push_feature hash64 config replica_size kv (gradient_batch feature_gradient) sharded = do
    feature_batch ← unwrap (get kv feature_gradient.feature_name)
    slot_conf ← get_slot_by_feature_name config feature_batch.feature_name
    if any_nan feature_gradient.gradients then ok sharded else (do
      rows1 ← unscale feature_gradient.scale_factor (to_f32 feature_gradient.gradients)
      rows2 ← scale_gradients slot_conf feature_batch rows1
      sign_gradients ←
          traverse (sign_gradient slot_conf feature_batch rows2) feature_batch.index_batch
      push_gradients hash64 replica_size (zip_signs sign_gradients feature_batch.index_batch)
          sharded)

  unfoldable pub push_features :
      (hash64 : ℕ → ℕ)
      → EmbeddingConfig
      → (replica_size : ℕ) → Map String FeatureBatch
      → List (SkippableFeatureEmbeddingGradientBatch half.F16 fl.F)
      → List (List fl.F) × List (List ℕ)
      → Outcome (List (List fl.F) × List (List ℕ))
  push_features hash64 config replica_size kv [] sharded = ok sharded
  push_features hash64 config replica_size kv (g ∷ gradients) sharded = do
    sharded' ← push_feature hash64 config replica_size kv g sharded
    push_features hash64 config replica_size kv gradients sharded'

  -- The gradients and the signs for each parameter server; `clients` is the number of clients.
  unfoldable pub gradient_requests :
      (hash64 : ℕ → ℕ)
      → EmbeddingConfig
      → (clients replica_size : ℕ) → List (SkippableFeatureEmbeddingGradientBatch half.F16 fl.F)
      → IdTypeFeatureBatch
      → Outcome (List (List fl.F) × List (List ℕ))
  gradient_requests hash64 config clients replica_size gradients indices =
      push_features hash64 config replica_size (indices_kv [] indices.batches) gradients
        (replicate clients [], replicate clients [])
