-- ===== src/Worker/Postprocess/Results.antt =====
-- embedding_worker_service/mod.rs: the rest of `lookup_batched_all_slots_postprocess`, which puts the
-- embeddings that the parameter servers return into a matrix for each feature. A matrix of ndarray is a
-- list of rows; its multiplications and the conversion to f16 are parameters.
use Prim.Native.String.{String}
use persia.Base.{
  ℕ, zero, suc, ◌+◌, ◌/◌, not, ◌&&◌, List, [], ◌∷◌, map, length, get_elem?, set, take, drop,
  replicate, ltb, ◌==◌, if◌then◌else◌, Outcome, ok, panic, ◌>>=◌, unwrap, unwrap_unchecked, assert,
}
use persia.Base.Map.{nat_eq, Map, get}
use persia.Common.{FeatureBatch, IdTypeFeatureBatch}
use persia.Config.{SlotConfig, EmbeddingConfig, get_slot_by_feature_name}
use persia.Simd.Lanes.{Floats}
use persia.Simd.{add_assign_avx2}
use persia.Worker.{traverse}
use persia.Worker.Preprocess.{SignWithConfig}
use persia.Worker.Postprocess.{raw_layout}

-- `max(x, 1)` of two numbers.
abbrev at_least_one : ℕ → ℕ
at_least_one zero = 1
at_least_one (suc n) = suc n

-- The operations of ndarray and half.
pub record MatrixFloats (fl : Floats) : Type 1 where
  pub F16 : Type 0
  pub mul_assign : fl.F → List (List fl.F) → List (List fl.F)
  pub mul_assign_column : List fl.F → List (List fl.F) → Outcome (List (List fl.F))
  pub ndarray_f32_to_f16 : List (List fl.F) → List (List F16)

pub data FeatureEmbeddingBatch (H : Type 0) : Type 0 where
  sum_embedding : (feature_name : String) (embeddings : List (List H)) → FeatureEmbeddingBatch H
  raw_embedding :
      (feature_name : String) (embeddings : List (List H)) (index sample_id_num : List ℕ)
      → FeatureEmbeddingBatch H

module _ (fl : Floats) where
  pub record LookupResultWithSlotConfig : Type 0 where
    pub result : List (List fl.F)
    pub config : SlotConfig
    pub sign2idx : Map ℕ ℕ

  unfoldable pub empty_result : EmbeddingConfig → FeatureBatch → Outcome LookupResultWithSlotConfig
  empty_result config x = do
    slot_conf ← get_slot_by_feature_name config x.feature_name
    let rounds = slot_conf.hash_stack_config.hash_stack_rounds
    let signs = length x.index_batch
    let distinct_id_size = if ltb 0 rounds then signs / rounds else signs
    let feature_len = if slot_conf.embedding_summation then x.batch_size else distinct_id_size + 1
    ok (record {
      result = replicate feature_len (replicate slot_conf.dim fl.zero);
      config = slot_conf;
      sign2idx = if slot_conf.embedding_summation then [] else x.hashed2index_batch_idx;
    })

  -- `lookup_raw_results`: the embedding of each sign; nothing may be left.
  unfoldable pub split_embeddings :
      List fl.F → List SignWithConfig → Outcome (List (List fl.F × SignWithConfig))
  split_embeddings embeddings_slice [] = do _ ← assert (length embeddings_slice == 0); ok []
  split_embeddings embeddings_slice (sign ∷ signs) =
      if ltb (length embeddings_slice) sign.dim then panic else do
        rest ← split_embeddings (drop sign.dim embeddings_slice) signs
        ok ((take sign.dim embeddings_slice, sign) ∷ rest)

  -- The embedding of a sign is added to the rows of its samples.
  unfoldable pub add_to_samples :
      (emb : List fl.F) → List (ℕ × ℕ) → List (List fl.F) → Outcome (List (List fl.F))
  add_to_samples emb [] rows = ok rows
  add_to_samples emb ((batch_id, col) ∷ samples) rows = do
    row ← unwrap (get_elem? rows batch_id)
    row' ← add_assign_avx2 fl row emb
    add_to_samples emb samples (set rows batch_id row')

  -- `row.clone_from_slice(emb)`, for the row of a sign; the first row is for no sign.
  unfoldable pub clone_row :
      (emb : List fl.F) → (idx : ℕ) → List (List fl.F) → Outcome (List (List fl.F))
  clone_row emb idx rows = do
    row ← unwrap (get_elem? rows (idx + 1))
    if length row == length emb then ok (set rows (idx + 1) emb) else panic

  unfoldable pub place_embedding :
      IdTypeFeatureBatch
      → List LookupResultWithSlotConfig
      → List fl.F × SignWithConfig
      → Outcome (List LookupResultWithSlotConfig)
  place_embedding indices results (emb, s) = do
    r ← unwrap_unchecked (get_elem? results s.feature_idx)
    rows ←
        (if not r.config.embedding_summation
          then (do idx ← unwrap (get r.sign2idx s.sign); clone_row emb idx r.result)
          else (do
            batch ← unwrap_unchecked (get_elem? indices.batches s.feature_idx)
            single_sign ← unwrap_unchecked (get_elem? batch.index_batch s.sign_idx)
            add_to_samples emb single_sign.in_which_batch_samples r.result))
    ok (set results s.feature_idx (record r { result = rows }))

  unfoldable pub place_embeddings :
      IdTypeFeatureBatch
      → List (List fl.F × SignWithConfig)
      → List LookupResultWithSlotConfig
      → Outcome (List LookupResultWithSlotConfig)
  place_embeddings indices [] results = ok results
  place_embeddings indices (e ∷ embeddings) results = do
    results' ← place_embedding indices results e
    place_embeddings indices embeddings results'

  unfoldable pub place_groups :
      IdTypeFeatureBatch
      → (forwarded_groups : List (List fl.F × List SignWithConfig))
      → List LookupResultWithSlotConfig
      → Outcome (List LookupResultWithSlotConfig)
  place_groups indices [] results = ok results
  place_groups indices ((embeddings, signs) ∷ groups) results = do
    raw ← split_embeddings embeddings signs
    results' ← place_embeddings indices raw results
    place_groups indices groups results'

  module _ (matrix : MatrixFloats fl) where
    unfoldable pub scale_result :
        FeatureBatch → LookupResultWithSlotConfig → Outcome (List (List fl.F))
    scale_result batch x =
        let rounds = x.config.hash_stack_config.hash_stack_rounds in
        if x.config.embedding_summation
        then (if x.config.sqrt_scaling
            then matrix.mul_assign_column
                (map (λ n. fl.recip (fl.sqrt (fl.of_nat (at_least_one n)))) batch.sample_num_signs)
                x.result
            else ok x.result)
        else if x.config.sqrt_scaling && ltb 1 rounds
        then ok (matrix.mul_assign (fl.recip (fl.sqrt (fl.of_nat rounds))) x.result)
        else ok x.result

    unfoldable pub finish_feature :
        LookupResultWithSlotConfig → FeatureBatch → Outcome (FeatureEmbeddingBatch matrix.F16)
    finish_feature x batch = do
      rows ← scale_result batch x
      if x.config.embedding_summation
          then ok (sum_embedding batch.feature_name (matrix.ndarray_f32_to_f16 rows))
          else (do
            (index, sample_id_num) ←
                raw_layout batch.batch_size x.config.sample_fixed_size x.sign2idx batch.index_batch
            ok (
                raw_embedding batch.feature_name (matrix.ndarray_f32_to_f16 rows) index
                  sample_id_num))

    unfoldable pub finish_features :
        List LookupResultWithSlotConfig
        → List FeatureBatch
        → Outcome (List (FeatureEmbeddingBatch matrix.F16))
    finish_features (x ∷ xs) (batch ∷ batches) = do
      feature ← finish_feature x batch
      rest ← finish_features xs batches
      ok (feature ∷ rest)
    finish_features xs batches = ok []

    unfoldable pub lookup_batched_all_slots_postprocess :
        IdTypeFeatureBatch
        → (forwarded_groups : List (List fl.F × List SignWithConfig)) → EmbeddingConfig
        → Outcome (List (FeatureEmbeddingBatch matrix.F16))
    lookup_batched_all_slots_postprocess indices forwarded_groups config = do
      results ← traverse (empty_result config) indices.batches
      results' ← place_groups indices forwarded_groups results
      finish_features results' indices.batches
