-- ===== src/ParamServer.antt =====
-- rust/persia-embedding-server/src/embedding_parameter_service/mod.rs: an embedding parameter server,
-- which holds a share of the embeddings in shards (persia-embedding-holder/src/lib.rs and sharded.rs)
-- and looks them up, creates and updates them. The trait `Optimizable` of persia-common/src/optim.rs is
-- a record; the draws of the random numbers, the hash of ahash and the generator of new embeddings
-- are parameters. A call is one step: the locks of the shards and the metrics are left out.
pub mod Inference
pub mod Missed
pub mod Trained
pub mod Requested
pub mod Kept
pub mod Updated
use persia.Base.{
  ℕ, ◌+◌, ◌%◌, Bool, true, false, not, Option, none, some, List, [], ◌∷◌, ◌++◌, map, ltb, ◌==◌,
  if◌then◌else◌, length, get_elem?, set, take, drop, replicate, u64_size, Outcome, ok, panic, ◌>>=◌,
  unwrap, unwrap_unchecked, Result, err, good,
}
use persia.Base.Map.{nat_eq, get as map_get}
use persia.Holder.EvictionMap.{EvictionMap, get, get_refresh, insert, map_len, clear}
use persia.Holder.EmbEntry.{HashMapEmbeddingEntry, entry_new, emb, slice_to}

-- Without the payloads.
pub data EmbeddingParameterServerError : Type 0 where
  rpc_error : EmbeddingParameterServerError
  shutdown_error : EmbeddingParameterServerError
  not_ready_error : EmbeddingParameterServerError
  not_configured_error : EmbeddingParameterServerError
  embedding_model_manager_error : EmbeddingParameterServerError
  nats_error : EmbeddingParameterServerError
  optimizer_not_found_error : EmbeddingParameterServerError
  persia_global_config_error : EmbeddingParameterServerError
  embedding_dim_not_match : EmbeddingParameterServerError

-- Without the progress and the error that the source keeps in it.
pub data EmbeddingModelManagerStatus : Type 0 where
  dumping : EmbeddingModelManagerStatus
  loading : EmbeddingModelManagerStatus
  idle : EmbeddingModelManagerStatus
  failed : EmbeddingModelManagerStatus

pub data PerisaJobType : Type 0 where
  train : PerisaJobType
  eval : PerisaJobType
  infer : PerisaJobType

-- The trait `Optimizable` as a record of total functions: `update` and `state_initialization` return
-- what they leave of the slice. The powers of the betas that Adam keeps beside them, and the panics of
-- its slices, are in `Optim`.
pub record Optimizable (F : Type 0) : Type 0 where
  pub update : (emb_entry grad : List F) (dim : ℕ) → Option (List F) → List F
  pub get_emb_state : Option (List F) → (idx : ℕ) → Option (List F)
  pub get_batch_level_state : (signs : List ℕ) → Option (List F)
  pub require_space : (dim : ℕ) → ℕ
  pub state_initialization : (state : List F) (dim : ℕ) → List F

pub record PersiaEmbeddingModelHyperparameters (I F : Type 0) : Type 0 where
  pub initialization_method : I
  pub admit_probability : F
  pub weight_bound : F
  pub enable_weight_bound : Bool

pub record EmbeddingParameterServiceInner (I F : Type 0) : Type 0 where
  pub embedding : List (EvictionMap ℕ (HashMapEmbeddingEntry F))
  pub optimizer : Option (Optimizable F)
  pub hyperparameter_config : Option (PersiaEmbeddingModelHyperparameters I F)
  pub hyperparameter_configured : Bool
  pub model_status : EmbeddingModelManagerStatus
  pub job_type : PerisaJobType
  pub enable_incremental_update : Bool
  pub committed : List (List ℕ)

module _ {I F : Type 0} where
  unfoldable pub get_configuration :
      EmbeddingParameterServiceInner I F
      → Result EmbeddingParameterServerError (PersiaEmbeddingModelHyperparameters I F)
  get_configuration s = elim s.hyperparameter_config [
    | none ↦ err not_configured_error
    | some conf ↦ good conf
  ]

  unfoldable pub ready_for_serving : EmbeddingParameterServiceInner I F → Bool
  ready_for_serving s = elim s.model_status [
    | dumping ↦ elim s.job_type [ infer ↦ true | _ ↦ s.hyperparameter_configured ]
    | idle ↦ elim s.job_type [ infer ↦ true | _ ↦ s.hyperparameter_configured ]
    | loading ↦ false
    | failed ↦ false
  ]

  unfoldable pub register_optimizer :
      EmbeddingParameterServiceInner I F → Optimizable F → EmbeddingParameterServiceInner I F
  register_optimizer s optimizer = record s { optimizer = some optimizer }

  unfoldable pub configure :
      EmbeddingParameterServiceInner I F
      → PersiaEmbeddingModelHyperparameters I F
      → EmbeddingParameterServiceInner I F
  configure s config = record s {
    hyperparameter_config = some config;
    hyperparameter_configured = true;
  }

-- `get_index` of sharded.rs.
unfoldable pub get_index : (hash : ℕ → ℕ) → (key count : ℕ) → Outcome ℕ
get_index hash key count = if count == 0 then panic else ok (hash key % count)

-- `Sharded::shard`.
unfoldable pub shard : {T : Type 0} → (hash : ℕ → ℕ) → List T → (key : ℕ) → Outcome T
shard hash inner key = do
  i ← get_index hash key (length inner)
  unwrap_unchecked (get_elem? inner i)

-- A write to the shard of a key.
unfoldable pub set_shard : {T : Type 0} → (hash : ℕ → ℕ) → List T → (key : ℕ) → T → Outcome (List T)
set_shard hash inner key t = do i ← get_index hash key (length inner); ok (set inner i t)

unfoldable pub num_total_signs : {F : Type 0} → List (EvictionMap ℕ (HashMapEmbeddingEntry F)) → ℕ
num_total_signs [] = 0
num_total_signs (m ∷ inner) = (map_len m + num_total_signs inner) % u64_size

unfoldable pub holder_capacity : {F : Type 0} → List (EvictionMap ℕ (HashMapEmbeddingEntry F)) → ℕ
holder_capacity [] = 0
holder_capacity (m ∷ inner) = (m.capacity + holder_capacity inner) % u64_size

unfoldable pub holder_clear :
    {F : Type 0}
    → List (EvictionMap ℕ (HashMapEmbeddingEntry F))
    → List (EvictionMap ℕ (HashMapEmbeddingEntry F))
holder_clear inner = map clear inner

module _ {F : Type 0} (hash : ℕ → ℕ) (fzero : F) where
  -- `set_embedding`.
  unfoldable pub set_embedding :
      List (EvictionMap ℕ (HashMapEmbeddingEntry F))
      → List (HashMapEmbeddingEntry F)
      → Outcome (List (EvictionMap ℕ (HashMapEmbeddingEntry F)))
  set_embedding inner [] = ok inner
  set_embedding inner (entry ∷ embeddings) = do
    m ← shard hash inner entry.sign
    (evicted, m') ← insert (λ e. e.sign) m entry.sign entry
    inner' ← set_shard hash inner entry.sign m'
    set_embedding inner' embeddings

  -- What a lookup without training returns for an entry.
  unfoldable pub inferred : Option (HashMapEmbeddingEntry F) → (dim : ℕ) → Outcome (List F)
  inferred none dim = ok (replicate dim fzero)
  inferred (some entry) dim =
      if not (entry.embedding_dim == dim) then ok (replicate dim fzero) else emb entry

  -- `batched_lookup` with `is_training` false: the shards are only read.
  unfoldable pub lookup_infer :
      List (EvictionMap ℕ (HashMapEmbeddingEntry F)) → List (ℕ × ℕ) → Outcome (List F)
  lookup_infer inner [] = ok []
  lookup_infer inner ((sign, dim) ∷ req) = do
    m ← shard hash inner sign
    found ← get m sign
    values ← inferred found dim
    rest ← lookup_infer inner req
    ok (values ++ rest)

  module _ {I : Type 0} (random_using : I → (dim seed : ℕ) → Outcome (List F)) where
    -- An entry for a sign that has none.
    unfoldable pub fresh :
        PersiaEmbeddingModelHyperparameters I F
        → Optimizable F
        → (sign dim : ℕ) → Outcome (HashMapEmbeddingEntry F)
    fresh conf optimizer sign dim =
        entry_new fzero random_using conf.initialization_method dim (optimizer.require_space dim)
          sign sign

    -- One sign of `batched_lookup` with `is_training` true; `admitted` is the draw that lets a new
    -- sign in.
    unfoldable pub train_sign :
        PersiaEmbeddingModelHyperparameters I F
        → Optimizable F
        → (admitted : Bool) → (sign dim : ℕ) → EvictionMap ℕ (HashMapEmbeddingEntry F)
        → Option (HashMapEmbeddingEntry F)
        → Outcome (List F × EvictionMap ℕ (HashMapEmbeddingEntry F))
    train_sign conf optimizer false sign dim m none = ok (replicate dim fzero, m)
    train_sign conf optimizer true sign dim m none = do
      entry ← fresh conf optimizer sign dim
      let entry' = record entry { inner = optimizer.state_initialization entry.inner dim }
      values ← slice_to entry'.inner dim
      (evicted, m') ← insert (λ e. e.sign) m sign entry'
      ok (values, m')
    train_sign conf optimizer admitted sign dim m (some entry) =
        if not (entry.embedding_dim == dim)
        then (do
          entry' ← fresh conf optimizer sign dim
          values ← emb entry'
          (evicted, m') ← insert (λ e. e.sign) m sign entry'
          ok (values, m'))
        else do values ← emb entry; ok (values, m)

    -- The loop over the request; `admit` has the draw of each position.
    unfoldable pub lookup_train :
        PersiaEmbeddingModelHyperparameters I F
        → Optimizable F
        → (admit : ℕ → Bool) → (position : ℕ) → List (ℕ × ℕ)
        → List (EvictionMap ℕ (HashMapEmbeddingEntry F))
        → Outcome (List F × List (EvictionMap ℕ (HashMapEmbeddingEntry F)))
    lookup_train conf optimizer admit position [] inner = ok ([], inner)
    lookup_train conf optimizer admit position ((sign, dim) ∷ req) inner = do
      m ← shard hash inner sign
      (e, m1) ← get_refresh m sign
      (values, m2) ← train_sign conf optimizer (admit position) sign dim m1 e
      inner' ← set_shard hash inner sign m2
      (rest, inner'') ← lookup_train conf optimizer admit (position + 1) req inner'
      ok (values ++ rest, inner'')

    unfoldable pub batched_lookup :
        (admit : ℕ → Bool)
        → EmbeddingParameterServiceInner I F
        → List (ℕ × ℕ)
        → (is_training : Bool)
        → Outcome
            (Result EmbeddingParameterServerError (List F) × EmbeddingParameterServiceInner I F)
    batched_lookup admit s req false = do
      embeddings ← lookup_infer s.embedding req
      ok (good embeddings, s)
    batched_lookup admit s req true = elim (get_configuration s) [
      | err e ↦ ok (err e, s)
      | good conf ↦ elim s.optimizer [
        | none ↦ ok (err optimizer_not_found_error, s)
        | some optimizer ↦ do
          (embeddings, inner) ← lookup_train conf optimizer admit 0 req s.embedding
          ok (good embeddings, record s { embedding = inner })
      ]
    ]

  -- A write through `get_mut`: the value at an index of the list.
  unfoldable pub set_item :
      EvictionMap ℕ (HashMapEmbeddingEntry F)
      → (sign : ℕ) → HashMapEmbeddingEntry F
      → EvictionMap ℕ (HashMapEmbeddingEntry F)
  set_item m sign entry = elim (map_get m.hashmap sign) [
    | none ↦ m
    | some i ↦ elim (get_elem? m.linkedlist.elements i) [
      | none ↦ m
      | some n ↦ record m {
        linkedlist = record m.linkedlist {
          elements = set m.linkedlist.elements i (record n { item = some entry });
        };
      }
    ]
  ]

  -- The loop of `update_gradient_mixed` from the position `idx` on: the signs that it updated and the
  -- number of those that it did not find. `weight_bound` is what persia_simd does to the embedding.
  unfoldable pub update_signs :
      Optimizable F
      → (bounded : List F → (dim : ℕ) → List F) → Option (List F)
      → (idx : ℕ) → List ℕ
      → (remaining_gradients : List F) → List (EvictionMap ℕ (HashMapEmbeddingEntry F))
      → Outcome ((List ℕ × ℕ) × List (EvictionMap ℕ (HashMapEmbeddingEntry F)))
  update_signs optimizer bounded state idx [] grads inner = ok (([], 0), inner)
  update_signs optimizer bounded state idx (sign ∷ signs) grads inner = do
    m ← shard hash inner sign
    found ← get m sign
    let missed = update_signs optimizer bounded state (idx + 1) signs grads inner
    let present = λ (entry : HashMapEmbeddingEntry F). (do
      grad ← slice_to grads entry.embedding_dim
      let inner_slice =
          optimizer.update entry.inner grad entry.embedding_dim (optimizer.get_emb_state state idx)
      let entry' = record entry { inner = bounded inner_slice entry.embedding_dim }
      inner' ← set_shard hash inner sign (set_item m sign entry')
      ((commit, misses), inner'') ←
          update_signs optimizer bounded state (idx + 1) signs (drop entry.embedding_dim grads)
            inner'
      ok ((sign ∷ commit, misses), inner''))
    elim found [
      | none ↦ do ((commit, misses), inner'') ← missed; ok ((commit, misses + 1), inner'')
      | some entry ↦ present entry
    ]

  unfoldable pub update_gradient_mixed :
      {I : Type 0}
      → (weight_bound : List F → (dim : ℕ) → F → List F) → EmbeddingParameterServiceInner I F
      → (signs : List ℕ) → (gradients : List F)
      → Outcome
          (Result EmbeddingParameterServerError (Unit {0}) × EmbeddingParameterServiceInner I F)
  update_gradient_mixed weight_bound s signs gradients = elim (get_configuration s) [
    | err e ↦ ok (err e, s)
    | good conf ↦ elim s.optimizer [
      | none ↦ ok (err optimizer_not_found_error, s)
      | some optimizer ↦ do
        ((commit, misses), inner) ←
            update_signs optimizer
              (λ xs dim.
                if conf.enable_weight_bound then weight_bound xs dim conf.weight_bound else xs)
              (optimizer.get_batch_level_state signs) 0 signs gradients s.embedding
        ok (
          good tt,
          record s {
            embedding = inner;
            committed =
                if s.enable_incremental_update then s.committed ++ commit ∷ [] else s.committed;
          },
        )
    ]
  ]
