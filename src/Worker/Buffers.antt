-- ===== src/Worker/Buffers.antt =====
-- embedding_worker_service/mod.rs: the two buffers of the embedding worker. A batch waits in the forward
-- buffer until its embeddings are asked for, and then in the post-forward buffer until its gradients
-- arrive. The calls of the parameter servers, `lookup_batched_all_slots` and
-- `update_all_batched_gradients`, are the parameters `lookup` and `update`; the clock is `now`, in nanoseconds.
-- The maps of the source are locked for each call, so that a call is one step; metrics are left out.
pub mod Traced
pub mod Stale
use persia.Base.{
  ℕ, nanos, ◌+◌, ◌-◌, ◌*◌, ◌%◌, Bool, true, false, not, Option, none, some, List, [], ◌∷◌, ltb,
  if◌then◌else◌, length, u64_size, usize_sub, Outcome, ok, panic, ◌>>=◌, unwrap, Result, err, good,
}
use persia.Base.Map.{nat_eq, Map, get, insert, remove}
use persia.Common.{IdTypeFeatureBatch}

-- The errors that other components report come without their payloads.
pub data EmbeddingWorkerError : Type 0 where
  rpc_error : EmbeddingWorkerError
  embedding_parameter_server_error : EmbeddingWorkerError
  embedding_model_manager_error : EmbeddingWorkerError
  forward_id_not_found : ℕ → EmbeddingWorkerError
  forward_failed : EmbeddingWorkerError
  backward_failed : EmbeddingWorkerError
  connection_error : EmbeddingWorkerError
  lookup_ip_address_error : EmbeddingWorkerError
  replica_idx_not_match_error : EmbeddingWorkerError
  nan_gradient : EmbeddingWorkerError
  nats_error : EmbeddingWorkerError
  persia_global_config_error : EmbeddingWorkerError
  forward_buffer_full : EmbeddingWorkerError
  data_src_idx_not_set : EmbeddingWorkerError

pub record EmbeddingBatch (B : Type 0) : Type 0 where
  pub batches : B
  pub backward_ref_id : Option ℕ

pub record EmbeddingWorkerInner : Type 0 where
  pub forward_id : ℕ
  pub cannot_forward_batched_time : ℕ
  pub forward_id_buffer : Map ℕ (Map ℕ IdTypeFeatureBatch)
  pub post_forward_buffer : Map ℕ IdTypeFeatureBatch
  pub staleness : ℕ
  pub forward_buffer_size : ℕ
  pub buffered_data_expired_sec : ℕ

unfoldable pub get_id : EmbeddingWorkerInner → ℕ × EmbeddingWorkerInner
get_id w = (w.forward_id, record w { forward_id = (w.forward_id + 1) % u64_size })

-- The sub-buffer of a batcher with one more batch; there is none before the first.
unfoldable pub put_batch :
    Option (Map ℕ IdTypeFeatureBatch) → (id : ℕ) → IdTypeFeatureBatch → Map ℕ IdTypeFeatureBatch
put_batch (some b) id indices = insert b id indices
put_batch none id indices = insert [] id indices

-- `forward_batched`.
unfoldable pub forward_batched :
    EmbeddingWorkerInner → IdTypeFeatureBatch → (batcher_idx now : ℕ) → ℕ × EmbeddingWorkerInner
forward_batched w indices batcher_idx now =
    let (id, w1) = get_id w in
    let indices' = record indices { enter_forward_id_buffer_time = some now } in
    (
      id,
      record w1 {
        forward_id_buffer =
            insert w1.forward_id_buffer batcher_idx
              (put_batch (get w1.forward_id_buffer batcher_idx) id indices');
      },
    )

-- `duration_since(earlier).unwrap()`, in nanoseconds.
unfoldable pub duration_since : (now earlier : ℕ) → Outcome ℕ
duration_since now earlier = if ltb now earlier then panic else ok (now - earlier)

-- The keys of the batches that have waited too long.
unfoldable pub expired_keys : (now expired_sec : ℕ) → Map ℕ IdTypeFeatureBatch → Outcome (List ℕ)
expired_keys now expired_sec [] = ok []
expired_keys now expired_sec ((k, v) ∷ buffer) = do
  entered ← unwrap v.enter_forward_id_buffer_time
  waited ← duration_since now entered
  rest ← expired_keys now expired_sec buffer
  ok (if ltb (expired_sec * nanos) waited then k ∷ rest else rest)

unfoldable pub remove_keys : Map ℕ IdTypeFeatureBatch → List ℕ → Map ℕ IdTypeFeatureBatch
remove_keys buffer [] = buffer
remove_keys buffer (k ∷ keys) = remove_keys (remove buffer k) keys

unfoldable pub has_room : Option (Map ℕ IdTypeFeatureBatch) → (forward_buffer_size : ℕ) → Bool
has_room (some buffer) forward_buffer_size = ltb (length buffer) forward_buffer_size
has_room none forward_buffer_size = true

unfoldable pub can_forward_batched :
    EmbeddingWorkerInner → (batcher_idx now : ℕ) → Outcome (Bool × EmbeddingWorkerInner)
can_forward_batched w batcher_idx now =
    if has_room (get w.forward_id_buffer batcher_idx) w.forward_buffer_size
    then ok (true, record w { cannot_forward_batched_time = now })
    else do
      full_for ← duration_since now w.cannot_forward_batched_time
      if ltb (60 * nanos) full_for
          then (do
            sub_buffer ← unwrap (get w.forward_id_buffer batcher_idx)
            old_keys ← expired_keys now w.buffered_data_expired_sec sub_buffer
            ok (
              false,
              record w {
                forward_id_buffer =
                    insert w.forward_id_buffer batcher_idx (remove_keys sub_buffer old_keys);
                cannot_forward_batched_time = now;
              },
            ))
          else ok (false, w)

module _ {B : Type 0}
    (lookup : IdTypeFeatureBatch → Bool → Result EmbeddingWorkerError B × IdTypeFeatureBatch) where
  -- What follows the lookup in `forward_batch_id`.
  unfoldable pub after_lookup :
      EmbeddingWorkerInner
      → (ref_id now : ℕ) → (requires_grad : Bool)
      → Result EmbeddingWorkerError B × IdTypeFeatureBatch
      → Result EmbeddingWorkerError (EmbeddingBatch B) × EmbeddingWorkerInner
  after_lookup w ref_id now requires_grad (err e, indices) =
      (err e, record w { staleness = usize_sub w.staleness 1 })
  after_lookup w ref_id now requires_grad (good result, indices) = (
    good (record { batches = result; backward_ref_id = some ref_id }),
    if requires_grad
        then record w {
          post_forward_buffer =
              insert w.post_forward_buffer ref_id
                (record indices { enter_post_forward_buffer_time = some now });
        }
        else w,
  )

  unfoldable pub forward_batch_id :
      EmbeddingWorkerInner
      → (batcher_idx ref_id now : ℕ)
      → Result EmbeddingWorkerError (EmbeddingBatch B) × EmbeddingWorkerInner
  forward_batch_id w batcher_idx ref_id now = elim (get w.forward_id_buffer batcher_idx) [
    | none ↦ (err (forward_id_not_found ref_id), w)
    | some sub_buffer ↦ elim (get sub_buffer ref_id) [
      | none ↦ (err (forward_id_not_found ref_id), w)
      | some indices ↦
          after_lookup
            (record w {
              forward_id_buffer = insert w.forward_id_buffer batcher_idx (remove sub_buffer ref_id);
              staleness = (w.staleness + 1) % u64_size;
            })
            ref_id now indices.requires_grad (lookup indices indices.requires_grad)
    ]
  ]

  unfoldable pub after_direct_lookup :
      EmbeddingWorkerInner
      → (now : ℕ) → (requires_grad : Bool) → Result EmbeddingWorkerError B × IdTypeFeatureBatch
      → Result EmbeddingWorkerError (EmbeddingBatch B) × EmbeddingWorkerInner
  after_direct_lookup w now requires_grad (err e, indices) = (err e, w)
  after_direct_lookup w now false (good result, indices) =
      (good (record { batches = result; backward_ref_id = none }), w)
  after_direct_lookup w now true (good result, indices) =
      let (id, w1) = get_id w in
      (
        good (record { batches = result; backward_ref_id = some id }),
        record w1 {
          post_forward_buffer =
              insert w1.post_forward_buffer id
                (record indices { enter_post_forward_buffer_time = some now });
        },
      )

  unfoldable pub forward_batched_direct :
      EmbeddingWorkerInner
      → IdTypeFeatureBatch
      → (now : ℕ) → Result EmbeddingWorkerError (EmbeddingBatch B) × EmbeddingWorkerInner
  forward_batched_direct w indices now =
      after_direct_lookup w now indices.requires_grad (lookup indices indices.requires_grad)

module _ {G : Type 0}
    (update : G → IdTypeFeatureBatch → Result EmbeddingWorkerError (Unit {0})) where
  unfoldable pub after_update :
      EmbeddingWorkerInner
      → Result EmbeddingWorkerError (Unit {0})
      → Result EmbeddingWorkerError (Unit {0}) × EmbeddingWorkerInner
  after_update w (err e) = (err e, w)
  after_update w (good u) = (good tt, record w { staleness = usize_sub w.staleness 1 })

  unfoldable pub update_gradient_batched :
      EmbeddingWorkerInner
      → (backward_ref_id : ℕ) → G
      → Result EmbeddingWorkerError (Unit {0}) × EmbeddingWorkerInner
  update_gradient_batched w backward_ref_id gradients =
      elim (get w.post_forward_buffer backward_ref_id) [
        | none ↦ (err (forward_id_not_found backward_ref_id), w)
        | some indices ↦
            after_update
              (record w { post_forward_buffer = remove w.post_forward_buffer backward_ref_id })
              (update gradients indices)
      ]
