-- ===== src/Worker/Buffers/Stale.antt =====
-- Batches that need no gradients, and the staleness of the embedding worker
-- (embedding_worker_service/mod.rs).
use persia.Base.{
  ℕ, suc, ◌+◌, ◌%◌, ◌<◌, ◌≡◌, refl, ap, subst, ◌∙◌, Bool, false, Option, none, some, List, [], ◌∷◌,
  arith, length, u64_size, Result, err, good,
}
use persia.Base.Map.{nat_eq, Map, get, insert, remove, get-insert_self, beq_self}
use persia.Common.{IdTypeFeatureBatch}
use persia.Worker.Buffers.{
  EmbeddingWorkerError, EmbeddingBatch, forward_id_not_found, EmbeddingWorkerInner, get_id,
  put_batch, forward_batched, after_lookup, forward_batch_id, update_gradient_batched,
}
use persia.Worker.Buffers.Traced.{entered, put_batch-sub_get, own_id, next_id}

put_batch-get :
    (o : Option (Map ℕ IdTypeFeatureBatch)) (id : ℕ) (indices : IdTypeFeatureBatch)
    → get (put_batch o id indices) id ≡ some indices
put_batch-get o id indices = put_batch-sub_get o id indices id ∙ rw (beq_self id) refl

-- No batch is in the post-forward buffer under one of the next `n` ids that the worker gives.
abbrev pub NonePosted : EmbeddingWorkerInner → (n : ℕ) → Type 0
NonePosted w n =
    (w.forward_id < u64_size)
    × ((j : ℕ) → j < n → get w.post_forward_buffer ((w.forward_id + j) % u64_size) ≡ none)

module _ {B G : Type 0}
    (lookup : IdTypeFeatureBatch → Bool → Result EmbeddingWorkerError B × IdTypeFeatureBatch)
    (update : G → IdTypeFeatureBatch → Result EmbeddingWorkerError (Unit {0})) where
  -- A batch arrives at a time for a batcher, its embeddings are looked up, and gradients arrive for it: the answer to them.
  abbrev pub serve :
      EmbeddingWorkerInner
      → ℕ × IdTypeFeatureBatch × ℕ × G
      → Result EmbeddingWorkerError (Unit {0}) × EmbeddingWorkerInner
  serve w (now, indices, batcher_idx, gradients) =
      let (id, w1) = forward_batched w indices batcher_idx now in
      let (answer, w2) = forward_batch_id lookup w1 batcher_idx id now in
      update_gradient_batched update w2 id gradients

  -- One batch after the other.
  abbrev pub serve_all :
      EmbeddingWorkerInner
      → List (ℕ × IdTypeFeatureBatch × ℕ × G)
      → List (Result EmbeddingWorkerError (Unit {0})) × EmbeddingWorkerInner
  serve_all w [] = ([], w)
  serve_all w (x ∷ xs) =
      let (answer, w1) = serve w x in let (answers, w2) = serve_all w1 xs in (answer ∷ answers, w2)

  abbrev pub NeedNone : List (ℕ × IdTypeFeatureBatch × ℕ × G) → Type 0
  NeedNone [] = Unit
  NeedNone ((now, indices, batcher_idx, gradients) ∷ xs) =
      (indices.requires_grad ≡ false) × NeedNone xs

  -- Each answer is that there is no batch under the id, the ids counted from `id`.
  abbrev pub Refused : (id : ℕ) → List (Result EmbeddingWorkerError (Unit {0})) → Type 0
  Refused id [] = Unit
  Refused id (answer ∷ answers) =
      (answer ≡ err (forward_id_not_found id)) × Refused ((id + 1) % u64_size) answers

  -- The worker after a batch that needs no gradients.
  after_batch :
      EmbeddingWorkerInner
      → (now : ℕ) → IdTypeFeatureBatch
      → (batcher_idx : ℕ) → EmbeddingWorkerInner
  after_batch w now indices b =
      let sub = put_batch (get w.forward_id_buffer b) w.forward_id (entered indices now) in
      record w {
        forward_id = (w.forward_id + 1) % u64_size;
        forward_id_buffer = insert (insert w.forward_id_buffer b sub) b (remove sub w.forward_id);
        staleness = (w.staleness + 1) % u64_size;
      }

  looked_up :
      (w : EmbeddingWorkerInner) (now : ℕ) (indices indices' : IdTypeFeatureBatch) (b : ℕ)
      (result : B)
      → indices.requires_grad ≡ false
      → lookup (entered indices now) indices.requires_grad ≡ (good result, indices')
      → forward_batch_id lookup (forward_batched w indices b now).1 b w.forward_id now ≡ (
        good (record { batches = result; backward_ref_id = some w.forward_id }),
        after_batch w now indices b,
      )
  unfolding forward_batched get_id forward_batch_id after_lookup after_batch
  looked_up w now indices indices' b result need e =
      let sub = put_batch (get w.forward_id_buffer b) w.forward_id (entered indices now) in
      rw
        (
          forward_batch_id,
          get-insert_self w.forward_id_buffer b sub,
          put_batch-get (get w.forward_id_buffer b) w.forward_id (entered indices now),
          e,
          need,
        )
        refl

  serve-refused :
      ((indices : IdTypeFeatureBatch)
        → indices.requires_grad ≡ false
        → (result : B) × (indices' : IdTypeFeatureBatch) × (lookup indices indices.requires_grad
            ≡ (good result, indices')))
      → (w : EmbeddingWorkerInner) (now : ℕ) (indices : IdTypeFeatureBatch) (b : ℕ) (gradients : G)
      → indices.requires_grad ≡ false
      → get w.post_forward_buffer w.forward_id ≡ none
      → serve w (now, indices, b, gradients)
        ≡ (err (forward_id_not_found w.forward_id), after_batch w now indices b)
  serve-refused answers w now indices b gradients need posted =
      let (result, indices', e) = answers (entered indices now) need in
      ap
        (λ id.
          update_gradient_batched update
            (forward_batch_id lookup (forward_batched w indices b now).1 b id now).1 id gradients)
        given
      ∙ ap
          (λ (r : Result EmbeddingWorkerError (EmbeddingBatch B) × EmbeddingWorkerInner).
            update_gradient_batched update r.1 w.forward_id gradients)
          (looked_up w now indices indices' b result need e)
      ∙ refused
    where
      given : (forward_batched w indices b now).0 ≡ w.forward_id
      given = unfold forward_batched get_id in refl

      refused :
          update_gradient_batched update (after_batch w now indices b) w.forward_id gradients
          ≡ (err (forward_id_not_found w.forward_id), after_batch w now indices b)
      refused =
          unfold update_gradient_batched after_batch in rw (update_gradient_batched, posted) refl

  staleness_sum : (s n : ℕ) → ((s + 1) % u64_size + n) % u64_size ≡ (s + suc n) % u64_size
  staleness_sum s n = omega arith

  after_batch-NonePosted :
      (w : EmbeddingWorkerInner) (now : ℕ) (indices : IdTypeFeatureBatch) (b n : ℕ)
      → NonePosted w (suc n)
      → NonePosted (after_batch w now indices b) n
  unfolding after_batch
  after_batch-NonePosted w now indices b n (small, free) =
      (omega arith, λ j h. rw (next_id w.forward_id j) (free (j + 1) (omega arith)))

  -- What a run leaves of the worker, and what it answers.
  abbrev pub LeftStale :
      EmbeddingWorkerInner
      → (n : ℕ) → List (Result EmbeddingWorkerError (Unit {0})) × EmbeddingWorkerInner
      → Type 0
  LeftStale w n r =
      Refused w.forward_id r.0
      × (length r.0 ≡ n)
      × (r.1.staleness ≡ (w.staleness + n) % u64_size)
      × (r.1.post_forward_buffer ≡ w.post_forward_buffer)

  -- Batches arrive one after the other, none needs gradients, the lookup of each succeeds, and
  -- gradients are sent for each; no batch is in the post-forward buffer under the ids that they are
  -- given. Every gradient update is refused, since its id is not found, the post-forward buffer is
  -- as before, and the staleness has grown by the number of the batches, modulo 2^64.
  pub serve_all-LeftStale :
      ((indices : IdTypeFeatureBatch)
        → indices.requires_grad ≡ false
        → (result : B) × (indices' : IdTypeFeatureBatch) × (lookup indices indices.requires_grad
            ≡ (good result, indices')))
      → (w : EmbeddingWorkerInner) (xs : List (ℕ × IdTypeFeatureBatch × ℕ × G)) → NeedNone xs
      → NonePosted w (length xs)
      → w.staleness < u64_size
      → LeftStale w (length xs) (serve_all w xs)
  unfolding after_batch
  serve_all-LeftStale answers w [] need none_posted small = (tt, refl, kept w.staleness small, refl)
    where
      kept : (s : ℕ) → s < u64_size → s ≡ (s + 0) % u64_size
      kept s small = omega arith
  serve_all-LeftStale answers w ((now, indices, b, gradients) ∷ xs) need none_posted small =
      let w1 = after_batch w now indices b in
      let here =
        subst (λ i. get w.post_forward_buffer i ≡ none) (own_id w.forward_id none_posted.0)
          (none_posted.1 0 (omega arith)) in
      let (refused, many, stale, same) =
        serve_all-LeftStale answers w1 xs need.1
          (after_batch-NonePosted w now indices b (length xs) none_posted) (omega arith) in
      rw (serve-refused answers w now indices b gradients need.0 here)
        ((refl, refused), ap suc many, stale ∙ staleness_sum w.staleness (length xs), same)
