-- ===== src/Worker/Buffers/Traced.antt =====
-- The way of a batch through the buffers of the embedding worker (embedding_worker_service/mod.rs).
use persia.Base.{
  ◌⊎◌, ◌&&◌, suc, if◌then◌else◌, ℕ, ◌+◌, ◌%◌, ◌<◌, ◌≡◌, refl, ap, subst, ◌∙◌, inl, inr, Bool-cases,
  ◌==◌, ==_iff, Bool, true, false, Option, none, some, [], arith, u64_size, usize_sub, Result, err,
  good,
}
use persia.Base.Map.{
  nat_eq, Map, get, insert, remove, get-insert_self, get-remove, get-insert, beq_self,
}
use persia.Common.{IdTypeFeatureBatch}
use persia.Worker.Buffers.{
  EmbeddingWorkerError, forward_id_not_found, EmbeddingWorkerInner, get_id, put_batch,
  forward_batched, after_lookup, forward_batch_id, after_update, update_gradient_batched,
}

back : (n : ℕ) → n + 1 < u64_size → usize_sub ((n + 1) % u64_size) 1 ≡ n
unfolding usize_sub
back n h = ground arith

get-remove_self : {V : Type 0} (m : Map ℕ V) (k : ℕ) → get (remove m k) k ≡ none
get-remove_self m k = rw (get-remove m k k, beq_self k) refl

abbrev pub entered : IdTypeFeatureBatch → ℕ → IdTypeFeatureBatch
entered indices now = record indices { enter_forward_id_buffer_time = some now }

abbrev pub left : IdTypeFeatureBatch → ℕ → IdTypeFeatureBatch
left indices now = record indices { enter_post_forward_buffer_time = some now }

-- The batch `ref_id` of a batcher waits in the forward buffer.
abbrev pub Waiting : EmbeddingWorkerInner → (batcher_idx ref_id : ℕ) → IdTypeFeatureBatch → Type 0
Waiting w batcher_idx ref_id indices =
    (b : Map ℕ IdTypeFeatureBatch) × (get w.forward_id_buffer batcher_idx ≡ some b)
    × (get b ref_id ≡ some indices)

-- The batch that waits for a batcher under an id.
abbrev pub sub_get : Option (Map ℕ IdTypeFeatureBatch) → (ref_id : ℕ) → Option IdTypeFeatureBatch
sub_get none ref_id = none
sub_get (some b) ref_id = get b ref_id

abbrev pub waiting_at : EmbeddingWorkerInner → (batcher_idx ref_id : ℕ) → Option IdTypeFeatureBatch
waiting_at w batcher_idx ref_id = sub_get (get w.forward_id_buffer batcher_idx) ref_id

pub put_batch-sub_get :
    (o : Option (Map ℕ IdTypeFeatureBatch)) (id : ℕ) (indices : IdTypeFeatureBatch) (i : ℕ)
    → get (put_batch o id indices) i ≡ (if id == i then some indices else sub_get o i)
unfolding put_batch get
put_batch-sub_get none id indices i = get-insert [] id indices i
put_batch-sub_get (some m) id indices i = get-insert m id indices i

forward_batched-waiting_at :
    (w : EmbeddingWorkerInner) (indices : IdTypeFeatureBatch) (b now k i : ℕ)
    → waiting_at (forward_batched w indices b now).1 k i
      ≡ (if b == k && w.forward_id == i then some (entered indices now) else waiting_at w k i)
unfolding forward_batched get_id
forward_batched-waiting_at w indices b now k i =
    ap (λ o. sub_get o i) (get-insert w.forward_id_buffer b _ k) ∙ split (Bool-cases (b == k))
  where
    new : Map ℕ IdTypeFeatureBatch
    new = put_batch (get w.forward_id_buffer b) w.forward_id (entered indices now)

    split :
        ((b == k) ≡ true) ⊎ ((b == k) ≡ false)
        → sub_get (if b == k then some new else get w.forward_id_buffer k) i
          ≡ (if b == k && w.forward_id == i then some (entered indices now) else waiting_at w k i)
    split (inl h) = rw h (
        subst
          (λ j.
            get new i
            ≡ (if w.forward_id == i then some (entered indices now) else waiting_at w j i))
          ((==_iff b k).0 h)
          (put_batch-sub_get (get w.forward_id_buffer b) w.forward_id (entered indices now) i))
    split (inr h) = rw h refl

-- No batch waits under any of the next `n` ids that the worker gives.
abbrev pub FreshIds : EmbeddingWorkerInner → (n : ℕ) → Type 0
FreshIds w n =
    (w.forward_id < u64_size)
    × ((j k : ℕ) → j < n → waiting_at w k ((w.forward_id + j) % u64_size) ≡ none)

pub own_id : (f : ℕ) → f < u64_size → (f + 0) % u64_size ≡ f
own_id f small = omega arith

pub next_id : (f j : ℕ) → ((f + 1) % u64_size + j) % u64_size ≡ (f + (j + 1)) % u64_size
next_id f j = omega arith

later_id : (f j : ℕ) → f < u64_size → j + 1 < u64_size → (f == (f + (j + 1)) % u64_size) ≡ false
later_id f j small few = apart f ((f + (j + 1)) % u64_size) (λ e. omega arith)
  where
    apart : (x y : ℕ) → (x ≡ y → ⊥) → (x == y) ≡ false
    apart x y h = ground arith

-- Whether or not this id is the new one, it is not among those that follow.
forward_batched-FreshIds :
    (w : EmbeddingWorkerInner) (indices : IdTypeFeatureBatch) (b now n : ℕ)
    → n < u64_size
    → FreshIds w (suc n)
    → FreshIds (forward_batched w indices b now).1 n
unfolding forward_batched get_id
forward_batched-FreshIds w indices b now n few (small, free) = (
  omega arith,
  λ j k h. rw (next_id w.forward_id j) (
      forward_batched-waiting_at w indices b now k ((w.forward_id + (j + 1)) % u64_size)
      ∙ rw (later_id w.forward_id j small (omega arith))
          (neither (b == k) (free (j + 1) k (omega arith)))),
)
  where
    neither :
        {o : Option IdTypeFeatureBatch} (t : Bool)
        → o ≡ none
        → (if t && false then some (entered indices now) else o) ≡ none
    neither true h = h
    neither false h = h

-- A batch arrives, and no batch waits under one of the next `n + 1` ids, where `n` is below 2^64. It
-- is given the first of these ids and waits under it for its batcher; under every other batcher or
-- id the same batch waits as before, or none; every batch that waited waits on; and no batch waits
-- under one of the `n` ids that come next.
pub forward_batched-Waiting :
    (w : EmbeddingWorkerInner) (indices : IdTypeFeatureBatch) (batcher_idx now n : ℕ)
    → n < u64_size
    → FreshIds w (suc n)
    → ((forward_batched w indices batcher_idx now).0 ≡ w.forward_id)
      × ((k i : ℕ)
          → waiting_at (forward_batched w indices batcher_idx now).1 k i ≡ (
              if batcher_idx == k && w.forward_id == i
              then some (entered indices now)
              else waiting_at w k i))
      × ((k i : ℕ) (other : IdTypeFeatureBatch)
          → waiting_at w k i ≡ some other
          → waiting_at (forward_batched w indices batcher_idx now).1 k i ≡ some other)
      × FreshIds (forward_batched w indices batcher_idx now).1 n
unfolding forward_batched get_id
forward_batched-Waiting w indices b now n few fresh = (
  refl,
  forward_batched-waiting_at w indices b now,
  λ k i other h.
      forward_batched-waiting_at w indices b now k i
      ∙ others k i other h (Bool-cases (w.forward_id == i)),
  forward_batched-FreshIds w indices b now n few fresh,
)
  where
    neither :
        {o : Option IdTypeFeatureBatch} (other : IdTypeFeatureBatch) (t : Bool)
        → o ≡ some other
        → (if t && false then some (entered indices now) else o) ≡ some other
    neither other true h = h
    neither other false h = h

    free : (k i : ℕ) → w.forward_id ≡ i → waiting_at w k i ≡ none
    free k i e =
        subst (λ j. waiting_at w k j ≡ none) (own_id w.forward_id fresh.0 ∙ e)
          (fresh.1 0 k (omega arith))

    clash :
        {o : Option IdTypeFeatureBatch} (other : IdTypeFeatureBatch) → o ≡ none → o ≡ some other → ⊥
    clash other e d = cc

    others :
        (k i : ℕ) (other : IdTypeFeatureBatch)
        → waiting_at w k i ≡ some other
        → ((w.forward_id == i) ≡ true) ⊎ ((w.forward_id == i) ≡ false)
        → (if b == k && w.forward_id == i then some (entered indices now) else waiting_at w k i)
          ≡ some other
    others k i other h (inl q) = absurd (clash other (free k i ((==_iff w.forward_id i).0 q)) h)
    others k i other h (inr q) = rw q (neither other (b == k) h)

abbrev pub staleness_after : Result EmbeddingWorkerError (Unit {0}) → ℕ → ℕ
staleness_after (err e) staleness = staleness
staleness_after (good u) staleness = usize_sub staleness 1

module _ {B : Type 0}
    (lookup : IdTypeFeatureBatch → Bool → Result EmbeddingWorkerError B × IdTypeFeatureBatch) where
  -- The lookup of a waiting batch that needs gradients, when the servers answer: the batch is no
  -- longer in the forward buffer, a second lookup of it fails, and it is in the post-forward
  -- buffer as the lookup left it; one more batch counts as stale.
  pub forward_batch_id-post :
      (w : EmbeddingWorkerInner) (batcher_idx ref_id now now' : ℕ)
      (indices indices' : IdTypeFeatureBatch) (result : B)
      → Waiting w batcher_idx ref_id indices
      → indices.requires_grad ≡ true
      → lookup indices indices.requires_grad ≡ (good result, indices')
      → (w' : EmbeddingWorkerInner) × (forward_batch_id lookup w batcher_idx ref_id now
          ≡ (good (record { batches = result; backward_ref_id = some ref_id }), w'))
        × (w'.staleness ≡ (w.staleness + 1) % u64_size)
        × (get w'.post_forward_buffer ref_id ≡ some (left indices' now))
        × (forward_batch_id lookup w' batcher_idx ref_id now'
            ≡ (err (forward_id_not_found ref_id), w'))
  unfolding forward_batch_id after_lookup
  forward_batch_id-post w k i now now' indices indices' result (b, e, d) grad answer = (
    record w {
      forward_id_buffer = insert w.forward_id_buffer k (remove b i);
      staleness = (w.staleness + 1) % u64_size;
      post_forward_buffer = insert w.post_forward_buffer i (left indices' now);
    },
    rw (forward_batch_id, e, d, answer, grad) refl,
    refl,
    get-insert_self w.post_forward_buffer i (left indices' now),
    rw (forward_batch_id, get-insert_self w.forward_id_buffer k (remove b i), get-remove_self b i)
        refl,
  )

  -- A lookup of a waiting batch that fails loses the batch, when the staleness does not overflow: a
  -- second lookup does not find it, and the post-forward buffer and the staleness are as they were.
  pub forward_batch_id-failed :
      (w : EmbeddingWorkerInner) (batcher_idx ref_id now now' : ℕ)
      (indices indices' : IdTypeFeatureBatch) (e : EmbeddingWorkerError)
      → Waiting w batcher_idx ref_id indices
      → lookup indices indices.requires_grad ≡ (err e, indices')
      → w.staleness + 1 < u64_size
      → (w' : EmbeddingWorkerInner) × (forward_batch_id lookup w batcher_idx ref_id now
          ≡ (err e, w'))
        × (w'.staleness ≡ w.staleness)
        × (w'.post_forward_buffer ≡ w.post_forward_buffer)
        × (forward_batch_id lookup w' batcher_idx ref_id now'
            ≡ (err (forward_id_not_found ref_id), w'))
  unfolding forward_batch_id after_lookup
  forward_batch_id-failed w k i now now' indices indices' x (b, e, d) answer small = (
    record w {
      forward_id_buffer = insert w.forward_id_buffer k (remove b i);
      staleness = usize_sub ((w.staleness + 1) % u64_size) 1;
    },
    rw (forward_batch_id, e, d, answer) refl,
    back w.staleness small,
    refl,
    rw (forward_batch_id, get-insert_self w.forward_id_buffer k (remove b i), get-remove_self b i)
        refl,
  )

-- The update of a batch in the post-forward buffer takes it out, whatever the servers answer: a second
-- update fails. Only an update that succeeds takes one from the staleness.
pub update_gradient_batched-once :
    {G : Type 0} (update : G → IdTypeFeatureBatch → Result EmbeddingWorkerError (Unit {0}))
    (w : EmbeddingWorkerInner) (ref_id : ℕ) (gradients : G) (indices : IdTypeFeatureBatch)
    → get w.post_forward_buffer ref_id ≡ some indices
    → (w' : EmbeddingWorkerInner) × (update_gradient_batched update w ref_id gradients
        ≡ (update gradients indices, w'))
      × (w'.staleness ≡ staleness_after (update gradients indices) w.staleness)
      × (update_gradient_batched update w' ref_id gradients
          ≡ (err (forward_id_not_found ref_id), w'))
unfolding update_gradient_batched after_update
update_gradient_batched-once update w i gradients indices h =
    rw (update_gradient_batched, h) (split (update gradients indices))
  where
    taken : EmbeddingWorkerInner
    taken = record w { post_forward_buffer = remove w.post_forward_buffer i }

    split :
        (o : Result EmbeddingWorkerError (Unit {0}))
        → (w' : EmbeddingWorkerInner) × (after_update update taken o ≡ (o, w'))
          × (w'.staleness ≡ staleness_after o w.staleness)
          × (update_gradient_batched update w' i gradients ≡ (err (forward_id_not_found i), w'))
    split (err e) =
        (_, refl, refl, rw (update_gradient_batched, get-remove_self w.post_forward_buffer i) refl)
    split (good u) =
        (_, refl, refl, rw (update_gradient_batched, get-remove_self w.post_forward_buffer i) refl)
