-- ===== src/Tests/Workers.antt =====
-- Examples for the buffers of the embedding worker.
use persia.Base.{
  List, ◌<◌, ◌==◌, ◌&&◌, if◌then◌else◌, ℕ, ◌+◌, ◌%◌, ◌≡◌, refl, Bool, true, false, none, some, [],
  ◌∷◌, arith, u64_size, Result, err, good,
}
use persia.Base.Map.{Map, nat_eq, get}
use persia.Common.{SingleSignInFeatureBatch, IdTypeFeatureBatch}
use persia.Worker.Postprocess.{raw_layout}
use persia.Worker.Postprocess.Layout.{Lays, raw_layout-Lays}
use persia.Worker.Buffers.{
  EmbeddingWorkerError, rpc_error, forward_id_not_found, EmbeddingWorkerInner, forward_batched,
  forward_batch_id, update_gradient_batched,
}
use persia.Worker.Buffers.Stale.{NonePosted, LeftStale, serve_all, serve_all-LeftStale}
use persia.Worker.Buffers.Traced.{
  FreshIds, waiting_at, Waiting, entered, left, staleness_after, forward_batched-Waiting,
  forward_batch_id-post, forward_batch_id-failed, update_gradient_batched-once,
}

abbrev waiting : Bool → IdTypeFeatureBatch
waiting requires_grad = record {
  requires_grad = requires_grad;
  batches = [];
  enter_forward_id_buffer_time = some 5;
  enter_post_forward_buffer_time = none;
  batcher_idx = none;
}

abbrev worker : Bool → EmbeddingWorkerInner
worker requires_grad = record {
  forward_id = 10;
  cannot_forward_batched_time = 0;
  forward_id_buffer = (3, (9, waiting requires_grad) ∷ []) ∷ [];
  post_forward_buffer = (8, waiting true) ∷ [];
  staleness = 1;
  forward_buffer_size = 100;
  buffered_data_expired_sec = 60;
}

-- Servers that answer 42, and servers that fail.
abbrev answer_42 : IdTypeFeatureBatch → Bool → Result EmbeddingWorkerError ℕ × IdTypeFeatureBatch
answer_42 indices requires_grad = (good 42, indices)

abbrev no_answer : IdTypeFeatureBatch → Bool → Result EmbeddingWorkerError ℕ × IdTypeFeatureBatch
no_answer indices requires_grad = (err rpc_error, indices)

abbrev accept : ℕ → IdTypeFeatureBatch → Result EmbeddingWorkerError (Unit {0})
accept gradients indices = good tt

waiting_9 : (requires_grad : Bool) → Waiting (worker requires_grad) 3 9 (waiting requires_grad)
unfolding get
waiting_9 requires_grad = ((9, waiting requires_grad) ∷ [], refl, refl)

two_fresh : FreshIds (worker true) 2
unfolding get
two_fresh = (omega arith, free)
  where
    free : (j k : ℕ) → j < 2 → waiting_at (worker true) k ((10 + j) % u64_size) ≡ none
    free j k h = ground arith

forward_batched-Waiting_example :
    ((forward_batched (worker true) (waiting true) 3 6).0 ≡ 10)
    × ((k i : ℕ)
        → waiting_at (forward_batched (worker true) (waiting true) 3 6).1 k i ≡ (
            if 3 == k && 10 == i
            then some (entered (waiting true) 6)
            else waiting_at (worker true) k i))
    × ((k i : ℕ) (other : IdTypeFeatureBatch)
        → waiting_at (worker true) k i ≡ some other
        → waiting_at (forward_batched (worker true) (waiting true) 3 6).1 k i ≡ some other)
    × FreshIds (forward_batched (worker true) (waiting true) 3 6).1 1
forward_batched-Waiting_example =
    forward_batched-Waiting (worker true) (waiting true) 3 6 1 (omega arith) two_fresh

forward_batch_id-post_example :
    (w' : EmbeddingWorkerInner) × (forward_batch_id answer_42 (worker true) 3 9 6
      ≡ (good (record { batches = 42; backward_ref_id = some 9 }), w'))
    × (w'.staleness ≡ (1 + 1) % u64_size)
    × (get w'.post_forward_buffer 9 ≡ some (left (waiting true) 6))
    × (forward_batch_id answer_42 w' 3 9 7 ≡ (err (forward_id_not_found 9), w'))
forward_batch_id-post_example =
    forward_batch_id-post answer_42 (worker true) 3 9 6 7 (waiting true) (waiting true) 42
      (waiting_9 true) refl refl

forward_batch_id-failed_example :
    (w' : EmbeddingWorkerInner) × (forward_batch_id no_answer (worker true) 3 9 6
      ≡ (err rpc_error, w'))
    × (w'.staleness ≡ 1)
    × (w'.post_forward_buffer ≡ (worker true).post_forward_buffer)
    × (forward_batch_id no_answer w' 3 9 7 ≡ (err (forward_id_not_found 9), w'))
forward_batch_id-failed_example =
    forward_batch_id-failed no_answer (worker true) 3 9 6 7 (waiting true) (waiting true) rpc_error
      (waiting_9 true) refl (omega arith)

abbrev two_arrivals : List (ℕ × IdTypeFeatureBatch × ℕ × ℕ)
two_arrivals = (6, waiting false, 3, 0) ∷ (7, waiting false, 4, 0) ∷ []

none_posted : NonePosted (worker false) 2
unfolding get
none_posted = (omega arith, free)
  where
    free : (j : ℕ) → j < 2 → get (worker false).post_forward_buffer ((10 + j) % u64_size) ≡ none
    free j h = ground arith

serve_all-LeftStale_example :
    LeftStale answer_42 accept
      (worker false)
      2
      (serve_all answer_42 accept (worker false) two_arrivals)
serve_all-LeftStale_example =
    serve_all-LeftStale answer_42 accept (λ indices h. (42, indices, refl)) (worker false)
      two_arrivals (refl, (refl, tt)) none_posted (omega arith)

post_8 : get (worker true).post_forward_buffer 8 ≡ some (waiting true)
unfolding get
post_8 = refl

update_gradient_batched-once_example :
    (w' : EmbeddingWorkerInner) × (update_gradient_batched accept (worker true) 8 0
      ≡ (accept 0 (waiting true), w'))
    × (w'.staleness ≡ staleness_after (accept 0 (waiting true)) 1)
    × (update_gradient_batched accept w' 8 0 ≡ (err (forward_id_not_found 8), w'))
update_gradient_batched-once_example =
    update_gradient_batched-once accept (worker true) 8 0 (waiting true) post_8

abbrev one_sign : List SingleSignInFeatureBatch
one_sign = (record { sign = 4; in_which_batch_samples = (0, 0) ∷ (1, 5) ∷ [] }) ∷ []

abbrev rows : Map ℕ ℕ
rows = (4, 0) ∷ []

row_of_4 : get rows 4 ≡ some 0
unfolding get
row_of_4 = refl

raw_layout-Lays_example : Lays 2 3 (raw_layout 2 3 rows one_sign)
raw_layout-Lays_example =
    raw_layout-Lays 2 3 rows one_sign ((0, row_of_4), (omega arith, (omega arith, tt)), tt)
