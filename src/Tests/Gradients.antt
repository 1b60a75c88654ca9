-- ===== src/Tests/Gradients.antt =====
-- Examples for the gradients of embedding_worker_service/mod.rs.
use persia.Base.{
  none, map, ◌*◌, ℕ, ◌≡◌, refl, true, false, List, [], ◌∷◌, ◌++◌, arith, replicate, get_elem?, omap,
  ok, ◌==◌, not,
}
use persia.Common.{IdTypeFeatureBatch, SingleSignInFeatureBatch, FeatureBatch}
use persia.Config.{SlotConfig}
use persia.Tests.Optims.{whole}
use persia.Simd.{add_assign_avx2, add_assign_lanes, add_assign_at, steps, left_over}
use persia.Worker.Preprocess.{SignWithConfig}
use persia.Worker.Postprocess.Results.{LookupResultWithSlotConfig, place_embedding, add_to_samples}
use persia.Worker.Postprocess.Added.{occurrences, add_times, place_embedding-adds}
use persia.Worker.Gradients.{GradientFloats, sign_gradient, push_gradients}
use persia.Worker.Gradients.Summed.{sum_rows, sign_gradient-sums}
use persia.Worker.Gradients.Routed.{gradients_for, signs_for, push_gradients-routes}

abbrev no_nan : GradientFloats whole
no_nan = record {
  F16 = ℕ;
  f16_to_f32 = λ n. n;
  f16_is_nan = λ n. false;
  is_nan = λ n. false;
  is_finite = λ n. true;
  rescales = λ n. not (n == 1);
  mul_assign = λ x rows. map (map (λ y. y * x)) rows;
  mul_assign_column = λ column rows. ok rows;
}

-- A sign twice in the first sample and once in the second.
abbrev three_times : SingleSignInFeatureBatch
three_times = record { sign = 7; in_which_batch_samples = (0, 0) ∷ (0, 1) ∷ (1, 0) ∷ [] }

abbrev summing_slot : SlotConfig
summing_slot = record {
  dim = 2;
  sample_fixed_size = 1;
  embedding_summation = true;
  sqrt_scaling = false;
  hash_stack_config = record { hash_stack_rounds = 0; embedding_size = 0 };
  index_prefix = 0;
}

abbrev one_feature : FeatureBatch
one_feature = record {
  feature_name = "age";
  index_batch = three_times ∷ [];
  sample_num_signs = 2 ∷ 1 ∷ [];
  hashed2index_batch_idx = (7, 0) ∷ [];
  batch_size = 2;
}

abbrev two_rows : List (List ℕ)
two_rows = (1 ∷ 2 ∷ []) ∷ (10 ∷ 20 ∷ []) ∷ []

sign_gradient-sums_example :
    sign_gradient whole no_nan summing_slot one_feature two_rows three_times
    ≡ ok (sum_rows whole (replicate 2 0) ((1 ∷ 2 ∷ []) ∷ (1 ∷ 2 ∷ []) ∷ (10 ∷ 20 ∷ []) ∷ []))
sign_gradient-sums_example =
    sign_gradient-sums whole no_nan summing_slot one_feature two_rows
      ((1 ∷ 2 ∷ []) ∷ (1 ∷ 2 ∷ []) ∷ (10 ∷ 20 ∷ []) ∷ []) three_times refl
      (refl, refl, (refl, refl, (refl, refl, tt)))

abbrev two_pairs : List (List ℕ × SingleSignInFeatureBatch)
two_pairs =
    (12 ∷ 24 ∷ [], three_times)
    ∷ (5 ∷ 6 ∷ [], record { sign = 8; in_which_batch_samples = [] })
    ∷ []

push_gradients-routes_example :
    (gradients' : List (List ℕ)) × (signs' : List (List ℕ)) × (push_gradients whole no_nan
        (λ n. n)
        2
        two_pairs
        (replicate 2 [], replicate 2 [])
      ≡ ok (gradients', signs'))
    × ((r : ℕ)
        → get_elem? gradients' r
          ≡ omap
              (λ old. old ++ gradients_for whole no_nan (λ n. n) 2 r two_pairs)
              (get_elem? (replicate 2 []) r))
    × ((r : ℕ)
        → get_elem? signs' r
          ≡ omap
              (λ old. old ++ signs_for whole no_nan (λ n. n) 2 r two_pairs)
              (get_elem? (replicate 2 []) r))
push_gradients-routes_example =
    push_gradients-routes whole no_nan (λ n. n) 2 two_pairs (replicate 2 []) (replicate 2 [])
      (omega arith) (omega arith) (omega arith)

abbrev one_batch : IdTypeFeatureBatch
one_batch = record {
  requires_grad = true;
  batches = one_feature ∷ [];
  enter_forward_id_buffer_time = none;
  enter_post_forward_buffer_time = none;
  batcher_idx = none;
}

abbrev empty_sums : LookupResultWithSlotConfig whole
empty_sums = record { result = replicate 2 (replicate 2 0); config = summing_slot; sign2idx = [] }

abbrev first_sign : SignWithConfig
first_sign = record { sign = 7; sign_idx = 0; feature_idx = 0; dim = 2 }

place_embedding_run :
    place_embedding whole one_batch (empty_sums ∷ []) (5 ∷ 6 ∷ [], first_sign)
    ≡ ok (record empty_sums { result = (10 ∷ 12 ∷ []) ∷ (5 ∷ 6 ∷ []) ∷ [] } ∷ [])
unfolding place_embedding add_to_samples add_assign_avx2 add_assign_lanes add_assign_at steps
    left_over
place_embedding_run = refl

place_embedding-adds_example :
    (rows : List (List ℕ)) × (place_embedding whole one_batch
        (empty_sums ∷ [])
        (5 ∷ 6 ∷ [], first_sign)
      ≡ ok (record empty_sums { result = rows } ∷ []))
    × ((j : ℕ)
        → get_elem? rows j
          ≡ omap
              (add_times whole (occurrences j three_times.in_which_batch_samples) (5 ∷ 6 ∷ []))
              (get_elem? empty_sums.result j))
place_embedding-adds_example =
    place_embedding-adds whole one_batch (empty_sums ∷ []) (5 ∷ 6 ∷ []) first_sign empty_sums
      one_feature three_times refl refl refl refl (refl, (refl, tt))
      (omega arith, (omega arith, (omega arith, tt)))
