-- ===== src/Worker/Gradients/Summed.antt =====
-- The gradient of a sign (`update_all_batched_gradients` of embedding_worker_service/mod.rs).
use persia.Base.{
  ℕ, ◌<◌, ◌≡◌, refl, sym, ◌∙◌, true, some, List, [], ◌∷◌, arith, length, length-replicate,
  replicate, get_elem?, ok,
}
use persia.Base.Map.{nat_eq}
use persia.Common.{SingleSignInFeatureBatch, FeatureBatch}
use persia.Config.{SlotConfig}
use persia.Simd.Lanes.{Floats}
use persia.Simd.Zipped.{zip_add, length-zip_add, add_assign_avx2-zip_add}
use persia.Worker.Gradients.{GradientFloats, add_samples, sign_gradient}

module _ (fl : Floats) where
  -- The rows of the samples of a sign, each of the dimension `dim`.
  abbrev pub RowsOf : (rows : List (List fl.F)) (dim : ℕ) → List (ℕ × ℕ) → List (List fl.F) → Type 0
  RowsOf rows dim [] [] = Unit
  RowsOf rows dim [] (row ∷ chosen) = 0 < 0
  RowsOf rows dim (sample ∷ samples) [] = 0 < 0
  RowsOf rows dim (sample ∷ samples) (row ∷ chosen) =
      (get_elem? rows sample.0 ≡ some row) × (length row ≡ dim) × RowsOf rows dim samples chosen

  abbrev pub sum_rows : List fl.F → List (List fl.F) → List fl.F
  sum_rows total [] = total
  sum_rows total (row ∷ rows) = sum_rows (zip_add fl total row) rows

  module _ (half : GradientFloats fl) where
    add_samples-sum_rows :
        (rows : List (List fl.F)) (dim : ℕ) (samples : List (ℕ × ℕ)) (chosen : List (List fl.F))
        (total : List fl.F)
        → length total ≡ dim
        → RowsOf rows dim samples chosen
        → add_samples fl half rows total samples ≡ ok (sum_rows total chosen)
    unfolding add_samples
    add_samples-sum_rows rows dim [] [] total h r = refl
    add_samples-sum_rows rows dim [] (row ∷ chosen) total h r = absurd (omega (arith, r))
    add_samples-sum_rows rows dim (sample ∷ samples) [] total h r = absurd (omega (arith, r))
    add_samples-sum_rows rows dim (sample ∷ samples) (row ∷ chosen) total h (there, wide, r) =
        rw (there, add_assign_avx2-zip_add fl total row (h ∙ sym wide))
          (add_samples-sum_rows rows dim samples chosen (zip_add fl total row)
            (length-zip_add fl total row (h ∙ sym wide) ∙ wide) r)

    -- In a slot that sums up its embeddings, where the rows of all samples of a sign are there and
    -- have the dimension of the slot, the gradient of the sign is the sum of those rows, each as
    -- often as the sample has the sign; the code neither panics nor leaves a slice.
    pub sign_gradient-sums :
        (slot_conf : SlotConfig) (feature_batch : FeatureBatch) (rows chosen : List (List fl.F))
        (single : SingleSignInFeatureBatch)
        → slot_conf.embedding_summation ≡ true
        → RowsOf rows slot_conf.dim single.in_which_batch_samples chosen
        → sign_gradient fl half slot_conf feature_batch rows single
          ≡ ok (sum_rows (replicate slot_conf.dim fl.zero) chosen)
    unfolding sign_gradient
    sign_gradient-sums slot_conf feature_batch rows chosen single summed r = simp (
      sign_gradient,
      summed,
      add_samples-sum_rows rows slot_conf.dim single.in_which_batch_samples chosen
          (replicate slot_conf.dim fl.zero) (length-replicate slot_conf.dim fl.zero) r,
    )
