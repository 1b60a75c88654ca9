-- ===== src/Worker/Postprocess/Added.antt =====
-- What an embedding adds to the sums of its feature (`lookup_batched_all_slots_postprocess` of
-- embedding_worker_service/mod.rs).
use persia.Base.{
  ℕ, zero, suc, ◌<◌, ◌≡◌, refl, sym, ap, subst, ◌∙◌, Bool, true, false, Option, none, some, List,
  [], ◌∷◌, arith, ◌==◌, ==_iff, if◌then◌else◌, length, length-set, get_elem?, get_elem?-set, set,
  omap, ok,
}
use persia.Common.{SingleSignInFeatureBatch, FeatureBatch, IdTypeFeatureBatch}
use persia.Simd.Lanes.{Floats}
use persia.Simd.Zipped.{zip_add, length-zip_add, add_assign_avx2-zip_add}
use persia.Worker.Preprocess.{SignWithConfig}
use persia.Worker.Postprocess.Results.{LookupResultWithSlotConfig, add_to_samples, place_embedding}

-- Each row has the dimension.
abbrev pub Wide : {F : Type 0} (dim : ℕ) → List (List F) → Type 0
Wide dim [] = Unit
Wide dim (row ∷ rows) = (length row ≡ dim) × Wide dim rows

-- Each sample has a row.
abbrev pub Below : (n : ℕ) → List (ℕ × ℕ) → Type 0
Below n [] = Unit
Below n (sample ∷ samples) = (sample.0 < n) × Below n samples

-- How often a sample has the sign.
abbrev pub occurrences : (batch_id : ℕ) → List (ℕ × ℕ) → ℕ
occurrences j [] = 0
occurrences j (sample ∷ samples) =
    if sample.0 == j then suc (occurrences j samples) else occurrences j samples

row_of_samples :
    {F : Type 0} (dim : ℕ) (rows : List (List F)) (i : ℕ)
    → Wide dim rows
    → i < length rows
    → (row : List F) × (get_elem? rows i ≡ some row) × (length row ≡ dim)
row_of_samples dim [] i w h = absurd (omega arith)
row_of_samples dim (row ∷ rows) zero w h = (row, refl, w.0)
row_of_samples dim (row ∷ rows) (suc i) w h = row_of_samples dim rows i w.1 (omega arith)

Wide-set :
    {F : Type 0} (dim : ℕ) (rows : List (List F)) (i : ℕ) (row : List F)
    → Wide dim rows
    → length row ≡ dim
    → Wide dim (set rows i row)
Wide-set dim [] i row w h = tt
Wide-set dim (r ∷ rows) zero row w h = (h, w.1)
Wide-set dim (r ∷ rows) (suc i) row w h = (w.0, Wide-set dim rows i row w.1 h)

module _ (fl : Floats) where
  abbrev pub add_times : ℕ → (emb : List fl.F) → List fl.F → List fl.F
  add_times zero emb row = row
  add_times (suc n) emb row = add_times n emb (zip_add fl row emb)

  add_to_samples-adds :
      (emb : List fl.F) (samples : List (ℕ × ℕ)) (rows : List (List fl.F))
      → Wide (length emb) rows
      → Below (length rows) samples
      → (rows' : List (List fl.F)) × (add_to_samples fl emb samples rows ≡ ok rows')
        × ((j : ℕ)
            → get_elem? rows' j ≡ omap (add_times (occurrences j samples) emb) (get_elem? rows j))
  unfolding add_to_samples
  add_to_samples-adds emb [] rows w b = (rows, refl, λ j. same (get_elem? rows j))
    where
      same : (o : Option (List fl.F)) → o ≡ omap (λ row. row) o
      same none = refl
      same (some row) = refl
  add_to_samples-adds emb ((i, col) ∷ samples) rows w b =
      let (row, there, size) = row_of_samples (length emb) rows i w b.0 in
      let next = zip_add fl row emb in
      let (rows', run, spec) =
        add_to_samples-adds emb samples (set rows i next)
          (Wide-set (length emb) rows i next w (length-zip_add fl row emb size))
          (subst (λ n. Below n samples) (sym (length-set rows i next)) b.1) in
      (
        rows',
        rw (there, add_assign_avx2-zip_add fl row emb size) run,
        λ j.
            spec j
            ∙ ap (omap (add_times (occurrences j samples) emb)) (get_elem?-set rows i j next b.0)
            ∙ once (i == j) row (get_elem? rows j) (occurrences j samples)
                (λ h. sym there ∙ ap (get_elem? rows) ((==_iff i j).0 h)),
      )
    where
      once :
          (t : Bool) (row : List fl.F) (o : Option (List fl.F)) (n : ℕ)
          → (t ≡ true → some row ≡ o)
          → omap (add_times n emb) (if t then some (zip_add fl row emb) else o)
            ≡ omap (add_times (if t then suc n else n) emb) o
      once true row o n f = rw (sym (f refl)) refl
      once false row o n f = refl

  -- The embedding of a sign of a feature whose embeddings are summed up, when the rows of the feature are as
  -- wide as the embedding and there is one for each sample of the sign: the row of each sample gets the embedding
  -- added as often as the sample has the sign, the other rows and the other features stay, and the code neither
  -- panics nor leaves a slice.
  pub place_embedding-adds :
      (indices : IdTypeFeatureBatch) (results : List (LookupResultWithSlotConfig fl))
      (emb : List fl.F) (s : SignWithConfig) (r : LookupResultWithSlotConfig fl)
      (batch : FeatureBatch) (single : SingleSignInFeatureBatch)
      → get_elem? results s.feature_idx ≡ some r
      → r.config.embedding_summation ≡ true
      → get_elem? indices.batches s.feature_idx ≡ some batch
      → get_elem? batch.index_batch s.sign_idx ≡ some single
      → Wide (length emb) r.result
      → Below (length r.result) single.in_which_batch_samples
      → (rows : List (List fl.F)) × (place_embedding fl indices results (emb, s)
          ≡ ok (set results s.feature_idx (record r { result = rows })))
        × ((j : ℕ)
            → get_elem? rows j
              ≡ omap
                  (add_times (occurrences j single.in_which_batch_samples) emb)
                  (get_elem? r.result j))
  unfolding place_embedding
  place_embedding-adds indices results emb s r batch single there summed in_batch in_index w b =
      let (rows, run, spec) = add_to_samples-adds emb single.in_which_batch_samples r.result w b in
      (rows, simp (place_embedding, there, summed, in_batch, in_index, run), spec)
