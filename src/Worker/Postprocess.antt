-- ===== src/Worker/Postprocess.antt =====
-- embedding_worker_service/mod.rs: the part of `lookup_batched_all_slots_postprocess` that lays out the
-- indices of a feature whose embeddings are not summed up. The sums and the scaling of the
-- embeddings themselves are not modelled.
pub mod Layout
pub mod Results
pub mod Added
use persia.Base.{
  ℕ, ◌+◌, ◌*◌, ◌&&◌, List, [], ◌∷◌, ltb, if◌then◌else◌, get_elem?, set, elem, replicate, Outcome,
  ok, ◌>>=◌, unwrap,
}
use persia.Base.Map.{nat_eq, Map, get}
use persia.Common.{SingleSignInFeatureBatch}

-- One place of a sign: its row of the embeddings counts from 1, and 0 is for no sign.
unfoldable pub place_index :
    (sample_fixed_size distinct_tensor_idx batch_idx col_idx : ℕ)
    → (index sample_id_num : List ℕ) → Outcome (List ℕ × List ℕ)
place_index sample_fixed_size idx batch_idx col_idx index sample_id_num = do
  n ← unwrap (get_elem? sample_id_num batch_idx)
  if ltb n sample_fixed_size && ltb col_idx sample_fixed_size
      then (do
        old ← unwrap (get_elem? index (batch_idx * sample_fixed_size + col_idx))
        ok (
          set index (batch_idx * sample_fixed_size + col_idx) (idx + 1),
          set sample_id_num batch_idx (n + 1),
        ))
      else ok (index, sample_id_num)

unfoldable pub place_samples :
    (sample_fixed_size distinct_tensor_idx : ℕ)
    → List (ℕ × ℕ)
    → (index sample_id_num : List ℕ) → Outcome (List ℕ × List ℕ)
place_samples sample_fixed_size idx [] index sample_id_num = ok (index, sample_id_num)
place_samples sample_fixed_size idx ((batch_idx, col_idx) ∷ samples) index sample_id_num = do
  (index', sample_id_num') ← place_index sample_fixed_size idx batch_idx col_idx index sample_id_num
  place_samples sample_fixed_size idx samples index' sample_id_num'

-- The loop over the signs; `transform_id_set` has the rows that were placed.
unfoldable pub place_signs :
    (sample_fixed_size : ℕ)
    → (id2idx : Map ℕ ℕ) → (transform_id_set : List ℕ) → List SingleSignInFeatureBatch
    → (index sample_id_num : List ℕ) → Outcome (List ℕ × List ℕ)
place_signs sample_fixed_size id2idx ids [] index sample_id_num = ok (index, sample_id_num)
place_signs sample_fixed_size id2idx ids (item ∷ items) index sample_id_num = do
  idx ← unwrap (get id2idx item.sign)
  let again = place_signs sample_fixed_size id2idx ids items index sample_id_num
  let first = (do
    (index', sample_id_num') ←
        place_samples sample_fixed_size idx item.in_which_batch_samples index sample_id_num
    place_signs sample_fixed_size id2idx (idx ∷ ids) items index' sample_id_num')
  if elem idx ids then again else first

-- The tensors `index` and `sample_id_num` of a feature.
unfoldable pub raw_layout :
    (batch_size sample_fixed_size : ℕ)
    → (id2idx : Map ℕ ℕ) → List SingleSignInFeatureBatch
    → Outcome (List ℕ × List ℕ)
raw_layout batch_size sample_fixed_size id2idx items =
    place_signs sample_fixed_size id2idx [] items (replicate (batch_size * sample_fixed_size) 0)
      (replicate batch_size 0)
