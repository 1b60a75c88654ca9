-- ===== src/Holder/EmbEntry.antt =====
-- rust/persia-embedding-holder/src/emb_entry.rs: an embedding and the state of its optimizer in one vector.
-- `F` is the type of f32; the random generators of the rand crates are the parameter `random_using`,
-- which panics for a method that they do not have.
pub mod Halves
use persia.Base.{
  ℕ, ◌+◌, Bool, true, false, not, List, [], ◌∷◌, ◌++◌, ltb, ◌==◌, if◌then◌else◌, length, take, drop,
  replicate, Outcome, ok, panic, ◌>>=◌,
}

pub record HashMapEmbeddingEntry (F : Type 0) : Type 0 where
  pub inner : List F
  pub embedding_dim : ℕ
  pub sign : ℕ

-- `slice[..n]` and `slice[n..]`, which panic beyond the end.
unfoldable pub slice_to : {F : Type 0} → List F → ℕ → Outcome (List F)
slice_to xs n = if ltb (length xs) n then panic else ok (take n xs)

unfoldable pub slice_from : {F : Type 0} → List F → ℕ → Outcome (List F)
slice_from xs n = if ltb (length xs) n then panic else ok (drop n xs)

-- `for (dst, src) in a.iter_mut().zip(b)`.
unfoldable pub overwrite : {F : Type 0} → List F → List F → List F
overwrite [] src = []
overwrite (x ∷ dst) [] = x ∷ dst
overwrite (x ∷ dst) (y ∷ src) = y ∷ overwrite dst src

module _ {F : Type 0} (fzero : F) where
  -- `HashMapEmbeddingEntry::new`.
  unfoldable pub entry_new :
      {I : Type 0}
      → (random_using : I → (dim seed : ℕ) → Outcome (List F)) → (initialization_method : I)
      → (dim require_space seed sign : ℕ) → Outcome (HashMapEmbeddingEntry F)
  entry_new random_using initialization_method dim require_space seed sign = do
    emb ← random_using initialization_method dim seed
    ok (record {
      inner = if ltb 0 require_space then emb ++ replicate require_space fzero else emb;
      embedding_dim = dim;
      sign = sign;
    })

  unfoldable pub new_empty : (dim require_space sign : ℕ) → HashMapEmbeddingEntry F
  new_empty dim require_space sign = record {
    inner = replicate (dim + require_space) fzero;
    embedding_dim = dim;
    sign = sign;
  }

module _ {F : Type 0} where
  unfoldable pub from_emb : List F → (sign : ℕ) → HashMapEmbeddingEntry F
  from_emb emb sign = record { inner = emb; embedding_dim = length emb; sign = sign }

  unfoldable pub from_emb_and_opt : (emb opt : List F) → (sign : ℕ) → HashMapEmbeddingEntry F
  from_emb_and_opt emb opt sign = record {
    inner = emb ++ opt;
    embedding_dim = length emb;
    sign = sign;
  }

  unfoldable pub copy_from_other :
      (self other : HashMapEmbeddingEntry F) → Bool × HashMapEmbeddingEntry F
  copy_from_other self other =
      if self.embedding_dim == other.embedding_dim
      then (true, record self { inner = overwrite self.inner other.inner })
      else (false, self)

  unfoldable pub inner_size : HashMapEmbeddingEntry F → ℕ
  inner_size self = length self.inner

  unfoldable pub emb : HashMapEmbeddingEntry F → Outcome (List F)
  emb self = slice_to self.inner self.embedding_dim

  unfoldable pub opt : HashMapEmbeddingEntry F → Outcome (List F)
  opt self = slice_from self.inner self.embedding_dim
