-- ===== src/ParamServer/Inference.antt =====
-- What a lookup without training returns (`batched_lookup` of embedding_parameter_service/mod.rs).
use persia.Base.{
  ℕ, zero, suc, ◌+◌, ◌%◌, ◌≤◌, ◌<◌, ◌≡◌, refl, ap, subst, inl, inr, Bool-cases, false, Option, none,
  some, List, [], ◌∷◌, ◌++◌, arith, ltb, ◌==◌, ==_iff, if◌then◌else◌, length, length-append,
  length-replicate, get_elem?, take, replicate, ok,
}
use persia.Base.Map.{nat_eq}
use persia.Holder.LinkedList.Chain.{Cells}
use persia.Holder.EvictionMap.{EvictionMap}
use persia.Holder.EvictionMap.Indexed.{Indexes}
use persia.Holder.EvictionMap.Refreshed.{value_of, get-value_of}
use persia.Holder.EmbEntry.{HashMapEmbeddingEntry, emb, slice_to}
use persia.ParamServer.{get_index, shard, inferred, lookup_infer}

abbrev pub total_dim : List (ℕ × ℕ) → ℕ
total_dim [] = 0
total_dim ((sign, dim) ∷ req) = dim + total_dim req

module _ {F : Type 0} (fzero : F) where
  -- The answer for a sign whose entry is `o`: zeros when there is none, or one of another dimension.
  abbrev pub answer : Option (HashMapEmbeddingEntry F) → (dim : ℕ) → List F
  answer none dim = replicate dim fzero
  answer (some entry) dim =
      if entry.embedding_dim == dim then take dim entry.inner else replicate dim fzero

  abbrev pub answers : (ℕ → Option (HashMapEmbeddingEntry F)) → List (ℕ × ℕ) → List F
  answers entry_of [] = []
  answers entry_of ((sign, dim) ∷ req) = answer (entry_of sign) dim ++ answers entry_of req

  -- The vector of an entry has room for the embedding.
  abbrev pub Roomy : Option (HashMapEmbeddingEntry F) → Type 0
  Roomy none = Unit
  Roomy (some entry) = entry.embedding_dim ≤ length entry.inner

  length-take : (n : ℕ) (xs : List F) → n ≤ length xs → length (take n xs) ≡ n
  length-take zero xs h = refl
  length-take (suc n) [] h = absurd (omega arith)
  length-take (suc n) (x ∷ xs) h = ap suc (length-take n xs (omega arith))

  length-answer :
      (o : Option (HashMapEmbeddingEntry F)) (dim : ℕ) → Roomy o → length (answer o dim) ≡ dim
  length-answer none dim h = length-replicate dim fzero
  length-answer (some entry) dim h = elim (Bool-cases (entry.embedding_dim == dim)) [
    | inl e ↦ rw e (
        length-take dim entry.inner
          (subst (λ n. n ≤ length entry.inner) ((==_iff entry.embedding_dim dim).0 e) h))
    | inr e ↦ rw e (length-replicate dim fzero)
  ]

  length-answers :
      (entry_of : ℕ → Option (HashMapEmbeddingEntry F)) (req : List (ℕ × ℕ))
      → ((sign : ℕ) → Roomy (entry_of sign))
      → length (answers entry_of req) ≡ total_dim req
  length-answers entry_of [] h = refl
  length-answers entry_of ((sign, dim) ∷ req) h = omega (
    arith,
    length-append (answer (entry_of sign) dim) (answers entry_of req),
    length-answer (entry_of sign) dim (h sign),
    length-answers entry_of req h,
  )

  long_enough : (a b : ℕ) → a ≤ b → ltb b a ≡ false
  long_enough a b h = ground arith

  inferred-answer :
      (hash : ℕ → ℕ) (o : Option (HashMapEmbeddingEntry F)) (dim : ℕ)
      → Roomy o
      → inferred hash fzero o dim ≡ ok (answer o dim)
  unfolding inferred emb slice_to
  inferred-answer hash none dim h = refl
  inferred-answer hash (some entry) dim h = elim (Bool-cases (entry.embedding_dim == dim)) [
    | inl e ↦
        rw (e, long_enough entry.embedding_dim (length entry.inner) h)
          (ap (λ n. ok (take n entry.inner)) ((==_iff entry.embedding_dim dim).0 e))
    | inr e ↦ rw e refl
  ]

  -- A lookup for inference over shards that satisfy their invariant answers every request, in order:
  -- with the embedding of an entry of the dimension asked for, and with zeros otherwise. The
  -- answer has as many numbers as the dimensions of the request add up to.
  pub lookup_infer-answers :
      (hash : ℕ → ℕ) (inner : List (EvictionMap ℕ (HashMapEmbeddingEntry F)))
      (cells : ℕ → Cells (HashMapEmbeddingEntry F)) (free : ℕ → List ℕ) (req : List (ℕ × ℕ))
      → ((i : ℕ)
          → i < length inner
          → (m : EvictionMap ℕ (HashMapEmbeddingEntry F)) × (get_elem? inner i ≡ some m)
            × Indexes (λ e. e.sign) m (cells i) (free i))
      → 0 < length inner
      → ((sign : ℕ) → Roomy (value_of (λ e. e.sign) (cells (hash sign % length inner)) sign))
      → (lookup_infer hash fzero inner req
          ≡ ok (
              answers (λ sign. value_of (λ e. e.sign) (cells (hash sign % length inner)) sign) req))
        × (length
              (answers (λ sign. value_of (λ e. e.sign) (cells (hash sign % length inner)) sign) req)
            ≡ total_dim req)
  unfolding lookup_infer shard get_index
  lookup_infer-answers hash inner cells free [] inv pos roomy = (refl, refl)
  lookup_infer-answers hash inner cells free ((sign, dim) ∷ req) inv pos roomy =
      let i = hash sign % length inner in
      let (m, e, idx) = inv i (omega arith) in
      (
        rw
            (
              count_test (length inner) pos,
              e,
              get-value_of (λ e. e.sign) m (cells i) (free i) sign idx,
              inferred-answer hash (value_of (λ e. e.sign) (cells i) sign) dim (roomy sign),
              (lookup_infer-answers hash inner cells free req inv pos roomy).0,
            )
            refl,
        length-answers (λ sign. value_of (λ e. e.sign) (cells (hash sign % length inner)) sign)
            ((sign, dim) ∷ req) roomy,
      )
    where
      count_test : (n : ℕ) → 0 < n → (n == 0) ≡ false
      count_test n h = ground arith
