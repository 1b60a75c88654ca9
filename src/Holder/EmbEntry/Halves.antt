-- ===== src/Holder/EmbEntry/Halves.antt =====
-- The two halves of an entry (emb_entry.rs), and what a copy keeps.
use persia.Base.{
  ℕ, zero, suc, ◌+◌, ◌≤◌, ◌≡◌, refl, ap, subst, Bool, true, false, List, [], ◌∷◌, ◌++◌, arith, ltb,
  ◌==◌, ==_iff, if◌then◌else◌, length, length-append, length-replicate, take, take-length-append,
  drop-length-append, replicate, Outcome, ok,
}
use persia.Holder.EmbEntry.{
  HashMapEmbeddingEntry, slice_to, slice_from, overwrite, entry_new, from_emb_and_opt,
  copy_from_other, emb, opt,
}

le_test : (a b : ℕ) → b ≤ a → ltb a b ≡ false
le_test a b h = ground arith

module _ {F : Type 0} where
  -- The halves of an entry that `from_emb_and_opt` makes are the slices that it was made of.
  pub from_emb_and_opt-halves :
      (e o : List F) (sign : ℕ)
      → (emb (from_emb_and_opt e o sign) ≡ ok e) × (opt (from_emb_and_opt e o sign) ≡ ok o)
  unfolding emb opt slice_to slice_from from_emb_and_opt
  from_emb_and_opt-halves e o sign =
      (rw (long, take-length-append e o) refl, rw (long, drop-length-append e o) refl)
    where
      long : ltb (length (e ++ o)) (length e) ≡ false
      long = le_test (length (e ++ o)) (length e) (omega (arith, length-append e o))

  overwrite-same : (xs ys : List F) → length xs ≡ length ys → overwrite xs ys ≡ ys
  unfolding overwrite
  overwrite-same [] [] h = refl
  overwrite-same [] (y ∷ ys) h = absurd (omega arith)
  overwrite-same (x ∷ xs) [] h = absurd (omega arith)
  overwrite-same (x ∷ xs) (y ∷ ys) h = ap (◌∷◌ y) (overwrite-same xs ys (omega arith))

  -- `copy_from_other` copies an entry of the same shape, keeps the sign, and refuses one of another
  -- dimension, which leaves the entry as it was.
  pub copy_from_other-copies :
      (self other : HashMapEmbeddingEntry F)
      → length self.inner ≡ length other.inner
      → copy_from_other self other ≡ (
          if self.embedding_dim == other.embedding_dim
          then (true, record other { sign = self.sign })
          else (false, self))
  unfolding copy_from_other
  copy_from_other-copies self other same =
      split (self.embedding_dim == other.embedding_dim)
        (==_iff self.embedding_dim other.embedding_dim).0
    where
      split :
          (t : Bool)
          → (t ≡ true → self.embedding_dim ≡ other.embedding_dim)
          → Path
              (Bool × HashMapEmbeddingEntry F)
              (if t
                then (true, record self { inner = overwrite self.inner other.inner })
                else (false, self))
              (if t then (true, record other { sign = self.sign }) else (false, self))
      split true f = λ i. (
        true,
        record {
          inner = overwrite-same self.inner other.inner same i;
          embedding_dim = f refl i;
          sign = self.sign;
        },
      )
      split false f = refl

  take_front : (xs ys : List F) (n : ℕ) → length xs ≡ n → take n (xs ++ ys) ≡ xs
  take_front xs ys n h = subst (λ k. take k (xs ++ ys) ≡ xs) h (take-length-append xs ys)

  take_all : (xs : List F) (n : ℕ) → length xs ≡ n → take n xs ≡ xs
  take_all [] zero h = refl
  take_all [] (suc n) h = refl
  take_all (x ∷ xs) zero h = absurd (omega arith)
  take_all (x ∷ xs) (suc n) h = ap (◌∷◌ x) (take_all xs n (omega arith))

  -- A new entry has room for the embedding and the state of the optimizer, and its embedding is the
  -- one that the generator drew.
  pub entry_new-room :
      (fzero : F) {I : Type 0} (random_using : I → (dim seed : ℕ) → Outcome (List F)) (i : I)
      (dim require_space seed sign : ℕ) (drawn : List F)
      → random_using i dim seed ≡ ok drawn
      → length drawn ≡ dim
      → (e : HashMapEmbeddingEntry F) × (entry_new fzero random_using i dim require_space seed sign
          ≡ ok e)
        × (length e.inner ≡ dim + require_space)
        × (emb e ≡ ok drawn)
  unfolding entry_new emb slice_to
  entry_new-room fzero random_using i dim zero seed sign drawn h size = (
    record { inner = drawn; embedding_dim = dim; sign = sign },
    rw h refl,
    omega arith,
    rw (le_test (length drawn) dim (omega arith)) (ap ok (take_all drawn dim size)),
  )
  entry_new-room fzero random_using i dim (suc n) seed sign drawn h size = (
    record { inner = drawn ++ replicate (suc n) fzero; embedding_dim = dim; sign = sign },
    rw h (rw pos_suc refl),
    omega (arith, length-append drawn (replicate (suc n) fzero), length-replicate (suc n) fzero),
    rw
        (le_test (length (drawn ++ replicate (suc n) fzero)) dim
          (omega (arith, length-append drawn (replicate (suc n) fzero))))
        (ap ok (take_front drawn (replicate (suc n) fzero) dim size)),
  )
    where
      pos_suc : ltb 0 (suc n) ≡ true
      pos_suc = ground arith
