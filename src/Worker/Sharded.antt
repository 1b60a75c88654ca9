-- ===== src/Worker/Sharded.antt =====
-- The split of the signs into shards (embedding_worker_service/mod.rs): each parameter server gets
-- the signs that hash to it, all of them, in the order of the batch.
use persia.Base.{
  ℕ, zero, suc, ◌+◌, ◌%◌, ◌<◌, ◌≡◌, refl, sym, ap, subst, ◌∙◌, Bool, true, false, Option, some,
  List, [], ◌∷◌, ◌++◌, arith, ◌==◌, if◌then◌else◌, replicate, get_elem?, omap, Outcome, ok, panic,
  undefined_behaviour, ◌>>=◌,
}
use persia.Common.{SingleSignInFeatureBatch, FeatureBatch, IdTypeFeatureBatch}
use persia.Config.{SlotConfig, EmbeddingConfig, get_slot_by_feature_name}
use persia.Worker.{rem}
use persia.Worker.Preprocess.{
  SignWithConfig, sign_to_shard_modulo, push_shard, shard_signs, shard_features,
  indices_to_sharded_indices,
}

-- The signs of a feature and of a batch with their places, in order.
abbrev pub feature_signs :
    (feature_idx dim sign_idx : ℕ) → List SingleSignInFeatureBatch → List SignWithConfig
feature_signs feature_idx dim sign_idx [] = []
feature_signs feature_idx dim sign_idx (single ∷ singles) =
    (record { sign = single.sign; sign_idx = sign_idx; feature_idx = feature_idx; dim = dim })
    ∷ feature_signs feature_idx dim (sign_idx + 1) singles

abbrev pub batch_signs :
    EmbeddingConfig → (feature_idx : ℕ) → List FeatureBatch → Outcome (List SignWithConfig)
batch_signs config feature_idx [] = ok []
batch_signs config feature_idx (f ∷ batches) = do
  slot_conf ← get_slot_by_feature_name config f.feature_name
  rest ← batch_signs config (feature_idx + 1) batches
  ok (feature_signs feature_idx slot_conf.dim 0 f.index_batch ++ rest)

-- The signs of the shard `r`.
abbrev pub of_shard :
    (hash64 : ℕ → ℕ) (replica_size r : ℕ) → List SignWithConfig → List SignWithConfig
of_shard hash64 replica_size r [] = []
of_shard hash64 replica_size r (s ∷ signs) =
    if hash64 s.sign % replica_size == r
    then s ∷ of_shard hash64 replica_size r signs
    else of_shard hash64 replica_size r signs

append_assoc : (xs ys zs : List SignWithConfig) → (xs ++ ys) ++ zs ≡ xs ++ (ys ++ zs)
append_assoc [] ys zs = refl
append_assoc (x ∷ xs) ys zs = ap (◌∷◌ x) (append_assoc xs ys zs)

append_nil : (xs : List SignWithConfig) → xs ++ [] ≡ xs
append_nil [] = refl
append_nil (x ∷ xs) = ap (◌∷◌ x) (append_nil xs)

ok-eq : {xs ys : List SignWithConfig} → ok xs ≡ ok ys → xs ≡ ys
ok-eq h = ground arith

get_elem?-replicate :
    (n i : ℕ) → i < n → get_elem? (replicate {A = List SignWithConfig} n []) i ≡ some []
get_elem?-replicate zero i h = absurd (omega arith)
get_elem?-replicate (suc n) zero h = refl
get_elem?-replicate (suc n) (suc i) h = get_elem?-replicate n i (omega arith)

get_elem?-push_shard :
    (results : List (List SignWithConfig)) (i r : ℕ) (s : SignWithConfig)
    → get_elem? (push_shard results i s) r
      ≡ (if i == r then omap (λ xs. xs ++ s ∷ []) (get_elem? results r) else get_elem? results r)
unfolding push_shard
get_elem?-push_shard [] i r s = ground arith
get_elem?-push_shard (x ∷ results) zero zero s = refl
get_elem?-push_shard (x ∷ results) zero (suc r) s = ground arith
get_elem?-push_shard (x ∷ results) (suc i) zero s = ground arith
get_elem?-push_shard (x ∷ results) (suc i) (suc r) s =
    get_elem?-push_shard results i r s ∙ ground arith

place :
    (t : Bool) (xs : List SignWithConfig) (s : SignWithConfig) (ys : List SignWithConfig)
    → (if t then xs ++ s ∷ [] else xs) ++ ys ≡ xs ++ (if t then s ∷ ys else ys)
place true xs s ys = append_assoc xs (s ∷ []) ys
place false xs s ys = refl

keep-append :
    (t : Bool) (s : SignWithConfig) (xs ys zs : List SignWithConfig)
    → xs ≡ ys ++ zs
    → (if t then s ∷ xs else xs) ≡ (if t then s ∷ ys else ys) ++ zs
keep-append true s xs ys zs h = ap (◌∷◌ s) h
keep-append false s xs ys zs h = h

push_choice :
    (t : Bool) (o : Option (List SignWithConfig)) (s : SignWithConfig) (old : List SignWithConfig)
    → o ≡ some old
    → (if t then omap (λ xs. xs ++ s ∷ []) o else o) ≡ some (if t then old ++ s ∷ [] else old)
push_choice true o s old h = ap (omap (λ xs. xs ++ s ∷ [])) h
push_choice false o s old h = h

module _ (hash64 : ℕ → ℕ) (config : EmbeddingConfig) (replica_size : ℕ)
    (some_replica : 0 < replica_size) where
  of_shard-append :
      (r : ℕ) (xs ys : List SignWithConfig)
      → of_shard hash64 replica_size r (xs ++ ys)
        ≡ of_shard hash64 replica_size r xs ++ of_shard hash64 replica_size r ys
  of_shard-append r [] ys = refl
  of_shard-append r (x ∷ xs) ys =
      keep-append (hash64 x.sign % replica_size == r) x _ _ (of_shard hash64 replica_size r ys)
        (of_shard-append r xs ys)

  -- The results after more signs: each shard has the old ones and its own of the new ones.
  Grown : List (List SignWithConfig) → List SignWithConfig → List (List SignWithConfig) → Type 0
  Grown results signs results' =
      (r : ℕ) (old : List SignWithConfig)
      → get_elem? results r ≡ some old
      → get_elem? results' r ≡ some (old ++ of_shard hash64 replica_size r signs)

  shard-total :
      (sign : ℕ) → sign_to_shard_modulo hash64 sign replica_size ≡ ok (hash64 sign % replica_size)
  unfolding sign_to_shard_modulo rem
  shard-total sign = ground arith

  shard_signs-Grown :
      (feature_idx dim sign_idx : ℕ) (singles : List SingleSignInFeatureBatch)
      (results : List (List SignWithConfig))
      → (results' : List (List SignWithConfig)) × (shard_signs hash64 replica_size feature_idx dim
            sign_idx singles results
          ≡ ok results')
        × Grown results (feature_signs feature_idx dim sign_idx singles) results'
  unfolding shard_signs Grown
  shard_signs-Grown feature_idx dim sign_idx [] results =
      (results, refl, λ r old h. h ∙ ap some (sym (append_nil old)))
  shard_signs-Grown feature_idx dim sign_idx (single ∷ singles) results =
      let s : SignWithConfig = record {
        sign = single.sign;
        sign_idx = sign_idx;
        feature_idx = feature_idx;
        dim = dim;
      } in
      let (results', e, g) =
        shard_signs-Grown feature_idx dim (sign_idx + 1) singles
          (push_shard results (hash64 single.sign % replica_size) s) in
      (
        results',
        rw (shard-total single.sign) e,
        λ r old h.
            let t = hash64 single.sign % replica_size == r in
            g r (if t then old ++ s ∷ [] else old) (
              get_elem?-push_shard results (hash64 single.sign % replica_size) r s
              ∙ push_choice t (get_elem? results r) s old h)
            ∙ ap some (
                place t old s (
                  of_shard hash64 replica_size r
                    (feature_signs feature_idx dim (sign_idx + 1) singles))),
      )

  -- What a successful `batch_signs` of a feature and more says.
  batch_signs-parts :
      (feature_idx : ℕ) (f : FeatureBatch) (batches : List FeatureBatch)
      (signs : List SignWithConfig)
      → batch_signs config feature_idx (f ∷ batches) ≡ ok signs
      → (slot_conf : SlotConfig) × (rest : List SignWithConfig) × (get_slot_by_feature_name config
            f.feature_name
          ≡ ok slot_conf)
        × (batch_signs config (feature_idx + 1) batches ≡ ok rest)
        × (feature_signs feature_idx slot_conf.dim 0 f.index_batch ++ rest ≡ signs)
  batch_signs-parts feature_idx f batches signs h = parts _ _ h
    where
      parts :
          (m : Outcome SlotConfig) (n : Outcome (List SignWithConfig))
          → (do
            slot_conf ← m
            rest ← n
            ok (feature_signs feature_idx slot_conf.dim 0 f.index_batch ++ rest))
            ≡ ok signs
          → (slot_conf : SlotConfig) × (rest : List SignWithConfig) × (m ≡ ok slot_conf)
            × (n ≡ ok rest)
            × (feature_signs feature_idx slot_conf.dim 0 f.index_batch ++ rest ≡ signs)
      parts (ok a) (ok b) h = (a, b, refl, refl, ok-eq h)
      parts (ok a) panic h = absurd (ground arith)
      parts (ok a) undefined_behaviour h = absurd (ground arith)
      parts panic n h = absurd (ground arith)
      parts undefined_behaviour n h = absurd (ground arith)

  Sharding :
      (feature_idx : ℕ)
      → List FeatureBatch
      → List (List SignWithConfig)
      → List SignWithConfig
      → Type 0
  Sharding feature_idx batches results signs =
      (results' : List (List SignWithConfig)) × (shard_features hash64 config replica_size
          feature_idx batches results
        ≡ ok results')
      × Grown results signs results'

  shard_features-step :
      (feature_idx : ℕ) (f : FeatureBatch) (batches : List FeatureBatch)
      (results : List (List SignWithConfig)) (slot_conf : SlotConfig) (rest : List SignWithConfig)
      → get_slot_by_feature_name config f.feature_name ≡ ok slot_conf
      → ((results1 : List (List SignWithConfig)) → Sharding (feature_idx + 1) batches results1 rest)
      → Sharding feature_idx
          (f ∷ batches)
          results
          (feature_signs feature_idx slot_conf.dim 0 f.index_batch ++ rest)
  unfolding shard_features Grown Sharding
  shard_features-step feature_idx f batches results slot_conf rest e more =
      let first = feature_signs feature_idx slot_conf.dim 0 f.index_batch in
      let (results1, e1, g1) =
        shard_signs-Grown feature_idx slot_conf.dim 0 f.index_batch results in
      let (results2, e2, g2) = more results1 in
      (
        results2,
        rw (e, e1) e2,
        λ r old k.
            g2 r (old ++ of_shard hash64 replica_size r first) (g1 r old k)
            ∙ ap some (
                append_assoc old (of_shard hash64 replica_size r first)
                  (of_shard hash64 replica_size r rest)
                ∙ ap (λ xs. old ++ xs) (sym (of_shard-append r first rest))),
      )

  shard_features-Grown :
      (feature_idx : ℕ) (batches : List FeatureBatch) (results : List (List SignWithConfig))
      (signs : List SignWithConfig)
      → batch_signs config feature_idx batches ≡ ok signs
      → Sharding feature_idx batches results signs
  unfolding shard_features Grown Sharding
  shard_features-Grown feature_idx [] results signs h = (
    results,
    refl,
    λ r old k.
        k
        ∙ ap some
            (sym (append_nil old) ∙ ap (λ xs. old ++ of_shard hash64 replica_size r xs) (ok-eq h)),
  )
  shard_features-Grown feature_idx (f ∷ batches) results signs h =
      let (slot_conf, rest, e, d, q) = batch_signs-parts feature_idx f batches signs h in
      subst (Sharding feature_idx (f ∷ batches) results) q (
        shard_features-step feature_idx f batches results slot_conf rest e
          (λ results1. shard_features-Grown (feature_idx + 1) batches results1 rest d))

-- When every feature has a slot and there is a parameter server, the split into shards succeeds:
-- the shard of each server has exactly the signs that hash to it, in the order of the batch, with
-- their places.
pub indices_to_sharded_indices-shards :
    (hash64 : ℕ → ℕ) (config : EmbeddingConfig) (replica_size : ℕ) (indices : IdTypeFeatureBatch)
    (signs : List SignWithConfig)
    → 0 < replica_size
    → batch_signs config 0 indices.batches ≡ ok signs
    → (results : List (List SignWithConfig)) × (indices_to_sharded_indices hash64 config
          replica_size indices
        ≡ ok results)
      × ((r : ℕ)
          → r < replica_size
          → get_elem? results r ≡ some (of_shard hash64 replica_size r signs))
unfolding indices_to_sharded_indices Sharding Grown
indices_to_sharded_indices-shards hash64 config replica_size indices signs pos h =
    let (results, e, g) =
      shard_features-Grown hash64 config replica_size pos 0 indices.batches
        (replicate replica_size []) signs h in
    (results, e, λ r b. g r [] (get_elem?-replicate replica_size r b))
