-- ===== src/ParamServer/Requested.antt =====
-- A whole lookup for training (`lookup_train`, the loop of `batched_lookup` of
-- embedding_parameter_service/mod.rs) over the shards of a server.
use persia.Base.{
  ℕ, suc, ◌+◌, ◌*◌, ◌%◌, ◌≤◌, ◌<◌, ◌≡◌, refl, sym, ap, subst, ◌∙◌, inl, inr, Bool-cases, Bool, true,
  false, Option, none, some, List, [], ◌∷◌, ◌++◌, arith, ◌==◌, if◌then◌else◌, length, length-set,
  get_elem?, get_elem?-set, set, u32_size, Outcome, ok, bind-ok,
}
use persia.Base.Map.{nat_eq}
use persia.Holder.EvictionMap.{EvictionMap, get_refresh}
use persia.Holder.EvictionMap.Replayed.{Holds, lookup, others, used, stored}
use persia.Holder.LinkedList.Grown.{slots}
use persia.Holder.EmbEntry.{HashMapEmbeddingEntry}
use persia.ParamServer.{
  Optimizable, PersiaEmbeddingModelHyperparameters, get_index, shard, set_shard, train_sign,
  lookup_train,
}
use persia.ParamServer.Trained.{
  sign_of, AllRoomy, made, trained, Draws, made-roomy, set_up-roomy, length-used, length-stored,
  roomy_lookup, train_one,
}

-- The values of a shard.
abbrev pub values_at :
    {F : Type 0} → List (List (HashMapEmbeddingEntry F)) → ℕ → List (HashMapEmbeddingEntry F)
values_at vss i = elim (get_elem? vss i) [ none ↦ [] | some vs ↦ vs ]

-- The shard holds the values, and has room for `n` requests without an eviction.
pub record Ready {F : Type 0} (m : EvictionMap ℕ (HashMapEmbeddingEntry F))
    (vs : List (HashMapEmbeddingEntry F)) (n : ℕ) : Type 0 where
  pub holds : Holds sign_of m vs
  pub roomy : AllRoomy vs
  pub room : slots m.linkedlist + 2 * n < u32_size
  pub fits : length vs + n ≤ m.capacity

abbrev pub AllReady :
    {F : Type 0}
    → List (EvictionMap ℕ (HashMapEmbeddingEntry F))
    → List (List (HashMapEmbeddingEntry F))
    → ℕ
    → Type 0
AllReady {F} inner vss n =
    (i : ℕ)
    → i < length inner
    → (m : EvictionMap ℕ (HashMapEmbeddingEntry F)) × (get_elem? inner i ≡ some m)
      × Ready m (values_at vss i) n

positive : (n : ℕ) → 0 < n → (n == 0) ≡ false
positive n h = ground arith

module _ {F : Type 0} where
  AllRoomy-others :
      (vs : List (HashMapEmbeddingEntry F)) (sign : ℕ)
      → AllRoomy vs
      → AllRoomy (others sign_of vs sign)
  AllRoomy-others [] sign r = tt
  AllRoomy-others (v ∷ vs) sign r = elim (Bool-cases (v.sign == sign)) [
    | inl h ↦ rw h (AllRoomy-others vs sign r.1)
    | inr h ↦ rw h (r.0, AllRoomy-others vs sign r.1)
  ]

  AllRoomy-snoc :
      (vs : List (HashMapEmbeddingEntry F)) (e : HashMapEmbeddingEntry F)
      → AllRoomy vs
      → e.embedding_dim ≤ length e.inner
      → AllRoomy (vs ++ e ∷ [])
  AllRoomy-snoc [] e r h = (h, tt)
  AllRoomy-snoc (v ∷ vs) e r h = (r.0, AllRoomy-snoc vs e r.1 h)

  AllRoomy-stored :
      (vs : List (HashMapEmbeddingEntry F)) (e : HashMapEmbeddingEntry F)
      → AllRoomy vs
      → e.embedding_dim ≤ length e.inner
      → AllRoomy (stored sign_of vs e)
  AllRoomy-stored vs e r h =
      AllRoomy-snoc (others sign_of vs e.sign) e (AllRoomy-others vs e.sign r) h

  AllRoomy-used :
      (vs : List (HashMapEmbeddingEntry F)) (sign : ℕ) (e : HashMapEmbeddingEntry F)
      → lookup sign_of vs sign ≡ some e
      → AllRoomy vs
      → AllRoomy (used sign_of vs sign)
  AllRoomy-used vs sign e q r =
      rw (used, q)
        (AllRoomy-snoc (others sign_of vs sign) e (AllRoomy-others vs sign r)
          (roomy_lookup vs sign e r q))

  pub values_at-set :
      (vss : List (List (HashMapEmbeddingEntry F))) (i k : ℕ) (vs : List (HashMapEmbeddingEntry F))
      → i < length vss
      → values_at (set vss i vs) k ≡ (if i == k then vs else values_at vss k)
  values_at-set vss i k vs h =
      ap or_nil (get_elem?-set vss i k vs h) ∙ split (i == k) (get_elem? vss k)
    where
      or_nil : Option (List (HashMapEmbeddingEntry F)) → List (HashMapEmbeddingEntry F)
      or_nil o = elim o [ none ↦ [] | some ws ↦ ws ]

      split :
          (b : Bool) (o : Option (List (HashMapEmbeddingEntry F)))
          → or_nil (if b then some vs else o) ≡ (if b then vs else or_nil o)
      split true o = refl
      split false o = refl

  -- The shard of a sign, read and written.
  pub shard-at :
      (hash : ℕ → ℕ) (inner : List (EvictionMap ℕ (HashMapEmbeddingEntry F))) (count sign : ℕ)
      (m : EvictionMap ℕ (HashMapEmbeddingEntry F))
      → 0 < count
      → length inner ≡ count
      → get_elem? inner (hash sign % count) ≡ some m
      → shard hash inner sign ≡ ok m
  unfolding shard get_index
  shard-at hash inner count sign m pos size there = rw (size, positive count pos, there) refl

  pub set_shard-at :
      (hash : ℕ → ℕ) (inner : List (EvictionMap ℕ (HashMapEmbeddingEntry F))) (count sign : ℕ)
      (m : EvictionMap ℕ (HashMapEmbeddingEntry F))
      → 0 < count
      → length inner ≡ count
      → set_shard hash inner sign m ≡ ok (set inner (hash sign % count) m)
  unfolding set_shard get_index
  set_shard-at hash inner count sign m pos size = rw (size, positive count pos) refl

module _ {F I : Type 0} (fzero : F) (hash : ℕ → ℕ)
    (random_using : I → (dim seed : ℕ) → Outcome (List F))
    (conf : PersiaEmbeddingModelHyperparameters I F) (optimizer : Optimizable F)
    (draw : (dim seed : ℕ) → List F) (d : Draws fzero hash random_using conf optimizer draw) where
  abbrev train :
      (admitted : Bool) (sign dim : ℕ)
      → List (HashMapEmbeddingEntry F)
      → Option (HashMapEmbeddingEntry F)
      → List F × List (HashMapEmbeddingEntry F)
  train = trained fzero hash random_using conf optimizer draw

  abbrev fresh_entry : (sign dim : ℕ) → HashMapEmbeddingEntry F
  fresh_entry = made fzero hash random_using conf optimizer draw

  -- The answers to the requests and the values of the `count` shards afterwards.
  unfoldable pub train_all :
      (count : ℕ) (admit : ℕ → Bool) (position : ℕ)
      → List (ℕ × ℕ)
      → List (List (HashMapEmbeddingEntry F))
      → List F × List (List (HashMapEmbeddingEntry F))
  train_all count admit position [] vss = ([], vss)
  train_all count admit position ((sign, dim) ∷ req) vss =
      let i = hash sign % count in
      let vs = values_at vss i in
      let now = train (admit position) sign dim vs (lookup sign_of vs sign) in
      let rest = train_all count admit (position + 1) req (set vss i now.1) in
      (now.0 ++ rest.0, rest.1)

  -- What a request leaves of the bounds.
  trained-bounds :
      (o : Option (HashMapEmbeddingEntry F)) (admitted : Bool) (sign dim : ℕ)
      (vs : List (HashMapEmbeddingEntry F))
      → lookup sign_of vs sign ≡ o
      → AllRoomy vs
      → AllRoomy (train admitted sign dim vs o).1
        × (length (train admitted sign dim vs o).1 ≤ length vs + 1)
  trained-bounds none false sign dim vs q r = (r, omega arith)
  trained-bounds none true sign dim vs q r = (
    AllRoomy-stored vs _ r (set_up-roomy fzero hash random_using conf optimizer draw d sign dim),
    length-stored vs _,
  )
  trained-bounds (some e) admitted sign dim vs q r = elim (Bool-cases (e.embedding_dim == dim)) [
    | inl t ↦ rw t (AllRoomy-used vs sign e q r, omega (arith, length-used vs sign e q))
    | inr t ↦ rw t (
      AllRoomy-stored (used sign_of vs sign) (fresh_entry sign dim) (AllRoomy-used vs sign e q r)
          (made-roomy fzero hash random_using conf optimizer draw d sign dim),
      omega (
        arith,
        length-stored (used sign_of vs sign) (fresh_entry sign dim),
        length-used vs sign e q,
      ),
    )
  ]

  Ready-less :
      (m : EvictionMap ℕ (HashMapEmbeddingEntry F)) (vs : List (HashMapEmbeddingEntry F)) (n : ℕ)
      → Ready m vs (suc n)
      → Ready m vs n
  Ready-less m vs n r = record {
    holds = r.holds;
    roomy = r.roomy;
    room = omega (arith, r.room);
    fits = omega (arith, r.fits);
  }

  -- The shards after one of them has changed.
  AllReady-set :
      (inner : List (EvictionMap ℕ (HashMapEmbeddingEntry F)))
      (vss : List (List (HashMapEmbeddingEntry F))) (n i : ℕ)
      (m : EvictionMap ℕ (HashMapEmbeddingEntry F)) (vs : List (HashMapEmbeddingEntry F))
      → i < length inner
      → length vss ≡ length inner
      → AllReady inner vss (suc n)
      → Ready m vs n
      → AllReady (set inner i m) (set vss i vs) n
  AllReady-set inner vss n i m vs h same ready r k below = elim (Bool-cases (i == k)) [
    | inl t ↦ (
      m,
      get_elem?-set inner i k m h ∙ rw t refl,
      subst (λ ws. Ready m ws n)
          (sym (values_at-set vss i k vs (omega (arith, h, same)) ∙ rw t refl)) r,
    )
    | inr t ↦
        let (m1, there, r1) = ready k (omega (arith, below, length-set inner i m)) in
        (
          m1,
          get_elem?-set inner i k m h ∙ rw t there,
          subst (λ ws. Ready m1 ws n)
              (sym (values_at-set vss i k vs (omega (arith, h, same)) ∙ rw t refl))
              (Ready-less m1 (values_at vss k) n r1),
        )
  ]

  -- When the shards of a server hold the values and have room for the requests without an eviction, a lookup
  -- for training answers every request in order, as the specification does on the values: with the
  -- embedding of an entry of the dimension asked for, which becomes the last to be evicted; with a new embedding
  -- in place of an entry of another dimension, or for a new sign that is admitted; and with zeros for
  -- one that is not. Afterwards the shards hold the values of the specification.
  pub lookup_train-answers :
      (admit : ℕ → Bool) (req : List (ℕ × ℕ)) (position count : ℕ)
      (inner : List (EvictionMap ℕ (HashMapEmbeddingEntry F)))
      (vss : List (List (HashMapEmbeddingEntry F)))
      → 0 < count
      → length inner ≡ count
      → length vss ≡ count
      → AllReady inner vss (length req)
      → (inner' : List (EvictionMap ℕ (HashMapEmbeddingEntry F))) × (lookup_train hash fzero
            random_using conf optimizer admit position req inner
          ≡ ok ((train_all count admit position req vss).0, inner'))
        × AllReady inner' (train_all count admit position req vss).1 0
  unfolding lookup_train train_all
  lookup_train-answers admit [] position count inner vss pos size same ready = (inner, refl, ready)
  lookup_train-answers admit ((sign, dim) ∷ req) position count inner vss pos size same ready =
      let i = hash sign % count in
      let (m, there, r) = ready i (omega (arith, size, pos)) in
      let vs = values_at vss i in
      let (m', run, h, more, cap) =
        train_one fzero hash random_using conf optimizer draw d (admit position) sign dim m vs
          r.holds r.roomy (omega (arith, r.room)) (omega (arith, r.fits)) in
      let (roomy, longer) =
        trained-bounds (lookup sign_of vs sign) (admit position) sign dim vs refl r.roomy in
      let now = train (admit position) sign dim vs (lookup sign_of vs sign) in
      let next : Ready m' now.1 (length req) = record {
        holds = h;
        roomy = roomy;
        room = omega (arith, r.room, more);
        fits = omega (arith, r.fits, longer, cap);
      } in
      let (inner', rest, ready') =
        lookup_train-answers admit req (position + 1) count (set inner i m') (set vss i now.1) pos
          (length-set inner i m' ∙ size) (length-set vss i now.1 ∙ same)
          (AllReady-set inner vss (length req) i m' now.1 (omega (arith, size, pos))
            (same ∙ sym size) ready next) in
      let ((found, m1), refreshed, trains) =
        bind-ok (get_refresh m sign)
          (λ r. train_sign hash fzero random_using conf optimizer (admit position) sign dim r.1 r.0)
          (now.0, m') run in
      (
        inner',
        rw
            (
              shard-at hash inner count sign m pos size there,
              refreshed,
              trains,
              set_shard-at hash inner count sign m' pos size,
              rest,
            )
            refl,
        ready',
      )
