-- ===== src/ParamServer/Trained.antt =====
-- What a lookup for training does to a shard and to the server (`batched_lookup` of
-- embedding_parameter_service/mod.rs), in terms of the values of the shards.
use persia.Base.{
  ℕ, ◌+◌, ◌≤◌, ◌<◌, ◌≡◌, refl, sym, subst, ◌∙◌, inl, inr, Bool-cases, Bool, true, false, Option,
  none, some, List, [], ◌∷◌, ◌++◌, arith, ltb, ◌==◌, if◌then◌else◌, length, length-append, take,
  replicate, u32_size, Outcome, ok, ◌>>=◌,
}
use persia.Base.Map.{nat_eq}
use persia.Holder.EvictionMap.{EvictionMap, get_refresh, insert}
use persia.Holder.EvictionMap.Replayed.{
  Holds, lookup, others, used, stored, refresh-Holds, store-Holds, get_refresh-Grown, insert-Grown,
}
use persia.Holder.LinkedList.Grown.{slots}
use persia.Holder.EmbEntry.{HashMapEmbeddingEntry, entry_new, emb, slice_to}
use persia.ParamServer.{Optimizable, PersiaEmbeddingModelHyperparameters, fresh, train_sign}

abbrev pub sign_of : {F : Type 0} → HashMapEmbeddingEntry F → ℕ
sign_of e = e.sign

-- Each entry has room for its embedding.
abbrev pub AllRoomy : {F : Type 0} → List (HashMapEmbeddingEntry F) → Type 0
AllRoomy [] = Unit
AllRoomy (e ∷ vs) = (e.embedding_dim ≤ length e.inner) × AllRoomy vs

module _ {F : Type 0} where
  length-others :
      (vs : List (HashMapEmbeddingEntry F)) (sign : ℕ) → length (others sign_of vs sign) ≤ length vs
  length-others [] sign = omega arith
  length-others (v ∷ vs) sign = elim (Bool-cases (v.sign == sign)) [
    | inl h ↦ rw h (omega (arith, length-others vs sign))
    | inr h ↦ rw h (omega (arith, length-others vs sign))
  ]

  fewer_others :
      (vs : List (HashMapEmbeddingEntry F)) (sign : ℕ) (e : HashMapEmbeddingEntry F)
      → lookup sign_of vs sign ≡ some e
      → length (others sign_of vs sign) < length vs
  fewer_others [] sign e h = absurd (ground (arith, h))
  fewer_others (v ∷ vs) sign e h = elim (Bool-cases (v.sign == sign)) [
    | inl q ↦ rw q (omega (arith, length-others vs sign))
    | inr q ↦ rw q (omega (arith, fewer_others vs sign e (rw q at h)))
  ]

  pub roomy_lookup :
      (vs : List (HashMapEmbeddingEntry F)) (sign : ℕ) (e : HashMapEmbeddingEntry F)
      → AllRoomy vs
      → lookup sign_of vs sign ≡ some e
      → e.embedding_dim ≤ length e.inner
  roomy_lookup [] sign e r h = absurd (ground (arith, h))
  roomy_lookup (v ∷ vs) sign e r h = elim (Bool-cases (v.sign == sign)) [
    | inl q ↦ subst (λ u. u.embedding_dim ≤ length u.inner) (some_injective (rw q at h)) r.0
    | inr q ↦ roomy_lookup vs sign e r.1 (rw q at h)
  ]
    where
      some_injective : {x y : HashMapEmbeddingEntry F} → some x ≡ some y → x ≡ y
      some_injective k = ground (arith, k)

  pub slice_to-ok : (xs : List F) (n : ℕ) → n ≤ length xs → slice_to xs n ≡ ok (take n xs)
  unfolding slice_to
  slice_to-ok xs n h = rw (long_enough n (length xs) h) refl
    where
      long_enough : (a b : ℕ) → a ≤ b → ltb b a ≡ false
      long_enough a b k = ground arith

  -- The values after a lookup, and their number.
  used_missed :
      (vs : List (HashMapEmbeddingEntry F)) (sign : ℕ)
      → lookup sign_of vs sign ≡ none
      → used sign_of vs sign ≡ vs
  used_missed vs sign h = rw (used, h) refl

  pub length-used :
      (vs : List (HashMapEmbeddingEntry F)) (sign : ℕ) (e : HashMapEmbeddingEntry F)
      → lookup sign_of vs sign ≡ some e
      → length (used sign_of vs sign) ≤ length vs
  length-used vs sign e h =
      rw (used, h)
        (omega (arith, length-append (others sign_of vs sign) (e ∷ []), fewer_others vs sign e h))

  pub length-stored :
      (vs : List (HashMapEmbeddingEntry F)) (e : HashMapEmbeddingEntry F)
      → length (stored sign_of vs e) ≤ length vs + 1
  length-stored vs e =
      omega (arith, length-append (others sign_of vs e.sign) (e ∷ []), length-others vs e.sign)

module _ {F I : Type 0} (fzero : F) (hash : ℕ → ℕ)
    (random_using : I → (dim seed : ℕ) → Outcome (List F))
    (conf : PersiaEmbeddingModelHyperparameters I F) (optimizer : Optimizable F)
    (draw : (dim seed : ℕ) → List F) where
  -- The entry that a new sign gets, before and after the optimizer sets up its state.
  abbrev pub made : (sign dim : ℕ) → HashMapEmbeddingEntry F
  made sign dim = record {
    inner =
        if ltb 0 (optimizer.require_space dim)
        then draw dim sign ++ replicate (optimizer.require_space dim) fzero
        else draw dim sign;
    embedding_dim = dim;
    sign = sign;
  }

  abbrev pub set_up : (sign dim : ℕ) → HashMapEmbeddingEntry F
  set_up sign dim = record (made sign dim) {
    inner = optimizer.state_initialization (made sign dim).inner dim;
  }

  -- The answer for a sign, and the values of its shard afterwards, least recently used first.
  abbrev pub trained :
      (admitted : Bool) (sign dim : ℕ)
      → List (HashMapEmbeddingEntry F)
      → Option (HashMapEmbeddingEntry F)
      → List F × List (HashMapEmbeddingEntry F)
  trained false sign dim vs none = (replicate dim fzero, vs)
  trained true sign dim vs none =
      (take dim (set_up sign dim).inner, stored sign_of vs (set_up sign dim))
  trained admitted sign dim vs (some e) =
      if e.embedding_dim == dim
      then (take e.embedding_dim e.inner, used sign_of vs sign)
      else (take dim (made sign dim).inner, stored sign_of (used sign_of vs sign) (made sign dim))

  -- What the generator and the optimizer are relied on for.
  pub record Draws : Type 0 where
    pub drawn :
        (dim seed : ℕ) → random_using conf.initialization_method dim seed ≡ ok (draw dim seed)
    pub length-draw : (dim seed : ℕ) → length (draw dim seed) ≡ dim
    pub keeps_size :
        (state : List F) (dim : ℕ)
        → dim ≤ length state
        → length (optimizer.state_initialization state dim) ≡ length state

  module _ (d : Draws) where
    fresh-made :
        (sign dim : ℕ) → fresh hash fzero random_using conf optimizer sign dim ≡ ok (made sign dim)
    unfolding fresh entry_new
    fresh-made sign dim = rw (d.drawn dim sign) refl

    pub made-roomy : (sign dim : ℕ) → dim ≤ length (made sign dim).inner
    made-roomy sign dim = elim (Bool-cases (ltb 0 (optimizer.require_space dim))) [
      | inl h ↦ rw h (
          omega (
            arith,
            d.length-draw dim sign,
            length-append (draw dim sign) (replicate (optimizer.require_space dim) fzero),
          ))
      | inr h ↦ rw h (omega (arith, d.length-draw dim sign))
    ]

    pub set_up-roomy : (sign dim : ℕ) → dim ≤ length (set_up sign dim).inner
    set_up-roomy sign dim =
        subst (λ n. dim ≤ n) (sym (d.keeps_size (made sign dim).inner dim (made-roomy sign dim)))
          (made-roomy sign dim)

    -- A shard after one request: the answer, the values and the bounds.
    abbrev Answered :
        EvictionMap ℕ (HashMapEmbeddingEntry F)
        → Outcome (List F × EvictionMap ℕ (HashMapEmbeddingEntry F))
        → List F × List (HashMapEmbeddingEntry F)
        → (more : ℕ) → Type 0
    Answered m run answer more =
        (m' : EvictionMap ℕ (HashMapEmbeddingEntry F)) × (run ≡ ok (answer.0, m'))
        × Holds sign_of m' answer.1
        × (slots m'.linkedlist ≤ slots m.linkedlist + more)
        × (m'.capacity ≡ m.capacity)

    -- An entry is stored, and its embedding is the answer.
    answer_stored :
        (m : EvictionMap ℕ (HashMapEmbeddingEntry F)) (vs : List (HashMapEmbeddingEntry F))
        (e : HashMapEmbeddingEntry F)
        → Holds sign_of m vs
        → slots m.linkedlist + 1 < u32_size
        → length vs + 1 ≤ m.capacity
        → (values : List F)
        → Answered m
            (insert sign_of m e.sign e >>= (λ r. ok (values, r.1)))
            (values, stored sign_of vs e)
            1
    answer_stored m vs e h room fits values =
        let (m', run, h') =
          store-Holds sign_of m vs e h room (omega (arith, length-stored vs e, fits)) in
        let g = insert-Grown sign_of m m' e.sign e (lookup sign_of vs e.sign) run in
        (m', rw run refl, h', g.more, g.same)

    train_found :
        (o : Option (HashMapEmbeddingEntry F)) (admitted : Bool) (sign dim : ℕ)
        (m : EvictionMap ℕ (HashMapEmbeddingEntry F)) (vs : List (HashMapEmbeddingEntry F))
        → lookup sign_of vs sign ≡ o
        → Holds sign_of m (used sign_of vs sign)
        → AllRoomy vs
        → slots m.linkedlist + 1 < u32_size
        → length vs + 1 ≤ m.capacity
        → Answered m
            (train_sign hash fzero random_using conf optimizer admitted sign dim m o)
            (trained admitted sign dim vs o)
            1
    unfolding train_sign emb
    train_found none false sign dim m vs q h roomy room fits =
        (m, refl, subst (Holds sign_of m) (used_missed vs sign q) h, omega arith, refl)
    train_found none true sign dim m vs q h roomy room fits =
        rw (fresh-made sign dim, slice_to-ok (set_up sign dim).inner dim (set_up-roomy sign dim))
          (answer_stored m vs (set_up sign dim) (subst (Holds sign_of m) (used_missed vs sign q) h)
            room fits (take dim (set_up sign dim).inner))
    train_found (some e) false sign dim m vs q h roomy room fits =
        elim (Bool-cases (e.embedding_dim == dim)) [
          | inl t ↦
              rw (t, slice_to-ok e.inner e.embedding_dim (roomy_lookup vs sign e roomy q))
                (m, refl, h, omega arith, refl)
          | inr t ↦
              rw
                (
                  t,
                  fresh-made sign dim,
                  slice_to-ok (made sign dim).inner dim (made-roomy sign dim),
                )
                (answer_stored m (used sign_of vs sign) (made sign dim) h room
                  (omega (arith, fits, length-used vs sign e q)) (take dim (made sign dim).inner))
        ]
    train_found (some e) true sign dim m vs q h roomy room fits =
        elim (Bool-cases (e.embedding_dim == dim)) [
          | inl t ↦
              rw (t, slice_to-ok e.inner e.embedding_dim (roomy_lookup vs sign e roomy q))
                (m, refl, h, omega arith, refl)
          | inr t ↦
              rw
                (
                  t,
                  fresh-made sign dim,
                  slice_to-ok (made sign dim).inner dim (made-roomy sign dim),
                )
                (answer_stored m (used sign_of vs sign) (made sign dim) h room
                  (omega (arith, fits, length-used vs sign e q)) (take dim (made sign dim).inner))
        ]

    -- One request at its shard.
    pub train_one :
        (admitted : Bool) (sign dim : ℕ) (m : EvictionMap ℕ (HashMapEmbeddingEntry F))
        (vs : List (HashMapEmbeddingEntry F))
        → Holds sign_of m vs
        → AllRoomy vs
        → slots m.linkedlist + 2 < u32_size
        → length vs + 1 ≤ m.capacity
        → Answered m
            (get_refresh m sign >>= (λ r.
              train_sign hash fzero random_using conf optimizer admitted sign dim r.1 r.0))
            (trained admitted sign dim vs (lookup sign_of vs sign))
            2
    train_one admitted sign dim m vs h roomy room fits =
        let (m1, run1, h1) = refresh-Holds sign_of m vs sign h (omega (arith, room)) in
        let g = get_refresh-Grown sign_of m m1 sign (lookup sign_of vs sign) run1 in
        let (m2, run2, h2, more, same) =
          train_found (lookup sign_of vs sign) admitted sign dim m1 vs refl h1 roomy
            (omega (arith, room, g.more)) (omega (arith, fits, g.same)) in
        (m2, rw run1 run2, h2, omega (arith, more, g.more), same ∙ g.same)
