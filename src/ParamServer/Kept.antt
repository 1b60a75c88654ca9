-- ===== src/ParamServer/Kept.antt =====
-- The values that the shards of a server hold while a gradient update replaces some of them, and the
-- floats that its signs take (`update_gradient_mixed` of embedding_parameter_service/mod.rs).
use persia.Base.{
  ℕ, zero, suc, ◌+◌, ◌%◌, ◌≤◌, ◌<◌, ◌≡◌, refl, sym, ap, subst, ◌∙◌, inl, inr, Bool-cases, true,
  false, Option, none, some, List, [], ◌∷◌, arith, ◌==◌, ==_iff, length, length-set, get_elem?,
  get_elem?-set, set, drop,
}
use persia.Base.Map.{nat_eq}
use persia.Holder.EvictionMap.{EvictionMap}
use persia.Holder.EvictionMap.Replayed.{Holds, lookup}
use persia.Holder.EvictionMap.Exchanged.{replaced}
use persia.Holder.EmbEntry.{HashMapEmbeddingEntry}
use persia.ParamServer.Trained.{sign_of}
use persia.ParamServer.Requested.{values_at, values_at-set}

-- Each shard holds its values.
abbrev pub AllHold :
    {F : Type 0}
    → List (EvictionMap ℕ (HashMapEmbeddingEntry F))
    → List (List (HashMapEmbeddingEntry F))
    → Type 0
AllHold {F} inner vss =
    (i : ℕ)
    → i < length inner
    → (m : EvictionMap ℕ (HashMapEmbeddingEntry F)) × (get_elem? inner i ≡ some m)
      × Holds sign_of m (values_at vss i)

module _ {F : Type 0} where
  abbrev pub dim_of : Option (HashMapEmbeddingEntry F) → ℕ
  dim_of none = 0
  dim_of (some e) = e.embedding_dim

  pub lookup-sign :
      (vs : List (HashMapEmbeddingEntry F)) (sign : ℕ) (e : HashMapEmbeddingEntry F)
      → lookup sign_of vs sign ≡ some e
      → e.sign ≡ sign
  lookup-sign [] sign e h = absurd (ground (arith, h))
  lookup-sign (v ∷ vs) sign e h = elim (Bool-cases (v.sign == sign)) [
    | inl q ↦
        sym (ap (λ (u : HashMapEmbeddingEntry F). u.sign) (some_injective (rw q at h)))
        ∙ (==_iff v.sign sign).0 q
    | inr q ↦ lookup-sign vs sign e (rw q at h)
  ]
    where
      some_injective : {x y : HashMapEmbeddingEntry F} → some x ≡ some y → x ≡ y
      some_injective k = cc

  lookup-replaced :
      (vs : List (HashMapEmbeddingEntry F)) (sign k : ℕ) (v : HashMapEmbeddingEntry F)
      → v.sign ≡ sign
      → (sign == k) ≡ false
      → lookup sign_of (replaced sign_of vs sign v) k ≡ lookup sign_of vs k
  lookup-replaced [] sign k v own apart = refl
  lookup-replaced (u ∷ vs) sign k v own apart = elim (Bool-cases (u.sign == sign)) [
    | inl q ↦
        let v_apart = subst (λ j. (j == k) ≡ false) (sym own) apart in
        let u_apart = subst (λ j. (j == k) ≡ false) (sym ((==_iff u.sign sign).0 q)) apart in
        rw (q, v_apart, u_apart) (lookup-replaced vs sign k v own apart)
    | inr q ↦ rw (q, lookup-replaced vs sign k v own apart) refl
  ]

  -- A value of the same dimension in place of the old one changes no dimension.
  dim-replaced :
      (vs : List (HashMapEmbeddingEntry F)) (sign k : ℕ) (e v : HashMapEmbeddingEntry F)
      → lookup sign_of vs sign ≡ some e
      → v.sign ≡ sign
      → v.embedding_dim ≡ e.embedding_dim
      → dim_of (lookup sign_of (replaced sign_of vs sign v) k) ≡ dim_of (lookup sign_of vs k)
  dim-replaced vs sign k e v found own same = elim (Bool-cases (sign == k)) [
    | inr q ↦ ap dim_of (lookup-replaced vs sign k v own q)
    | inl q ↦
        subst
          (λ j.
            dim_of (lookup sign_of (replaced sign_of vs sign v) j) ≡ dim_of (lookup sign_of vs j))
          ((==_iff sign k).0 q) (ap dim_of (own_value vs found) ∙ same ∙ sym (ap dim_of found))
  ]
    where
      own_test : (v.sign == sign) ≡ true
      own_test = (==_iff v.sign sign).1 own

      own_value :
          (ws : List (HashMapEmbeddingEntry F))
          → lookup sign_of ws sign ≡ some e
          → lookup sign_of (replaced sign_of ws sign v) sign ≡ some v
      own_value [] h = absurd (ground (arith, h))
      own_value (w ∷ ws) h = elim (Bool-cases (w.sign == sign)) [
        | inl t ↦ rw (t, own_test) refl
        | inr t ↦ rw (t, t) (own_value ws (rw t at h))
      ]

  pub length-drop : (n : ℕ) (xs : List F) → n ≤ length xs → length (drop n xs) + n ≡ length xs
  length-drop zero xs h = omega arith
  length-drop (suc n) [] h = absurd (omega arith)
  length-drop (suc n) (x ∷ xs) h = omega (arith, length-drop n xs (omega arith))

module _ {F : Type 0} (hash : ℕ → ℕ) (count : ℕ) where
  -- The floats that the signs take which the server holds.
  abbrev pub needed : List ℕ → List (List (HashMapEmbeddingEntry F)) → ℕ
  needed [] vss = 0
  needed (sign ∷ signs) vss =
      dim_of (lookup sign_of (values_at vss (hash sign % count)) sign) + needed signs vss

  pub needed-replaced :
      (signs : List ℕ) (vss : List (List (HashMapEmbeddingEntry F))) (i sign : ℕ)
      (e v : HashMapEmbeddingEntry F)
      → i < length vss
      → lookup sign_of (values_at vss i) sign ≡ some e
      → v.sign ≡ sign
      → v.embedding_dim ≡ e.embedding_dim
      → needed signs (set vss i (replaced sign_of (values_at vss i) sign v)) ≡ needed signs vss
  needed-replaced [] vss i sign e v below found own same = refl
  needed-replaced (s ∷ signs) vss i sign e v below found own same =
      let k = hash s % count in
      ap (λ ws. dim_of (lookup sign_of ws s) + needed signs vss')
        (values_at-set vss i k (replaced sign_of (values_at vss i) sign v) below)
      ∙ rw (needed-replaced signs vss i sign e v below found own same) (elim (Bool-cases (i == k)) [
        | inl q ↦ rw q (
            ap (λ n. n + needed signs vss)
              (dim-replaced (values_at vss i) sign s e v found own same
                ∙ ap (λ j. dim_of (lookup sign_of (values_at vss j) s)) ((==_iff i k).0 q)))
        | inr q ↦ rw q refl
      ])
    where
      vss' : List (List (HashMapEmbeddingEntry F))
      vss' = set vss i (replaced sign_of (values_at vss i) sign v)

  pub AllHold-set :
      (inner : List (EvictionMap ℕ (HashMapEmbeddingEntry F)))
      (vss : List (List (HashMapEmbeddingEntry F))) (i : ℕ)
      (m : EvictionMap ℕ (HashMapEmbeddingEntry F)) (vs : List (HashMapEmbeddingEntry F))
      → i < length inner
      → length vss ≡ length inner
      → AllHold inner vss
      → Holds sign_of m vs
      → AllHold (set inner i m) (set vss i vs)
  AllHold-set inner vss i m vs h same holds here k below = elim (Bool-cases (i == k)) [
    | inl t ↦ (
      m,
      get_elem?-set inner i k m h ∙ rw t refl,
      subst (Holds sign_of m) (sym (values_at-set vss i k vs (omega (arith, h, same)) ∙ rw t refl))
          here,
    )
    | inr t ↦
        let (m1, there, h1) = holds k (omega (arith, below, length-set inner i m)) in
        (
          m1,
          get_elem?-set inner i k m h ∙ rw t there,
          subst (Holds sign_of m1)
              (sym (values_at-set vss i k vs (omega (arith, h, same)) ∙ rw t refl)) h1,
        )
  ]
