-- ===== src/Simd/Elementwise.antt =====
-- What the loops of rust/persia-simd/src/lib.rs compute: the same for every element of the slices, given as rows.
use persia.Base.{arith, length, ◌≡◌, refl, ap, ◌∙◌, List, [], ◌∷◌, map, length-map, ok}
use persia.Simd.Lanes.{Floats}
use persia.Simd.Looped.{
  by_eights, by_eights-same, both-rows, map8, loadu_ps-map, storeu_ps-map, index-map, set-map,
}
use persia.Simd.{
  add_assign_lanes, add_assign_at, add_assign_avx2, sgd_lanes, sgd_at, decayed_sgd_avx2,
  shared_lanes, shared_at, decayed_adagrad_vectorwise_shared_avx2, adagrad_lanes, adagrad_at,
  decayed_adagrad_avx2,
}

-- The floats of two slices at an index.
pub record Row (F : Type 0) : Type 0 where
  pub embedding : F
  pub gradient : F

pub record AdagradRow (F : Type 0) : Type 0 where
  pub adagrad : F
  pub embedding : F
  pub gradient : F

module _ {F : Type 0} where
  -- Two slices of the same length are the columns of rows.
  pub rows2 :
      (xs ys : List F)
      → length xs ≡ length ys
      → (rows : List (Row F)) × (map (λ r. r.embedding) rows ≡ xs)
        × (map (λ r. r.gradient) rows ≡ ys)
  rows2 [] [] h = ([], refl, refl)
  rows2 [] (y ∷ ys) h = absurd (omega arith)
  rows2 (x ∷ xs) [] h = absurd (omega arith)
  rows2 (x ∷ xs) (y ∷ ys) h =
      let (rows, p, q) = rows2 xs ys (omega arith) in
      (record { embedding = x; gradient = y } ∷ rows, ap (◌∷◌ x) p, ap (◌∷◌ y) q)

module _ (fl : Floats) where
  abbrev pub embedding_of : Row fl.F → fl.F
  embedding_of r = r.embedding

  abbrev pub gradient_of : Row fl.F → fl.F
  gradient_of r = r.gradient

  abbrev pub added : Row fl.F → Row fl.F
  added r = record r { embedding = fl.add r.embedding r.gradient }

  -- `add_assign_avx2`, on slices of the same length (the columns of the rows), adds to every element
  -- of the first the one at its place in the second, whatever the length.
  pub add_assign_avx2-rows :
      (rows : List (Row fl.F))
      → add_assign_avx2 fl (map embedding_of rows) (map gradient_of rows)
        ≡ ok (map (λ r. fl.add r.embedding r.gradient) rows)
  unfolding add_assign_avx2 add_assign_lanes add_assign_at
  add_assign_avx2-rows rows =
      rw (length-map embedding_of rows) (
        both-rows (map embedding_of) gradient_of (add_assign_lanes fl) (add_assign_at fl) added
          added
          (λ d v rest.
            rw (loadu_ps-map embedding_of d v rest, loadu_ps-map gradient_of d v rest)
              (storeu_ps-map embedding_of d v (map8 added v) rest))
          (λ d r rest.
            rw (index-map embedding_of d r rest, index-map gradient_of d r rest)
              (ap ok (set-map embedding_of d r (added r) rest)))
          (λ r. refl) (λ r. refl) rows)
      ∙ ap ok (ap (map embedding_of) (by_eights-same added rows) ∙ map-added rows)
    where
      map-added :
          (rs : List (Row fl.F))
          → map embedding_of (map added rs) ≡ map (λ r. fl.add r.embedding r.gradient) rs
      map-added [] = refl
      map-added (r ∷ rs) = ap (◌∷◌ (fl.add r.embedding r.gradient)) (map-added rs)

  abbrev pub sgd_lane : (wd lr : fl.F) → Row fl.F → Row fl.F
  sgd_lane wd lr r = record r {
    embedding = fl.fnmadd lr (fl.fmadd wd r.embedding r.gradient) r.embedding;
  }

  abbrev pub sgd_scalar : (wd lr : fl.F) → Row fl.F → Row fl.F
  sgd_scalar wd lr r = record r {
    embedding = fl.sub r.embedding (fl.mul lr (fl.add r.gradient (fl.mul r.embedding wd)));
  }

  pub decayed_sgd_avx2-rows :
      (rows : List (Row fl.F)) (wd lr : fl.F)
      → decayed_sgd_avx2 fl (map embedding_of rows) (map gradient_of rows) wd lr
        ≡ ok (map embedding_of (by_eights (sgd_lane wd lr) (sgd_scalar wd lr) rows))
  unfolding decayed_sgd_avx2 sgd_lanes sgd_at
  decayed_sgd_avx2-rows rows wd lr = rw (length-map embedding_of rows) (
      both-rows (map embedding_of) gradient_of (λ g. sgd_lanes fl g wd lr) (λ g. sgd_at fl g wd lr)
        (sgd_lane wd lr) (sgd_scalar wd lr)
        (λ d v rest.
          rw (loadu_ps-map gradient_of d v rest, loadu_ps-map embedding_of d v rest)
            (storeu_ps-map embedding_of d v (map8 (sgd_lane wd lr) v) rest))
        (λ d r rest.
          rw (index-map gradient_of d r rest, index-map embedding_of d r rest)
            (ap ok (set-map embedding_of d r (sgd_scalar wd lr r) rest)))
        (λ r. refl) (λ r. refl) rows)

  abbrev pub shared_lane : (adagrad learning_rate eps : fl.F) → Row fl.F → Row fl.F
  shared_lane adagrad learning_rate eps r = record r {
    embedding =
        fl.fnmadd learning_rate (fl.mul r.gradient (fl.rsqrt (fl.add adagrad eps))) r.embedding;
  }

  abbrev pub shared_scalar : (adagrad learning_rate eps : fl.F) → Row fl.F → Row fl.F
  shared_scalar adagrad learning_rate eps r = record r {
    embedding =
        fl.add
          (fl.mul (fl.neg learning_rate)
            (fl.mul r.gradient (fl.recip (fl.sqrt (fl.add adagrad eps)))))
          r.embedding;
  }

  pub shared-rows :
      (rows : List (Row fl.F)) (a lr eps : fl.F)
      → decayed_adagrad_vectorwise_shared_avx2 fl a
          (map embedding_of rows)
          (map gradient_of rows)
          lr
          eps
        ≡ ok (map embedding_of (by_eights (shared_lane a lr eps) (shared_scalar a lr eps) rows))
  unfolding decayed_adagrad_vectorwise_shared_avx2 shared_lanes shared_at
  shared-rows rows a lr eps = rw (length-map embedding_of rows) (
      both-rows (map embedding_of) gradient_of (λ g. shared_lanes fl a g lr eps)
        (λ g. shared_at fl a g lr eps) (shared_lane a lr eps) (shared_scalar a lr eps)
        (λ d v rest.
          rw (loadu_ps-map gradient_of d v rest, loadu_ps-map embedding_of d v rest)
            (storeu_ps-map embedding_of d v (map8 (shared_lane a lr eps) v) rest))
        (λ d r rest.
          rw (index-map gradient_of d r rest, index-map embedding_of d r rest)
            (ap ok (set-map embedding_of d r (shared_scalar a lr eps r) rest)))
        (λ r. refl) (λ r. refl) rows)

  abbrev pub adagrad_columns : List (AdagradRow fl.F) → List fl.F × List fl.F
  adagrad_columns rows = (map (λ r. r.adagrad) rows, map (λ r. r.embedding) rows)

  abbrev pub adagrad_lane : (momentum learning_rate eps : fl.F) → AdagradRow fl.F → AdagradRow fl.F
  adagrad_lane momentum learning_rate eps r = record r {
    adagrad = fl.fmadd r.adagrad momentum (fl.mul r.gradient r.gradient);
    embedding =
        fl.fnmadd learning_rate (fl.mul r.gradient (fl.rsqrt (fl.add r.adagrad eps))) r.embedding;
  }

  abbrev pub adagrad_scalar :
      (momentum learning_rate eps : fl.F) → AdagradRow fl.F → AdagradRow fl.F
  adagrad_scalar momentum learning_rate eps r = record r {
    adagrad = fl.add (fl.mul r.adagrad momentum) (fl.mul r.gradient r.gradient);
    embedding =
        fl.add
          (fl.mul (fl.neg learning_rate)
            (fl.mul r.gradient (fl.recip (fl.sqrt (fl.add r.adagrad eps)))))
          r.embedding;
  }

  abbrev state_of : AdagradRow fl.F → fl.F
  state_of r = r.adagrad

  abbrev weight_of : AdagradRow fl.F → fl.F
  weight_of r = r.embedding

  abbrev slope_of : AdagradRow fl.F → fl.F
  slope_of r = r.gradient

  -- On states, embeddings and gradients of the same length (the columns of rows), whatever it is and
  -- whatever the operations on floats are, the loop of Adagrad runs without a panic or an access
  -- beyond a slice, and changes every state and embedding once, both from the old ones: up to the last
  -- multiple of eight by the fused formula of the lanes, after it by the scalar one.
  pub decayed_adagrad_avx2-rows :
      (rows : List (AdagradRow fl.F)) (momentum lr eps : fl.F)
      → decayed_adagrad_avx2 fl
          (map (λ r. r.adagrad) rows)
          (map (λ r. r.embedding) rows)
          (map (λ r. r.gradient) rows)
          momentum
          lr
          eps
        ≡ ok (
            adagrad_columns
              (by_eights (adagrad_lane momentum lr eps) (adagrad_scalar momentum lr eps) rows))
  unfolding decayed_adagrad_avx2 adagrad_lanes adagrad_at
  decayed_adagrad_avx2-rows rows momentum lr eps = rw (length-map state_of rows) (
      both-rows adagrad_columns slope_of (λ g. adagrad_lanes fl g momentum lr eps)
        (λ g. adagrad_at fl g momentum lr eps) (adagrad_lane momentum lr eps)
        (adagrad_scalar momentum lr eps)
        (λ d v rest.
          rw
            (
              loadu_ps-map state_of d v rest,
              loadu_ps-map weight_of d v rest,
              loadu_ps-map slope_of d v rest,
              storeu_ps-map weight_of d v (map8 (adagrad_lane momentum lr eps) v) rest,
              storeu_ps-map state_of d v (map8 (adagrad_lane momentum lr eps) v) rest,
            )
            refl)
        (λ d r rest.
          rw
            (
              index-map state_of d r rest,
              index-map weight_of d r rest,
              index-map slope_of d r rest,
              set-map weight_of d r (adagrad_scalar momentum lr eps r) rest,
              set-map state_of d r (adagrad_scalar momentum lr eps r) rest,
            )
            refl)
        (λ r. refl) (λ r. refl) rows)
