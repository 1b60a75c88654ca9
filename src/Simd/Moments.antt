-- ===== src/Simd/Moments.antt =====
-- What `adam_avx2` and `weight_bound` of rust/persia-simd/src/lib.rs compute, element by element.
use persia.Base.{◌≡◌, refl, ap, subst, ◌∙◌, List, [], ◌∷◌, ◌++◌, map, length, length-map, ok}
use persia.Simd.Lanes.{Floats, M256}
use persia.Simd.Looped.{
  by_eights, both-rows, eight, map8, loadu_ps-map, storeu_ps-map, index-map, set-map,
}
use persia.Simd.{
  AdamConstants, adam_constants, adam_lanes, adam_at, adam_avx2, bound_lanes, bound_at,
  weight_bound,
}

pub record AdamRow (F : Type 0) : Type 0 where
  pub m : F
  pub v : F
  pub embedding : F
  pub gradient : F

module _ (fl : Floats) where
  abbrev m_of : AdamRow fl.F → fl.F
  m_of r = r.m

  abbrev v_of : AdamRow fl.F → fl.F
  v_of r = r.v

  abbrev weight_of : AdamRow fl.F → fl.F
  weight_of r = r.embedding

  abbrev slope_of : AdamRow fl.F → fl.F
  slope_of r = r.gradient

  abbrev pub adam_columns : List (AdamRow fl.F) → List fl.F × (List fl.F × List fl.F)
  adam_columns rows = (map (λ r. r.m) rows, (map (λ r. r.v) rows, map (λ r. r.embedding) rows))

  -- The step of Adam for given moments, as the first loop has it and as the second one.
  abbrev pub adam_lane : AdamConstants fl → AdamRow fl.F → AdamRow fl.F
  adam_lane k r =
      let m' = fl.fmadd k.beta1 r.m (fl.mul k.one_minus_beta1 r.gradient) in
      let v' = fl.fmadd k.beta2 r.v (fl.mul k.one_minus_beta2 (fl.mul r.gradient r.gradient)) in
      record r {
        m = m';
        v = v';
        embedding =
            fl.fnmadd k.lr
              (fl.div (fl.mul m' k.one_minus_beta1_power_recip)
                (fl.add k.eps (fl.sqrt (fl.mul v' k.one_minus_beta2_power_recip))))
              r.embedding;
      }

  abbrev pub adam_scalar : AdamConstants fl → AdamRow fl.F → AdamRow fl.F
  adam_scalar k r =
      let m' = fl.add (fl.mul k.beta1 r.m) (fl.mul k.one_minus_beta1 r.gradient) in
      let v' =
        fl.add (fl.mul k.beta2 r.v) (fl.mul (fl.mul k.one_minus_beta2 r.gradient) r.gradient) in
      record r {
        m = m';
        v = v';
        embedding = fl.sub r.embedding (
            fl.mul k.lr (
              fl.div (fl.mul m' k.one_minus_beta1_power_recip)
                (fl.add k.eps (fl.sqrt (fl.mul v' k.one_minus_beta2_power_recip)))));
      }

  adam_lanes-rows :
      (k : AdamConstants fl) (d : List (AdamRow fl.F)) (v : M256 (AdamRow fl.F))
      (rest : List (AdamRow fl.F))
      → adam_lanes fl k
          (map slope_of (d ++ eight v rest))
          (length d)
          (adam_columns (d ++ eight v rest))
        ≡ ok (adam_columns (d ++ eight (map8 (adam_lane k) v) rest))
  unfolding adam_lanes
  adam_lanes-rows k d v rest =
      rw
        (
          loadu_ps-map slope_of d v rest,
          loadu_ps-map weight_of d v rest,
          loadu_ps-map v_of d v rest,
          loadu_ps-map m_of d v rest,
          storeu_ps-map m_of d v (map8 (adam_lane k) v) rest,
          storeu_ps-map v_of d v (map8 (adam_lane k) v) rest,
          storeu_ps-map weight_of d v (map8 (adam_lane k) v) rest,
        )
        refl

  adam_at-row :
      (k : AdamConstants fl) (d : List (AdamRow fl.F)) (r : AdamRow fl.F)
      (rest : List (AdamRow fl.F))
      → adam_at fl k (map slope_of (d ++ r ∷ rest)) (length d) (adam_columns (d ++ r ∷ rest))
        ≡ ok (adam_columns (d ++ adam_scalar k r ∷ rest))
  unfolding adam_at
  adam_at-row k d r rest =
      rw
        (
          index-map slope_of d r rest,
          index-map weight_of d r rest,
          index-map v_of d r rest,
          index-map m_of d r rest,
          set-map m_of d r (adam_scalar k r) rest,
          set-map v_of d r (adam_scalar k r) rest,
          set-map weight_of d r (adam_scalar k r) rest,
        )
        refl

  -- `adam_avx2`, on slices of the same length (the columns of the rows), updates every element once
  -- by the step of Adam, and neither panics nor leaves a slice: the first `length / 8 * 8`
  -- elements with the fused operations of the vectors, the others with those of the scalar code.
  pub adam_avx2-rows :
      (rows : List (AdamRow fl.F)) (beta1_power beta2_power lr beta1 beta2 eps : fl.F)
      → adam_avx2 fl
          (map (λ r. r.m) rows)
          (map (λ r. r.v) rows)
          beta1_power
          beta2_power
          (map (λ r. r.embedding) rows)
          (map (λ r. r.gradient) rows)
          lr
          beta1
          beta2
          eps
        ≡ ok (
            adam_columns (
              by_eights
                (adam_lane (adam_constants fl beta1_power beta2_power lr beta1 beta2 eps))
                (adam_scalar (adam_constants fl beta1_power beta2_power lr beta1 beta2 eps))
                rows))
  unfolding adam_avx2
  adam_avx2-rows rows beta1_power beta2_power lr beta1 beta2 eps =
      let k = adam_constants fl beta1_power beta2_power lr beta1 beta2 eps in
      rw (length-map weight_of rows) (
        both-rows adam_columns slope_of (adam_lanes fl k) (adam_at fl k) (adam_lane k)
          (adam_scalar k) (adam_lanes-rows k) (adam_at-row k) (λ r. refl) (λ r. refl) rows)

  abbrev pub bound_lane : (bound : fl.F) → fl.F → fl.F
  bound_lane bound x = fl.lane_min (fl.lane_max x (fl.neg bound)) bound

  abbrev pub bound_scalar : (bound : fl.F) → fl.F → fl.F
  bound_scalar bound x = fl.min (fl.max x (fl.neg bound)) bound

  abbrev nothing : fl.F → Unit {0}
  nothing x = tt

  abbrev itself : fl.F → fl.F
  itself x = x

  map_id : (xs : List fl.F) → map itself xs ≡ xs
  map_id [] = refl
  map_id (x ∷ xs) = ap (◌∷◌ x) (map_id xs)

  -- `weight_bound`, on any slice.
  pub weight_bound-rows :
      (xs : List fl.F) (bound : fl.F)
      → weight_bound fl xs bound ≡ ok (by_eights (bound_lane bound) (bound_scalar bound) xs)
  unfolding weight_bound bound_lanes bound_at
  weight_bound-rows xs bound =
      subst
        (λ ys. weight_bound fl ys bound ≡ ok (by_eights (bound_lane bound) (bound_scalar bound) xs))
        (map_id xs)
        (rw (length-map itself xs) (
            both-rows (map itself) nothing (λ g. bound_lanes fl bound) (λ g. bound_at fl bound)
              (bound_lane bound) (bound_scalar bound)
              (λ d v rest.
                rw (loadu_ps-map itself d v rest)
                  (storeu_ps-map itself d v (map8 (bound_lane bound) v) rest))
              (λ d r rest.
                rw (index-map itself d r rest)
                  (ap ok (set-map itself d r (bound_scalar bound r) rest)))
              (λ r. refl) (λ r. refl) xs)
          ∙ ap ok (map_id (by_eights (bound_lane bound) (bound_scalar bound) xs)))
