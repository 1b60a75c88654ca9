-- ===== src/Tests/Optims.antt =====
-- Examples for persia-simd/src/lib.rs and optim.rs.
use persia.Base.{
  ℕ, ◌+◌, ◌-◌, ◌*◌, ◌/◌, ◌≡◌, refl, some, List, [], ◌∷◌, map, length, replicate, u32_sub,
  if◌then◌else◌, ltb, omap, ok,
}
use persia.Base.Map.{nat_eq, Map, get}
use persia.Simd.Lanes.{Floats}
use persia.Simd.Looped.{by_eights}
use persia.Simd.{
  add_assign_avx2, add_assign_lanes, add_assign_at, steps, left_over, decayed_adagrad_avx2,
  adam_constants, adam_avx2,
}
use persia.Simd.Elementwise.{
  Row, AdagradRow, embedding_of, gradient_of, add_assign_avx2-rows, adagrad_scalar, adagrad_columns,
  adagrad_lane, decayed_adagrad_avx2-rows,
}
use persia.Simd.Moments.{AdamRow, adam_columns, adam_lane, adam_scalar, adam_avx2-rows}
use persia.Optim.{
  Adam, AdamPowerOfBetas, adam, masked_sign, next_betas, get_batch_level_state, get_emb_state,
  require_space, update,
}
use persia.Optim.Powers.{in_batch, get_batch_level_state-steps}
use persia.Optim.Updated.{update-sized}

-- Whole numbers for floats, so that results can be computed.
abbrev pub whole : Floats
whole = record {
  F = ℕ;
  zero = 0;
  one = 1;
  of_nat = λ n. n;
  add = ◌+◌;
  sub = ◌-◌;
  mul = ◌*◌;
  div = ◌/◌;
  neg = λ n. n;
  sqrt = λ n. n;
  recip = λ n. n;
  max = λ a b. if ltb a b then b else a;
  min = λ a b. if ltb a b then a else b;
  fmadd = λ a b c. a * b + c;
  fnmadd = λ a b c. c - a * b;
  rsqrt = λ n. n;
  lane_max = λ a b. if ltb a b then b else a;
  lane_min = λ a b. if ltb a b then a else b;
}

-- One step of eight and one float more.
abbrev nine_rows : List (Row ℕ)
nine_rows = replicate 9 (record { embedding = 10; gradient = 3 })

add_assign_run : add_assign_avx2 whole (replicate 9 10) (replicate 9 3) ≡ ok (replicate 9 13)
unfolding add_assign_avx2 add_assign_lanes add_assign_at steps left_over
add_assign_run = refl

add_assign_avx2-rows_example :
    add_assign_avx2 whole (map (embedding_of whole) nine_rows) (map (gradient_of whole) nine_rows)
    ≡ ok (map (λ r. r.embedding + r.gradient) nine_rows)
add_assign_avx2-rows_example = add_assign_avx2-rows whole nine_rows

abbrev adam_rows : List (AdamRow ℕ)
adam_rows = replicate 9 (record { m = 1; v = 2; embedding = 100; gradient = 3 })

adam_avx2-rows_example :
    adam_avx2 whole
      (map (λ r. r.m) adam_rows)
      (map (λ r. r.v) adam_rows)
      0
      0
      (map (λ r. r.embedding) adam_rows)
      (map (λ r. r.gradient) adam_rows)
      2
      0
      0
      1
    ≡ ok (
        adam_columns whole (
          by_eights
            (adam_lane whole (adam_constants whole 0 0 2 0 0 1))
            (adam_scalar whole (adam_constants whole 0 0 2 0 0 1))
            adam_rows))
adam_avx2-rows_example = adam_avx2-rows whole adam_rows 0 0 2 0 0 1

abbrev adagrad_rows : List (AdagradRow ℕ)
adagrad_rows = replicate 9 (record { adagrad = 1; embedding = 100; gradient = 3 })

decayed_adagrad_avx2-rows_example :
    decayed_adagrad_avx2 whole
      (map (λ r. r.adagrad) adagrad_rows)
      (map (λ r. r.embedding) adagrad_rows)
      (map (λ r. r.gradient) adagrad_rows)
      2
      1
      1
    ≡ ok (
        adagrad_columns whole
          (by_eights (adagrad_lane whole 2 1 1) (adagrad_scalar whole 2 1 1) adagrad_rows))
decayed_adagrad_avx2-rows_example = decayed_adagrad_avx2-rows whole adagrad_rows 2 1 1

-- Two feature groups, with the 32 highest bits of a sign for the group.
abbrev two_groups : Adam ℕ
two_groups = record {
  config = record { lr = 1; beta1 = 2; beta2 = 3; eps = 1 };
  embedding_config = record {
    feature_index_prefix_bit = 32;
    slots_config = [];
    feature_groups = [];
  };
  accum_betas =
      (4294967296, record { beta1 = 2; beta2 = 3 })
      ∷ (8589934592, record { beta1 = 4; beta2 = 9 })
      ∷ [];
}

-- Two signs of the first group.
abbrev two_signs : List ℕ
two_signs = 4294967303 ∷ 4294967304 ∷ []

get_batch_level_state-steps_example :
    (state : List ℕ) × (accum' : Map ℕ (AdamPowerOfBetas ℕ)) × (get_batch_level_state whole
        two_groups two_signs
      ≡ ok (some state, record two_groups { accum_betas = accum' }))
    × (get_emb_state whole (some state) 1 ≡ ok (some (4 ∷ 9 ∷ [])))
    × ((group : ℕ)
        → get accum' group ≡ (
            if in_batch whole two_groups.config 32 two_signs group
            then omap (next_betas whole two_groups.config) (get two_groups.accum_betas group)
            else get two_groups.accum_betas group))
unfolding get masked_sign u32_sub
get_batch_level_state-steps_example =
    get_batch_level_state-steps whole two_groups two_signs 1 4294967304
      (record { beta1 = 2; beta2 = 3 }) (refl, (refl, tt)) refl refl

update-sized_example :
    (entry' : List ℕ) × (update whole
        (λ xs ys. 0)
        (adam two_groups)
        (replicate 27 1)
        (replicate 9 3)
        9
        (some (4 ∷ 9 ∷ []))
      ≡ ok entry')
    × (length entry' ≡ 27)
unfolding require_space
update-sized_example =
    update-sized whole (λ xs ys. 0) (adam two_groups) (replicate 27 1) (replicate 9 3) 4 9 refl
