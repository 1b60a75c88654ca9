-- ===== src/Simd.antt =====
-- rust/persia-simd/src/lib.rs: the loops of the optimizers over slices of f32. A loop takes eight
-- floats at a time with AVX2 intrinsics, through raw pointers, and what is left one at a time,
-- with checked indices. `Simd/Lanes` has the vectors and the two kinds of loop.
pub mod Lanes
pub mod Looped
pub mod Elementwise
pub mod Zipped
pub mod Moments
use persia.Base.{
  ℕ, ◌+◌, ◌-◌, ◌*◌, ◌/◌, List, [], ◌∷◌, ◌++◌, map, length, take, drop, Outcome, ok, ◌>>=◌,
}
use persia.Simd.Lanes.{
  Floats, M256, set1_ps, lanewise, lanewise2, lanewise3, loadu_ps, storeu_ps, index, write,
  for_step8, for_range,
}

-- How many steps of eight a slice has, and how many floats are left.
unfoldable pub steps : (length : ℕ) → ℕ
steps n = n / 8

unfoldable pub left_over : (length : ℕ) → ℕ
left_over n = n - n / 8 * 8

module _ (fl : Floats) where
  -- The body of each loop of `add_assign_avx2`.
  unfoldable pub add_assign_lanes : (b : List fl.F) (i : ℕ) → List fl.F → Outcome (List fl.F)
  add_assign_lanes b i a = do
    a_v ← loadu_ps a i
    b_v ← loadu_ps b i
    storeu_ps a i (lanewise2 fl.add a_v b_v)

  unfoldable pub add_assign_at : (b : List fl.F) (i : ℕ) → List fl.F → Outcome (List fl.F)
  add_assign_at b i a = do x ← index a i; y ← index b i; write a i (fl.add x y)

  unfoldable pub add_assign_avx2 : (a b : List fl.F) → Outcome (List fl.F)
  add_assign_avx2 a b = do
    a1 ← for_step8 (add_assign_lanes b) (steps (length a)) 0 a
    for_range (add_assign_at b) (left_over (length a)) (steps (length a) * 8) a1

  -- `decayed_adagrad_avx2`, on the state and the embedding.
  unfoldable pub adagrad_lanes :
      (gradient : List fl.F) (g_square_momentum learning_rate eps : fl.F) (i : ℕ)
      → List fl.F × List fl.F
      → Outcome (List fl.F × List fl.F)
  adagrad_lanes gradient g_square_momentum learning_rate eps i (adagrad, embedding) = do
    adagrad_v ← loadu_ps adagrad i
    embedding_v ← loadu_ps embedding i
    gradient_v ← loadu_ps gradient i
    let squared_v = lanewise2 fl.mul gradient_v gradient_v
    let scaled_gradient_v =
        lanewise2 fl.mul gradient_v (lanewise fl.rsqrt (lanewise2 fl.add adagrad_v (set1_ps eps)))
    let embedding_result_v =
        lanewise3 fl.fnmadd (set1_ps learning_rate) scaled_gradient_v embedding_v
    embedding' ← storeu_ps embedding i embedding_result_v
    let updated_adagrad_v = lanewise3 fl.fmadd adagrad_v (set1_ps g_square_momentum) squared_v
    adagrad' ← storeu_ps adagrad i updated_adagrad_v
    ok (adagrad', embedding')

  unfoldable pub adagrad_at :
      (gradient : List fl.F) (g_square_momentum learning_rate eps : fl.F) (i : ℕ)
      → List fl.F × List fl.F
      → Outcome (List fl.F × List fl.F)
  adagrad_at gradient g_square_momentum learning_rate eps i (adagrad, embedding) = do
    adagrad_v ← index adagrad i
    embedding_v ← index embedding i
    gradient_v ← index gradient i
    let squared_v = fl.mul gradient_v gradient_v
    let scaled_gradient_v = fl.mul gradient_v (fl.recip (fl.sqrt (fl.add adagrad_v eps)))
    let embedding_result_v = fl.add (fl.mul (fl.neg learning_rate) scaled_gradient_v) embedding_v
    embedding' ← write embedding i embedding_result_v
    let updated_adagrad_v = fl.add (fl.mul adagrad_v g_square_momentum) squared_v
    adagrad' ← write adagrad i updated_adagrad_v
    ok (adagrad', embedding')

  unfoldable pub decayed_adagrad_avx2 :
      (adagrad embedding gradient : List fl.F) (g_square_momentum learning_rate eps : fl.F)
      → Outcome (List fl.F × List fl.F)
  decayed_adagrad_avx2 adagrad embedding gradient g_square_momentum learning_rate eps = do
    s ←
        for_step8 (adagrad_lanes gradient g_square_momentum learning_rate eps)
          (steps (length adagrad)) 0 (adagrad, embedding)
    for_range (adagrad_at gradient g_square_momentum learning_rate eps) (left_over (length adagrad))
        (steps (length adagrad) * 8) s

  -- `decayed_adagrad_vectorwise_shared_avx2`, with one number of state.
  unfoldable pub shared_lanes :
      (adagrad : fl.F) (gradient : List fl.F) (learning_rate eps : fl.F) (i : ℕ)
      → List fl.F
      → Outcome (List fl.F)
  shared_lanes adagrad gradient learning_rate eps i embedding = do
    embedding_v ← loadu_ps embedding i
    gradient_v ← loadu_ps gradient i
    let scaled_gradient_v =
        lanewise2 fl.mul gradient_v
          (lanewise fl.rsqrt (lanewise2 fl.add (set1_ps adagrad) (set1_ps eps)))
    storeu_ps embedding i
        (lanewise3 fl.fnmadd (set1_ps learning_rate) scaled_gradient_v embedding_v)

  unfoldable pub shared_at :
      (adagrad : fl.F) (gradient : List fl.F) (learning_rate eps : fl.F) (i : ℕ)
      → List fl.F
      → Outcome (List fl.F)
  shared_at adagrad gradient learning_rate eps i embedding = do
    embedding_v ← index embedding i
    gradient_v ← index gradient i
    let scaled_gradient_v = fl.mul gradient_v (fl.recip (fl.sqrt (fl.add adagrad eps)))
    write embedding i (fl.add (fl.mul (fl.neg learning_rate) scaled_gradient_v) embedding_v)

  unfoldable pub decayed_adagrad_vectorwise_shared_avx2 :
      (adagrad : fl.F) (embedding gradient : List fl.F) (learning_rate eps : fl.F)
      → Outcome (List fl.F)
  decayed_adagrad_vectorwise_shared_avx2 adagrad embedding gradient learning_rate eps = do
    e ←
        for_step8 (shared_lanes adagrad gradient learning_rate eps) (steps (length embedding)) 0
          embedding
    for_range (shared_at adagrad gradient learning_rate eps) (left_over (length embedding))
        (steps (length embedding) * 8) e

  unfoldable pub sgd_lanes :
      (grad : List fl.F) (wd lr : fl.F) (i : ℕ) → List fl.F → Outcome (List fl.F)
  sgd_lanes grad wd lr i emb = do
    grad_v ← loadu_ps grad i
    emb_v ← loadu_ps emb i
    let decay_grad_v = lanewise3 fl.fmadd (set1_ps wd) emb_v grad_v
    let updated_emb = lanewise3 fl.fnmadd (set1_ps lr) decay_grad_v emb_v
    storeu_ps emb i updated_emb

  unfoldable pub sgd_at :
      (grad : List fl.F) (wd lr : fl.F) (i : ℕ) → List fl.F → Outcome (List fl.F)
  sgd_at grad wd lr i emb = do
    g ← index grad i
    e ← index emb i
    let decay_grad_v = fl.add g (fl.mul e wd)
    write emb i (fl.sub e (fl.mul lr decay_grad_v))

  unfoldable pub decayed_sgd_avx2 : (emb grad : List fl.F) (wd lr : fl.F) → Outcome (List fl.F)
  decayed_sgd_avx2 emb grad wd lr = do
    e ← for_step8 (sgd_lanes grad wd lr) (steps (length emb)) 0 emb
    for_range (sgd_at grad wd lr) (left_over (length emb)) (steps (length emb) * 8) e

  -- The constants of `adam_avx2` that its loops share.
  pub record AdamConstants : Type 0 where
    pub one_minus_beta1_power_recip : fl.F
    pub one_minus_beta2_power_recip : fl.F
    pub one_minus_beta1 : fl.F
    pub one_minus_beta2 : fl.F
    pub lr : fl.F
    pub beta1 : fl.F
    pub beta2 : fl.F
    pub eps : fl.F

  -- On the first moments, the second moments and the embedding.
  unfoldable pub adam_lanes :
      AdamConstants
      → (grad : List fl.F) (i : ℕ) → List fl.F × (List fl.F × List fl.F)
      → Outcome (List fl.F × (List fl.F × List fl.F))
  adam_lanes k grad i (adam_m, (adam_v, emb)) = do
    grad_vec ← loadu_ps grad i
    emb_vec ← loadu_ps emb i
    adam_v_vec ← loadu_ps adam_v i
    adam_m_vec ← loadu_ps adam_m i
    let updated_m =
        lanewise3 fl.fmadd (set1_ps k.beta1) adam_m_vec
          (lanewise2 fl.mul (set1_ps k.one_minus_beta1) grad_vec)
    let updated_v =
        lanewise3 fl.fmadd (set1_ps k.beta2) adam_v_vec
          (lanewise2 fl.mul (set1_ps k.one_minus_beta2) (lanewise2 fl.mul grad_vec grad_vec))
    let m_bias_corr = lanewise2 fl.mul updated_m (set1_ps k.one_minus_beta1_power_recip)
    let v_bias_corr = lanewise2 fl.mul updated_v (set1_ps k.one_minus_beta2_power_recip)
    let descent =
        lanewise2 fl.div m_bias_corr
          (lanewise2 fl.add (set1_ps k.eps) (lanewise fl.sqrt v_bias_corr))
    let updated_emb = lanewise3 fl.fnmadd (set1_ps k.lr) descent emb_vec
    adam_m' ← storeu_ps adam_m i updated_m
    adam_v' ← storeu_ps adam_v i updated_v
    emb' ← storeu_ps emb i updated_emb
    ok (adam_m', (adam_v', emb'))

  unfoldable pub adam_at :
      AdamConstants
      → (grad : List fl.F) (i : ℕ) → List fl.F × (List fl.F × List fl.F)
      → Outcome (List fl.F × (List fl.F × List fl.F))
  adam_at k grad i (adam_m, (adam_v, emb)) = do
    grad_val ← index grad i
    emb_val ← index emb i
    adam_v_val ← index adam_v i
    adam_m_val ← index adam_m i
    let updated_m = fl.add (fl.mul k.beta1 adam_m_val) (fl.mul k.one_minus_beta1 grad_val)
    let updated_v =
        fl.add (fl.mul k.beta2 adam_v_val) (fl.mul (fl.mul k.one_minus_beta2 grad_val) grad_val)
    let m_bias_corr = fl.mul updated_m k.one_minus_beta1_power_recip
    let v_bias_corr = fl.mul updated_v k.one_minus_beta2_power_recip
    let descent = fl.div m_bias_corr (fl.add k.eps (fl.sqrt v_bias_corr))
    let updated_emb = fl.sub emb_val (fl.mul k.lr descent)
    adam_m' ← write adam_m i updated_m
    adam_v' ← write adam_v i updated_v
    emb' ← write emb i updated_emb
    ok (adam_m', (adam_v', emb'))

  unfoldable pub adam_constants :
      (beta1_power beta2_power lr beta1 beta2 eps : fl.F) → AdamConstants
  adam_constants beta1_power beta2_power lr beta1 beta2 eps = record {
    one_minus_beta1_power_recip = fl.recip (fl.sub fl.one beta1_power);
    one_minus_beta2_power_recip = fl.recip (fl.sub fl.one beta2_power);
    one_minus_beta1 = fl.sub fl.one beta1;
    one_minus_beta2 = fl.sub fl.one beta2;
    lr = lr;
    beta1 = beta1;
    beta2 = beta2;
    eps = eps;
  }

  unfoldable pub adam_avx2 :
      (adam_m adam_v : List fl.F) (beta1_power beta2_power : fl.F) (emb grad : List fl.F)
      (lr beta1 beta2 eps : fl.F)
      → Outcome (List fl.F × (List fl.F × List fl.F))
  adam_avx2 adam_m adam_v beta1_power beta2_power emb grad lr beta1 beta2 eps = do
    let k = adam_constants beta1_power beta2_power lr beta1 beta2 eps
    s ← for_step8 (adam_lanes k grad) (steps (length emb)) 0 (adam_m, (adam_v, emb))
    for_range (adam_at k grad) (left_over (length emb)) (steps (length emb) * 8) s

  unfoldable pub bound_lanes : (weight_bound : fl.F) (i : ℕ) → List fl.F → Outcome (List fl.F)
  bound_lanes weight_bound i embedding = do
    embedding_v ← loadu_ps embedding i
    storeu_ps embedding i (
        lanewise2 fl.lane_min (lanewise2 fl.lane_max embedding_v (set1_ps (fl.neg weight_bound)))
          (set1_ps weight_bound))

  unfoldable pub bound_at : (weight_bound : fl.F) (i : ℕ) → List fl.F → Outcome (List fl.F)
  bound_at weight_bound i embedding = do
    embedding_v ← index embedding i
    write embedding i (fl.min (fl.max embedding_v (fl.neg weight_bound)) weight_bound)

  unfoldable pub weight_bound : (embedding : List fl.F) (weight_bound : fl.F) → Outcome (List fl.F)
  weight_bound embedding bound = do
    e ← for_step8 (bound_lanes bound) (steps (length embedding)) 0 embedding
    for_range (bound_at bound) (left_over (length embedding)) (steps (length embedding) * 8) e
