-- ===== src/Optim.antt =====
-- rust/persia-common/src/optim.rs: the optimizers, which change an entry, an embedding with the state
-- of the optimizer after it, by a gradient. The dot product of the crate ndarray is a parameter.
pub mod Powers
pub mod Updated
use Prim.Native.String.{String}
use persia.Base.{
  ℕ, ◌+◌, ◌-◌, ◌*◌, ◌/◌, ◌%◌, ◌^◌, Bool, true, false, Option, none, some, List, [], ◌∷◌, ◌++◌, map,
  length, take, drop, replicate, ltb, ◌==◌, if◌then◌else◌, get_elem?, u32_size, u32_sub, Outcome,
  ok, panic, ◌>>=◌, unwrap, head_or,
}
use persia.Base.Map.{nat_eq, string_eq, Map, get, insert}
use persia.Config.{EmbeddingConfig}
use persia.Simd.Lanes.{Floats, index}
use persia.Simd.{
  adam_avx2, decayed_sgd_avx2, decayed_adagrad_avx2, decayed_adagrad_vectorwise_shared_avx2,
}

pub record AdamConfig (F : Type 0) : Type 0 where
  pub lr : F
  pub beta1 : F
  pub beta2 : F
  pub eps : F

pub record NaiveSgdConfig (F : Type 0) : Type 0 where
  pub lr : F
  pub wd : F

pub record AdagradConfig (F : Type 0) : Type 0 where
  pub lr : F
  pub wd : F
  pub g_square_momentum : F
  pub initialization : F
  pub eps : F
  pub vectorwise_shared : Bool

pub data OptimizerConfig (F : Type 0) : Type 0 where
  adam : AdamConfig F → OptimizerConfig F
  sgd : NaiveSgdConfig F → OptimizerConfig F
  adagrad : AdagradConfig F → OptimizerConfig F

pub record AdamPowerOfBetas (F : Type 0) : Type 0 where
  pub beta1 : F
  pub beta2 : F

pub record Adam (F : Type 0) : Type 0 where
  pub config : AdamConfig F
  pub embedding_config : EmbeddingConfig
  pub accum_betas : Map ℕ (AdamPowerOfBetas F)

pub data Optimizer (F : Type 0) : Type 0 where
  adam : Adam F → Optimizer F
  sgd : NaiveSgdConfig F → Optimizer F
  adagrad : AdagradConfig F → Optimizer F

-- `slice.split_at_mut(n)`.
unfoldable pub split_at : {A : Type 0} → List A → (n : ℕ) → Outcome (List A × List A)
split_at xs n = if ltb (length xs) n then panic else ok (take n xs, drop n xs)

-- `sign & mask`, where the mask has the `feature_index_prefix_bit` highest bits: a shift counts
-- modulo 64.
unfoldable pub masked_sign : (feature_index_prefix_bit sign : ℕ) → ℕ
masked_sign bits sign = let low = 2 ^ (u32_sub 64 (bits % u32_size) % 64) in sign / low * low

module _ (fl : Floats) where
  -- The loop of `Adam::new` over the feature groups.
  unfoldable pub initial_betas :
      AdamConfig fl.F
      → EmbeddingConfig
      → Map String (List String)
      → Map ℕ (AdamPowerOfBetas fl.F)
      → Outcome (Map ℕ (AdamPowerOfBetas fl.F))
  initial_betas config embedding_config [] accum_betas = ok accum_betas
  initial_betas config embedding_config ((group_name, slots_name) ∷ groups) accum_betas = do
    slot_name ← unwrap (get_elem? slots_name 0)
    slot ← unwrap (get embedding_config.slots_config slot_name)
    initial_betas config embedding_config groups (
        insert accum_betas slot.index_prefix
          (record { beta1 = config.beta1; beta2 = config.beta2 }))

  -- `Adam::new`, with the embedding config that the singleton has, if any.
  unfoldable pub adam_new : Option EmbeddingConfig → AdamConfig fl.F → Outcome (Adam fl.F)
  adam_new singleton config = do
    embedding_config ← unwrap singleton
    accum_betas ← initial_betas config embedding_config embedding_config.feature_groups []
    ok (record { config = config; embedding_config = embedding_config; accum_betas = accum_betas })

  -- `Optimizer::new`.
  unfoldable pub optimizer_new :
      Option EmbeddingConfig → OptimizerConfig fl.F → Outcome (Optimizer fl.F)
  optimizer_new singleton (adam config) = do a ← adam_new singleton config; ok (Optimizer.adam a)
  optimizer_new singleton (sgd config) = ok (Optimizer.sgd config)
  optimizer_new singleton (adagrad config) = ok (Optimizer.adagrad config)

  unfoldable pub next_betas : AdamConfig fl.F → AdamPowerOfBetas fl.F → AdamPowerOfBetas fl.F
  next_betas config betas = record {
    beta1 = fl.mul betas.beta1 config.beta1;
    beta2 = fl.mul betas.beta2 config.beta2;
  }

  -- The loop of `Adam::get_batch_level_state` over the signs: the powers of the betas for each.
  unfoldable pub batch_powers :
      AdamConfig fl.F
      → (bits : ℕ) → List ℕ
      → (steped accum_betas : Map ℕ (AdamPowerOfBetas fl.F))
      → Outcome (List (AdamPowerOfBetas fl.F) × Map ℕ (AdamPowerOfBetas fl.F))
  batch_powers config bits [] steped accum_betas = ok ([], accum_betas)
  batch_powers config bits (sign ∷ signs) steped accum_betas =
      elim (get steped (masked_sign bits sign)) [
        | some betas ↦ do
          (powers, accum_betas') ← batch_powers config bits signs steped accum_betas
          ok (betas ∷ powers, accum_betas')
        | none ↦ do
          betas ← unwrap (get accum_betas (masked_sign bits sign))
          let next = next_betas config betas
          (powers, accum_betas') ←
              batch_powers config bits signs (insert steped (masked_sign bits sign) next)
                (insert accum_betas (masked_sign bits sign) next)
          ok (next ∷ powers, accum_betas')
      ]

  unfoldable pub get_batch_level_state :
      Adam fl.F → (signs : List ℕ) → Outcome (Option (List fl.F) × Adam fl.F)
  get_batch_level_state a signs = do
    (powers, accum_betas) ←
        batch_powers a.config a.embedding_config.feature_index_prefix_bit signs [] a.accum_betas
    ok (
      some (map (λ p. p.beta1) powers ++ map (λ p. p.beta2) powers),
      record a { accum_betas = accum_betas },
    )

  -- `Adam::get_emb_state`.
  unfoldable pub get_emb_state : Option (List fl.F) → (idx : ℕ) → Outcome (Option (List fl.F))
  get_emb_state none idx = ok none
  get_emb_state (some opt_state) idx = do
    b1 ← index opt_state idx
    b2 ← index opt_state (length opt_state / 2 + idx)
    ok (some (b1 ∷ b2 ∷ []))

  unfoldable pub require_space : Optimizer fl.F → (dim : ℕ) → ℕ
  require_space (adam a) dim = dim * 2
  require_space (sgd c) dim = 0
  require_space (adagrad c) dim = if c.vectorwise_shared then 1 else dim

  -- `state[dim..].copy_from_slice(..)`: the lengths have to agree.
  unfoldable pub state_initialization :
      Optimizer fl.F → (state : List fl.F) (dim : ℕ) → Outcome (List fl.F)
  state_initialization (adam a) state dim = ok state
  state_initialization (sgd c) state dim = ok state
  state_initialization (adagrad c) state dim = do
    (emb, opt) ← split_at state dim
    let space = require_space (adagrad c) dim
    if length opt == space then ok (emb ++ replicate space c.initialization) else panic

  unfoldable pub update_lr : Optimizer fl.F → (lr : fl.F) → Optimizer fl.F
  update_lr (adam a) lr = adam a
  update_lr (sgd c) lr = sgd (record c { lr = lr })
  update_lr (adagrad c) lr = adagrad (record c { lr = lr })

  unfoldable pub adam_update :
      AdamConfig fl.F
      → (emb_entry grad : List fl.F) (dim : ℕ) → (emb_opt_state : Option (List fl.F))
      → Outcome (List fl.F)
  adam_update config emb_entry grad dim emb_opt_state = do
    state ← unwrap emb_opt_state
    beta1_power ← index state 0
    beta2_power ← index state 1
    (emb, opt) ← split_at emb_entry dim
    (adam_m, adam_v) ← split_at opt dim
    (adam_m', (adam_v', emb')) ←
        adam_avx2 fl adam_m adam_v beta1_power beta2_power emb grad config.lr config.beta1
          config.beta2 config.eps
    ok (emb' ++ (adam_m' ++ adam_v'))

  unfoldable pub sgd_update :
      NaiveSgdConfig fl.F → (emb_entry grad : List fl.F) → Outcome (List fl.F)
  sgd_update config emb_entry grad = decayed_sgd_avx2 fl emb_entry grad config.wd config.lr

  unfoldable pub adagrad_update :
      (dot : List fl.F → List fl.F → fl.F)
      → AdagradConfig fl.F
      → (emb_entry grad : List fl.F) (dim : ℕ) → Outcome (List fl.F)
  adagrad_update dot config emb_entry grad dim = do
    (emb, adagrad_state) ← split_at emb_entry dim
    if config.vectorwise_shared
        then (do
          state ← index adagrad_state 0
          emb' ← decayed_adagrad_vectorwise_shared_avx2 fl state emb grad config.lr config.eps
          let gradient_squares = fl.div (dot grad grad) (fl.of_nat (length grad))
          ok (
              emb'
              ++ (fl.add (fl.mul state config.g_square_momentum) gradient_squares
                  ∷ drop 1 adagrad_state)))
        else (do
          (adagrad_state', emb') ←
              decayed_adagrad_avx2 fl adagrad_state emb grad config.g_square_momentum config.lr
                config.eps
          ok (emb' ++ adagrad_state'))

  -- `Optimizable::update` of each optimizer.
  unfoldable pub update :
      (dot : List fl.F → List fl.F → fl.F)
      → Optimizer fl.F
      → (emb_entry grad : List fl.F) (dim : ℕ) → (emb_opt_state : Option (List fl.F))
      → Outcome (List fl.F)
  update dot (adam a) emb_entry grad dim state = adam_update a.config emb_entry grad dim state
  update dot (sgd c) emb_entry grad dim state = sgd_update c emb_entry grad
  update dot (adagrad c) emb_entry grad dim state = adagrad_update dot c emb_entry grad dim
