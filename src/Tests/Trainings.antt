-- ===== src/Tests/Trainings.antt =====
-- Examples for a lookup for training and a gradient update.
use persia.Base.{
  ℕ, zero, suc, ◌≡◌, refl, true, none, some, map, ltb, if◌then◌else◌, List, [], ◌∷◌, arith,
  length-replicate, replicate, Outcome, ok,
}
use persia.Base.Map.{nat_eq, get as map_get}
use persia.Holder.LinkedList.{node, deleted}
use persia.Holder.EvictionMap.{EvictionMap}
use persia.Holder.EvictionMap.Indexed.{Indexes}
use persia.Holder.EmbEntry.{HashMapEmbeddingEntry}
use persia.ParamServer.{
  Optimizable, PersiaEmbeddingModelHyperparameters, EmbeddingParameterServiceInner, idle, train,
  lookup_train,
}
use persia.ParamServer.Updated.{bound_by, update_all}
use persia.ParamServer.Trained.{sign_of, Draws}
use persia.ParamServer.Requested.{AllReady, train_all, lookup_train-answers}
use persia.Tests.Servers.{entry_4, same_hash}

-- A shard with one entry and room for two more.
abbrev roomy_shard : EvictionMap ℕ (HashMapEmbeddingEntry ℕ)
roomy_shard = record {
  hashmap = (4, 0) ∷ [];
  linkedlist = record {
    count = 1;
    first_index = 1;
    last_index = 1;
    free_index = 2;
    end_index = 2;
    elements = node 0 0 entry_4 ∷ deleted 0 ∷ [];
  };
  capacity = 3;
}

roomy_shard-Indexes : Indexes sign_of roomy_shard ((1, entry_4) ∷ []) (2 ∷ [])
unfolding map_get
roomy_shard-Indexes = record {
  list = record {
    first = refl;
    last = refl;
    counted = refl;
    chain = (refl, tt);
    distinct = (refl, tt);
    free_first = refl;
    free_chain = (refl, tt);
    free_distinct = (refl, tt);
    small = omega arith;
  };
  unique = (refl, tt);
  indexed = λ key. ground arith;
}

-- An optimizer that keeps one number of state.
abbrev one_state : Optimizable ℕ
one_state = record {
  update = λ emb_entry grad dim state. emb_entry;
  get_emb_state = λ state idx. none;
  get_batch_level_state = λ signs. none;
  require_space = λ dim. 1;
  state_initialization = λ state dim. state;
}

abbrev plain : PersiaEmbeddingModelHyperparameters ℕ ℕ
plain = record {
  initialization_method = 0;
  admit_probability = 1;
  weight_bound = 10;
  enable_weight_bound = true;
}

abbrev seeds : ℕ → (dim seed : ℕ) → Outcome (List ℕ)
seeds method dim seed = ok (replicate dim seed)

abbrev seed_list : (dim seed : ℕ) → List ℕ
seed_list dim seed = replicate dim seed

seeds-Draws : Draws 0 same_hash seeds plain one_state seed_list
seeds-Draws = record {
  drawn = λ dim seed. refl;
  length-draw = length-replicate;
  keeps_size = λ state dim h. refl;
}

-- The sign 4 is there, and the sign 9 is new.
abbrev two_requests : List (ℕ × ℕ)
two_requests = (4, 2) ∷ (9, 2) ∷ []

ready : AllReady (roomy_shard ∷ []) ((entry_4 ∷ []) ∷ []) 2
ready zero h = (
  roomy_shard,
  refl,
  record {
    holds = record {
      cells = (1, entry_4) ∷ [];
      free = 2 ∷ [];
      indexes = roomy_shard-Indexes;
      values_cells = refl;
    };
    roomy = (omega arith, tt);
    room = omega arith;
    fits = omega arith;
  },
)
ready (suc i) h = absurd (omega arith)

lookup_train-answers_example :
    (inner' : List (EvictionMap ℕ (HashMapEmbeddingEntry ℕ))) × (lookup_train same_hash 0 seeds
        plain one_state
        (λ position. true)
        0
        two_requests
        (roomy_shard ∷ [])
      ≡ ok (
        (train_all 0 same_hash seeds plain one_state seed_list seeds-Draws 1
            (λ position. true)
            0
            two_requests
            ((entry_4 ∷ []) ∷ [])).0,
        inner',
      ))
    × AllReady inner'
        (train_all 0 same_hash seeds plain one_state seed_list seeds-Draws 1
          (λ position. true)
          0
          two_requests
          ((entry_4 ∷ []) ∷ [])).1
        0
lookup_train-answers_example =
    lookup_train-answers 0 same_hash seeds plain one_state seed_list seeds-Draws (λ position. true)
      two_requests 0 1 (roomy_shard ∷ []) ((entry_4 ∷ []) ∷ []) (omega arith) refl refl ready

-- An optimizer that puts the gradient in the place of the entry.
abbrev replacing : Optimizable ℕ
replacing = record one_state { update = λ emb_entry grad dim state. grad }

abbrev server : EmbeddingParameterServiceInner ℕ ℕ
server = record {
  embedding = roomy_shard ∷ [];
  optimizer = some replacing;
  hyperparameter_config = some plain;
  hyperparameter_configured = true;
  model_status = idle;
  job_type = train;
  enable_incremental_update = true;
  committed = [];
}

abbrev clip : List ℕ → ℕ → ℕ → List ℕ
clip xs dim bound = map (λ x. if ltb bound x then bound else x) xs

-- The specification after an update of the signs 9, which is new, and 4, which is there.
abbrev after_update : (List ℕ × ℕ) × List (List (HashMapEmbeddingEntry ℕ))
after_update =
    update_all same_hash 0 replacing (bound_by clip plain) none 1 0 (9 ∷ 4 ∷ [])
      (7 ∷ 7 ∷ 8 ∷ 8 ∷ []) ((entry_4 ∷ []) ∷ [])

-- The sign 4 gets the gradient that was meant for 9.
update_of_9 :
    after_update
    ≡ (((4 ∷ []), 1), ((record { inner = 7 ∷ 7 ∷ []; embedding_dim = 2; sign = 4 }) ∷ []) ∷ [])
unfolding update_all
update_of_9 = refl
