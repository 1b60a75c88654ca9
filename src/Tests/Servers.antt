-- ===== src/Tests/Servers.antt =====
-- Examples for the embedding parameter server.
use persia.Base.{
  ℕ, zero, suc, ◌%◌, ◌<◌, ◌≡◌, refl, Bool, true, false, Option, none, some, List, [], ◌∷◌, arith,
  length, get_elem?, Outcome, ok, err, omap, if◌then◌else◌, ◌==◌,
}
use persia.Base.Map.{nat_eq, get as map_get}
use persia.Holder.LinkedList.{node, deleted}
use persia.Holder.LinkedList.Chain.{Cells}
use persia.Holder.EvictionMap.{EvictionMap}
use persia.Holder.EvictionMap.Indexed.{Indexes}
use persia.Holder.EvictionMap.Refreshed.{value_of}
use persia.Holder.EmbEntry.{HashMapEmbeddingEntry}
use persia.ParamServer.{
  Optimizable, EmbeddingParameterServerError, not_configured_error, optimizer_not_found_error,
  EmbeddingParameterServiceInner, PersiaEmbeddingModelHyperparameters, idle, train, lookup_infer,
  update_gradient_mixed, batched_lookup, configure, ready_for_serving,
}
use persia.ParamServer.Inference.{answers, total_dim, Roomy, lookup_infer-answers}
use persia.ParamServer.Missed.{unready-errors, configure-ready}

abbrev pub entry_4 : HashMapEmbeddingEntry ℕ
entry_4 = record { inner = 1 ∷ 2 ∷ 0 ∷ []; embedding_dim = 2; sign = 4 }

abbrev pub one_entry : EvictionMap ℕ (HashMapEmbeddingEntry ℕ)
one_entry = record {
  hashmap = (4, 0) ∷ [];
  linkedlist = record {
    count = 1;
    first_index = 1;
    last_index = 1;
    free_index = 2;
    end_index = 2;
    elements = node 0 0 entry_4 ∷ deleted 0 ∷ [];
  };
  capacity = 1;
}

abbrev cells_4 : ℕ → Cells (HashMapEmbeddingEntry ℕ)
cells_4 i = (1, entry_4) ∷ []

abbrev free_2 : ℕ → List ℕ
free_2 i = 2 ∷ []

abbrev sign_of : HashMapEmbeddingEntry ℕ → ℕ
sign_of e = e.sign

one_entry-Indexes : Indexes sign_of one_entry (cells_4 0) (free_2 0)
unfolding map_get
one_entry-Indexes = record {
  list = record {
    first = refl;
    last = refl;
    counted = refl;
    chain = (refl, tt);
    distinct = (refl, tt);
    free_first = refl;
    free_chain = (refl, tt);
    free_distinct = (refl, tt);
    small = omega arith;
  };
  unique = (refl, tt);
  indexed = λ key. ground arith;
}

shards_satisfy :
    (i : ℕ)
    → i < 1
    → (m : EvictionMap ℕ (HashMapEmbeddingEntry ℕ)) × (get_elem? (one_entry ∷ []) i ≡ some m)
      × Indexes sign_of m (cells_4 i) (free_2 i)
shards_satisfy zero h = (one_entry, refl, one_entry-Indexes)
shards_satisfy (suc i) h = absurd (omega arith)

abbrev pub same_hash : ℕ → ℕ
same_hash sign = sign

abbrev entry_of_sign : ℕ → Option (HashMapEmbeddingEntry ℕ)
entry_of_sign sign = value_of sign_of (cells_4 (same_hash sign % 1)) sign

Roomy-found :
    (t : Bool)
    → Roomy {F = ℕ} 0
        (omap (λ (c : ℕ × HashMapEmbeddingEntry ℕ). c.1) (if t then some (1, entry_4) else none))
Roomy-found true = omega arith
Roomy-found false = tt

Roomy-4 : (sign : ℕ) → Roomy 0 (entry_of_sign sign)
Roomy-4 sign = Roomy-found (4 == sign)

lookup_infer-answers_example :
    (lookup_infer same_hash 0 (one_entry ∷ []) ((4, 2) ∷ (5, 3) ∷ [])
      ≡ ok (answers 0 entry_of_sign ((4, 2) ∷ (5, 3) ∷ [])))
    × (length (answers 0 entry_of_sign ((4, 2) ∷ (5, 3) ∷ [])) ≡ total_dim ((4, 2) ∷ (5, 3) ∷ []))
lookup_infer-answers_example =
    lookup_infer-answers 0 same_hash (one_entry ∷ []) cells_4 free_2 ((4, 2) ∷ (5, 3) ∷ [])
      shards_satisfy (omega arith) Roomy-4

-- An optimizer that replaces the entry by its gradient.
abbrev replacing : Optimizable ℕ
replacing = record {
  update = λ emb_entry grad dim state. grad;
  get_emb_state = λ state idx. none;
  get_batch_level_state = λ signs. none;
  require_space = λ dim. 0;
  state_initialization = λ state dim. state;
}

abbrev unbounded : List ℕ → ℕ → List ℕ
unbounded xs dim = xs

abbrev new_server : EmbeddingParameterServiceInner ℕ ℕ
new_server = record {
  embedding = one_entry ∷ [];
  optimizer = none;
  hyperparameter_config = none;
  hyperparameter_configured = false;
  model_status = idle;
  job_type = train;
  enable_incremental_update = false;
  committed = [];
}

abbrev settings : PersiaEmbeddingModelHyperparameters ℕ ℕ
settings = record {
  initialization_method = 0;
  admit_probability = 1;
  weight_bound = 10;
  enable_weight_bound = true;
}

abbrev draw : ℕ → ℕ → ℕ → Outcome (List ℕ)
draw i dim seed = ok []

abbrev clip : List ℕ → ℕ → ℕ → List ℕ
clip xs dim bound = xs

abbrev always : ℕ → Bool
always i = true

unready-errors_example :
    (batched_lookup same_hash 0 draw always new_server ((4, 2) ∷ []) true
      ≡ ok (err not_configured_error, new_server))
    × (update_gradient_mixed same_hash 0 clip new_server (4 ∷ []) (7 ∷ 7 ∷ [])
        ≡ ok (err not_configured_error, new_server))
    × ((e : EmbeddingParameterServerError) (s' : EmbeddingParameterServiceInner ℕ ℕ)
        → batched_lookup same_hash 0 draw always new_server ((4, 2) ∷ []) false ≡ ok (err e, s')
        → ⊥)
unready-errors_example =
    unready-errors same_hash 0 draw clip always new_server ((4, 2) ∷ []) (4 ∷ []) (7 ∷ 7 ∷ [])

configure-ready_example :
    (ready_for_serving (configure new_server settings) ≡ true)
    × (batched_lookup same_hash 0 draw always (configure new_server settings) ((4, 2) ∷ []) true
        ≡ ok (err optimizer_not_found_error, configure new_server settings))
configure-ready_example =
    configure-ready same_hash 0 draw clip always new_server settings ((4, 2) ∷ []) refl refl
