-- ===== src/ParamServer/Updated.antt =====
-- A gradient update (`update_gradient_mixed` of embedding_parameter_service/mod.rs) over the shards of a
-- server, in terms of the values of the shards.
use persia.Base.{
  ℕ, ◌+◌, ◌%◌, ◌≡◌, Option, none, some, List, [], ◌∷◌, if◌then◌else◌, set, take, drop, Outcome, ok,
}
use persia.Base.Map.{nat_eq, get as map_get}
use persia.Holder.EvictionMap.{EvictionMap, get}
use persia.Holder.EvictionMap.Replayed.{lookup}
use persia.Holder.EvictionMap.Exchanged.{replaced}
use persia.Holder.EmbEntry.{HashMapEmbeddingEntry}
use persia.ParamServer.{Optimizable, PersiaEmbeddingModelHyperparameters, update_signs}
use persia.ParamServer.Trained.{sign_of}
use persia.ParamServer.Requested.{values_at}
use persia.ParamServer.Kept.{AllHold}

module _ {F : Type 0} (hash : ℕ → ℕ) (fzero : F) (optimizer : Optimizable F)
    (bounded : List F → ℕ → List F) (state : Option (List F)) (count : ℕ) where
  -- The entry after the update at the position `idx`, with the gradient of its dimension.
  abbrev pub stepped :
      HashMapEmbeddingEntry F → (idx : ℕ) → (grads : List F) → HashMapEmbeddingEntry F
  stepped e idx grads = record e {
    inner =
        bounded
          (optimizer.update e.inner (take e.embedding_dim grads) e.embedding_dim
            (optimizer.get_emb_state state idx))
          e.embedding_dim;
  }

  -- The signs that are updated and the number of those that are missed, and the values of the
  -- `count` shards afterwards.
  unfoldable pub update_all :
      (idx : ℕ)
      → List ℕ
      → (grads : List F) → List (List (HashMapEmbeddingEntry F))
      → (List ℕ × ℕ) × List (List (HashMapEmbeddingEntry F))
  update_all idx [] grads vss = (([], 0), vss)
  update_all idx (sign ∷ signs) grads vss =
      let i = hash sign % count in
      let vs = values_at vss i in
      elim (lookup sign_of vs sign) [
        | none ↦
            let rest = update_all (idx + 1) signs grads vss in ((rest.0.0, rest.0.1 + 1), rest.1)
        | some e ↦
            let rest =
              update_all (idx + 1) signs (drop e.embedding_dim grads)
                (set vss i (replaced sign_of vs sign (stepped e idx grads))) in
            ((sign ∷ rest.0.0, rest.0.1), rest.1)
      ]

  -- The loop ends as the specification says.
  abbrev Follows :
      Outcome ((List ℕ × ℕ) × List (EvictionMap ℕ (HashMapEmbeddingEntry F)))
      → (List ℕ × ℕ) × List (List (HashMapEmbeddingEntry F))
      → Type 0
  Follows run spec =
      (inner' : List (EvictionMap ℕ (HashMapEmbeddingEntry F))) × (run ≡ ok (spec.0, inner'))
      × AllHold inner' spec.1

  abbrev run_signs :
      (idx : ℕ)
      → List ℕ
      → List F
      → List (EvictionMap ℕ (HashMapEmbeddingEntry F))
      → Outcome ((List ℕ × ℕ) × List (EvictionMap ℕ (HashMapEmbeddingEntry F)))
  run_signs = update_signs hash fzero optimizer bounded state

-- The bound of the weights, where it is enabled.
abbrev pub bound_by :
    {I F : Type 0}
    → (List F → ℕ → F → List F)
    → PersiaEmbeddingModelHyperparameters I F
    → (xs : List F) (dim : ℕ) → List F
bound_by weight_bound conf xs dim =
    if conf.enable_weight_bound then weight_bound xs dim conf.weight_bound else xs
