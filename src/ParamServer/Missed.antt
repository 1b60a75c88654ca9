-- ===== src/ParamServer/Missed.antt =====
-- What a parameter server answers when it lacks its configuration or its optimizer (`batched_lookup`,
-- `update_gradient_mixed` and `ready_for_serving` of embedding_parameter_service/mod.rs).
use persia.Base.{
  ℕ, ◌≡◌, refl, sym, subst, ◌∙◌, [], ◌++◌, if◌then◌else◌, inl, inr, Option-cases, Bool, true, false,
  arith, Option, none, some, List, ◌∷◌, Outcome, ok, bind-ok, ok-injective, Result, good, ◌>>=◌,
  err,
}
use persia.Base.Map.{nat_eq}
use persia.ParamServer.Updated.{bound_by}
use persia.ParamServer.{
  EmbeddingParameterServiceInner, PersiaEmbeddingModelHyperparameters, not_configured_error,
  optimizer_not_found_error, EmbeddingParameterServerError, lookup_infer, lookup_train,
  update_signs, update_gradient_mixed, get_configuration, configure, batched_lookup,
  ready_for_serving, idle, PerisaJobType, train, eval, infer,
}

module _ {I F : Type 0} (hash : ℕ → ℕ) (fzero : F) (random_using : I → ℕ → ℕ → Outcome (List F))
    (weight_bound : List F → ℕ → F → List F) where
  -- What a server lacks for training, the configuration first.
  abbrev pub lacking : EmbeddingParameterServiceInner I F → Option EmbeddingParameterServerError
  lacking s = elim s.hyperparameter_config [
    | none ↦ some not_configured_error
    | some conf ↦ elim s.optimizer [ none ↦ some optimizer_not_found_error | some optimizer ↦ none ]
  ]

  -- A request reports what is lacking and leaves the server as it was; when nothing is, it reports
  -- no error.
  abbrev pub Reports :
      {A : Type 0}
      → Option EmbeddingParameterServerError
      → EmbeddingParameterServiceInner I F
      → Outcome (Result EmbeddingParameterServerError A × EmbeddingParameterServiceInner I F)
      → Type 0
  Reports (some e) s run = run ≡ ok (err e, s)
  Reports none s run =
      (e : EmbeddingParameterServerError) (s' : EmbeddingParameterServiceInner I F)
      → run ≡ ok (err e, s')
      → ⊥

  -- A request that ends with an answer reports no error.
  answered :
      {A B : Type 0} (s : EmbeddingParameterServiceInner I F) (run : Outcome B) (answer : B → A)
      (after : B → EmbeddingParameterServiceInner I F)
      → Reports none s (run >>= (λ b. ok (good (answer b), after b)))
  answered s run answer after e s' h =
      let (b, done, q) = bind-ok run _ (err e, s') h in apart (ok-injective q)
    where
      apart :
          {A : Type 0} {a : A} {e : EmbeddingParameterServerError}
          {s1 s2 : EmbeddingParameterServiceInner I F}
          → Path
              (Result EmbeddingParameterServerError A × EmbeddingParameterServiceInner I F)
              (good a, s1)
              (err e, s2)
          → ⊥
      apart q = ground arith

  Reports-lack :
      {A : Type 0} (s : EmbeddingParameterServiceInner I F) (e : EmbeddingParameterServerError)
      {lack : Option EmbeddingParameterServerError}
      {run : Outcome (Result EmbeddingParameterServerError A × EmbeddingParameterServiceInner I F)}
      → lack ≡ some e
      → run ≡ ok (err e, s)
      → Reports lack s run
  Reports-lack s e {lack} {run} p q = subst (λ l. Reports l s run) (sym p) q

  Reports-answer :
      {A B : Type 0} (s : EmbeddingParameterServiceInner I F) (steps : Outcome B) (answer : B → A)
      (after : B → EmbeddingParameterServiceInner I F) {lack : Option EmbeddingParameterServerError}
      {run : Outcome (Result EmbeddingParameterServerError A × EmbeddingParameterServiceInner I F)}
      → lack ≡ none
      → run ≡ (steps >>= (λ b. ok (good (answer b), after b)))
      → Reports lack s run
  Reports-answer s steps answer after {lack} {run} p q =
      subst (λ l. Reports l s run) (sym p)
        (λ e s' h. answered s steps answer after e s' (sym q ∙ h))

  -- On every server, a lookup for training and a gradient update report the same error, that the
  -- configuration is missing, whether or not there is an optimizer, or else that the optimizer is
  -- missing, and leave the server as it was; when neither is missing they report no error. A lookup
  -- for inference reports no error on any server.
  pub unready-errors :
      (admit : ℕ → Bool) (s : EmbeddingParameterServiceInner I F) (req : List (ℕ × ℕ))
      (signs : List ℕ) (grads : List F)
      → Reports (lacking s) s (batched_lookup hash fzero random_using admit s req true)
        × Reports (lacking s) s (update_gradient_mixed hash fzero weight_bound s signs grads)
        × Reports none s (batched_lookup hash fzero random_using admit s req false)
  unfolding batched_lookup update_gradient_mixed get_configuration
  unready-errors admit s req signs grads = (
    elim (Option-cases s.hyperparameter_config) [
      | inl c ↦
          Reports-lack s not_configured_error (rw (lacking, c) refl)
            (simp (batched_lookup, get_configuration, c))
      | inr (conf, c) ↦ elim (Option-cases s.optimizer) [
        | inl o ↦
            Reports-lack s optimizer_not_found_error (rw (lacking, c, o) refl)
              (simp (batched_lookup, get_configuration, c, o))
        | inr (optimizer, o) ↦
            Reports-answer s
              (lookup_train hash fzero random_using conf optimizer admit 0 req s.embedding)
              (λ b. b.0) (λ b. record s { embedding = b.1 }) (rw (lacking, c, o) refl)
              (simp (batched_lookup, get_configuration, c, o))
      ]
    ],
    elim (Option-cases s.hyperparameter_config) [
      | inl c ↦
          Reports-lack s not_configured_error (rw (lacking, c) refl)
            (simp (update_gradient_mixed, get_configuration, c))
      | inr (conf, c) ↦ elim (Option-cases s.optimizer) [
        | inl o ↦
            Reports-lack s optimizer_not_found_error (rw (lacking, c, o) refl)
              (simp (update_gradient_mixed, get_configuration, c, o))
        | inr (optimizer, o) ↦
            Reports-answer s
              (update_signs hash fzero optimizer (bound_by weight_bound conf)
                (optimizer.get_batch_level_state signs) 0 signs grads s.embedding)
              (λ b. tt)
              (λ b. record s {
                embedding = b.1;
                committed =
                    if s.enable_incremental_update then s.committed ++ b.0.0 ∷ [] else s.committed;
              })
              (rw (lacking, c, o) refl) (simp (update_gradient_mixed, get_configuration, c, o))
      ]
    ],
    answered s (lookup_infer hash fzero s.embedding req) (λ b. b) (λ b. s),
  )

  -- After `configure` an idle server says that it is ready, although lookups for training fail until
  -- an optimizer is registered.
  pub configure-ready :
      (admit : ℕ → Bool) (s : EmbeddingParameterServiceInner I F)
      (conf : PersiaEmbeddingModelHyperparameters I F) (req : List (ℕ × ℕ))
      → s.model_status ≡ idle
      → s.optimizer ≡ none
      → (ready_for_serving (configure s conf) ≡ true)
        × (batched_lookup hash fzero random_using admit (configure s conf) req true
            ≡ ok (err optimizer_not_found_error, configure s conf))
  unfolding batched_lookup get_configuration configure ready_for_serving
  configure-ready admit s conf req i h = (rw i (both s.job_type), simp h)
    where
      both : (j : PerisaJobType) → Path Bool (elim j [ infer ↦ true | _ ↦ true ]) true
      both train = refl
      both eval = refl
      both infer = refl
