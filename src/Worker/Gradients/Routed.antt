-- ===== src/Worker/Gradients/Routed.antt =====
-- Which parameter server gets which gradient (`update_all_batched_gradients` of
-- embedding_worker_service/mod.rs).
use persia.Base.{
  ℕ, zero, suc, ◌%◌, ◌<◌, ◌≤◌, ◌≡◌, refl, sym, ap, ◌∙◌, Bool, true, false, Option, none, some, List,
  [], ◌∷◌, ◌++◌, arith, ◌==◌, ==_iff, if◌then◌else◌, length, length-set, get_elem?, get_elem?-set,
  omap, set, ok,
}
use persia.Common.{SingleSignInFeatureBatch}
use persia.Simd.Lanes.{Floats}
use persia.Worker.{rem}
use persia.Worker.Preprocess.{sign_to_shard_modulo}
use persia.Worker.Gradients.{GradientFloats, extend_at, push_gradients}

module _ {A : Type 0} where
  append_assoc : (xs ys zs : List A) → (xs ++ ys) ++ zs ≡ xs ++ (ys ++ zs)
  append_assoc [] ys zs = refl
  append_assoc (x ∷ xs) ys zs = ap (◌∷◌ x) (append_assoc xs ys zs)

  append_nil : (xs : List A) → xs ++ [] ≡ xs
  append_nil [] = refl
  append_nil (x ∷ xs) = ap (◌∷◌ x) (append_nil xs)

  some_below : (v : List A) (i : ℕ) → i < length v → (x : A) × (get_elem? v i ≡ some x)
  some_below [] i h = absurd (omega arith)
  some_below (x ∷ v) zero h = (x, refl)
  some_below (x ∷ v) (suc i) h = some_below v i (omega arith)

-- An extended vector: the place got more, the others stay.
record Extended {A : Type 0} (v : List (List A)) (i : ℕ) (xs : List A) : Type 0 where
  vector : List (List A)
  run : extend_at v i xs ≡ ok vector
  same : length vector ≡ length v
  places :
      (r : ℕ)
      → get_elem? vector r ≡ omap (λ old. old ++ (if i == r then xs else [])) (get_elem? v r)

extended : {A : Type 0} (v : List (List A)) (i : ℕ) (xs : List A) → i < length v → Extended v i xs
unfolding extend_at
extended {A} v i xs h =
    let (old, e) = some_below v i h in
    record {
      vector = set v i (old ++ xs);
      run = rw e refl;
      same = length-set v i (old ++ xs);
      places = λ r.
          get_elem?-set v i r (old ++ xs) h
          ∙ place (i == r) old (get_elem? v r)
              (λ same. sym e ∙ ap (get_elem? v) ((==_iff i r).0 same));
    }
  where
    place :
        (b : Bool) (old : List A) (o : Option (List A))
        → (b ≡ true → some old ≡ o)
        → (if b then some (old ++ xs) else o) ≡ omap (λ zs. zs ++ (if b then xs else [])) o
    place true old o f = rw (sym (f refl)) refl
    place false old none f = refl
    place false old (some zs) f = ap some (sym (append_nil zs))

-- Two extensions of a place.
twice :
    {A : Type 0} (o : Option (List A)) (xs ys : List A)
    → omap (λ old. old ++ ys) (omap (λ old. old ++ xs) o) ≡ omap (λ old. old ++ (xs ++ ys)) o
twice none xs ys = refl
twice (some old) xs ys = ap some (append_assoc old xs ys)

unchanged : {A : Type 0} (o : Option (List A)) → o ≡ omap (λ old. old ++ []) o
unchanged none = refl
unchanged (some old) = ap some (sym (append_nil old))

module _ (fl : Floats) (half : GradientFloats fl) (hash64 : ℕ → ℕ) (replica_size : ℕ) where
  -- The gradients and the signs of the server `r`.
  abbrev pub gradients_for : (r : ℕ) → List (List fl.F × SingleSignInFeatureBatch) → List fl.F
  gradients_for r [] = []
  gradients_for r ((grad, single) ∷ rest) =
      (if hash64 single.sign % replica_size == r then grad else []) ++ gradients_for r rest

  abbrev pub signs_for : (r : ℕ) → List (List fl.F × SingleSignInFeatureBatch) → List ℕ
  signs_for r [] = []
  signs_for r ((grad, single) ∷ rest) =
      (if hash64 single.sign % replica_size == r then single.sign ∷ [] else []) ++ signs_for r rest

  -- With at least one server and a vector of gradients and of signs for each, the loop over the
  -- signs of a feature succeeds, and every server gets the signs that hash to it and their
  -- gradients, all of them, in the same order, behind what it had.
  pub push_gradients-routes :
      (pairs : List (List fl.F × SingleSignInFeatureBatch)) (gradients : List (List fl.F))
      (signs : List (List ℕ))
      → 0 < replica_size
      → replica_size ≤ length gradients
      → replica_size ≤ length signs
      → (gradients' : List (List fl.F)) × (signs' : List (List ℕ)) × (push_gradients fl half hash64
            replica_size pairs
            (gradients, signs)
          ≡ ok (gradients', signs'))
        × ((r : ℕ)
            → get_elem? gradients' r
              ≡ omap (λ old. old ++ gradients_for r pairs) (get_elem? gradients r))
        × ((r : ℕ)
            → get_elem? signs' r ≡ omap (λ old. old ++ signs_for r pairs) (get_elem? signs r))
  unfolding push_gradients sign_to_shard_modulo rem
  push_gradients-routes [] gradients signs h j k = (
    gradients,
    signs,
    refl,
    λ r. unchanged (get_elem? gradients r),
    λ r. unchanged (get_elem? signs r),
  )
  push_gradients-routes ((grad, single) ∷ rest) gradients signs h j k =
      let i = hash64 single.sign % replica_size in
      let g = extended gradients i grad (omega arith) in
      let s = extended signs i (single.sign ∷ []) (omega arith) in
      let (gradients', signs', run, gh, sh) =
        push_gradients-routes rest g.vector s.vector h (omega (arith, g.same))
          (omega (arith, s.same)) in
      (
        gradients',
        signs',
        rw (positive replica_size h, g.run, s.run) run,
        λ r.
            gh r
            ∙ ap (omap _) (g.places r)
            ∙ twice (get_elem? gradients r) _ (gradients_for r rest),
        λ r. sh r ∙ ap (omap _) (s.places r) ∙ twice (get_elem? signs r) _ (signs_for r rest),
      )
    where
      positive : (n : ℕ) → 0 < n → (n == 0) ≡ false
      positive n p = ground arith
