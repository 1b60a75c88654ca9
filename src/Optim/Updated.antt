-- ===== src/Optim/Updated.antt =====
-- The updates of the optimizers (rust/persia-common/src/optim.rs) on entries of the right size.
use persia.Base.{
  ℕ, ◌+◌, ◌*◌, ◌≤◌, ◌≡◌, refl, sym, ap, subst, ◌∙◌, inl, inr, Bool-cases, Bool, true, false, some,
  List, [], ◌∷◌, ◌++◌, map, length, length-map, length-append, take, drop, arith, ltb,
  if◌then◌else◌, Outcome, ok, ◌>>=◌,
}
use persia.Simd.Lanes.{Floats, index}
use persia.Simd.Looped.{by_eights, length-take, length-drop, length-by_eights}
use persia.Simd.{
  adam_avx2, decayed_sgd_avx2, decayed_adagrad_avx2, decayed_adagrad_vectorwise_shared_avx2,
}
use persia.Simd.Elementwise.{
  rows2, AdagradRow, decayed_sgd_avx2-rows, shared-rows, decayed_adagrad_avx2-rows,
}
use persia.Simd.Moments.{AdamRow, adam_avx2-rows}
use persia.Optim.{
  Optimizer, adam, sgd, adagrad, AdamConfig, AdagradConfig, split_at, require_space, adam_update,
  sgd_update, adagrad_update, update,
}

split_at-ok :
    {A : Type 0} (xs : List A) (n : ℕ) → n ≤ length xs → split_at xs n ≡ ok (take n xs, drop n xs)
unfolding split_at
split_at-ok xs n h = rw (fits (length xs) n h) refl
  where
    fits : (a b : ℕ) → b ≤ a → ltb a b ≡ false
    fits a b k = ground arith

module _ {F : Type 0} where
  rows3 :
      (ss xs ys : List F)
      → length ss ≡ length ys
      → length xs ≡ length ys
      → (rows : List (AdagradRow F)) × (map (λ r. r.adagrad) rows ≡ ss)
        × (map (λ r. r.embedding) rows ≡ xs)
        × (map (λ r. r.gradient) rows ≡ ys)
  rows3 [] [] [] h k = ([], refl, refl, refl)
  rows3 (s ∷ ss) (x ∷ xs) (y ∷ ys) h k =
      let (rows, o, p, q) = rows3 ss xs ys (omega arith) (omega arith) in
      (
        record { adagrad = s; embedding = x; gradient = y } ∷ rows,
        ap (◌∷◌ s) o,
        ap (◌∷◌ x) p,
        ap (◌∷◌ y) q,
      )
  rows3 _ _ _ h k = absurd (omega arith)

  rows4 :
      (ms vs xs ys : List F)
      → length ms ≡ length ys
      → length vs ≡ length ys
      → length xs ≡ length ys
      → (rows : List (AdamRow F)) × (map (λ r. r.m) rows ≡ ms)
        × (map (λ r. r.v) rows ≡ vs)
        × (map (λ r. r.embedding) rows ≡ xs)
        × (map (λ r. r.gradient) rows ≡ ys)
  rows4 [] [] [] [] h j k = ([], refl, refl, refl, refl)
  rows4 (m ∷ ms) (v ∷ vs) (x ∷ xs) (y ∷ ys) h j k =
      let (rows, n, o, p, q) = rows4 ms vs xs ys (omega arith) (omega arith) (omega arith) in
      (
        record { m = m; v = v; embedding = x; gradient = y } ∷ rows,
        ap (◌∷◌ m) n,
        ap (◌∷◌ v) o,
        ap (◌∷◌ x) p,
        ap (◌∷◌ y) q,
      )
  rows4 _ _ _ _ h j k = absurd (omega arith)

if_true : {A : Type 0} (b : Bool) (x y : A) → b ≡ true → (if b then x else y) ≡ x
if_true b x y h = rw h refl

if_false : {A : Type 0} (b : Bool) (x y : A) → b ≡ false → (if b then x else y) ≡ y
if_false b x y h = rw h refl

-- The length of a column of the rows after both loops.
column_size :
    {R F : Type 0} (column : R → F) (lane scalar : R → R) (rows : List R) (xs : List F)
    → map column rows ≡ xs
    → length (map column (by_eights lane scalar rows)) ≡ length xs
column_size column lane scalar rows xs h =
    length-map column (by_eights lane scalar rows)
    ∙ length-by_eights lane scalar rows
    ∙ sym (length-map column rows)
    ∙ ap length h

-- Code that succeeds with as many floats.
abbrev Sized : {F : Type 0} → Outcome (List F) → ℕ → Type 0
Sized {F} o n = (xs : List F) × (o ≡ ok xs) × (length xs ≡ n)

module _ (fl : Floats) where
  sgd-Sized :
      (xs ys : List fl.F) (wd lr : fl.F)
      → length xs ≡ length ys
      → Sized (decayed_sgd_avx2 fl xs ys wd lr) (length xs)
  sgd-Sized xs ys wd lr h =
      let (rows, p, q) = rows2 xs ys h in
      subst (λ zs. Sized (decayed_sgd_avx2 fl zs ys wd lr) (length xs)) p
        (subst
          (λ zs. Sized (decayed_sgd_avx2 fl (map (λ r. r.embedding) rows) zs wd lr) (length xs)) q
          (_, decayed_sgd_avx2-rows fl rows wd lr, column_size (λ r. r.embedding) _ _ rows xs p))

  shared-Sized :
      (xs ys : List fl.F) (a lr eps : fl.F)
      → length xs ≡ length ys
      → Sized (decayed_adagrad_vectorwise_shared_avx2 fl a xs ys lr eps) (length xs)
  shared-Sized xs ys a lr eps h =
      let (rows, p, q) = rows2 xs ys h in
      subst (λ zs. Sized (decayed_adagrad_vectorwise_shared_avx2 fl a zs ys lr eps) (length xs)) p
        (subst
          (λ zs.
            Sized
              (decayed_adagrad_vectorwise_shared_avx2 fl a (map (λ r. r.embedding) rows) zs lr eps)
              (length xs))
          q (_, shared-rows fl rows a lr eps, column_size (λ r. r.embedding) _ _ rows xs p))

  adagrad-sized :
      (ss xs ys : List fl.F) (momentum lr eps : fl.F)
      → length ss ≡ length ys
      → length xs ≡ length ys
      → (ss' xs' : List fl.F) × (decayed_adagrad_avx2 fl ss xs ys momentum lr eps ≡ ok (ss', xs'))
        × (length ss' ≡ length ss)
        × (length xs' ≡ length xs)
  adagrad-sized ss xs ys momentum lr eps h k =
      let (rows, o, p, q) = rows3 ss xs ys h k in
      (
        _,
        _,
        ap (λ zs. decayed_adagrad_avx2 fl zs xs ys momentum lr eps) (sym o)
            ∙ ap (λ zs. decayed_adagrad_avx2 fl (map (λ r. r.adagrad) rows) zs ys momentum lr eps)
                (sym p)
            ∙ ap
                (λ zs.
                  decayed_adagrad_avx2 fl (map (λ r. r.adagrad) rows) (map (λ r. r.embedding) rows)
                    zs momentum lr eps)
                (sym q)
            ∙ decayed_adagrad_avx2-rows fl rows momentum lr eps,
        column_size (λ r. r.adagrad) _ _ rows ss o,
        column_size (λ r. r.embedding) _ _ rows xs p,
      )

  adam-sized :
      (ms vs xs ys : List fl.F) (p1 p2 lr b1 b2 eps : fl.F)
      → length ms ≡ length ys
      → length vs ≡ length ys
      → length xs ≡ length ys
      → (ms' vs' xs' : List fl.F) × (adam_avx2 fl ms vs p1 p2 xs ys lr b1 b2 eps
          ≡ ok (ms', (vs', xs')))
        × (length ms' ≡ length ms)
        × (length vs' ≡ length vs)
        × (length xs' ≡ length xs)
  adam-sized ms vs xs ys p1 p2 lr b1 b2 eps h j k =
      let (rows, n, o, p, q) = rows4 ms vs xs ys h j k in
      (
        _,
        _,
        _,
        ap (λ zs. adam_avx2 fl zs vs p1 p2 xs ys lr b1 b2 eps) (sym n)
            ∙ ap (λ zs. adam_avx2 fl (map (λ r. r.m) rows) zs p1 p2 xs ys lr b1 b2 eps) (sym o)
            ∙ ap
                (λ zs.
                  adam_avx2 fl (map (λ r. r.m) rows) (map (λ r. r.v) rows) p1 p2 zs ys lr b1 b2 eps)
                (sym p)
            ∙ ap
                (λ zs.
                  adam_avx2 fl (map (λ r. r.m) rows) (map (λ r. r.v) rows) p1 p2
                    (map (λ r. r.embedding) rows) zs lr b1 b2 eps)
                (sym q)
            ∙ adam_avx2-rows fl rows p1 p2 lr b1 b2 eps,
        column_size (λ r. r.m) _ _ rows ms n,
        column_size (λ r. r.v) _ _ rows vs o,
        column_size (λ r. r.embedding) _ _ rows xs p,
      )

  adam_update-Sized :
      (config : AdamConfig fl.F) (entry grad : List fl.F) (p1 p2 : fl.F)
      → length entry ≡ length grad + length grad * 2
      → Sized (adam_update fl config entry grad (length grad) (some (p1 ∷ p2 ∷ []))) (length entry)
  unfolding adam_update
  adam_update-Sized config entry grad p1 p2 h =
      let n = length grad in
      let (ms', vs', xs', run, mh, vh, xh) =
        adam-sized (take n (drop n entry)) (drop n (drop n entry)) (take n entry) grad p1 p2
          config.lr config.beta1 config.beta2 config.eps
          (length-take n (drop n entry) (omega (arith, h, length-drop n entry)))
          (omega (arith, h, length-drop n entry, length-drop n (drop n entry)))
          (length-take n entry (omega (arith, h))) in
      (
        xs' ++ (ms' ++ vs'),
        rw
            (
              split_at-ok entry n (omega (arith, h)),
              split_at-ok (drop n entry) n (omega (arith, h, length-drop n entry)),
              run,
            )
            refl,
        omega (
          arith,
          h,
          length-append xs' (ms' ++ vs'),
          length-append ms' vs',
          mh,
          vh,
          xh,
          length-take n (drop n entry) (omega (arith, h, length-drop n entry)),
          length-drop n entry,
          length-drop n (drop n entry),
          length-take n entry (omega (arith, h)),
        ),
      )

  -- The shared state of a vector: one float.
  shared_update :
      (dot : List fl.F → List fl.F → fl.F) (config : AdagradConfig fl.F) (xs state grad : List fl.F)
      → length xs ≡ length grad
      → length state ≡ 1
      → Sized
          (do
            s ← index state 0
            xs' ← decayed_adagrad_vectorwise_shared_avx2 fl s xs grad config.lr config.eps
            ok (
                xs'
                ++ (fl.add
                      (fl.mul s config.g_square_momentum)
                      (fl.div (dot grad grad) (fl.of_nat (length grad)))
                    ∷ drop 1 state)))
          (length xs + 1)
  shared_update dot config xs [] grad h k = absurd (omega (arith, k))
  shared_update dot config xs (s ∷ []) grad h k =
      let (xs', run, size) = shared-Sized xs grad s config.lr config.eps h in
      let next =
        fl.add (fl.mul s config.g_square_momentum)
          (fl.div (dot grad grad) (fl.of_nat (length grad))) in
      (xs' ++ next ∷ [], rw run refl, omega (arith, length-append xs' (next ∷ []), size))
  shared_update dot config xs (s ∷ t ∷ state) grad h k = absurd (omega (arith, k))

  -- A state for each element.
  apart_update :
      (config : AdagradConfig fl.F) (xs state grad : List fl.F)
      → length xs ≡ length grad
      → length state ≡ length grad
      → Sized
          (do
            (state', xs') ←
                decayed_adagrad_avx2 fl state xs grad config.g_square_momentum config.lr config.eps
            ok (xs' ++ state'))
          (length xs + length grad)
  apart_update config xs state grad h k =
      let (state', xs', run, sh, xh) =
        adagrad-sized state xs grad config.g_square_momentum config.lr config.eps k h in
      (xs' ++ state', rw run refl, omega (arith, length-append xs' state', k, sh, xh))

  adagrad_update-Sized :
      (dot : List fl.F → List fl.F → fl.F) (config : AdagradConfig fl.F) (entry grad : List fl.F)
      → length entry ≡ length grad + (if config.vectorwise_shared then 1 else length grad)
      → Sized (adagrad_update fl dot config entry grad (length grad)) (length entry)
  unfolding adagrad_update
  adagrad_update-Sized dot config entry grad h = elim (Bool-cases config.vectorwise_shared) [
    | inl shared ↦
        let size : length entry ≡ length grad + 1 = rw shared at h in
        let (out, run, same) =
          shared_update dot config (take n entry) (drop n entry) grad
            (length-take n entry (omega (arith, size)))
            (omega (arith, size, length-drop n entry)) in
        (
          out,
          rw (split_at-ok entry n (omega (arith, size))) (if_true _ _ _ shared ∙ run),
          omega (arith, size, same, length-take n entry (omega (arith, size))),
        )
    | inr apart ↦
        let size : length entry ≡ length grad + length grad = rw apart at h in
        let (out, run, same) =
          apart_update config (take n entry) (drop n entry) grad
            (length-take n entry (omega (arith, size)))
            (omega (arith, size, length-drop n entry)) in
        (
          out,
          rw (split_at-ok entry n (omega (arith, size))) (if_false _ _ _ apart ∙ run),
          omega (arith, size, same, length-take n entry (omega (arith, size))),
        )
  ]
    where
      n : ℕ
      n = length grad

  -- For every optimizer, an update of an entry with the room that the optimizer asks for, by a
  -- gradient as long as the embedding and with the two powers that Adam reads, runs to its end: it neither panics nor
  -- reads or writes beyond a slice through a raw pointer, and the entry keeps its size.
  pub update-sized :
      (dot : List fl.F → List fl.F → fl.F) (o : Optimizer fl.F) (entry grad : List fl.F)
      (p1 p2 : fl.F)
      → length entry ≡ length grad + require_space fl o (length grad)
      → (entry' : List fl.F) × (update fl dot o entry grad (length grad) (some (p1 ∷ p2 ∷ []))
          ≡ ok entry')
        × (length entry' ≡ length entry)
  unfolding update require_space sgd_update
  update-sized dot (adam a) entry grad p1 p2 h = adam_update-Sized a.config entry grad p1 p2 h
  update-sized dot (sgd c) entry grad p1 p2 h = sgd-Sized entry grad c.wd c.lr (omega (arith, h))
  update-sized dot (adagrad c) entry grad p1 p2 h = adagrad_update-Sized dot c entry grad h
