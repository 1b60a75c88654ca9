-- ===== src/Simd/Looped.antt =====
-- The two loops of rust/persia-simd/src/lib.rs, for any body that changes rows of the slices: a row
-- has the floats of all slices at an index.
use persia.Base.{
  ℕ, zero, suc, ◌+◌, ◌-◌, ◌*◌, ◌/◌, ◌≤◌, ◌≡◌, refl, sym, ap, subst, ◌∙◌, List, [], ◌∷◌, ◌++◌, arith,
  map, length, length-append, length-map, take, drop, set, Outcome, ok, ◌>>=◌,
}
use persia.Simd.{steps, left_over}
use persia.Simd.Lanes.{M256, loadu_ps, storeu_ps, index, for_step8, for_range}

-- Eight rows in front of others.
abbrev pub eight : {R : Type 0} → M256 R → List R → List R
eight v xs = v.lane0 ∷ v.lane1 ∷ v.lane2 ∷ v.lane3 ∷ v.lane4 ∷ v.lane5 ∷ v.lane6 ∷ v.lane7 ∷ xs

abbrev pub map8 : {R T : Type 0} → (R → T) → M256 R → M256 T
map8 f v = record {
  lane0 = f v.lane0;
  lane1 = f v.lane1;
  lane2 = f v.lane2;
  lane3 = f v.lane3;
  lane4 = f v.lane4;
  lane5 = f v.lane5;
  lane6 = f v.lane6;
  lane7 = f v.lane7;
}

module _ {R T : Type 0} (f : R → T) where
  pub loadu_ps-map :
      (d : List R) (v : M256 R) (rest : List R)
      → loadu_ps (map f (d ++ eight v rest)) (length d) ≡ ok (map8 f v)
  loadu_ps-map [] v rest = refl
  loadu_ps-map (x ∷ d) v rest = loadu_ps-map d v rest

  pub storeu_ps-map :
      (d : List R) (v w : M256 R) (rest : List R)
      → storeu_ps (map f (d ++ eight v rest)) (length d) (map8 f w) ≡ ok (map f (d ++ eight w rest))
  storeu_ps-map [] v w rest = refl
  storeu_ps-map (x ∷ d) v w rest = rw (storeu_ps-map d v w rest) refl

  pub index-map :
      (d : List R) (r : R) (rest : List R) → index (map f (d ++ r ∷ rest)) (length d) ≡ ok (f r)
  index-map [] r rest = refl
  index-map (x ∷ d) r rest = index-map d r rest

  pub set-map :
      (d : List R) (r q : R) (rest : List R)
      → set (map f (d ++ r ∷ rest)) (length d) (f q) ≡ map f (d ++ q ∷ rest)
  set-map [] r q rest = refl
  set-map (x ∷ d) r q rest = ap (◌∷◌ (f x)) (set-map d r q rest)

eight_rows :
    {R : Type 0} (xs : List R)
    → 8 ≤ length xs
    → (v : M256 R) × (rest : List R) × (xs ≡ eight v rest)
eight_rows (a ∷ b ∷ c ∷ d ∷ e ∷ f ∷ g ∷ h ∷ xs) p = (
  record { lane0 = a; lane1 = b; lane2 = c; lane3 = d; lane4 = e; lane5 = f; lane6 = g; lane7 = h },
  xs,
  refl,
)
eight_rows _ p = absurd (omega arith)

snoc : {R : Type 0} (d : List R) (r : R) (xs : List R) → (d ++ r ∷ []) ++ xs ≡ d ++ r ∷ xs
snoc [] r xs = refl
snoc (x ∷ d) r xs = ap (◌∷◌ x) (snoc d r xs)

-- The rows before `length / 8 * 8` are changed by the lanes, the others by the scalar code.
abbrev pub by_eights : {R : Type 0} → (lane scalar : R → R) → List R → List R
by_eights lane scalar rows =
    map lane (take (length rows / 8 * 8) rows) ++ map scalar (drop (length rows / 8 * 8) rows)

pub length-take : {R : Type 0} (n : ℕ) (xs : List R) → n ≤ length xs → length (take n xs) ≡ n
length-take zero xs h = refl
length-take (suc n) [] h = absurd (omega arith)
length-take (suc n) (x ∷ xs) h = ap suc (length-take n xs (omega arith))

pub by_eights-same : {R : Type 0} (f : R → R) (rows : List R) → by_eights f f rows ≡ map f rows
by_eights-same {R} f rows = go (length rows / 8 * 8) rows
  where
    go : (n : ℕ) (xs : List R) → map f (take n xs) ++ map f (drop n xs) ≡ map f xs
    go zero xs = refl
    go (suc n) [] = refl
    go (suc n) (x ∷ xs) = ap (◌∷◌ (f x)) (go n xs)

pub length-drop : {R : Type 0} (n : ℕ) (xs : List R) → length (drop n xs) ≡ length xs - n
length-drop zero xs = omega arith
length-drop (suc n) [] = omega arith
length-drop (suc n) (x ∷ xs) = length-drop n xs ∙ omega arith

regroup :
    {R : Type 0} (d : List R) (v : M256 R) (xs : List R) → (d ++ eight v []) ++ xs ≡ d ++ eight v xs
regroup [] v xs = refl
regroup (x ∷ d) v xs = ap (◌∷◌ x) (regroup d v xs)

pub length-by_eights :
    {R : Type 0} (lane scalar : R → R) (rows : List R)
    → length (by_eights lane scalar rows) ≡ length rows
length-by_eights lane scalar rows =
    let n = length rows / 8 * 8 in
    omega (
      arith,
      length-append (map lane (take n rows)) (map scalar (drop n rows)),
      length-map lane (take n rows),
      length-map scalar (drop n rows),
      length-take n rows (omega arith),
      length-drop n rows,
    )

module _ {R S T : Type 0} (arr : List R → S) (fixed : R → T) where
  -- What a body of the first loop does to eight rows.
  abbrev pub Lanes : (List T → ℕ → S → Outcome S) → (R → R) → Type 0
  Lanes body lane =
      (d : List R) (v : M256 R) (rest : List R)
      → body (map fixed (d ++ eight v rest)) (length d) (arr (d ++ eight v rest))
        ≡ ok (arr (d ++ eight (map8 lane v) rest))

  -- What a body of the second loop does to a row.
  abbrev pub Scalar : (List T → ℕ → S → Outcome S) → (R → R) → Type 0
  Scalar body scalar =
      (d : List R) (r : R) (rest : List R)
      → body (map fixed (d ++ r ∷ rest)) (length d) (arr (d ++ r ∷ rest))
        ≡ ok (arr (d ++ scalar r ∷ rest))

  fixed-lanes :
      (lane : R → R)
      → ((r : R) → fixed (lane r) ≡ fixed r)
      → (d : List R) (v : M256 R) (xs : List R)
      → map fixed (d ++ eight v xs) ≡ map fixed (d ++ eight (map8 lane v) xs)
  fixed-lanes lane keep [] v xs =
      rw
        (
          keep v.lane0,
          keep v.lane1,
          keep v.lane2,
          keep v.lane3,
          keep v.lane4,
          keep v.lane5,
          keep v.lane6,
          keep v.lane7,
        )
        refl
  fixed-lanes lane keep (x ∷ d) v xs = ap (◌∷◌ (fixed x)) (fixed-lanes lane keep d v xs)

  fixed-scalar :
      (scalar : R → R)
      → ((r : R) → fixed (scalar r) ≡ fixed r)
      → (d : List R) (r : R) (xs : List R)
      → map fixed (d ++ r ∷ xs) ≡ map fixed (d ++ scalar r ∷ xs)
  fixed-scalar scalar keep [] r xs = rw (keep r) refl
  fixed-scalar scalar keep (x ∷ d) r xs = ap (◌∷◌ (fixed x)) (fixed-scalar scalar keep d r xs)

  -- What `n` steps of the first loop do, from an index on, with `d` the rows before it.
  abbrev Stepped : (List T → ℕ → S → Outcome S) → (R → R) → (g : List T) (n : ℕ) → Type 0
  Stepped body lane g n =
      (d rest : List R) (i : ℕ)
      → i ≡ length d
      → g ≡ map fixed (d ++ rest)
      → n * 8 ≤ length rest
      → for_step8 (body g) n i (arr (d ++ rest))
        ≡ ok (arr (d ++ (map lane (take (n * 8) rest) ++ drop (n * 8) rest)))

  -- One step more, on eight rows.
  advance :
      (body : List T → ℕ → S → Outcome S) (lane : R → R) (g : List T) (n : ℕ)
      → Lanes body lane
      → ((r : R) → fixed (lane r) ≡ fixed r)
      → Stepped body lane g n
      → (d : List R) (i : ℕ) (v : M256 R) (xs : List R) → i ≡ length d
      → g ≡ map fixed (d ++ eight v xs)
      → n * 8 ≤ length xs
      → for_step8 (body g) (suc n) i (arr (d ++ eight v xs))
        ≡ ok
            (arr (d ++ (map lane (take (suc n * 8) (eight v xs)) ++ drop (suc n * 8) (eight v xs))))
  advance body lane g n step keep more d i v xs at q room =
      let w = map8 lane v in
      let ys = map lane (take (n * 8) xs) ++ drop (n * 8) xs in
      let e = d ++ eight w [] in
      let rest_done : for_step8 (body g) n (i + 8) (arr (e ++ xs)) ≡ ok (arr (e ++ ys)) =
        more e xs (i + 8) (omega (arith, at, length-append d (eight w [])))
          (q ∙ fixed-lanes lane keep d v xs ∙ ap (map fixed) (sym (regroup d w xs))) room in
      let there : body g i (arr (d ++ eight v xs)) ≡ ok (arr (d ++ eight w xs)) =
        rw (at, q) (step d v xs) in
      ap (λ o. o >>= for_step8 (body g) n (i + 8)) there
      ∙ ap (λ zs. for_step8 (body g) n (i + 8) (arr zs)) (sym (regroup d w xs))
      ∙ rest_done
      ∙ ap (λ zs. ok (arr zs)) (regroup d w ys)
      ∙ ap (λ k. ok (arr (d ++ (map lane (take k (eight v xs)) ++ drop k (eight v xs))))) eight_more
    where
      eight_more : suc (suc (suc (suc (suc (suc (suc (suc (n * 8)))))))) ≡ suc n * 8
      eight_more = omega arith

  for_step8-rows :
      (body : List T → ℕ → S → Outcome S) (lane : R → R)
      → Lanes body lane
      → ((r : R) → fixed (lane r) ≡ fixed r)
      → (g : List T) (n : ℕ) → Stepped body lane g n
  for_step8-rows body lane step keep g zero d rest i at same p = refl
  for_step8-rows body lane step keep g (suc n) d rest i at same p =
      let (v, xs, q) = eight_rows rest (omega arith) in
      subst
        (λ ws.
          for_step8 (body g) (suc n) i (arr (d ++ ws))
          ≡ ok (arr (d ++ (map lane (take (suc n * 8) ws) ++ drop (suc n * 8) ws))))
        (sym q)
        (advance body lane g n step keep (for_step8-rows body lane step keep g n) d i v xs at
          (same ∙ ap (λ ws. map fixed (d ++ ws)) q) (omega (arith, ap length q)))

  -- The second loop, over all the rows that are left.
  for_range-rows :
      (body : List T → ℕ → S → Outcome S) (scalar : R → R)
      → Scalar body scalar
      → ((r : R) → fixed (scalar r) ≡ fixed r)
      → (g : List T) (d rest : List R) (i : ℕ) → i ≡ length d
      → g ≡ map fixed (d ++ rest)
      → for_range (body g) (length rest) i (arr (d ++ rest)) ≡ ok (arr (d ++ map scalar rest))
  for_range-rows body scalar step keep g d [] i at same = refl
  for_range-rows body scalar step keep g d (r ∷ rest) i at same =
      let there : body g i (arr (d ++ r ∷ rest)) ≡ ok (arr (d ++ scalar r ∷ rest)) =
        rw (at, same) (step d r rest) in
      ap (λ o. o >>= for_range (body g) (length rest) (i + 1)) there
      ∙ ap (λ zs. for_range (body g) (length rest) (i + 1) (arr zs)) (sym (snoc d (scalar r) rest))
      ∙ for_range-rows body scalar step keep g (d ++ scalar r ∷ []) rest (i + 1)
          (omega (arith, at, length-append d (scalar r ∷ [])))
          (same ∙ fixed-scalar scalar keep d r rest ∙ ap (map fixed) (sym (snoc d (scalar r) rest)))
      ∙ ap (λ zs. ok (arr zs)) (snoc d (scalar r) (map scalar rest))

  -- The rows after both loops: the first `length / 8 * 8` rows are changed by the lanes of vectors.
  fixed-split :
      (lane : R → R)
      → ((r : R) → fixed (lane r) ≡ fixed r)
      → (n : ℕ) (rows : List R) → map fixed rows ≡ map fixed (map lane (take n rows) ++ drop n rows)
  fixed-split lane keep zero rows = refl
  fixed-split lane keep (suc n) [] = refl
  fixed-split lane keep (suc n) (r ∷ rows) = rw (keep r, fixed-split lane keep n rows) refl

  -- Both loops, over slices that are the columns of rows.
  pub both-rows :
      (body8 body1 : List T → ℕ → S → Outcome S) (lane scalar : R → R)
      → Lanes body8 lane
      → Scalar body1 scalar
      → ((r : R) → fixed (lane r) ≡ fixed r)
      → ((r : R) → fixed (scalar r) ≡ fixed r)
      → (rows : List R)
      → (for_step8 (body8 (map fixed rows)) (steps (length rows)) 0 (arr rows)
          >>= for_range
              (body1 (map fixed rows))
              (left_over (length rows))
              (steps (length rows) * 8))
        ≡ ok (arr (by_eights lane scalar rows))
  unfolding steps left_over
  both-rows body8 body1 lane scalar s8 s1 k8 k1 rows =
      let e = length rows / 8 * 8 in
      let g = map fixed rows in
      ap (λ o. o >>= for_range (body1 g) (length rows - e) e)
        (for_step8-rows body8 lane s8 k8 g (length rows / 8) [] rows 0 refl refl (omega arith))
      ∙ ap (λ n. for_range (body1 g) n e (arr (map lane (take e rows) ++ drop e rows)))
          (sym (length-drop e rows))
      ∙ for_range-rows body1 scalar s1 k1 g (map lane (take e rows)) (drop e rows) e
          (sym (length-map lane (take e rows) ∙ length-take e rows (omega arith)))
          (fixed-split lane k8 e rows)
