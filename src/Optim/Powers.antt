-- ===== src/Optim/Powers.antt =====
-- The powers of the betas that Adam keeps for each feature group (`get_batch_level_state` of
-- rust/persia-common/src/optim.rs).
use persia.Base.{
  ℕ, zero, suc, ◌+◌, ◌/◌, ◌≡◌, refl, sym, ap, subst, ◌∙◌, inl, inr, Option-cases, Bool, true, false,
  not, ◌&&◌, ◌||◌, Option, none, some, List, [], ◌∷◌, ◌++◌, map, length, length-map, length-append,
  get_elem?, arith, ◌==◌, ==_iff, if◌then◌else◌, omap, ok,
}
use persia.Base.Map.{nat_eq, Map, get, insert, get-insert, is_some}
use persia.Simd.Lanes.{Floats}
use persia.Optim.{
  AdamConfig, Adam, AdamPowerOfBetas, masked_sign, next_betas, batch_powers, get_batch_level_state,
  get_emb_state,
}

module _ (fl : Floats) (config : AdamConfig fl.F) (bits : ℕ) where
  abbrev Powers : Type 0
  Powers = AdamPowerOfBetas fl.F

  abbrev either : Option Powers → Option Powers → Option Powers
  either (some p) o = some p
  either none o = omap (next_betas fl config) o

  -- The powers that a sign of the group is updated with.
  abbrev power_of : (steped accum_betas : Map ℕ Powers) (group : ℕ) → Option Powers
  power_of steped accum_betas group = either (get steped group) (get accum_betas group)

  -- Each sign has a group with powers.
  abbrev pub Known : Map ℕ Powers → List ℕ → Type 0
  Known accum_betas [] = Unit
  Known accum_betas (sign ∷ signs) =
      (is_some (get accum_betas (masked_sign bits sign)) ≡ true) × Known accum_betas signs

  abbrev pub in_batch : List ℕ → (group : ℕ) → Bool
  in_batch [] group = false
  in_batch (sign ∷ signs) group = masked_sign bits sign == group || in_batch signs group

  -- The powers of a group after the batch.
  abbrev accum_after : (steped accum_betas : Map ℕ Powers) → List ℕ → (group : ℕ) → Option Powers
  accum_after steped accum_betas signs group =
      if in_batch signs group && not (is_some (get steped group))
      then omap (next_betas fl config) (get accum_betas group)
      else get accum_betas group

  abbrev powers_for : (steped accum_betas : Map ℕ Powers) → List ℕ → List (Option Powers)
  powers_for steped accum_betas signs =
      map (λ sign. power_of steped accum_betas (masked_sign bits sign)) signs

  Known-insert :
      (accum_betas : Map ℕ Powers) (group : ℕ) (p : Powers) (signs : List ℕ)
      → Known accum_betas signs
      → Known (insert accum_betas group p) signs
  Known-insert accum_betas group p [] k = tt
  Known-insert accum_betas group p (sign ∷ signs) k = (
    rw (get-insert accum_betas group p (masked_sign bits sign))
        (kept (group == masked_sign bits sign) (get accum_betas (masked_sign bits sign)) k.0),
    Known-insert accum_betas group p signs k.1,
  )
    where
      kept :
          (b : Bool) (o : Option Powers)
          → is_some o ≡ true
          → is_some (if b then some p else o) ≡ true
      kept true o h = refl
      kept false o h = h

  -- A step of a group that had none.
  power_of-step :
      (steped accum_betas : Map ℕ Powers) (group : ℕ) (p : Powers)
      → get steped group ≡ none
      → get accum_betas group ≡ some p
      → (h : ℕ)
      → power_of
          (insert steped group (next_betas fl config p))
          (insert accum_betas group (next_betas fl config p))
          h
        ≡ power_of steped accum_betas h
  power_of-step steped accum_betas group p fresh known h =
      rw
        (
          get-insert steped group (next_betas fl config p) h,
          get-insert accum_betas group (next_betas fl config p) h,
        )
        (split (group == h) (λ same.
          let q = ==_iff group h in
          (
            subst (λ i. get steped i ≡ none) (q.0 same) fresh,
            subst (λ i. get accum_betas i ≡ some p) (q.0 same) known,
          )))
    where
      split :
          (b : Bool)
          → (b ≡ true → (get steped h ≡ none) × (get accum_betas h ≡ some p))
          → either
              (if b then some (next_betas fl config p) else get steped h)
              (if b then some (next_betas fl config p) else get accum_betas h)
            ≡ either (get steped h) (get accum_betas h)
      split true f = rw ((f refl).0, (f refl).1) refl
      split false f = refl

  -- What a step of a group does to the powers after the batch.
  accum_after-step :
      (steped accum_betas : Map ℕ Powers) (sign : ℕ) (signs : List ℕ) (p : Powers)
      → get steped (masked_sign bits sign) ≡ none
      → get accum_betas (masked_sign bits sign) ≡ some p
      → (h : ℕ)
      → accum_after
          (insert steped (masked_sign bits sign) (next_betas fl config p))
          (insert accum_betas (masked_sign bits sign) (next_betas fl config p))
          signs
          h
        ≡ accum_after steped accum_betas (sign ∷ signs) h
  accum_after-step steped accum_betas sign signs p fresh known h =
      let group = masked_sign bits sign in
      rw
        (
          get-insert steped group (next_betas fl config p) h,
          get-insert accum_betas group (next_betas fl config p) h,
        )
        (split (group == h) (in_batch signs h) (λ same.
          let q = ==_iff group h in
          (
            subst (λ i. get steped i ≡ none) (q.0 same) fresh,
            subst (λ i. get accum_betas i ≡ some p) (q.0 same) known,
          )))
    where
      split :
          (b c : Bool)
          → (b ≡ true → (get steped h ≡ none) × (get accum_betas h ≡ some p))
          → Path
              (Option Powers)
              (if c && not (is_some (if b then some (next_betas fl config p) else get steped h))
                then omap
                    (next_betas fl config)
                    (if b then some (next_betas fl config p) else get accum_betas h)
                else (if b then some (next_betas fl config p) else get accum_betas h))
              (if (b || c) && not (is_some (get steped h))
                then omap (next_betas fl config) (get accum_betas h)
                else get accum_betas h)
      split true true f = rw ((f refl).0, (f refl).1) refl
      split true false f = rw ((f refl).0, (f refl).1) refl
      split false c f = refl

  -- A sign of a group that has stepped changes nothing.
  accum_after-old :
      (steped accum_betas : Map ℕ Powers) (sign : ℕ) (signs : List ℕ) (p : Powers)
      → get steped (masked_sign bits sign) ≡ some p
      → (h : ℕ)
      → accum_after steped accum_betas signs h ≡ accum_after steped accum_betas (sign ∷ signs) h
  accum_after-old steped accum_betas sign signs p old h =
      split (masked_sign bits sign == h) (in_batch signs h) (λ same.
        let q = ==_iff (masked_sign bits sign) h in
        subst (λ i. get steped i ≡ some p) (q.0 same) old)
    where
      split :
          (b c : Bool)
          → (b ≡ true → get steped h ≡ some p)
          → Path
              (Option Powers)
              (if c && not (is_some (get steped h))
                then omap (next_betas fl config) (get accum_betas h)
                else get accum_betas h)
              (if (b || c) && not (is_some (get steped h))
                then omap (next_betas fl config) (get accum_betas h)
                else get accum_betas h)
      split true true f = refl
      split true false f = rw (f refl) refl
      split false c f = refl

  map-same :
      (f g : ℕ → Option Powers)
      → ((h : ℕ) → f h ≡ g h)
      → (signs : List ℕ)
      → map (λ s. f (masked_sign bits s)) signs ≡ map (λ s. g (masked_sign bits s)) signs
  map-same f g e [] = refl
  map-same f g e (s ∷ signs) = rw (e (masked_sign bits s), map-same f g e signs) refl

  some_of : (o : Option Powers) → is_some o ≡ true → (p : Powers) × (o ≡ some p)
  some_of none h = absurd (ground (arith, h))
  some_of (some p) h = (p, refl)

  -- What the loop returns for the signs, and the powers that it leaves.
  abbrev Runs : (signs : List ℕ) (steped accum_betas : Map ℕ Powers) → Type 0
  Runs signs steped accum_betas =
      (powers : List Powers) × (accum' : Map ℕ Powers) × (batch_powers fl config bits signs steped
          accum_betas
        ≡ ok (powers, accum'))
      × (map some powers ≡ powers_for steped accum_betas signs)
      × ((group : ℕ) → get accum' group ≡ accum_after steped accum_betas signs group)

  first_step :
      (sign : ℕ) (signs : List ℕ) (steped accum_betas : Map ℕ Powers) (p : Powers)
      → get steped (masked_sign bits sign) ≡ none
      → get accum_betas (masked_sign bits sign) ≡ some p
      → Runs signs
          (insert steped (masked_sign bits sign) (next_betas fl config p))
          (insert accum_betas (masked_sign bits sign) (next_betas fl config p))
      → Runs (sign ∷ signs) steped accum_betas
  unfolding batch_powers
  first_step sign signs steped accum_betas p fresh known (powers, accum', run, out, after) = (
    next_betas fl config p ∷ powers,
    accum',
    rw (batch_powers, fresh, known, run) refl,
    rw (fresh, known, out)
        (ap (◌∷◌ (some (next_betas fl config p))) (
          map-same _ _ (power_of-step steped accum_betas (masked_sign bits sign) p fresh known)
            signs)),
    λ h. after h ∙ accum_after-step steped accum_betas sign signs p fresh known h,
  )

  batch_powers-Runs :
      (signs : List ℕ) (steped accum_betas : Map ℕ Powers)
      → Known accum_betas signs
      → Runs signs steped accum_betas
  unfolding batch_powers
  batch_powers-Runs [] steped accum_betas k = ([], accum_betas, refl, refl, λ group. refl)
  batch_powers-Runs (sign ∷ signs) steped accum_betas k =
      elim (Option-cases (get steped (masked_sign bits sign))) [
        | inr (p, e) ↦
            let (powers, accum', run, out, after) =
              batch_powers-Runs signs steped accum_betas k.1 in
            (
              p ∷ powers,
              accum',
              rw (batch_powers, e, run) refl,
              rw (e, out) refl,
              λ h. after h ∙ accum_after-old steped accum_betas sign signs p e h,
            )
        | inl e ↦
            let (p, known) = some_of (get accum_betas (masked_sign bits sign)) k.0 in
            first_step sign signs steped accum_betas p e known (
              batch_powers-Runs signs
                (insert steped (masked_sign bits sign) (next_betas fl config p))
                (insert accum_betas (masked_sign bits sign) (next_betas fl config p))
                (Known-insert accum_betas (masked_sign bits sign) (next_betas fl config p) signs
                  k.1))
      ]

get_elem?-map :
    {A B : Type 0} (f : A → B) (xs : List A) (i : ℕ)
    → get_elem? (map f xs) i ≡ omap f (get_elem? xs i)
get_elem?-map f [] i = refl
get_elem?-map f (x ∷ xs) zero = refl
get_elem?-map f (x ∷ xs) (suc i) = get_elem?-map f xs i

get_elem?-append :
    {A : Type 0} (xs ys : List A) (i : ℕ) (a : A)
    → get_elem? xs i ≡ some a
    → get_elem? (xs ++ ys) i ≡ some a
get_elem?-append [] ys i a h = absurd (ground (arith, h))
get_elem?-append (x ∷ xs) ys zero a h = h
get_elem?-append (x ∷ xs) ys (suc i) a h = get_elem?-append xs ys i a h

get_elem?-after :
    {A : Type 0} (xs ys : List A) (n i : ℕ)
    → n ≡ length xs + i
    → get_elem? (xs ++ ys) n ≡ get_elem? ys i
get_elem?-after [] ys n i h = ap (get_elem? ys) (omega (arith, h))
get_elem?-after (x ∷ xs) ys zero i h = absurd (omega (arith, h))
get_elem?-after (x ∷ xs) ys (suc n) i h = get_elem?-after xs ys n i (omega (arith, h))

of_some : {A : Type 0} (o : Option A) (a : A) → omap some o ≡ some (some a) → o ≡ some a
of_some none a h = absurd (ground (arith, h))
of_some (some b) a h = ground (arith, h)

module _ (fl : Floats) where
  -- The state of the sign at an index.
  get_emb_state-powers :
      (powers : List (AdamPowerOfBetas fl.F)) (i : ℕ) (p : AdamPowerOfBetas fl.F)
      → get_elem? powers i ≡ some p
      → get_emb_state fl (some (map (λ q. q.beta1) powers ++ map (λ q. q.beta2) powers)) i
        ≡ ok (some (p.beta1 ∷ p.beta2 ∷ []))
  unfolding get_emb_state
  get_emb_state-powers powers i p h =
      let ones = map (λ (q : AdamPowerOfBetas fl.F). q.beta1) powers in
      let twos = map (λ (q : AdamPowerOfBetas fl.F). q.beta2) powers in
      let one : get_elem? ones i ≡ some p.beta1 =
        get_elem?-map (λ (q : AdamPowerOfBetas fl.F). q.beta1) powers i ∙ rw h refl in
      let two : get_elem? twos i ≡ some p.beta2 =
        get_elem?-map (λ (q : AdamPowerOfBetas fl.F). q.beta2) powers i ∙ rw h refl in
      rw
        (
          get_elem?-append ones twos i p.beta1 one,
          get_elem?-after ones twos (length (ones ++ twos) / 2 + i) i (
              omega (
                arith,
                length-append ones twos,
                length-map (λ (q : AdamPowerOfBetas fl.F). q.beta1) powers,
                length-map (λ (q : AdamPowerOfBetas fl.F). q.beta2) powers,
              )),
          two,
        )
        refl

  -- With an entry for the feature group of every sign, `get_batch_level_state` succeeds. It gives
  -- each sign, here the one at the index `i`, the powers of the betas of its group times the betas, once
  -- for the whole batch; these are the powers that the groups of the batch have afterwards, and the
  -- other groups keep theirs.
  pub get_batch_level_state-steps :
      (a : Adam fl.F) (signs : List ℕ) (i sign : ℕ) (p : AdamPowerOfBetas fl.F)
      → Known fl a.config a.embedding_config.feature_index_prefix_bit a.accum_betas signs
      → get_elem? signs i ≡ some sign
      → get a.accum_betas (masked_sign a.embedding_config.feature_index_prefix_bit sign) ≡ some p
      → (state : List fl.F) × (accum' : Map ℕ (AdamPowerOfBetas fl.F)) × (get_batch_level_state fl a
            signs
          ≡ ok (some state, record a { accum_betas = accum' }))
        × (get_emb_state fl (some state) i
            ≡ ok (some (fl.mul p.beta1 a.config.beta1 ∷ fl.mul p.beta2 a.config.beta2 ∷ [])))
        × ((group : ℕ)
            → get accum' group ≡ (
                if in_batch fl a.config a.embedding_config.feature_index_prefix_bit signs group
                then omap (next_betas fl a.config) (get a.accum_betas group)
                else get a.accum_betas group))
  unfolding get_batch_level_state get next_betas
  get_batch_level_state-steps a signs i sign p k at known =
      let bits = a.embedding_config.feature_index_prefix_bit in
      let (powers, accum', run, out, after) =
        batch_powers-Runs fl a.config bits signs [] a.accum_betas k in
      (
        map (λ p. p.beta1) powers ++ map (λ p. p.beta2) powers,
        accum',
        rw run refl,
        get_emb_state-powers powers i (next_betas fl a.config p) (
            of_some (get_elem? powers i) (next_betas fl a.config p) (
              sym (get_elem?-map some powers i)
              ∙ ap (λ ps. get_elem? ps i) out
              ∙ get_elem?-map
                  (λ s. omap (next_betas fl a.config) (get a.accum_betas (masked_sign bits s)))
                  signs i
              ∙ rw (at, known) refl)),
        λ group.
            after group
            ∙ both (in_batch fl a.config bits signs group)
                (omap (next_betas fl a.config) (get a.accum_betas group)) (get a.accum_betas group),
      )
    where
      both :
          (b : Bool) (o q : Option (AdamPowerOfBetas fl.F))
          → (if b && true then o else q) ≡ (if b then o else q)
      both true o q = refl
      both false o q = refl
