-- ===== src/Incremental/Chunked.antt =====
-- The files that `buffer_output_thread` of persia-incremental-update-manager/src/lib.rs splits a dump into.
use persia.Base.{
  ℕ, ◌+◌, ◌/◌, ◌≤◌, ◌<◌, ◌≡◌, refl, ap, ◌∙◌, inl, inr, Bool-cases, true, false, List, [], ◌∷◌, ◌++◌,
  arith, ◌==◌, if◌then◌else◌, length, length-append, Outcome, ok, panic,
}
use native.Mathlib.Nat.{le-div_iff_mul-le, div-eq_of_lt}
use persia.Incremental.{checked_div, chunk_signs}

abbrev pub concat : List (List ℕ) → List ℕ
concat [] = []
concat (part ∷ parts) = part ++ concat parts

-- Each part has at least one sign and at most `n`.
abbrev pub Filled : ℕ → List (List ℕ) → Type 0
Filled n [] = Unit
Filled n (part ∷ parts) = (0 < length part) × (length part ≤ n) × Filled n parts

-- The chunks of `n` elements, where `current` is the one that is being filled.
abbrev pub fill_chunks : (n : ℕ) (current : List ℕ) → List ℕ → List (List ℕ)
fill_chunks n [] [] = []
fill_chunks n (c ∷ current) [] = (c ∷ current) ∷ []
fill_chunks n current (sign ∷ signs) =
    let full = fill_chunks n (sign ∷ []) signs in
    let room = fill_chunks n (current ++ sign ∷ []) signs in
    if length current == n then current ∷ full else room

append_assoc : (xs ys zs : List ℕ) → (xs ++ ys) ++ zs ≡ xs ++ (ys ++ zs)
append_assoc [] ys zs = refl
append_assoc (x ∷ xs) ys zs = ap (◌∷◌ x) (append_assoc xs ys zs)

append_nil : (xs : List ℕ) → xs ++ [] ≡ xs
append_nil [] = refl
append_nil (x ∷ xs) = ap (◌∷◌ x) (append_nil xs)

fill_chunks-splits :
    (n : ℕ) (current signs : List ℕ)
    → 0 < n
    → length current ≤ n
    → (concat (fill_chunks n current signs) ≡ current ++ signs)
      × Filled n (fill_chunks n current signs)
fill_chunks-splits n [] [] h k = (refl, tt)
fill_chunks-splits n (c ∷ current) [] h k = (refl, (omega arith, k, tt))
fill_chunks-splits n current (sign ∷ signs) h k = elim (Bool-cases (length current == n)) [
  | inl full ↦
      let (joined, sized) = fill_chunks-splits n (sign ∷ []) signs h (omega (arith, h)) in
      rw full (ap (λ xs. current ++ xs) joined, (full_pos (length current) full, k, sized))
  | inr room ↦
      let (joined, sized) = fill_chunks-splits n (current ++ sign ∷ []) signs h (
        below (length current) (length (current ++ sign ∷ [])) (length-append current (sign ∷ [])) k
          room) in
      rw room (joined ∙ append_assoc current (sign ∷ []) signs, sized)
]
  where
    full_pos : (a : ℕ) → (a == n) ≡ true → 0 < a
    full_pos a t = ground arith

    below : (a b : ℕ) → b ≡ a + 1 → a ≤ n → (a == n) ≡ false → b ≤ n
    below a b e l t = ground arith

-- When itertools makes chunks of a positive size as documented, and with at least one sign for each thread of the pool, the signs of a dump are split into parts, in order and
-- without loss, each with at least one sign and at most the number of signs for each thread.
pub chunk_signs-splits :
    (chunks : ℕ → List ℕ → Outcome (List (List ℕ)))
    → ((n : ℕ) (xs : List ℕ) → 0 < n → chunks n xs ≡ ok (fill_chunks n [] xs))
    → (num_threads : ℕ) (signs : List ℕ) → 0 < num_threads
    → num_threads ≤ length signs
    → (parts : List (List ℕ)) × (chunk_signs chunks num_threads signs ≡ ok parts)
      × (concat parts ≡ signs)
      × Filled (length signs / num_threads) parts
unfolding chunk_signs checked_div
chunk_signs-splits chunks documented num_threads signs h k =
    let n = length signs / num_threads in
    let pos : 0 < n =
      (le-div_iff_mul-le {k = num_threads} {x = 1} {y = length signs} h).1 (omega (arith, k)) in
    let (joined, sized) = fill_chunks-splits n [] signs pos (omega arith) in
    (fill_chunks n [] signs, rw (positive num_threads h) (documented n signs pos), joined, sized)
  where
    positive : (a : ℕ) → 0 < a → (a == 0) ≡ false
    positive a p = ground arith

-- When itertools panics for chunks of no elements, as documented, the split of fewer signs than
-- there are threads panics.
pub chunk_signs-panics :
    (chunks : ℕ → List ℕ → Outcome (List (List ℕ)))
    → ((xs : List ℕ) → chunks 0 xs ≡ panic)
    → (num_threads : ℕ) (signs : List ℕ) → length signs < num_threads
    → chunk_signs chunks num_threads signs ≡ panic
unfolding chunk_signs checked_div
chunk_signs-panics chunks documented num_threads signs h =
    rw
      (positive num_threads (omega (arith, h)), div-eq_of_lt {n = length signs} {m = num_threads} h)
      (documented signs)
  where
    positive : (a : ℕ) → 0 < a → (a == 0) ≡ false
    positive a p = ground arith
