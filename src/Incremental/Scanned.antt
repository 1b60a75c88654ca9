-- ===== src/Incremental/Scanned.antt =====
-- Which directories the scan of persia-incremental-update-manager/src/lib.rs loads.
use persia.Base.{
  ℕ, suc, ◌+◌, ◌≡◌, refl, sym, ap, ◌∙◌, Bool, true, false, not, ◌&&◌, ◌||◌, Option, none, some,
  List, [], ◌∷◌, ◌++◌, arith, ◌==◌, ==_iff, if◌then◌else◌, elem,
}
use persia.Base.Map.{is_some}
use persia.Incremental.{Listed, scan_round, scan_rounds}

abbrev pub count : ℕ → List ℕ → ℕ
count n [] = 0
count n (x ∷ xs) = if n == x then suc (count n xs) else count n xs

-- Whether a directory has its marker, and can be listed, when a listing, or a round, first shows it.
abbrev pub first_seen : (name : ℕ) → List Listed → Option Bool
first_seen name [] = none
first_seen name (d ∷ dirs) =
    if d.is_dir && name == d.name then some (d.done && d.readable) else first_seen name dirs

abbrev pub or_else : Option Bool → Option Bool → Option Bool
or_else none o = o
or_else (some b) o = some b

abbrev pub first_shown : (name : ℕ) → List (Option (List Listed)) → Option Bool
first_shown name [] = none
first_shown name (none ∷ rounds) = first_shown name rounds
first_shown name (some dirs ∷ rounds) = or_else (first_seen name dirs) (first_shown name rounds)

-- How often a directory is loaded.
abbrev pub loads : (seen : Bool) → Option Bool → ℕ
loads seen none = 0
loads seen (some done) = if done then (if seen then 0 else 1) else 0

loads_seen : (o : Option Bool) → loads true o ≡ 0
loads_seen none = refl
loads_seen (some true) = refl
loads_seen (some false) = refl

or_false : (b : Bool) → b ≡ (b || false)
or_false true = refl
or_false false = refl

-- What a directory of a listing does to another one, or to itself.
abbrev Step :
    (n : ℕ) (d : Listed) (dir_set : List ℕ) (o : Option Bool) (skip rest : List ℕ × List ℕ) → Type 0
Step n d dir_set o skip rest =
    let after =
      if not (elem d.name dir_set) && d.is_dir
      then (if d.done && d.readable then (d.name ∷ rest.0, rest.1) else rest)
      else skip in
    let seen = if d.is_dir && n == d.name then some (d.done && d.readable) else o in
    (count n after.0 ≡ loads (elem n dir_set) seen)
    × (elem n after.1 ≡ (elem n dir_set || is_some seen))

step :
    (n : ℕ) (d : Listed) (dir_set : List ℕ) (o : Option Bool) (skip rest : List ℕ × List ℕ)
    → count n skip.0 ≡ loads (elem n dir_set) o
    → elem n skip.1 ≡ (elem n dir_set || is_some o)
    → count n rest.0 ≡ loads (n == d.name || elem n dir_set) o
    → elem n rest.1 ≡ (n == d.name || elem n dir_set || is_some o)
    → Step n d dir_set o skip rest
step n d dir_set o skip rest sc se rc re =
    cases (elem n dir_set) (elem d.name dir_set) d.is_dir (d.done && d.readable) o
      (λ h. ap (λ m. elem m dir_set) ((==_iff n d.name).0 h)) sc se rc re
  where
    cases :
        (e a b c : Bool) (o : Option Bool)
        → ((n == d.name) ≡ true → e ≡ a)
        → count n skip.0 ≡ loads e o
        → elem n skip.1 ≡ (e || is_some o)
        → count n rest.0 ≡ loads (n == d.name || e) o
        → elem n rest.1 ≡ (n == d.name || e || is_some o)
        → (count n (if not a && b then (if c then (d.name ∷ rest.0, rest.1) else rest) else skip).0
            ≡ loads e (if b && n == d.name then some c else o))
          × (elem n (if not a && b then (if c then (d.name ∷ rest.0, rest.1) else rest) else skip).1
              ≡ (e || is_some (if b && n == d.name then some c else o)))
    cases true true true c o f sc se rc re = ground (arith, loads_seen o, loads_seen (some c))
    cases true false true c o f sc se rc re = ground arith
    cases e a false c o f sc se rc re = ground arith
    cases false true true c o f sc se rc re = ground arith
    cases false false true c o f sc se rc re = ground arith

scan_round-first :
    (n : ℕ) (dirs : List Listed) (dir_set : List ℕ)
    → (count n (scan_round dir_set dirs).0 ≡ loads (elem n dir_set) (first_seen n dirs))
      × (elem n (scan_round dir_set dirs).1 ≡ (elem n dir_set || is_some (first_seen n dirs)))
unfolding scan_round
scan_round-first n [] dir_set = (refl, or_false (elem n dir_set))
scan_round-first n (d ∷ dirs) dir_set =
    let (sc, se) = scan_round-first n dirs dir_set in
    let (rc, re) = scan_round-first n dirs (d.name ∷ dir_set) in
    step n d dir_set (first_seen n dirs) (scan_round dir_set dirs)
      (scan_round (d.name ∷ dir_set) dirs) sc se rc re

count-append : (n : ℕ) (xs ys : List ℕ) → count n (xs ++ ys) ≡ count n xs + count n ys
count-append n [] ys = omega arith
count-append n (x ∷ xs) ys = ground (arith, count-append n xs ys)

-- Over any rounds, a directory that was seen before is never loaded; any other is loaded once when it has its
-- marker and can be listed in the round that shows it first, and otherwise never: not even when the
-- marker is written later.
pub scan_rounds-first :
    (n : ℕ) (rounds : List (Option (List Listed))) (dir_set : List ℕ)
    → count n (scan_rounds dir_set rounds).0 ≡ loads (elem n dir_set) (first_shown n rounds)
unfolding scan_rounds
scan_rounds-first n [] dir_set = refl
scan_rounds-first n (none ∷ rounds) dir_set = scan_rounds-first n rounds dir_set
scan_rounds-first n (some dirs ∷ rounds) dir_set =
    let (now, seen) = scan_round-first n dirs dir_set in
    let later = scan_rounds-first n rounds (scan_round dir_set dirs).1 in
    count-append n (scan_round dir_set dirs).0 _
    ∙ both (elem n dir_set) (first_seen n dirs) (first_shown n rounds) now
        (later ∙ ap (λ b. loads b (first_shown n rounds)) seen)
  where
    both :
        (b : Bool) (o q : Option Bool) {i j : ℕ}
        → i ≡ loads b o
        → j ≡ loads (b || is_some o) q
        → i + j ≡ loads b (or_else o q)
    both b none q h k = omega (arith, h, k ∙ ap (λ c. loads c q) (sym (or_false b)))
    both true (some c) q h k = omega (arith, h, k, loads_seen q, loads_seen (some c))
    both false (some c) q h k = omega (arith, h, k, loads_seen q)
