-- ===== src/Tests/Increments.antt =====
-- Examples for persia-incremental-update-manager/src/lib.rs.
use persia.Base.{
  Outcome, ◌==◌, ◌<◌, ℕ, ◌+◌, ◌/◌, ◌≡◌, refl, true, false, Option, some, List, [], ◌∷◌, arith, leb,
  elem, if◌then◌else◌, ok, panic,
}
use persia.Base.Map.{nat_eq, get as map_get}
use persia.Holder.EvictionMap.{get}
use persia.Holder.LinkedList.{at}
use persia.Holder.LinkedList.Read.{index}
use persia.Incremental.{
  Dumped, Listed, scan_round, scan_rounds, chunk_signs, checked_div, held_entries,
}
use persia.Incremental.Chunked.{fill_chunks, concat, Filled, chunk_signs-splits, chunk_signs-panics}
use persia.Incremental.Marked.{Segment, dump_segments, sum, last_dir, dump_segments-marks}
use persia.Incremental.Scanned.{count, first_shown, loads, scan_rounds-first}
use persia.ParamServer.{shard, get_index}
use persia.Tests.Servers.{one_entry, entry_4, same_hash}

-- The chunks of itertools.
abbrev all_chunks : ℕ → List ℕ → Outcome (List (List ℕ))
all_chunks n xs = if n == 0 then panic else ok (fill_chunks n [] xs)

all_chunks_documented : (n : ℕ) (xs : List ℕ) → 0 < n → all_chunks n xs ≡ ok (fill_chunks n [] xs)
all_chunks_documented n xs h = rw (positive n h) refl
  where
    positive : (a : ℕ) → 0 < a → (a == 0) ≡ false
    positive a p = ground arith

chunk_signs_run :
    chunk_signs all_chunks 2 (1 ∷ 2 ∷ 3 ∷ 4 ∷ 5 ∷ [])
    ≡ ok ((1 ∷ 2 ∷ []) ∷ (3 ∷ 4 ∷ []) ∷ (5 ∷ []) ∷ [])
unfolding chunk_signs checked_div
chunk_signs_run = refl

chunk_signs-splits_example :
    (parts : List (List ℕ)) × (chunk_signs all_chunks 2 (1 ∷ 2 ∷ 3 ∷ 4 ∷ 5 ∷ []) ≡ ok parts)
    × (concat parts ≡ 1 ∷ 2 ∷ 3 ∷ 4 ∷ 5 ∷ [])
    × Filled (5 / 2) parts
chunk_signs-splits_example =
    chunk_signs-splits all_chunks all_chunks_documented 2 (1 ∷ 2 ∷ 3 ∷ 4 ∷ 5 ∷ []) (omega arith)
      (omega arith)

chunk_signs-panics_example : chunk_signs all_chunks 4 (1 ∷ 2 ∷ 3 ∷ []) ≡ panic
chunk_signs-panics_example =
    chunk_signs-panics all_chunks (λ xs. refl) 4 (1 ∷ 2 ∷ 3 ∷ []) (omega arith)

abbrev nothing_dumped : Dumped ℕ
nothing_dumped = record { packets = []; num_dumped_signs = 0; done = [] }

-- The sign 4 is held, the sign 5 is not.
abbrev one_segment : Segment
one_segment = record { dst_dir = 30; signs = 4 ∷ 5 ∷ []; written = true }

held_run : held_entries same_hash (one_entry ∷ []) (4 ∷ 5 ∷ []) ≡ ok (entry_4 ∷ [])
unfolding held_entries shard get_index get map_get index at
held_run = refl

dump_segments-marks_example :
    (s' : Dumped ℕ) × (dump_segments same_hash 0
        (one_entry ∷ [])
        2
        nothing_dumped
        (one_segment ∷ [])
      ≡ ok s')
    × (s'.num_dumped_signs ≡ 0 + sum (1 ∷ []))
    × (s'.done ≡ (if leb 2 (0 + sum (1 ∷ [])) then last_dir 30 [] ∷ [] else []))
dump_segments-marks_example =
    dump_segments-marks same_hash 0 (one_entry ∷ []) 2 nothing_dumped one_segment [] 1 []
      ((entry_4 ∷ [], held_run, refl, omega arith, refl), tt) (omega arith)

-- A directory that is listed before its marker is written, and again afterwards.
abbrev two_rounds : List (Option (List Listed))
two_rounds =
    some (record { name = 7; is_dir = true; done = false; readable = true } ∷ [])
    ∷ some (
        record { name = 7; is_dir = true; done = true; readable = true }
        ∷ record { name = 8; is_dir = true; done = true; readable = true }
        ∷ [])
    ∷ []

scan_rounds_run : (scan_rounds [] two_rounds).0 ≡ 8 ∷ []
unfolding scan_rounds scan_round
scan_rounds_run = refl

scan_rounds-first_example :
    count 7 (scan_rounds [] two_rounds).0 ≡ loads (elem 7 []) (first_shown 7 two_rounds)
scan_rounds-first_example = scan_rounds-first 7 two_rounds []
