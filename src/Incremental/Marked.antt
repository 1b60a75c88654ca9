-- ===== src/Incremental/Marked.antt =====
-- The marker of a dump (`dump_embedding_segment` of persia-incremental-update-manager/src/lib.rs).
use persia.Base.{
  ℕ, ◌+◌, ◌≤◌, ◌<◌, ◌≡◌, refl, ap, ◌∙◌, Bool, true, List, [], ◌∷◌, ◌++◌, arith, leb, if◌then◌else◌,
  length, Outcome, ok, ◌>>=◌,
}
use persia.Holder.EvictionMap.{EvictionMap}
use persia.Holder.EmbEntry.{HashMapEmbeddingEntry}
use persia.Incremental.{Dumped, held_entries, dump_embedding_segment}

-- A segment of a dump: its directory, its signs, and whether its packet can be written.
pub record Segment : Type 0 where
  pub dst_dir : ℕ
  pub signs : List ℕ
  pub written : Bool

abbrev pub sum : List ℕ → ℕ
sum [] = 0
sum (k ∷ ks) = k + sum ks

abbrev pub last_dir : ℕ → List Segment → ℕ
last_dir d [] = d
last_dir d (g ∷ segments) = last_dir g.dst_dir segments

module _ {F : Type 0} (hash : ℕ → ℕ) (now : ℕ)
    (inner : List (EvictionMap ℕ (HashMapEmbeddingEntry F))) where
  -- The segments in the order in which the pool runs them.
  unfoldable pub dump_segments :
      (num_total_signs : ℕ) → Dumped F → List Segment → Outcome (Dumped F)
  dump_segments num_total_signs s [] = ok s
  dump_segments num_total_signs s (g ∷ segments) = do
    s' ← dump_embedding_segment hash now g.written inner s g.dst_dir g.signs num_total_signs
    dump_segments num_total_signs s' segments

  -- The shards hold `found` signs of each segment, one at least, and its packet can be written.
  abbrev pub Finds : List Segment → (found : List ℕ) → Type 0
  Finds [] [] = Unit
  Finds [] (k ∷ found) = 0 < 0
  Finds (g ∷ segments) [] = 0 < 0
  Finds (g ∷ segments) (k ∷ found) =
      ((entries : List (HashMapEmbeddingEntry F)) × (held_entries hash inner g.signs ≡ ok entries)
        × (length entries ≡ k)
        × (0 < k)
        × (g.written ≡ true))
      × Finds segments found

  abbrev dumped : (total : ℕ) → Dumped F → Segment → List (HashMapEmbeddingEntry F) → Dumped F
  dumped total s g entries = record {
    packets = s.packets ++ (g.dst_dir, record { content = entries; timestamps = now }) ∷ [];
    num_dumped_signs = s.num_dumped_signs + length entries;
    done =
        if leb total (s.num_dumped_signs + length entries)
        then s.done ++ g.dst_dir ∷ []
        else s.done;
  }

  -- In whatever order the segments of a dump run, when the shards hold at least one sign of each
  -- segment, every packet can be written, and the signs that are held are no more than the counter
  -- still has to reach, the dump succeeds; it writes a marker, one, to the directory of the segment
  -- that comes last, when it reaches the total, and none when a sign is missing.
  pub dump_segments-marks :
      (num_total_signs : ℕ) (s : Dumped F) (g : Segment) (segments : List Segment) (k : ℕ)
      (found : List ℕ)
      → Finds (g ∷ segments) (k ∷ found)
      → s.num_dumped_signs + sum (k ∷ found) ≤ num_total_signs
      → (s' : Dumped F) × (dump_segments num_total_signs s (g ∷ segments) ≡ ok s')
        × (s'.num_dumped_signs ≡ s.num_dumped_signs + sum (k ∷ found))
        × (s'.done ≡ (
            if leb num_total_signs (s.num_dumped_signs + sum (k ∷ found))
            then s.done ++ last_dir g.dst_dir segments ∷ []
            else s.done))
  unfolding dump_segments dump_embedding_segment
  dump_segments-marks total s g [] k [] ((entries, run, size, pos, wrote), f) fits = (
    dumped total s g entries,
    rw (run, wrote) refl,
    omega (arith, size),
    ap (λ c. if leb total c then s.done ++ g.dst_dir ∷ [] else s.done) (omega (arith, size)),
  )
  dump_segments-marks total s g [] k (j ∷ found) (held, f) fits = absurd (omega (arith, f))
  dump_segments-marks total s g (g2 ∷ segments) k [] (held, f) fits = absurd (omega (arith, f))
  dump_segments-marks total s g (g2 ∷ segments) k (j ∷ found)
        ((entries, run, size, pos, wrote), ((entries2, run2, size2, pos2, wrote2), f)) fits =
      let s1 = dumped total s g entries in
      let (s', e, num, marked) =
        dump_segments-marks total s1 g2 segments j found ((entries2, run2, size2, pos2, wrote2), f)
          (omega (arith, fits, size)) in
      (
        s',
        rw (run, wrote) e,
        num ∙ omega (arith, size),
        marked
            ∙ ap
                (λ ds.
                  if leb total (s1.num_dumped_signs + sum (j ∷ found))
                  then ds ++ last_dir g2.dst_dir segments ∷ []
                  else ds)
                (unmarked (s.num_dumped_signs + length entries) (omega (arith, fits, size, pos2)))
            ∙ ap (λ c. if leb total c then s.done ++ last_dir g2.dst_dir segments ∷ [] else s.done)
                (omega (arith, size)),
      )
    where
      unmarked :
          (c : ℕ) → c < total → (if leb total c then s.done ++ g.dst_dir ∷ [] else s.done) ≡ s.done
      unmarked c h = ground arith
