-- ===== src/Incremental.antt =====
-- rust/persia-incremental-update-manager/src/lib.rs: a parameter server for training writes the entries that
-- changed to packets, and one for inference reads them. The files, the clock and the order in which
-- a `HashSet` yields its signs are parameters; a directory is a number. Each body of a thread's
-- loop is a function; that a marker could not be created is left out. The segments of a dump, which
-- run on a pool of threads, are steps in any order: what they share is one atomic counter.
pub mod Chunked
pub mod Marked
pub mod Scanned
use persia.Base.{
  ℕ, zero, suc, ◌+◌, ◌/◌, Bool, true, false, not, ◌&&◌, Option, none, some, List, [], ◌∷◌, ◌++◌,
  map, length, ltb, leb, ◌==◌, if◌then◌else◌, elem, Outcome, ok, panic, ◌>>=◌, Result, err, good,
}
use persia.Base.Map.{nat_eq, Map, insert, HashOrder}
use persia.Holder.EvictionMap.{EvictionMap, get}
use persia.Holder.EmbEntry.{HashMapEmbeddingEntry}
use persia.ParamServer.{shard, set_embedding}

pub record PerisaIncrementalPacket (F : Type 0) : Type 0 where
  pub content : List (HashMapEmbeddingEntry F)
  pub timestamps : ℕ

pub data IncrementalUpdateError : Type 0 where
  persia_embedding_holder_error : IncrementalUpdateError
  persia_global_config_error : IncrementalUpdateError
  commit_incremental_error : IncrementalUpdateError

abbrev pub channel_capacity : ℕ
channel_capacity = 1000

-- `try_send` on a channel with a bound.
unfoldable pub try_send : {A : Type 0} → List A → A → Option (List A)
try_send queue a = if ltb (length queue) channel_capacity then some (queue ++ a ∷ []) else none

unfoldable pub try_commit_incremental :
    (input : List (List ℕ))
    → (incremental : List ℕ) → Result IncrementalUpdateError (Unit {0}) × List (List ℕ)
try_commit_incremental input incremental = elim (try_send input incremental) [
  | none ↦ (err commit_incremental_error, input)
  | some input' ↦ (good tt, input')
]

-- What `buffer_input_thread` keeps, and the queue that it fills.
pub record InputBuffer : Type 0 where
  pub sending_buffer : Map ℕ (Unit {0})
  pub output : List (List ℕ)

unfoldable pub insert_signs : Map ℕ (Unit {0}) → List ℕ → Map ℕ (Unit {0})
insert_signs buffer [] = buffer
insert_signs buffer (sign ∷ signs) = insert_signs (insert buffer sign tt) signs

-- The body of `buffer_input_thread`: a full queue loses the signs.
unfoldable pub buffer_input :
    HashOrder → (incremental_buffer_size : ℕ) → InputBuffer → List ℕ → InputBuffer
buffer_input h incremental_buffer_size s emb_vec =
    let buffer = insert_signs s.sending_buffer emb_vec in
    if ltb incremental_buffer_size (length buffer)
    then elim (try_send s.output (map (λ entry. entry.0) (h.order buffer))) [
      | none ↦ record s { sending_buffer = [] }
      | some output ↦ record { sending_buffer = []; output = output }
    ]
    else record s { sending_buffer = buffer }

-- `/`, which panics for a divisor of 0.
unfoldable pub checked_div : (a b : ℕ) → Outcome ℕ
checked_div a b = if b == 0 then panic else ok (a / b)

-- The body of `buffer_output_thread`: the signs of each file. `chunks` is the method of itertools.
unfoldable pub chunk_signs :
    (chunks : ℕ → List ℕ → Outcome (List (List ℕ)))
    → (num_threads : ℕ) → List ℕ
    → Outcome (List (List ℕ))
chunk_signs chunks num_threads signs = do
  sign_per_file ← checked_div (length signs) num_threads
  chunks sign_per_file signs

-- The files of a dump: the packets with their directories, and the directories that are marked.
pub record Dumped (F : Type 0) : Type 0 where
  pub packets : List (ℕ × PerisaIncrementalPacket F)
  pub num_dumped_signs : ℕ
  pub done : List ℕ

module _ {F : Type 0} (hash : ℕ → ℕ) where
  -- The entries of the signs that the shards hold.
  unfoldable pub held_entries :
      List (EvictionMap ℕ (HashMapEmbeddingEntry F))
      → List ℕ
      → Outcome (List (HashMapEmbeddingEntry F))
  held_entries inner [] = ok []
  held_entries inner (sign ∷ signs) = do
    m ← shard hash inner sign
    found ← get m sign
    entries ← held_entries inner signs
    ok (elim found [ none ↦ entries | some entry ↦ entry ∷ entries ])

  -- `dump_embedding_segment`, where `written` says whether the packet could be written.
  unfoldable pub dump_embedding_segment :
      (now : ℕ) (written : Bool)
      → List (EvictionMap ℕ (HashMapEmbeddingEntry F))
      → Dumped F
      → (dst_dir : ℕ) → (signs : List ℕ) → (num_total_signs : ℕ) → Outcome (Dumped F)
  dump_embedding_segment now written inner s dst_dir signs num_total_signs = do
    entries ← held_entries inner signs
    let cur_dumped = s.num_dumped_signs + length entries
    if written
        then ok (record {
          packets = s.packets ++ (dst_dir, record { content = entries; timestamps = now }) ∷ [];
          num_dumped_signs = cur_dumped;
          done = if leb num_total_signs cur_dumped then s.done ++ dst_dir ∷ [] else s.done;
        })
        else ok s

  -- `load_embedding_from_file`, for a packet that could be read.
  unfoldable pub load_embedding_from_file :
      (fzero : F)
      → List (EvictionMap ℕ (HashMapEmbeddingEntry F))
      → PerisaIncrementalPacket F
      → Outcome (List (EvictionMap ℕ (HashMapEmbeddingEntry F)))
  load_embedding_from_file fzero inner packet = set_embedding hash fzero inner packet.content

-- An entry of the listing of a directory; `done` says whether it has the file `inc_update_done`, and
-- `readable` whether it can be listed itself.
pub record Listed : Type 0 where
  pub name : ℕ
  pub is_dir : Bool
  pub done : Bool
  pub readable : Bool

-- `inc_dir_scan_thread`: the directories that are there when it starts are not loaded.
unfoldable pub seen_at_start : (dir_set : List ℕ) → List Listed → List ℕ
seen_at_start dir_set [] = dir_set
seen_at_start dir_set (d ∷ dirs) =
    seen_at_start (if d.is_dir then d.name ∷ dir_set else dir_set) dirs

-- A round of its loop: the directories whose files it loads, and those that it has seen.
unfoldable pub scan_round : (dir_set : List ℕ) → List Listed → List ℕ × List ℕ
scan_round dir_set [] = ([], dir_set)
scan_round dir_set (d ∷ dirs) =
    let skip = scan_round dir_set dirs in
    let rest = scan_round (d.name ∷ dir_set) dirs in
    if not (elem d.name dir_set) && d.is_dir
    then (if d.done && d.readable then (d.name ∷ rest.0, rest.1) else rest)
    else skip

-- The rounds; one whose listing fails does nothing.
unfoldable pub scan_rounds : (dir_set : List ℕ) → List (Option (List Listed)) → List ℕ × List ℕ
scan_rounds dir_set [] = ([], dir_set)
scan_rounds dir_set (none ∷ rounds) = scan_rounds dir_set rounds
scan_rounds dir_set (some dirs ∷ rounds) =
    let round = scan_round dir_set dirs in
    let rest = scan_rounds round.1 rounds in (round.0 ++ rest.0, rest.1)
