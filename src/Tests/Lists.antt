-- ===== src/Tests/Lists.antt =====
-- Examples for array_linked_list.rs and emb_entry.rs.
use persia.Base.{ℕ, ◌-◌, ◌≡◌, refl, some, List, [], ◌∷◌, ◌++◌, arith, length, Outcome, ok, tail_of}
use persia.Holder.LinkedList.{ArrayLinkedList, node, deleted, at}
use persia.Holder.LinkedList.Chain.{Cells, Seg, first_or, last_or}
use persia.Holder.LinkedList.Invariant.{Repr, next_slot}
use persia.Holder.LinkedList.Insert.{push_back}
use persia.Holder.LinkedList.Remove.{remove, pop_front}
use persia.Holder.LinkedList.Read.{index}
use persia.Holder.LinkedList.Iterate.{indexed, next, collect}
use persia.Holder.LinkedList.Pushed.{push_back-Repr}
use persia.Holder.LinkedList.Removed.{remove-Repr}
use persia.Holder.LinkedList.Popped.{pop_front-front}
use persia.Holder.LinkedList.Overwritten.{pop_front-push_back_overwrites}
use persia.Holder.LinkedList.Visited.{items, indexed-visits}
use persia.Holder.EmbEntry.{HashMapEmbeddingEntry, emb, opt, from_emb_and_opt}
use persia.Holder.EmbEntry.Halves.{from_emb_and_opt-halves}

-- The values 5 and 6 in the slots 2 and 1, and a free slot.
abbrev five_six : ArrayLinkedList ℕ
five_six = record {
  count = 2;
  first_index = 2;
  last_index = 1;
  free_index = 3;
  end_index = 3;
  elements = node 2 0 6 ∷ node 0 1 5 ∷ deleted 0 ∷ [];
}

abbrev five_six_cells : Cells ℕ
five_six_cells = (2, 5) ∷ (1, 6) ∷ []

abbrev six_cells : Cells ℕ
six_cells = (1, 6) ∷ []

five_six-Repr : Repr five_six five_six_cells (3 ∷ [])
five_six-Repr = record {
  first = refl;
  last = refl;
  counted = refl;
  chain = (refl, (refl, tt));
  distinct = (refl, (refl, tt));
  free_first = refl;
  free_chain = (refl, tt);
  free_distinct = (refl, tt);
  small = omega arith;
}

push_back-Repr_example :
    (l' : ArrayLinkedList ℕ) × (push_back five_six 7 ≡ ok (next_slot five_six (3 ∷ []) - 1, l'))
    × Repr l' (five_six_cells ++ (next_slot five_six (3 ∷ []), 7) ∷ []) (tail_of (3 ∷ []))
push_back-Repr_example =
    push_back-Repr five_six 7 five_six_cells (3 ∷ []) five_six-Repr (omega arith)

remove-Repr_example :
    (l' : ArrayLinkedList ℕ) × (remove five_six 0 ≡ ok (some 6, l'))
    × Repr l' (((2, 5) ∷ []) ++ []) (1 ∷ 3 ∷ [])
    × (length l'.elements ≡ length five_six.elements)
remove-Repr_example = remove-Repr five_six 0 6 ((2, 5) ∷ []) [] (3 ∷ []) five_six-Repr

pop_front-front_example :
    (l' : ArrayLinkedList ℕ) × (pop_front five_six ≡ ok (some 5, l'))
    × (l'.first_index ≡ first_or 0 six_cells)
    × (l'.last_index ≡ last_or 0 six_cells)
    × (l'.count ≡ length six_cells)
    × Seg l'.elements 0 six_cells 0
    × (l'.free_index ≡ 1)
    × (length l'.elements ≡ length five_six.elements)
pop_front-front_example = pop_front-front five_six 1 5 ((1, 6) ∷ []) (3 ∷ []) five_six-Repr

index_0 : index five_six 0 ≡ ok (some 6)
unfolding index at
index_0 = refl

pop_front-push_back_overwrites_example :
    (l' l'' : ArrayLinkedList ℕ) × (pop_front five_six ≡ ok (some 5, l'))
    × (index l' 0 ≡ ok (some 6))
    × (push_back l' 9 ≡ ok (0, l''))
    × (index l'' 0 ≡ ok (some 9))
pop_front-push_back_overwrites_example =
    pop_front-push_back_overwrites five_six 0 5 6 9 ((1, 6) ∷ []) (3 ∷ []) five_six-Repr index_0

indexed-visits_example : collect next 5 (indexed five_six) ≡ ok (items five_six_cells)
indexed-visits_example =
    indexed-visits five_six five_six_cells (3 ∷ []) five_six-Repr 5 (omega arith)

abbrev pair_of : List ℕ
pair_of = 1 ∷ 2 ∷ []

from_emb_and_opt-halves_example :
    (emb (from_emb_and_opt pair_of (8 ∷ []) 4) ≡ ok pair_of)
    × (opt (from_emb_and_opt pair_of (8 ∷ []) 4) ≡ ok (8 ∷ []))
from_emb_and_opt-halves_example = from_emb_and_opt-halves pair_of (8 ∷ []) 4

abbrev one_two : HashMapEmbeddingEntry ℕ
one_two = record { inner = 1 ∷ 2 ∷ []; embedding_dim = 2; sign = 4 }

abbrev three_four : HashMapEmbeddingEntry ℕ
three_four = record { inner = 3 ∷ 4 ∷ []; embedding_dim = 2; sign = 5 }

-- A generator that draws the seed.
abbrev draw_seed : ℕ → (dim seed : ℕ) → Outcome (List ℕ)
draw_seed i dim seed = ok (seed ∷ seed ∷ [])
