-- ===== src/Holder/EvictionMap/Replayed.antt =====
-- `EvictionMap` (eviction_map.rs) against its specification: a list of values in the order in which
-- they were used, without slots, indices or a hash map.
use persia.Base.{
  ℕ, suc, ◌+◌, ◌≤◌, ◌<◌, ◌≡◌, refl, sym, ap, subst, ◌∙◌, inl, inr, Bool, true, false, Bool-cases,
  Option-cases, Option, none, some, List, [], ◌∷◌, ◌++◌, arith, if◌then◌else◌, length,
  length-append, omap, Outcome, ok, ◌>>=◌, u32_size, u32_add, ◌%◌, ◌==◌, bind-ok, ok-injective,
  unwrap, ltb,
}
use persia.Base.Map.{Eq, get as map_get, insert as map_insert, remove as map_remove}
use persia.Holder.LinkedList.{
  ArrayLinkedList, with_capacity as list_with_capacity, fill_elements, new,
}
use persia.Holder.LinkedList.Constructed.{slots_from, length-fill_from}
use persia.Holder.LinkedList.Chain.{Cells}
use persia.Holder.LinkedList.Grown.{slots, push_back-slots, remove-slots, pop_front-slots}
use persia.Holder.LinkedList.Insert.{push_back}
use persia.Holder.LinkedList.Remove.{remove as list_remove, pop_front}
use persia.Holder.LinkedList.Read.{index, list_len}
use persia.Holder.EvictionMap.{EvictionMap, get, get_refresh, insert, with_capacity}
use persia.Holder.EvictionMap.Indexed.{find, without, Indexes}
use persia.Holder.EvictionMap.Refreshed.{
  value_of, get-value_of, refreshed_cells, get_refresh-Indexes,
}
use persia.Holder.EvictionMap.Inserted.{insert-Indexes, with_capacity-Indexes}

-- The calls of a client.
pub data Op (K V : Type 0) : Type 0 where
  refresh : K → Op K V
  store : V → Op K V

module _ {K : Type 0} {V : Type 0} ⦃e : Eq K⦄ (hashmap_key : V → K) where
  -- The calls in order, with what they return: the value that the key had, and the evicted one.
  unfoldable pub run :
      List (Op K V) → EvictionMap K V → Outcome (List (Option V × Option V) × EvictionMap K V)
  run [] m = ok ([], m)
  run (refresh key ∷ ops) m = do
    (found, m1) ← get_refresh m key
    (rest, m2) ← run ops m1
    ok ((found, none) ∷ rest, m2)
  run (store v ∷ ops) m = do
    (answer, m1) ← insert hashmap_key m (hashmap_key v) v
    (rest, m2) ← run ops m1
    ok (answer ∷ rest, m2)

  -- The specification: the values, the least recently used one first.
  abbrev pub lookup : List V → K → Option V
  lookup [] key = none
  lookup (v ∷ vs) key = if e.beq (hashmap_key v) key then some v else lookup vs key

  abbrev pub others : List V → K → List V
  others [] key = []
  others (v ∷ vs) key = if e.beq (hashmap_key v) key then others vs key else v ∷ others vs key

  abbrev pub used : List V → K → List V
  used vs key = elim (lookup vs key) [ none ↦ vs | some v ↦ others vs key ++ v ∷ [] ]

  abbrev pub stored : List V → V → List V
  stored vs v = others vs (hashmap_key v) ++ v ∷ []

  -- The same calls on the specification.
  unfoldable pub replay : List (Op K V) → List V → List (Option V × Option V) × List V
  replay [] vs = ([], vs)
  replay (refresh key ∷ ops) vs =
      let rest = replay ops (used vs key) in ((lookup vs key, none) ∷ rest.0, rest.1)
  replay (store v ∷ ops) vs =
      let rest = replay ops (stored vs v) in ((lookup vs (hashmap_key v), none) ∷ rest.0, rest.1)

  -- No call has more values than the capacity.
  abbrev pub Fits : ℕ → List (Op K V) → List V → Type 0
  Fits capacity [] vs = Unit
  Fits capacity (refresh key ∷ ops) vs = Fits capacity ops (used vs key)
  Fits capacity (store v ∷ ops) vs =
      (length (stored vs v) ≤ capacity) × Fits capacity ops (stored vs v)

  abbrev pub values : Cells V → List V
  values [] = []
  values (c ∷ xs) = c.1 ∷ values xs

  -- The map holds these values.
  pub record Holds (m : EvictionMap K V) (vs : List V) : Type 0 where
    pub cells : Cells V
    pub free : List ℕ
    pub indexes : Indexes hashmap_key m cells free
    pub values_cells : values cells ≡ vs

  pub lookup-values :
      (xs : Cells V) (key : K) → value_of hashmap_key xs key ≡ lookup (values xs) key
  lookup-values [] key = refl
  lookup-values (c ∷ xs) key = split (e.beq (hashmap_key c.1) key) (lookup-values xs key)
    where
      split :
          (b : Bool)
          → omap (λ (d : ℕ × V). d.1) (find hashmap_key xs key) ≡ lookup (values xs) key
          → omap (λ (d : ℕ × V). d.1) (if b then some c else find hashmap_key xs key)
            ≡ (if b then some c.1 else lookup (values xs) key)
      split true q = refl
      split false q = q

  values-append : (xs ys : Cells V) → values (xs ++ ys) ≡ values xs ++ values ys
  values-append [] ys = refl
  values-append (c ∷ xs) ys = ap (◌∷◌ c.1) (values-append xs ys)

  others-values :
      (xs : Cells V) (key : K) → values (without hashmap_key xs key) ≡ others (values xs) key
  others-values [] key = refl
  others-values (c ∷ xs) key = elim (Bool-cases (e.beq (hashmap_key c.1) key)) [
    | inl h ↦ rw h (others-values xs key)
    | inr h ↦ rw h (ap (◌∷◌ c.1) (others-values xs key))
  ]

  moved-values :
      (xs : Cells V) (key : K) (c : ℕ × V)
      → values (without hashmap_key xs key ++ c ∷ []) ≡ others (values xs) key ++ c.1 ∷ []
  moved-values xs key c =
      values-append (without hashmap_key xs key) (c ∷ [])
      ∙ ap (λ vs. vs ++ c.1 ∷ []) (others-values xs key)

  used-values :
      (xs : Cells V) (key : K) → values (refreshed_cells hashmap_key xs key) ≡ used (values xs) key
  unfolding refreshed_cells
  used-values xs key = split (find hashmap_key xs key) (lookup-values xs key)
    where
      split :
          (o : Option (ℕ × V))
          → omap (λ (d : ℕ × V). d.1) o ≡ lookup (values xs) key
          → values (elim o [ none ↦ xs | some c ↦ without hashmap_key xs key ++ c ∷ [] ])
            ≡ used (values xs) key
      split none q = rw (used, sym q) refl
      split (some c) q = rw (used, sym q) (moved-values xs key c)

  size-values : (xs : Cells V) → length (values xs) ≡ length xs
  size-values [] = refl
  size-values (c ∷ xs) = ap suc (size-values xs)

  pub record Grown (m m' : EvictionMap K V) : Type 0 where
    pub more : slots m'.linkedlist ≤ slots m.linkedlist + 1
    pub same : m'.capacity ≡ m.capacity

  grown :
      (m k m' : EvictionMap K V)
      → slots k.linkedlist ≤ slots m.linkedlist + 1
      → k.capacity ≡ m.capacity
      → k ≡ m'
      → Grown m m'
  grown m k m' more same q = subst (λ n. Grown m n) q record { more = more; same = same }

  pub get_refresh-Grown :
      (m m' : EvictionMap K V) (key : K) (o : Option V)
      → get_refresh m key ≡ ok (o, m')
      → Grown m m'
  unfolding get_refresh
  get_refresh-Grown m m' key o h = elim (Option-cases (map_get m.hashmap key)) [
    | inl z ↦
        let q : Path (Outcome (Option V × EvictionMap K V)) (ok (none, m)) (ok (o, m')) =
          rw (get_refresh, z) at h in
        grown m m m' (omega arith) refl
          (ap (λ (c : Option V × EvictionMap K V). c.1) (ok-injective q))
    | inr (i, z) ↦
        let ((removed, l1), e1, q1) =
          bind-ok (list_remove m.linkedlist i) _ (o, m') (rw (get_refresh, z) at h) in
        let (v, e2, q2) = bind-ok (unwrap removed) _ (o, m') q1 in
        let ((j, l2), e3, q3) = bind-ok (push_back l1 v) _ (o, m') q2 in
        let (w, e4, q4) = bind-ok (index l2 j) _ (o, m') q3 in
        let m2 : EvictionMap K V = record m {
          hashmap = map_insert m.hashmap key j;
          linkedlist = l2;
        } in
        grown m m2 m'
          (omega (arith, remove-slots m.linkedlist l1 i removed e1, push_back-slots l1 l2 v j e3))
          refl (ap (λ (c : Option V × EvictionMap K V). c.1) (ok-injective q4))
  ]

  -- The end of `insert`, after the value was pushed.
  abbrev finish :
      EvictionMap K V
      → K
      → Option V
      → ℕ × ArrayLinkedList V
      → Outcome ((Option V × Option V) × EvictionMap K V)
  finish m key old (j, l2) =
      let hashmap = map_insert m.hashmap key j in
      if ltb m.capacity (list_len l2)
      then (pop_front l2 >>= (λ (r : Option V × ArrayLinkedList V). ok (
        (old, r.0),
        record m {
          hashmap = elim r.0 [ none ↦ hashmap | some x ↦ map_remove hashmap (hashmap_key x) ];
          linkedlist = r.1;
        },
      )))
      else ok ((old, none), record m { hashmap = hashmap; linkedlist = l2 })

  pub insert-Grown :
      (m m' : EvictionMap K V) (key : K) (v : V) (old : Option V)
      → insert hashmap_key m key v ≡ ok ((old, none), m')
      → Grown m m'
  unfolding insert
  insert-Grown m m' key v old h =
      let ((was, l1), e1, q1) =
        bind-ok
          (elim (map_get m.hashmap key) [
            | some idx ↦ list_remove m.linkedlist idx
            | none ↦ ok (none, m.linkedlist)
          ])
          (λ (r : Option V × ArrayLinkedList V). push_back r.1 v >>= finish m key r.0)
          ((old, none), m') h in
      let ((j, l2), e2, q2) = bind-ok (push_back l1 v) (finish m key was) ((old, none), m') q1 in
      let more : slots l2 ≤ slots m.linkedlist + 1 =
        omega (arith, taken (map_get m.hashmap key) e1, push_back-slots l1 l2 v j e2) in
      elim (Bool-cases (ltb m.capacity (list_len l2))) [
        | inl full ↦
            let ((evicted, l3), e3, q3) =
              bind-ok (pop_front l2) _ ((old, none), m') (rw full at q2) in
            grown m
              (record m {
                hashmap = elim evicted [
                  | none ↦ map_insert m.hashmap key j
                  | some x ↦ map_remove (map_insert m.hashmap key j) (hashmap_key x)
                ];
                linkedlist = l3;
              })
              m' (omega (arith, more, pop_front-slots l2 l3 evicted e3)) refl
              (ap (λ (c : (Option V × Option V) × EvictionMap K V). c.1) (ok-injective q3))
        | inr room ↦
            grown m (record m { hashmap = map_insert m.hashmap key j; linkedlist = l2 }) m' more
              refl
              (ap (λ (c : (Option V × Option V) × EvictionMap K V). c.1)
                (ok-injective (rw room at q2)))
      ]
    where
      taken :
          (o : Option ℕ) {was : Option V} {l1 : ArrayLinkedList V}
          → Path
              (Outcome (Option V × ArrayLinkedList V))
              (elim o [ some idx ↦ list_remove m.linkedlist idx | none ↦ ok (none, m.linkedlist) ])
              (ok (was, l1))
          → slots l1 ≡ slots m.linkedlist
      taken none q = ap (λ (c : Option V × ArrayLinkedList V). slots c.1) (sym (ok-injective q))
      taken (some i) {was} {l1} q = remove-slots m.linkedlist l1 i was q

  pub get-Holds :
      (m : EvictionMap K V) (vs : List V) (key : K) → Holds m vs → get m key ≡ ok (lookup vs key)
  get-Holds m vs key h =
      get-value_of hashmap_key m h.cells h.free key h.indexes
      ∙ ap ok (lookup-values h.cells key ∙ ap (λ ws. lookup ws key) h.values_cells)

  pub refresh-Holds :
      (m : EvictionMap K V) (vs : List V) (key : K)
      → Holds m vs
      → slots m.linkedlist + 1 < u32_size
      → (m' : EvictionMap K V) × (get_refresh m key ≡ ok (lookup vs key, m'))
        × Holds m' (used vs key)
  refresh-Holds m vs key h room =
      let (m', e, inv) = get_refresh-Indexes hashmap_key m h.cells h.free key h.indexes room in
      (
        m',
        e
            ∙ ap (λ o. ok (o, m'))
                (lookup-values h.cells key ∙ ap (λ ws. lookup ws key) h.values_cells),
        record {
          cells = refreshed_cells hashmap_key h.cells key;
          free = h.free;
          indexes = inv;
          values_cells = used-values h.cells key ∙ ap (λ ws. used ws key) h.values_cells;
        },
      )

  pub store-Holds :
      (m : EvictionMap K V) (vs : List V) (v : V)
      → Holds m vs
      → slots m.linkedlist + 1 < u32_size
      → length (stored vs v) ≤ m.capacity
      → (m' : EvictionMap K V) × (insert hashmap_key m (hashmap_key v) v
          ≡ ok ((lookup vs (hashmap_key v), none), m'))
        × Holds m' (stored vs v)
  store-Holds m vs v h room fits =
      let moved : (i : ℕ)
          → values (without hashmap_key h.cells (hashmap_key v) ++ (i, v) ∷ []) ≡ stored vs v =
        λ i. moved-values h.cells (hashmap_key v) (i, v) ∙ ap (λ ws. stored ws v) h.values_cells in
      let (m', i, free', e, inv) =
        insert-Indexes hashmap_key m h.cells h.free (hashmap_key v) v h.indexes refl room (
          omega (
            arith,
            fits,
            ap length (moved 0),
            size-values (without hashmap_key h.cells (hashmap_key v) ++ (0, v) ∷ []),
            length-append (without hashmap_key h.cells (hashmap_key v)) ((0, v) ∷ []),
          )) in
      (
        m',
        e
            ∙ ap (λ o. ok ((o, none), m'))
                (lookup-values h.cells (hashmap_key v)
                  ∙ ap (λ ws. lookup ws (hashmap_key v)) h.values_cells),
        record {
          cells = without hashmap_key h.cells (hashmap_key v) ++ (i, v) ∷ [];
          free = free';
          indexes = inv;
          values_cells = moved i;
        },
      )

  -- On a map that holds the values, with room for a slot below 2^32 for each call, any calls of
  -- `get_refresh` and `insert` that never hold more values than the capacity return what they return
  -- on the list of the values in the order of their last use, and leave a map that holds the list
  -- that they leave.
  pub run-replay :
      (ops : List (Op K V)) (m : EvictionMap K V) (vs : List V)
      → Holds m vs
      → slots m.linkedlist + length ops < u32_size
      → Fits m.capacity ops vs
      → (m' : EvictionMap K V) × (run ops m ≡ ok ((replay ops vs).0, m'))
        × Holds m' (replay ops vs).1
  unfolding run replay
  run-replay [] m vs h room fits = (m, refl, h)
  run-replay (refresh key ∷ ops) m vs h room fits =
      let (m1, e, h1) = refresh-Holds m vs key h (omega arith) in
      let g = get_refresh-Grown m m1 key (lookup vs key) e in
      let (m2, e2, h2) =
        run-replay ops m1 (used vs key) h1 (omega (arith, g.more))
          (subst (λ n. Fits n ops (used vs key)) (sym g.same) fits) in
      (m2, rw (e, e2) refl, h2)
  run-replay (store v ∷ ops) m vs h room fits =
      let (m1, e, h1) = store-Holds m vs v h (omega arith) fits.0 in
      let g = insert-Grown m m1 (hashmap_key v) v (lookup vs (hashmap_key v)) e in
      let (m2, e2, h2) =
        run-replay ops m1 (stored vs v) h1 (omega (arith, g.more))
          (subst (λ n. Fits n ops (stored vs v)) (sym g.same) fits.1) in
      (m2, rw (e, e2) refl, h2)

  with_capacity-slots :
      (capacity : ℕ)
      → capacity + 1 < u32_size
      → slots (with_capacity {K = K} {V = V} capacity).linkedlist ≡ capacity + 1
  unfolding with_capacity u32_add list_with_capacity fill_elements new
  with_capacity-slots capacity h =
      ap (λ n. slots (list_with_capacity {A = V} n)) (sum capacity h)
      ∙ rw (suc_pos capacity) (length-fill_from V (capacity + 1) 1)
    where
      sum : (c : ℕ) → c + 1 < u32_size → (c % u32_size + 1) % u32_size ≡ c + 1
      sum c b = omega arith

      suc_pos : (c : ℕ) → (c + 1 == 0) ≡ false
      suc_pos c = ground arith

  -- From a new map of a capacity, with room for a slot below 2^32 for each call, any calls of
  -- `get_refresh` and `insert` that never hold more values than the capacity return what they return
  -- on the list of the values in the order of their last use, least recent first, and leave a map in which `get`
  -- finds the values of the list that they leave, and no others.
  pub with_capacity-replay :
      (capacity : ℕ) (ops : List (Op K V))
      → capacity + length ops + 1 < u32_size
      → Fits capacity ops []
      → (m : EvictionMap K V) × (run ops (with_capacity capacity) ≡ ok ((replay ops []).0, m))
        × ((key : K) → get m key ≡ ok (lookup (replay ops []).1 key))
  unfolding with_capacity
  with_capacity-replay capacity ops room fits =
      let new_map : EvictionMap K V = with_capacity capacity in
      let (m, e, h) =
        run-replay ops new_map []
          record {
            cells = [];
            free = slots_from (capacity + 1) 1;
            indexes = with_capacity-Indexes hashmap_key capacity (omega arith);
            values_cells = refl;
          }
          (omega (arith, with_capacity-slots capacity (omega arith))) fits in
      (m, e, λ key. get-Holds m (replay ops []).1 key h)
