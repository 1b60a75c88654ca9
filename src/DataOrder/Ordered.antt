-- ===== src/DataOrder/Ordered.antt =====
-- The data order manager (forward.rs) sends the batches of its rank in the order of their ids.
use native.Mathlib.Nat.{mul-le-mul_right, mul-lt-mul_of_pos_right, mod-eq_of_lt}
use mathlib.Core.List.{Perm}
use mathlib.Core.List.Perm
use persia.Base.{
  ◌++◌, ℕ, zero, suc, ◌+◌, ◌*◌, ◌%◌, ◌≤◌, ◌<◌, ◌≡◌, refl, sym, ap, subst, ◌∙◌, inl, inr, ◌⊎◌, Bool,
  true, false, Option, some, List, [], ◌∷◌, map, arith, ltb, leb, length, u64_size, if◌then◌else◌,
}
use persia.DataOrder.{
  PersiaBatchImpl, PerisaDataOrderManager, unwrap_or, push_batch, pop_from_buffer, send_due,
  reorder_round,
}

-- The id of the batch number `i` of a rank.
abbrev pub id_of : (rank world_size i : ℕ) → ℕ
id_of rank world_size i = rank + i * world_size

abbrev pub ids_from : (rank world_size e k : ℕ) → List (Option ℕ)
ids_from rank world_size e zero = []
ids_from rank world_size e (suc k) =
    some (id_of rank world_size e) ∷ ids_from rank world_size (suc e) k

order : (i j : ℕ) → (i < j) ⊎ (j ≤ i)
order i j = ground arith

beyond : (i j : ℕ) → j ≤ i → (j ≡ i → ⊥) → suc j ≤ i
beyond i j h f = ground arith

less_test : (x y : ℕ) → x < y → ltb x y ≡ true
less_test x y h = ground arith

not_less_test : (x y : ℕ) → y ≤ x → ltb x y ≡ false
not_less_test x y h = ground arith

-- The test of `push_batch` on batches with ids.
earlier :
    {D : Type 0} (b c : PersiaBatchImpl D) (x y : ℕ) (t : Bool)
    → b.batch_id ≡ some x
    → c.batch_id ≡ some y
    → ltb x y ≡ t
    → ltb (unwrap_or b.batch_id 0) (unwrap_or c.batch_id 0) ≡ t
earlier b c x y t p q h =
    ap (λ o. ltb (unwrap_or o 0) (unwrap_or c.batch_id 0)) p ∙ ap (λ o. ltb x (unwrap_or o 0)) q ∙ h

module _ (rank world_size : ℕ) (several : 0 < world_size) where
  id_le : (i j : ℕ) → i ≤ j → id_of rank world_size i ≤ id_of rank world_size j
  id_le i j h = omega (arith, mul-le-mul_right world_size h)

  id_lt : (i j : ℕ) → i < j → id_of rank world_size i < id_of rank world_size j
  id_lt i j h = omega (arith, mul-lt-mul_of_pos_right h several)

  id_suc : (i : ℕ) → id_of rank world_size i + world_size ≡ id_of rank world_size (suc i)
  id_suc i = grind arith

equal : (e i : ℕ) → e ≤ i → i ≤ e → i ≡ e
equal e i a b = omega arith

module _ {D : Type 0} (rank world_size : ℕ) (b : PersiaBatchImpl D) where
  due_test :
      (e : ℕ)
      → b.batch_id ≡ some (id_of rank world_size e)
      → leb (unwrap_or b.batch_id 0) (id_of rank world_size e) ≡ true
  due_test e q = ap (λ o. leb (unwrap_or o 0) (id_of rank world_size e)) q ∙ itself _
    where
      itself : (x : ℕ) → leb x x ≡ true
      itself x = ground arith

  later_test :
      (e i : ℕ)
      → b.batch_id ≡ some (id_of rank world_size i)
      → id_of rank world_size e < id_of rank world_size i
      → leb (unwrap_or b.batch_id 0) (id_of rank world_size e) ≡ false
  later_test e i q h = ap (λ o. leb (unwrap_or o 0) (id_of rank world_size e)) q ∙ beyond_test _ _ h
    where
      beyond_test : (x y : ℕ) → x < y → leb y x ≡ false
      beyond_test x y h = ground arith

  waits :
      (e i : ℕ)
      → b.batch_id ≡ some (id_of rank world_size i)
      → id_of rank world_size e < id_of rank world_size i
      → id_of rank world_size e < unwrap_or b.batch_id 0
  waits e i q h = subst (λ o. id_of rank world_size e < unwrap_or o 0) (sym q) h

  advance :
      (e d : ℕ)
      → b.batch_id ≡ some (id_of rank world_size e)
      → id_of rank world_size (suc e) < u64_size
      → (unwrap_or b.batch_id d + world_size) % u64_size ≡ id_of rank world_size (suc e)
  advance e d q small =
      ap (λ o. (unwrap_or o d + world_size) % u64_size) q
      ∙ ap (λ x. x % u64_size) (next_id e)
      ∙ mod-eq_of_lt small
    where
      next_id : (e : ℕ) → rank + e * world_size + world_size ≡ rank + suc e * world_size
      next_id e = grind arith

module _ {D : Type 0} (rank world_size : ℕ) (several : 0 < world_size) where
  -- The batches in the heap are numbers of this rank from `e` on, in order and each at most once.
  abbrev pub Lined : (e : ℕ) → List (PersiaBatchImpl D) → Type 0
  Lined e [] = Unit
  Lined e (b ∷ heap) =
      (i : ℕ) × (b.batch_id ≡ some (id_of rank world_size i))
      × (e ≤ i)
      × (id_of rank world_size (suc i) < u64_size)
      × Lined (suc i) heap

  -- The number `i` is not in the heap.
  abbrev pub Absent : (i : ℕ) → List (PersiaBatchImpl D) → Type 0
  Absent i [] = Unit
  Absent i (b ∷ heap) = (b.batch_id ≡ some (id_of rank world_size i) → ⊥) × Absent i heap

  -- The next batch is not in the heap.
  abbrev pub NotDue : (e : ℕ) → List (PersiaBatchImpl D) → Type 0
  NotDue e [] = Unit
  NotDue e (b ∷ heap) = id_of rank world_size e < unwrap_or b.batch_id 0

  Lined-weaken :
      (e e' : ℕ) (heap : List (PersiaBatchImpl D)) → e' ≤ e → Lined e heap → Lined e' heap
  Lined-weaken e e' [] h l = tt
  Lined-weaken e e' (b ∷ heap) h (i, q, le, small, rest) = (i, q, omega arith, small, rest)

  push_batch-Lined :
      (e i : ℕ) (b : PersiaBatchImpl D) (heap : List (PersiaBatchImpl D))
      → b.batch_id ≡ some (id_of rank world_size i)
      → e ≤ i
      → id_of rank world_size (suc i) < u64_size
      → Absent i heap
      → Lined e heap
      → Lined e (push_batch heap b)
  unfolding push_batch
  push_batch-Lined e i b [] q le small absent l = (i, q, le, small, tt)
  push_batch-Lined e i b (c ∷ heap) q le small absent (j, d, lj, smallj, rest) = elim (order i j) [
    | inl h ↦
        rw (earlier b c _ _ true q d (less_test _ _ (id_lt rank world_size several i j h)))
          (i, q, le, small, (j, d, h, smallj, rest))
    | inr h ↦
        rw (earlier b c _ _ false q d (not_less_test _ _ (id_le rank world_size several j i h))) (
          j,
          d,
          lj,
          smallj,
          push_batch-Lined (suc j) i b heap q
              (beyond i j h
                (λ k. absent.0 (subst (λ x. c.batch_id ≡ some (id_of rank world_size x)) k d)))
              small absent.1 rest,
        )
  ]

  push_batch-perm :
      (heap : List (PersiaBatchImpl D)) (b : PersiaBatchImpl D)
      → Perm (push_batch heap b) (b ∷ heap)
  unfolding push_batch
  push_batch-perm [] b = Perm.refl (b ∷ [])
  push_batch-perm (c ∷ heap) b =
      split (ltb (unwrap_or b.batch_id 0) (unwrap_or c.batch_id 0))
        (Perm.trans (Perm.cons c (push_batch-perm heap b)) (Perm.swap b c heap))
    where
      split :
          (t : Bool)
          → Perm (c ∷ push_batch heap b) (b ∷ c ∷ heap)
          → Perm (if t then b ∷ c ∷ heap else c ∷ push_batch heap b) (b ∷ c ∷ heap)
      split true h = Perm.refl (b ∷ c ∷ heap)
      split false h = h

  -- What a round sends of the batches that are there, when the heap is in order before it.
  pub record InOrder (e : ℕ) (there sent : List (PersiaBatchImpl D)) (m' : PerisaDataOrderManager D)
      : Type 0 where
    pub number : ℕ
    pub upcoming : ℕ
    pub shifted : upcoming ≡ e + number
    pub ids : map (λ b. b.batch_id) sent ≡ ids_from rank world_size e number
    pub expected : m'.expect_batch_id ≡ id_of rank world_size upcoming
    pub lined : Lined upcoming m'.data_buffer
    pub not_due : NotDue upcoming m'.data_buffer
    pub all_there : Perm (sent ++ m'.data_buffer) there
    pub same_world : m'.world_size ≡ world_size

  abbrev pub expecting : (e latest : ℕ) → List (PersiaBatchImpl D) → PerisaDataOrderManager D
  expecting e latest heap = record {
    world_size = world_size;
    expect_batch_id = id_of rank world_size e;
    data_buffer = heap;
    latest_pop = latest;
  }

  abbrev Sends :
      (e : ℕ)
      → List (PersiaBatchImpl D)
      → List (PersiaBatchImpl D) × PerisaDataOrderManager D
      → Type 0
  Sends e there r = InOrder e there r.0 r.1

  nothing_due :
      (e latest : ℕ) (heap : List (PersiaBatchImpl D))
      → Lined e heap
      → NotDue e heap
      → Sends e heap ([], expecting e latest heap)
  nothing_due e latest heap l d = record {
    number = 0;
    upcoming = e;
    shifted = omega arith;
    ids = refl;
    expected = refl;
    lined = l;
    not_due = d;
    all_there = Perm.refl heap;
    same_world = refl;
  }

  -- One batch that is due is sent.
  send_due-step :
      (now e n latest : ℕ) (b : PersiaBatchImpl D) (heap : List (PersiaBatchImpl D))
      → b.batch_id ≡ some (id_of rank world_size e)
      → id_of rank world_size (suc e) < u64_size
      → send_due now (suc n) (expecting e latest (b ∷ heap)) ≡ (
        b ∷ (send_due now n (expecting (suc e) now heap)).0,
        (send_due now n (expecting (suc e) now heap)).1,
      )
  unfolding send_due pop_from_buffer
  send_due-step now e n latest b heap q small = rw (due_test rank world_size b e q) (
      ap
        (λ x. (
          b ∷ (send_due now n (record (expecting e now heap) { expect_batch_id = x })).0,
          (send_due now n (record (expecting e now heap) { expect_batch_id = x })).1,
        ))
        (advance rank world_size b e (id_of rank world_size e) q small))

  send_due-InOrder :
      (now e n : ℕ) (heap : List (PersiaBatchImpl D)) (latest : ℕ)
      → length heap ≤ n
      → Lined e heap
      → Sends e heap (send_due now n (expecting e latest heap))
  unfolding send_due
  send_due-InOrder now e zero [] latest h l = nothing_due e latest [] tt tt
  send_due-InOrder now e zero (b ∷ heap) latest h l = absurd (omega arith)
  send_due-InOrder now e (suc n) [] latest h l = nothing_due e latest [] tt tt
  send_due-InOrder now e (suc n) (b ∷ heap) latest h (i, q, le, small, rest) = elim (order e i) [
    | inl k ↦ rw (later_test rank world_size b e i q (id_lt rank world_size several e i k)) (
        nothing_due e latest (b ∷ heap) (i, q, le, small, rest)
          (waits rank world_size b e i q (id_lt rank world_size several e i k)))
    | inr k ↦
        let same = equal e i le k in
        let r =
          send_due-InOrder now (suc e) n heap now (omega arith)
            (subst (λ x. Lined (suc x) heap) same rest) in
        subst (Sends e (b ∷ heap))
          (sym (
            send_due-step now e n latest b heap
              (subst (λ x. b.batch_id ≡ some (id_of rank world_size x)) same q)
              (subst (λ x. id_of rank world_size (suc x) < u64_size) same small)))
          (record {
            number = suc r.number;
            upcoming = r.upcoming;
            shifted = omega (arith, r.shifted);
            ids = λ j. subst (λ x. b.batch_id ≡ some (id_of rank world_size x)) same q j ∷ r.ids j;
            expected = r.expected;
            lined = r.lined;
            not_due = r.not_due;
            all_there = Perm.cons b r.all_there;
            same_world = r.same_world;
          })
  ]

  other_order :
      {e : ℕ} {there there' sent : List (PersiaBatchImpl D)} {m' : PerisaDataOrderManager D}
      → Perm there there'
      → InOrder e there sent m'
      → InOrder e there' sent m'
  other_order p r = record {
    number = r.number;
    upcoming = r.upcoming;
    shifted = r.shifted;
    ids = r.ids;
    expected = r.expected;
    lined = r.lined;
    not_due = r.not_due;
    all_there = Perm.trans r.all_there p;
    same_world = r.same_world;
  }

-- The heap has batches of the rank from the expected one on, in order, and no id overflows. A batch
-- of the rank from the expected one on that is not in the heap arrives. The round sends batches
-- whose ids are the next ones of the rank, in order and without a gap, and expects the id after
-- them. The batches that it sends and those that it keeps are together the one that arrived and
-- those of the heap, each as often; those that it keeps are later than the expected one, and in order.
pub reorder_round-InOrder :
    {D : Type 0} (rank world_size : ℕ) (several : 0 < world_size) (now e i latest : ℕ)
    (b : PersiaBatchImpl D) (heap : List (PersiaBatchImpl D))
    → Lined rank world_size several e heap
    → b.batch_id ≡ some (id_of rank world_size i)
    → e ≤ i
    → id_of rank world_size (suc i) < u64_size
    → Absent rank world_size several i heap
    → InOrder rank world_size several e
        (b ∷ heap)
        (reorder_round now (expecting rank world_size several e latest heap) (some b)).0
        (reorder_round now (expecting rank world_size several e latest heap) (some b)).1
unfolding reorder_round
reorder_round-InOrder rank world_size several now e i latest b heap l q le small absent =
    other_order rank world_size several (push_batch-perm rank world_size several heap b) (
      send_due-InOrder rank world_size several now e (length (push_batch heap b))
        (push_batch heap b) latest (omega arith)
        (push_batch-Lined rank world_size several e i b heap q le small absent l))
