-- ===== src/Tests/Orders.antt =====
-- Examples for the data order manager.
use persia.Base.{ℕ, ◌<◌, ◌≡◌, refl, some, [], ◌∷◌, arith}
use persia.DataOrder.{PersiaBatchImpl, reorder_round}
use persia.DataOrder.Ordered.{InOrder, expecting, reorder_round-InOrder}

-- The first two batches of the rank 1 of 2.
abbrev batch_1 : PersiaBatchImpl ℕ
batch_1 = record { content = 70; batch_id = some 1 }

abbrev batch_3 : PersiaBatchImpl ℕ
batch_3 = record { content = 71; batch_id = some 3 }

some_ranks : 0 < 2
some_ranks = omega arith

not_first : batch_3.batch_id ≡ some 1 → ⊥
not_first h = ground arith

reorder_round-InOrder_example :
    InOrder 1 2 some_ranks 0
      (batch_1 ∷ batch_3 ∷ [])
      (reorder_round 9 (expecting 1 2 some_ranks 0 5 (batch_3 ∷ [])) (some batch_1)).0
      (reorder_round 9 (expecting 1 2 some_ranks 0 5 (batch_3 ∷ [])) (some batch_1)).1
reorder_round-InOrder_example =
    reorder_round-InOrder 1 2 some_ranks 9 0 0 5 batch_1 (batch_3 ∷ [])
      (1, refl, omega arith, omega arith, tt) refl (omega arith) (omega arith) (not_first, tt)
