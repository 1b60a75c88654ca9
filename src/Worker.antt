-- ===== src/Worker.antt =====
-- rust/persia-embedding-server/src/embedding_worker_service/mod.rs: the embedding worker, which turns
-- the features of a batch into signs, asks the parameter servers for the embeddings of each
-- shard, and sends the gradients back. The hash of the farmhash crate is the parameter `hash64`.
pub mod Preprocess
pub mod Sharded
pub mod Prefixed
pub mod Postprocess
pub mod Buffers
pub mod Gradients
use persia.Base.{ℕ, ◌==◌, ◌%◌, if◌then◌else◌, List, [], ◌∷◌, Outcome, ok, panic, ◌>>=◌}

-- `%`, which panics at 0.
unfoldable pub rem : ℕ → ℕ → Outcome ℕ
rem a b = if b == 0 then panic else ok (a % b)

-- A loop whose body can panic.
abbrev pub traverse {ℓ κ} : {A : Type ℓ} {B : Type κ} → (A → Outcome B) → List A → Outcome (List B)
traverse f [] = ok []
traverse f (x ∷ xs) = do y ← f x; ys ← traverse f xs; ok (y ∷ ys)
