-- ===== src/Holder.antt =====
-- The crate rust/persia-embedding-holder: the array with linked slots, the eviction map over it,
-- the embedding entries and the shards that hold them.
pub mod LinkedList
pub mod EvictionMap
pub mod EmbEntry
