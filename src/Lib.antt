-- ===== src/Lib.antt =====
-- PERSIA trains recommendation models whose embeddings are too many for one machine. This library
-- models its embedding servers (rust/).
--
-- A trainer sends the sparse features of a batch (rust/persia-common/src/lib.rs: Common) to an
-- embedding worker (rust/persia-embedding-server/src/embedding_worker_service/mod.rs: Worker). The
-- worker turns the features into signs: the hash stack, the prefix of the feature group, which
-- comes from the embedding config (rust/persia-embedding-config/src/lib.rs: Config), and the split
-- of the signs into one shard for each parameter server (Worker/Preprocess). Batches wait in two
-- buffers until they are looked up and until their gradients arrive (Worker/Buffers). The
-- answers are summed up for each sample, or laid out by their signs (Worker/Postprocess), and
-- the gradients are brought back to the signs and split again (Worker/Gradients).
-- A parameter server (embedding_parameter_service/mod.rs: ParamServer) keeps its embeddings in
-- shards (rust/persia-embedding-holder/src: Holder). A shard is an EvictionMap, a hash map from
-- signs to slots of an ArrayLinkedList, whose front is evicted first (Holder/EvictionMap,
-- Holder/LinkedList); an entry of it has the embedding and the state of the optimizer
-- (Holder/EmbEntry).
--
-- A server updates an entry by the gradient of its sign with an optimizer
-- (rust/persia-common/src/optim.rs: Optim), whose loops are written with AVX2 intrinsics
-- (rust/persia-simd/src/lib.rs: Simd). The operations on f32 are a record of functions, Floats,
-- and the theorems about the loops hold for any.
--
-- The signs that a server has updated go to packets that servers for inference load
-- (rust/persia-incremental-update-manager/src/lib.rs: Incremental).
--
-- A trainer that wants its batches in order sorts them by id before it asks for the embeddings
-- (rust/persia-core/src/forward.rs: DataOrder).
--
-- A method that takes `&mut self` is a function that returns the new state; code that can panic or
-- that runs into undefined behaviour returns an Outcome, and a `Result` of the source is a Result
-- (Base/Results). Machine words are native numbers with their wrap-around written out (Base/Nat). A
-- HashMap is an association list (Base/Map); where a loop visits one, the order is a
-- HashOrder, which visits each entry once. Loops are structural recursion on the list that they
-- visit; the loop over an iterator is `collect`, which takes a number of steps, and one more than
-- the values is enough. The hashes, the random generators, the clock and the answers of other
-- servers are parameters.
--
-- The invariant of ArrayLinkedList is `Repr l xs free` (Holder/LinkedList/Invariant): the cells xs,
-- a value with its slot each, are chained in both directions through the slots, and the slots free
-- are chained from free_index. The invariant of EvictionMap is `Indexes m xs free`
-- (Holder/EvictionMap/Indexed): the hash map leads from each key to the slot of its cell. `Holds m
-- vs` (Holder/EvictionMap/Replayed) forgets the slots: the map holds the values vs, the least
-- recently used one first. The lookups of a server are specified on such lists
-- (ParamServer/Trained, ParamServer/Requested), and so are its gradient updates
-- (ParamServer/Updated).
--
-- A server treats its optimizer as a record of total functions (Optimizable); what Adam keeps beside the
-- entries, and where its slices panic, is modelled in Optim.
--
-- Not modelled: the network layers (RPC, NATS), serialization, metrics, storage, Python and CUDA
-- bindings, the k8s operator; f32 is a parameter.
-- The locks of the source make a call one step, so that interleavings are sequences of calls.
pub mod Base
pub mod Common
pub mod Config
pub mod DataOrder
pub mod Holder
pub mod Incremental
pub mod Optim
pub mod ParamServer
pub mod Simd
pub mod Tests
pub mod Worker
