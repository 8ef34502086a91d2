-- ===== src/Lib.antt =====
-- starkstream-dna: the canonical chain of the Starknet data server, how it is ingested, and how
-- readers see it.
--
-- The server follows a Starknet node. An ingestion service asks the node for blocks, keeps the
-- canonical chain of the blocks it has stored, with the blocks that were reorged away, and publishes
-- that chain in segments: finished ones, which never change, and a recent one, which is published
-- again with every change. Readers hold a view of the chain, which answers at which cursor a client
-- goes on, or to which cursor a client on a reorged block is sent back.
--
-- Parts and files (paths from the root of the repository):
--   Base          lists, Boolean tests, machine words, results with panics and ordered maps.
--   Core          common/src/core.rs: hashes, cursors and their comparison (`is_equivalent`).
--   Chain         common/src/chain.rs: the data of segments and builders. Builder has the methods of
--                 `CanonicalChainBuilder`, Segment those of `CanonicalChainSegment`. Abstract says
--                 what a builder stands for: the canonical hash at a number (`hash_at`) and the head
--                 that replaced a reorged block (`reorg_at`). Grow, Shrink, Current, Take and
--                 Restore are about one method each; History has the builder's runs as a step
--                 relation, of added blocks, reorgs and restarts between two finished segments;
--                 Resolve and Settle say what a reorged client meets in them.
--   ChainView     common/src/chain_view: Full has full.rs, with the stored segments behind an
--                 interface (`ChainStore`); View has view.rs. Represents says when a view presents
--                 a chain, Fresh and Publish that it does, Stream what a client reads from it, and
--                 Bounds where segments and groups lie. Sync has how sync.rs applies the updates of
--                 the state to the view, with the checks of chain_store.rs; Synced what it keeps.
--   Ingestion     common/src/ingestion/service.rs: Tasks has the task queue, Start how the service
--                 is initialised, Ticks its ticks and Recover the recovery from a reorg. Ancestor is
--                 about recovery, Queue about the queue, Chained and Serves about all ticks.
--   Index         common/src/index.rs: Scalar has the values and their comparison, Build the builder
--                 of an index and `get`; Order, Lookup and Inserted what a built index answers.
--   Query         common/src/query.rs and fragment.rs: filters over the indexes of a fragment; Select
--                 and Fragments say which rows and which fragments they select.
--   Join          common/src/join.rs: the indexes that join rows to rows; Find says what they give.
--   Bitmaps       the interface of the roaring bitmaps that indexes consist of, with its laws.
--   Compaction    common/src/compaction and segment.rs: Group has group_builder.rs, Prune has
--                 prune.rs, Blocks and Segments fragment.rs and segment_builder.rs. Recorded, Answers,
--                 Built and Grouped are about what the index of a group answers, Pruned and PruneLoop
--                 about which blocks are deleted, Packed, Bodies, SegmentData and Restart about
--                 segments.
--   Etcd          etcd/src/kv.rs: the client of the key-value store, over the interface of the
--                 library, with the laws that the documentation of etcd states.
--   StateClient   common/src/ingestion/state_client.rs: the keys, getters and setters; Update has the
--                 changes of a watch, Raise the loop that only raises a block. Stored is about what
--                 is read back, Rises and Loop about that loop, Watched about what a watch reports
--                 of the setters.
--
-- The ingestion owns the builder of Chain, changes it by `grow`, `shrink` and `take_segment`, and
-- publishes what `current_segment` gives. The view of ChainView reads those segments by `canonical`,
-- `siblings` and `reconnect`. The services publish their progress by the state client; compaction
-- packs the indexes of the blocks into the index of a group by the builders of Index, by which a
-- query finds the blocks that may hold a value, and pruning deletes the blocks that a group covers.
--
-- Conventions: numbers are natural numbers; the sums, differences and products of `u64` wrap, as the
-- release build's do (Base/Words), and a division by zero, an index out of bounds and a failed
-- assertion are the outcome `panic` of `Result`. An error keeps its context and loses its printable
-- attachments. A map is a list with its keys in order. A method that changes `self` returns the new
-- value; an asynchronous method is a function, since the service runs one tick after the other.
--
-- The node, the object store and the key-value store are parameters (`Remote`, `ChainStore`): each
-- call may fail, and nothing is assumed of it that a theorem does not name. `Remote` stands for
-- their answers during one tick. What the service writes is kept in a list, newest first; the writes
-- of tasks that run beside it are not. A finished task is an event that carries its result.
--
-- Bounds and fuel: the loop that fills the task queue runs on fuel `max_concurrent_tasks`, which is
-- enough since every round makes the queue longer; the record `Filled` states that it ends with
-- as many tasks as allowed or with the head queued. The recovery recurses on the number of its candidate.
-- The prune loop runs on fuel, of which the distance to the grouped block and one is enough; the loop
-- that raises a block takes a turn for each element of a list, which says what the other writers did
-- in that turn, and the room below the block and one turn is enough. Decimal numbers have 20 digits.
-- The other loops are structural on lists.
--
-- Not modelled: timers, locks, notifications, cancellation outside the recovery and pruning, tracing
-- and metrics; how the synchronisation of the view starts and retries, the services around compaction
-- and the data stream, which are the next parts; the bindings of
-- object stores and the RPC node, the protobuf conversions, the servers and the command line, which
-- are input and output.
pub mod Base
pub mod Core
pub mod Chain
pub mod ChainView
pub mod Ingestion
pub mod Bitmaps
pub mod Index
pub mod Query
pub mod Join
pub mod Compaction
pub mod Etcd
pub mod StateClient
