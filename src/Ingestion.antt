-- ===== src/Ingestion.antt =====
-- common/src/ingestion/service.rs: the data of the ingestion service.
pub mod Tasks
pub mod Recover
pub mod Ticks
pub mod Start
pub mod Ancestor
pub mod Queue
pub mod Chained
pub mod Serves
mod Tests
use starkstream_dna.Base.{
  ℕ, zero, Bool, true, false, ◌&&◌, Option, none, some, List, [], ◌∷◌, ◌==◌, bytes_eq, Result, ok,
  err, ◌>>=◌, change_context,
}
use starkstream_dna.Core.{Cursor}
use starkstream_dna.Chain.{
  BlockInfo, PendingBlockInfo, CanonicalChainSegment, CanonicalChainBuilder,
}

pub data IngestionError : Type 0 where
  block_not_found : IngestionError
  rpc_request : IngestionError
  canonical_chain_store_request : IngestionError
  block_store_request : IngestionError
  state_client_request : IngestionError
  lock_keep_alive : IngestionError
  options_error : IngestionError
  bad_hash : IngestionError
  model : IngestionError
  indexing : IngestionError

unfoldable pub is_block_not_found : IngestionError → Bool
is_block_not_found block_not_found = true
is_block_not_found rpc_request = false
is_block_not_found canonical_chain_store_request = false
is_block_not_found block_store_request = false
is_block_not_found state_client_request = false
is_block_not_found lock_keep_alive = false
is_block_not_found options_error = false
is_block_not_found bad_hash = false
is_block_not_found model = false
is_block_not_found indexing = false

-- What a finished task returns.
pub data IngestionTask : Type 0 where
  main_block : BlockInfo → IngestionTask
  pending_block : Option PendingBlockInfo → IngestionTask

-- A task in the queue, by what it was started with.
pub data QueuedTask : Type 0 where
  ingest_block : ℕ → QueuedTask
  ingest_pending : Cursor → ℕ → QueuedTask

pub record IngestionServiceOptions : Type 0 where
  pub max_concurrent_tasks : ℕ
  pub chain_segment_size : ℕ
  pub chain_segment_upload_offset_size : ℕ
  pub override_starting_block : Option ℕ

-- A write to the key-value store or to the object store. The pointer that `put_recent` stores is
-- given by the segment whose snapshot it points to.
pub data Write : Type 0 where
  put_finalized : ℕ → Write
  put_pending : ℕ → Write
  put_starting_block : ℕ → Write
  put_block : Cursor → Write
  put_chain_segment : CanonicalChainSegment → Write
  put_recent_snapshot : CanonicalChainSegment → Write
  put_recent : CanonicalChainSegment → Write
  delete_legacy_recent : Write
  delete_legacy_ingested : Write

-- The service: its options, its builder, its queue of tasks, oldest first, and what it has written,
-- newest first.
pub record IngestionService : Type 0 where
  pub options : IngestionServiceOptions
  pub chain_builder : CanonicalChainBuilder
  pub task_queue : List QueuedTask
  pub written : List Write

pub record PendingBlockState : Type 0 where
  pub queued : Bool
  pub generation : ℕ

abbrev pub default_pending : PendingBlockState
default_pending = record { queued = false; generation = 0 }

pub record IngestState : Type 0 where
  pub finalized : Cursor
  pub head : Cursor
  pub last_ingested : Cursor
  pub queued_block_number : ℕ
  pub pending_block_state : PendingBlockState

pub record RecoverState : Type 0 where
  pub finalized : Cursor
  pub existing_head : Cursor
  pub last_ingested : Cursor

pub data IngestionState : Type 0 where
  ingest : IngestState → IngestionState
  recover : RecoverState → IngestionState

pub data IngestionStartAction : Type 0 where
  resume : Cursor → IngestionStartAction
  start : ℕ → IngestionStartAction
  recover_from : Cursor → IngestionStartAction

-- A block of the node: its info, and the sizes of its index and of its body.
pub record FetchedBlock : Type 0 where
  pub block_info : BlockInfo
  pub index_len : ℕ
  pub body_len : ℕ

-- The node and the stores, which are not part of the service. A call may fail.
pub record Remote : Type 1 where
  pub head_cursor : Result IngestionError Cursor
  pub finalized_cursor : Result IngestionError Cursor
  pub supports_pending : Bool
  pub block_info_by_number : ℕ → Result IngestionError BlockInfo
  pub fetch_block : ℕ → Result IngestionError FetchedBlock
  pub write : Write → Result IngestionError (Unit {0})
  pub Pointer : Type 0
  pub recent_pointer : Result IngestionError (Option Pointer)
  pub recent_snapshot : Pointer → Result IngestionError (Option CanonicalChainSegment)
  pub legacy_recent : Result IngestionError (Option CanonicalChainSegment)

-- The state and the service after a tick.
abbrev pub Ticked : Type 0
Ticked = Result IngestionError (IngestionState × IngestionService)

-- A write that the store accepts is remembered; else the call ends with the error given.
unfoldable pub write :
    Remote → IngestionError → Write → IngestionService → Result IngestionError IngestionService
write remote e w s = do
  _ ← change_context e (remote.write w)
  ok (record s { written = w ∷ s.written })

unfoldable pub publish_recent_segment :
    Remote → CanonicalChainSegment → IngestionService → Result IngestionError IngestionService
publish_recent_segment remote segment s = do
  s ← write remote canonical_chain_store_request (put_recent_snapshot segment) s
  write remote state_client_request (put_recent segment) s
