-- ===== src/Ingestion/Start.antt =====
-- common/src/ingestion/service.rs: how the ingestion starts.
use starkstream_dna.Base.{
  ℕ, Option, none, some, if◌then◌else◌, Result, ok, err, panic, ◌>>=◌, ◌>>◌, ◌==◌, ensure,
  change_context, ok_or,
}
use starkstream_dna.Base.Maps.{unwrap_or}
use starkstream_dna.Core.{cursor_eq, Cursor}
use starkstream_dna.Chain.{BlockInfo, cursor, CanonicalChainSegment}
use starkstream_dna.Chain.Builder.{grow, current_segment, restore_from_segment, info}
use starkstream_dna.Ingestion.{
  IngestionError, rpc_request, model, state_client_request, canonical_chain_store_request,
  is_block_not_found, IngestionService, Remote, recover, IngestionState, ingest, default_pending,
  put_finalized, put_starting_block, put_block, block_store_request, Write, delete_legacy_recent,
  delete_legacy_ingested, publish_recent_segment, write, Ticked, IngestionStartAction, resume,
  start, recover_from,
}

-- `IngestionInner::ingest_block_by_number`: the block is fetched, checked and stored.
unfoldable pub ingest_block_by_number :
    Remote → ℕ → IngestionService → Result IngestionError (BlockInfo × IngestionService)
ingest_block_by_number remote number s = do
  fetched ← remote.fetch_block number
  ensure (fetched.index_len == fetched.body_len) model
  s ← write remote block_store_request (put_block (cursor fetched.block_info)) s
  ok (fetched.block_info, s)

-- A write whose error is only logged.
unfoldable pub try_write :
    Remote → Write → IngestionService → Result IngestionError IngestionService
try_write remote w s = elim (write remote state_client_request w s) [
  | ok s' ↦ ok s'
  | err e ↦ ok s
  | panic ↦ panic
]

-- The segment of the old layout is published again, and what the old layout stored is removed.
unfoldable pub migrate_legacy :
    Remote
    → Option CanonicalChainSegment
    → IngestionService
    → Result IngestionError (Option CanonicalChainSegment × IngestionService)
migrate_legacy remote none s = ok (none, s)
migrate_legacy remote (some segment) s = do
  s ← publish_recent_segment remote segment s
  s ← try_write remote delete_legacy_recent s
  s ← try_write remote delete_legacy_ingested s
  ok (some segment, s)

-- The snapshot that the recent pointer names; a snapshot that is missing is not an error.
unfoldable pub snapshot_at :
    (remote : Remote) → Option remote.Pointer → Result IngestionError (Option CanonicalChainSegment)
snapshot_at remote none = ok none
snapshot_at remote (some pointer) =
    change_context canonical_chain_store_request (remote.recent_snapshot pointer)

unfoldable pub segment_or_legacy :
    Remote
    → Option CanonicalChainSegment
    → IngestionService
    → Result IngestionError (Option CanonicalChainSegment × IngestionService)
segment_or_legacy remote (some segment) s = ok (some segment, s)
segment_or_legacy remote none s = do
  legacy ← change_context canonical_chain_store_request remote.legacy_recent
  migrate_legacy remote legacy s

-- What to do about the head of the restored chain, by what the remote says of its number.
unfoldable pub start_action :
    Cursor → Result IngestionError BlockInfo → Result IngestionError IngestionStartAction
start_action last (ok info) =
    ok (if cursor_eq last (cursor info) then resume (cursor info) else recover_from last)
start_action last (err e) = if is_block_not_found e then ok (recover_from last) else err rpc_request
start_action last panic = panic

unfoldable pub starting_cursor :
    Remote
    → Option CanonicalChainSegment
    → IngestionService
    → Result IngestionError (IngestionStartAction × IngestionService)
starting_cursor remote (some segment) s = do
  restored ← change_context model (restore_from_segment segment)
  info ← ok_or model (info restored)
  action ← start_action info.last_block (remote.block_info_by_number info.last_block.number)
  ok (action, record s { chain_builder = restored })
starting_cursor remote none s = do
  let starting_block = unwrap_or 0 s.options.override_starting_block
  s ← write remote state_client_request (put_starting_block starting_block) s
  ok (start starting_block, s)

unfoldable pub get_starting_cursor :
    Remote → IngestionService → Result IngestionError (IngestionStartAction × IngestionService)
get_starting_cursor remote s = do
  pointer ← change_context state_client_request remote.recent_pointer
  recent ← snapshot_at remote pointer
  existing ← segment_or_legacy remote recent s
  starting_cursor remote existing.0 existing.1

-- The state in which the ingestion goes on behind a cursor.
abbrev pub ingest_from : Cursor → Cursor → Cursor → IngestionState
ingest_from finalized head last = ingest (record {
  finalized = finalized;
  head = head;
  last_ingested = last;
  queued_block_number = last.number;
  pending_block_state = default_pending;
})

unfoldable pub initial_state :
    Remote → Cursor → Cursor → IngestionStartAction → IngestionService → Ticked
initial_state remote head finalized (recover_from last) s =
    ok (recover (record { finalized = finalized; existing_head = head; last_ingested = last }), s)
initial_state remote head finalized (start starting_block) s = do
  ingested ← ingest_block_by_number remote starting_block s
  grown ← change_context model (grow s.chain_builder ingested.0)
  segment ← change_context model (current_segment grown)
  s ← publish_recent_segment remote segment (record ingested.1 { chain_builder = grown })
  ok (ingest_from finalized head (cursor ingested.0), s)
initial_state remote head finalized (resume last) s = ok (ingest_from finalized head last, s)

unfoldable pub initialize : Remote → IngestionService → Ticked
initialize remote s = do
  head ← remote.head_cursor
  finalized ← remote.finalized_cursor
  s ← write remote state_client_request (put_finalized finalized.number) s
  started ← get_starting_cursor remote s
  initial_state remote head finalized started.0 started.1
