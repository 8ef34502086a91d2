-- ===== src/Ingestion/Recover.antt =====
-- common/src/ingestion/service.rs: recovery from a chain reorganization.
use starkstream_dna.Base.{
  ℕ, zero, suc, Bool, false, if◌then◌else◌, Option, none, some, Result, ok, err, panic, ◌>>=◌, ◌>>◌,
  ensure, change_context,
}
use starkstream_dna.Core.{cursor_eq, Hash, Cursor, new}
use starkstream_dna.Chain.{BlockInfo, cursor, CanonicalChainSegment}
use starkstream_dna.Chain.Builder.{current_segment, shrink}
use starkstream_dna.Chain.Segment.{canonical}
use starkstream_dna.Ingestion.{
  IngestionError, rpc_request, model, is_block_not_found, IngestionService, Remote, RecoverState,
  recover, ingest, default_pending, publish_recent_segment, Ticked,
}
use starkstream_dna.Ingestion.Tasks.{task_queue_clear}

-- Whether the remote still has the candidate; a block that it does not find is not an error.
unfoldable pub agrees : Cursor → Result IngestionError BlockInfo → Result IngestionError Bool
agrees candidate (ok info) = ok (cursor_eq (cursor info) candidate)
agrees candidate (err e) = if is_block_not_found e then ok false else err rpc_request
agrees candidate panic = panic

-- The loop over the candidates for the new head, by the number and the hash of the candidate. It
-- gives up when the service is cancelled.
unfoldable pub find_head :
    Remote → (ℕ → Bool) → CanonicalChainSegment → ℕ → Hash → Result IngestionError (Option Cursor)
find_head remote is_cancelled chain zero hash = if is_cancelled 0 then ok none else (do
  same ← agrees (new 0 hash) (remote.block_info_by_number 0)
  if same then ok (some (new 0 hash)) else err model)
find_head remote is_cancelled chain (suc n) hash =
    let before : Hash → Result IngestionError (Option Cursor) =
      λ parent. find_head remote is_cancelled chain n parent in
    if is_cancelled (suc n) then ok none else (do
      same ← agrees (new (suc n) hash) (remote.block_info_by_number (suc n))
      if same
          then ok (some (new (suc n) hash))
          else (do parent ← change_context model (canonical chain n); before parent.hash))

-- `tick_recover` once a new head is found.
unfoldable pub recover_at : Remote → RecoverState → Cursor → IngestionService → Ticked
recover_at remote state head s = do
  shrunk ← change_context model (shrink s.chain_builder head)
  segment ← change_context model (current_segment shrunk.1)
  s ←
      publish_recent_segment remote segment
        (record (task_queue_clear s) { chain_builder = shrunk.1 })
  ok (
    ingest (record {
      finalized = state.finalized;
      head = state.existing_head;
      last_ingested = head;
      queued_block_number = head.number;
      pending_block_state = default_pending;
    }),
    s,
  )

unfoldable pub recover_or_stop : Remote → RecoverState → Option Cursor → IngestionService → Ticked
recover_or_stop remote state none s = ok (recover state, s)
recover_or_stop remote state (some head) s = recover_at remote state head s

unfoldable pub tick_recover : Remote → (ℕ → Bool) → RecoverState → IngestionService → Ticked
tick_recover remote is_cancelled state s = do
  chain ← change_context model (current_segment s.chain_builder)
  last_ingested ← change_context model (canonical chain state.last_ingested.number)
  ensure (cursor_eq last_ingested state.last_ingested) model
  found ← find_head remote is_cancelled chain state.last_ingested.number state.last_ingested.hash
  recover_or_stop remote state found s
