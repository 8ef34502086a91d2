-- ===== src/Ingestion/Ticks.antt =====
-- common/src/ingestion/service.rs: the ticks of the ingestion loop.
use starkstream_dna.Base.{
  ℕ, Bool, true, false, not, ◌&&◌, Option, none, some, List, [], ◌∷◌, ltb, leb, ◌==◌, if◌then◌else◌,
  bytes_eq, add_u64, Result, ok, err, panic, ◌>>=◌, ◌>>◌, ensure, change_context,
}
use starkstream_dna.Core.{cursor_eq, Cursor}
use starkstream_dna.Chain.{BlockInfo, cursor}
use starkstream_dna.Chain.Builder.{can_grow, grow, segment_size, take_segment, current_segment}
use starkstream_dna.Ingestion.{
  IngestionError, rpc_request, model, is_block_not_found, IngestionTask, main_block, pending_block,
  IngestionService, Remote, recover, IngestState, IngestionState, ingest, default_pending,
  put_finalized, put_pending, put_chain_segment, canonical_chain_store_request,
  state_client_request, QueuedTask, publish_recent_segment, write, Ticked,
}
use starkstream_dna.Ingestion.Tasks.{fill_queue, push_ingest_pending_block}
use starkstream_dna.Ingestion.Recover.{tick_recover}

-- The state in which the service recovers.
abbrev pub recover_from_state : IngestState → IngestionState
recover_from_state state = recover (record {
  finalized = state.finalized;
  existing_head = state.head;
  last_ingested = state.last_ingested;
})

unfoldable pub tick_refresh_finalized : Remote → IngestState → IngestionService → Ticked
tick_refresh_finalized remote state s = do
  finalized ← change_context rpc_request remote.finalized_cursor
  ensure (not (ltb finalized.number state.finalized.number)) model
  if cursor_eq state.finalized finalized then ok (ingest state, s) else (do
    s ← write remote state_client_request (put_finalized finalized.number) s
    ok (ingest (record state { finalized = finalized }), s))

-- Whether the new head shows that ingested blocks were reorged.
unfoldable pub is_reorg : IngestState → Cursor → Bool
is_reorg state head =
    leb head.number state.last_ingested.number
    && (if ltb head.number state.head.number
        then true
        else (state.head.number == head.number) && not (bytes_eq state.head.hash head.hash))

unfoldable pub tick_refresh_head : IngestState → Cursor → IngestionService → Ticked
tick_refresh_head state head s =
    if cursor_eq state.head head
    then ok (ingest state, s)
    else if is_reorg state head
    then ok (recover_from_state state, s)
    else let filled = fill_queue head.number state.queued_block_number s in
      ok (ingest (record state { head = head; queued_block_number = filled.0 }), filled.1)

unfoldable pub tick_refresh_pending : IngestState → IngestionService → Ticked
tick_refresh_pending state s =
    if state.pending_block_state.queued
    then ok (ingest state, s)
    else if cursor_eq state.head state.last_ingested
    then ok (
      ingest (record state {
        pending_block_state = record state.pending_block_state { queued = true };
      }),
      push_ingest_pending_block state.last_ingested (add_u64 state.pending_block_state.generation 1)
          s,
    )
    else ok (ingest state, s)

-- A finished chain segment is cut off and stored.
unfoldable pub store_segment : Remote → IngestionService → Result IngestionError IngestionService
store_segment remote s = do
  taken ← change_context model (take_segment s.chain_builder s.options.chain_segment_size)
  write remote canonical_chain_store_request (put_chain_segment taken.0)
      (record s { chain_builder = taken.1 })

-- That happens when the builder holds enough blocks; the flag tells whether it did.
unfoldable pub store_finished_segment :
    Remote → IngestionService → Result IngestionError (Bool × IngestionService)
store_finished_segment remote s =
    if leb (add_u64 s.options.chain_segment_size s.options.chain_segment_upload_offset_size)
      (segment_size s.chain_builder)
    then (do s' ← store_segment remote s; ok (true, s'))
    else ok (false, s)

-- The builder grows by an ingested block, and the segments are published.
unfoldable pub ingest_main :
    Remote → IngestState → BlockInfo → IngestionService → Result IngestionError IngestionService
ingest_main remote state info s = do
  grown ← change_context model (grow s.chain_builder info)
  stored ← store_finished_segment remote (record s { chain_builder = grown })
  if if leb state.finalized.number info.number then true else stored.0
      then (do
        segment ← change_context model (current_segment stored.1.chain_builder)
        publish_recent_segment remote segment stored.1)
      else ok stored.1

-- What follows every tick that ends in the ingestion state with a new last block.
unfoldable pub ingested_at :
    IngestState → Cursor → IngestionService → IngestionState × IngestionService
ingested_at state last_ingested s =
    let filled = fill_queue state.head.number state.queued_block_number s in
    (
      ingest (record state {
        last_ingested = last_ingested;
        queued_block_number = filled.0;
        pending_block_state = default_pending;
      }),
      filled.1,
    )

unfoldable pub task_finished : Remote → IngestState → IngestionTask → IngestionService → Ticked
task_finished remote state (main_block info) s =
    if can_grow s.chain_builder info
    then (do s ← ingest_main remote state info s; ok (ingested_at state (cursor info) s))
    else ok (recover_from_state state, s)
task_finished remote state (pending_block none) s = ok (
  ingest
      (record state { pending_block_state = record state.pending_block_state { queued = false } }),
  s,
)
task_finished remote state (pending_block (some info)) s = do
  s ← write remote state_client_request (put_pending info.generation) s
  ok (
    ingest (record state {
      pending_block_state = record { queued = false; generation = info.generation };
    }),
    s,
  )

-- The result of a task; a join that fails is an error of its own.
unfoldable pub tick_with_task_result :
    Remote
    → IngestState
    → Option (Result IngestionError (Result IngestionError IngestionTask))
    → IngestionService
    → Ticked
tick_with_task_result remote state none s = ok (ingested_at state state.last_ingested s)
tick_with_task_result remote state (some (err e)) s = err rpc_request
tick_with_task_result remote state (some panic) s = panic
tick_with_task_result remote state (some (ok (err e))) s =
    if is_block_not_found e then ok (recover_from_state state, s) else err rpc_request
tick_with_task_result remote state (some (ok panic)) s = panic
tick_with_task_result remote state (some (ok (ok task))) s = task_finished remote state task s

-- What `tick_ingest` waits for.
pub data Event : Type 0 where
  cancelled : Event
  new_head : Option (Result IngestionError Cursor) → Event
  finalized_interval : Event
  pending_interval : Event
  head_interval : Event
  task_result : Option (Result IngestionError (Result IngestionError IngestionTask)) → Event

-- A finished task leaves the queue; the branch is disabled when the queue is empty.
unfoldable pub finish_task :
    Remote
    → IngestState
    → Option (Result IngestionError (Result IngestionError IngestionTask))
    → List QueuedTask
    → IngestionService
    → Ticked
finish_task remote state result [] s = ok (ingest state, s)
finish_task remote state result (task ∷ rest) s =
    tick_with_task_result remote state result (record s { task_queue = rest })

-- A tick for what the select takes; a stream of heads that fails or ends is opened again.
unfoldable pub tick_ingest : Remote → Event → IngestState → IngestionService → Ticked
tick_ingest remote cancelled state s = ok (ingest state, s)
tick_ingest remote (new_head (some (ok head))) state s = tick_refresh_head state head s
tick_ingest remote (new_head (some (err e))) state s = ok (ingest state, s)
tick_ingest remote (new_head (some panic)) state s = panic
tick_ingest remote (new_head none) state s = ok (ingest state, s)
tick_ingest remote finalized_interval state s = tick_refresh_finalized remote state s
tick_ingest remote pending_interval state s =
    if cursor_eq state.head state.last_ingested && remote.supports_pending
    then tick_refresh_pending state s
    else ok (ingest state, s)
tick_ingest remote head_interval state s = do
  head ← change_context rpc_request remote.head_cursor
  tick_refresh_head state head s
tick_ingest remote (task_result result) state s = finish_task remote state result s.task_queue s

-- One round of the loop of `start`.
unfoldable pub tick : Remote → Event → (ℕ → Bool) → IngestionState → IngestionService → Ticked
tick remote event is_cancelled (ingest state) s = tick_ingest remote event state s
tick remote event is_cancelled (recover state) s = tick_recover remote is_cancelled state s
