-- ===== src/Ingestion/Serves.antt =====
-- Through every tick the builder ends at the last ingested block, and the queue asks for the blocks
-- behind it.
pub mod Recovery
pub mod Refresh
pub mod Task
pub mod Tick
use starkstream_dna.Base.{
  ℕ, ◌+◌, ◌<◌, ◌≡◌, inl, inr, refl, sym, ap, ◌∙◌, subst, Bool, false, not, ◌&&◌, Option, none, some,
  List, [], ◌∷◌, cons-not-nil, arith, ltb, if-cases, add_u64, u64_mod, Result, ok, err, panic,
  >>=-eq-ok, ok-injective, err-not-ok, panic-not-ok, change_context, change_context-eq-ok, ensure,
}
use starkstream_dna.Core.{cursor_eq, Cursor, is_zero}
use starkstream_dna.Chain.{BlockInfo, cursor, building, CanonicalChainBuilder}
use starkstream_dna.Chain.Builder.{shrink, current_segment, can_grow}
use starkstream_dna.Chain.Segment.{canonical}
use starkstream_dna.Chain.Abstract.{hash_at_range}
use starkstream_dna.Chain.Shrink.{shrink-building}
use starkstream_dna.Ingestion.{
  IngestionError, model, state_client_request, rpc_request, is_block_not_found, put_finalized,
  put_pending, Remote, Write, IngestState, PendingBlockState, RecoverState, IngestionState, ingest,
  recover, IngestionTask, main_block, pending_block, QueuedTask, ingest_block, ingest_pending,
  publish_recent_segment, write, IngestionService, default_pending,
}
use starkstream_dna.Ingestion.Tasks.{
  fill_queue, task_queue_clear, push_ingest_pending_block, push_task,
}
use starkstream_dna.Ingestion.Recover.{recover_at, recover_or_stop, tick_recover, find_head}
use starkstream_dna.Ingestion.Ticks.{
  Event, cancelled, new_head, finalized_interval, pending_interval, head_interval, task_result,
  tick_refresh_finalized, tick_refresh_head, tick_refresh_pending, tick_with_task_result,
  task_finished, ingested_at, ingest_main, finish_task, tick_ingest, tick, is_reorg,
  recover_from_state,
}
use starkstream_dna.Ingestion.Queue.{
  last_queued, last_queued-append, last_queued-le, fill_queue-Filled,
}
use starkstream_dna.Ingestion.Chained.{
  Chained, with_builder, write-Keeps, publish-Keeps, ingest_main-Chained,
}

-- While it ingests: the builder ends at the last ingested block, and the queue asks for the blocks
-- behind it one by one, up to the queued block number.
pub record Ingesting (state : IngestState) (s : IngestionService) : Type 0 where
  pub chained : Chained s state.last_ingested
  pub asks : last_queued state.last_ingested.number s.task_queue ≡ some state.queued_block_number
  pub room : state.queued_block_number + 1 < u64_mod
  pub head_room : state.head.number + 1 < u64_mod
  pub sized : 0 < s.options.chain_segment_size

-- While it recovers only the builder counts: the queue is thrown away.
pub record Recovering (state : RecoverState) (s : IngestionService) : Type 0 where
  pub chained : Chained s state.last_ingested
  pub room : state.last_ingested.number + 1 < u64_mod
  pub head_room : state.existing_head.number + 1 < u64_mod
  pub sized : 0 < s.options.chain_segment_size

abbrev pub Serves : IngestionState × IngestionService → Type 0
Serves (ingest state, s) = Ingesting state s
Serves (recover state, s) = Recovering state s

module _ {state : IngestState} {s : IngestionService} (i : Ingesting state s) where
  pub last-room : state.last_ingested.number + 1 < u64_mod
  last-room = omega (
    arith,
    i.room,
    last_queued-le state.last_ingested.number state.queued_block_number s.task_queue i.asks,
  )

  pub to_recover :
      (q : List QueuedTask) → Serves (recover_from_state state, record s { task_queue = q })
  to_recover q = record {
    chained = with_builder refl i.chained;
    room = last-room;
    head_room = i.head_room;
    sized = i.sized;
  }

-- The state after the queue is filled.
pub filled-Ingesting :
    (state : IngestState) (last head : Cursor) (s : IngestionService)
    → Chained s last
    → last_queued last.number s.task_queue ≡ some state.queued_block_number
    → state.queued_block_number + 1 < u64_mod
    → head.number + 1 < u64_mod
    → 0 < s.options.chain_segment_size
    → (let r = fill_queue head.number state.queued_block_number s in
        Ingesting
          (record state { head = head; last_ingested = last; queued_block_number = r.0 })
          r.1)
filled-Ingesting state last head s c asks room head_room sized =
    let f =
      fill_queue-Filled last.number head.number state.queued_block_number s asks head_room room in
    record {
      chained = with_builder f.builder c;
      asks = f.asks;
      room = ground (arith, f.until);
      head_room = head_room;
      sized = subst (λ o. 0 < o.chain_segment_size) (sym f.options) sized;
    }

-- What is asked of the node and of an event: a number of the node leaves room for the next one, a
-- block that a task returns has a known hash and the number that the oldest task was started with,
-- a pending block comes from a pending task, and the queue runs out only when it is empty.
unfoldable pub Fits : Event → IngestionService → Type 0
Fits cancelled s = Unit
Fits (new_head none) s = Unit
Fits (new_head (some (ok head))) s = head.number + 1 < u64_mod
Fits (new_head (some (err e))) s = Unit
Fits (new_head (some panic)) s = Unit
Fits finalized_interval s = Unit
Fits pending_interval s = Unit
Fits head_interval s = Unit
Fits (task_result none) s = s.task_queue ≡ []
Fits (task_result (some (err e))) s = Unit
Fits (task_result (some panic)) s = Unit
Fits (task_result (some (ok (err e)))) s = Unit
Fits (task_result (some (ok panic))) s = Unit
Fits (task_result (some (ok (ok (main_block info))))) s =
    (is_zero info.hash ≡ false)
    × (rest : List QueuedTask) × (s.task_queue ≡ ingest_block info.number ∷ rest)
Fits (task_result (some (ok (ok (pending_block p))))) s =
    (parent : Cursor) × (generation : ℕ) × (rest : List QueuedTask) × (s.task_queue
      ≡ ingest_pending parent generation ∷ rest)
