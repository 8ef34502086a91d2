-- ===== src/Ingestion/Serves/Task.antt =====
-- The invariant of the service through the end of a task.
use starkstream_dna.Base.{
  ℕ, ◌<◌, ◌≡◌, inl, inr, refl, sym, ap, ◌∙◌, subst, false, Option, none, some, List, [], ◌∷◌,
  cons-not-nil, arith, if-cases, Result, ok, err, panic, >>=-eq-ok, ok-injective, err-not-ok,
  panic-not-ok,
}
use starkstream_dna.Core.{Cursor, is_zero}
use starkstream_dna.Chain.{BlockInfo, cursor}
use starkstream_dna.Chain.Builder.{can_grow}
use starkstream_dna.Ingestion.{
  IngestionError, state_client_request, is_block_not_found, put_pending, Remote, IngestState,
  PendingBlockState, IngestionState, IngestionTask, main_block, pending_block, QueuedTask,
  ingest_block, ingest_pending, write, IngestionService, default_pending,
}
use starkstream_dna.Ingestion.Ticks.{
  task_result, tick_with_task_result, task_finished, ingested_at, ingest_main, finish_task,
}
use starkstream_dna.Ingestion.Queue.{last_queued}
use starkstream_dna.Ingestion.Chained.{with_builder, ingest_main-Chained}
use starkstream_dna.Ingestion.Serves.{
  Ingesting, Serves, last-room, to_recover, filled-Ingesting, Fits,
}
use starkstream_dna.Ingestion.Serves.Refresh.{after-write}

-- A finished pending task leaves the blocks that the queue asks for alone.
pending-done :
    (state : IngestState) (s : IngestionService) (p : PendingBlockState) (rest : List QueuedTask)
    → Ingesting state s
    → ((parent : Cursor) × (generation : ℕ) × (later : List QueuedTask) × (s.task_queue
          ≡ ingest_pending parent generation ∷ later)
        × (later ≡ rest))
    → Ingesting (record state { pending_block_state = p }) (record s { task_queue = rest })
unfolding last_queued
pending-done state s p rest i (parent, generation, later, queue, same) = record {
  chained = with_builder refl i.chained;
  asks = rw (← same) (sym (ap (last_queued state.last_ingested.number) queue) ∙ i.asks);
  room = i.room;
  head_room = i.head_room;
  sized = i.sized;
}

module _ (remote : Remote) (state : IngestState) (s : IngestionService)
    (i : Ingesting state s) where
  block-Serves :
      (info : BlockInfo) (rest : List QueuedTask) {r : IngestionState × IngestionService}
      → is_zero info.hash ≡ false
      → s.task_queue ≡ ingest_block info.number ∷ rest
      → task_finished remote state (main_block info) (record s { task_queue = rest }) ≡ ok r
      → Serves r
  unfolding task_finished ingested_at last_queued
  block-Serves info rest known queue h =
      let asked : last_queued state.last_ingested.number (ingest_block info.number ∷ rest)
          ≡ some state.queued_block_number =
        sym (ap (last_queued state.last_ingested.number) queue) ∙ i.asks in
      elim (if-cases (can_grow s.chain_builder info) h) [
        | inr (_, e) ↦ subst Serves (ok-injective e) (to_recover i rest)
        | inl (_, e) ↦
            let (s', grown, e) =
              >>=-eq-ok (ingest_main remote state info (record s { task_queue = rest })) _ e in
            let (chained, keeps) =
              ingest_main-Chained remote state info (record s { task_queue = rest })
                state.last_ingested i.sized (last-room i) known (with_builder refl i.chained)
                grown in
            let asks : last_queued info.number rest ≡ some state.queued_block_number =
              ground arith in
            subst Serves (ok-injective e) (
              filled-Ingesting (record state { pending_block_state = default_pending })
                (cursor info) state.head s' chained
                (ap (last_queued info.number) keeps.queue ∙ asks) i.room i.head_room
                (subst (λ o. 0 < o.chain_segment_size) (sym keeps.options) i.sized))
      ]

  task-Serves :
      (task : IngestionTask) (oldest : QueuedTask) (rest : List QueuedTask)
      {r : IngestionState × IngestionService}
      → s.task_queue ≡ oldest ∷ rest
      → Fits (task_result (some (ok (ok task)))) s
      → task_finished remote state task (record s { task_queue = rest }) ≡ ok r
      → Serves r
  unfolding task_finished Fits
  task-Serves (main_block info) oldest rest queue (known, later, e) h =
      let same : later ≡ rest = cc in
      block-Serves info rest known (e ∙ ap (λ q. ingest_block info.number ∷ q) same) h
  task-Serves (pending_block none) oldest rest queue (parent, generation, later, e) h =
      subst Serves (ok-injective h)
        (pending-done state s _ rest i (parent, generation, later, e, cc))
  task-Serves (pending_block (some info)) oldest rest queue (parent, generation, later, e) h =
      let done =
        pending-done state s state.pending_block_state rest i (parent, generation, later, e, cc) in
      let (s', written, h1) =
        >>=-eq-ok
          (write remote state_client_request (put_pending info.generation)
            (record s { task_queue = rest }))
          _ h in
      subst Serves (ok-injective h1) (
        after-write remote state (record s { task_queue = rest }) done
          (record state {
            pending_block_state = record { queued = false; generation = info.generation };
          })
          _ _ refl refl refl written)

  pub finish-Serves :
      (result : Option (Result IngestionError (Result IngestionError IngestionTask)))
      (queue : List QueuedTask) {r : IngestionState × IngestionService}
      → s.task_queue ≡ queue
      → Fits (task_result result) s
      → finish_task remote state result queue s ≡ ok r
      → Serves r
  unfolding finish_task tick_with_task_result Fits
  finish-Serves result [] e fits h = subst Serves (ok-injective h) i
  finish-Serves none (oldest ∷ rest) e fits h = absurd (cons-not-nil (sym e ∙ fits))
  finish-Serves (some (err x)) (oldest ∷ rest) e fits h = absurd (err-not-ok h)
  finish-Serves (some panic) (oldest ∷ rest) e fits h = absurd (panic-not-ok h)
  finish-Serves (some (ok (err x))) (oldest ∷ rest) e fits h =
      elim (if-cases (is_block_not_found x) h) [
        | inl (_, e) ↦ subst Serves (ok-injective e) (to_recover i rest)
        | inr (_, e) ↦ absurd (err-not-ok e)
      ]
  finish-Serves (some (ok panic)) (oldest ∷ rest) e fits h = absurd (panic-not-ok h)
  finish-Serves (some (ok (ok task))) (oldest ∷ rest) e fits h =
      task-Serves task oldest rest e fits h
