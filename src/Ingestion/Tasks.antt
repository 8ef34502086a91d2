-- ===== src/Ingestion/Tasks.antt =====
-- common/src/ingestion/service.rs: the queue of ingestion tasks.
use starkstream_dna.Base.{ℕ, zero, suc, Bool, [], ◌∷◌, ◌++◌, ltb, if◌then◌else◌, length, add_u64}
use starkstream_dna.Core.{Cursor}
use starkstream_dna.Ingestion.{QueuedTask, ingest_block, ingest_pending, IngestionService}

unfoldable pub task_queue_clear : IngestionService → IngestionService
task_queue_clear s = record s { task_queue = [] }

unfoldable pub can_push_task : IngestionService → Bool
can_push_task s = ltb (length s.task_queue) s.options.max_concurrent_tasks

unfoldable pub push_task : QueuedTask → IngestionService → IngestionService
push_task t s = record s { task_queue = s.task_queue ++ t ∷ [] }

unfoldable pub push_ingest_block_by_number : ℕ → IngestionService → IngestionService
push_ingest_block_by_number block_number s = push_task (ingest_block block_number) s

unfoldable pub push_ingest_pending_block : Cursor → ℕ → IngestionService → IngestionService
push_ingest_pending_block last_ingested generation s =
    push_task (ingest_pending last_ingested generation) s

-- The loop that fills the queue up to the head, on fuel.
unfoldable pub push_tasks : ℕ → ℕ → ℕ → IngestionService → ℕ × IngestionService
push_tasks zero head block_number s = (block_number, s)
push_tasks (suc fuel) head block_number s =
    let next = add_u64 block_number 1 in
    let rest = push_tasks fuel head next (push_ingest_block_by_number next s) in
    if can_push_task s
    then (if ltb head next then (block_number, s) else rest)
    else (block_number, s)

-- A push makes the queue longer, so there are at most as many pushes as tasks are allowed.
unfoldable pub fill_queue : ℕ → ℕ → IngestionService → ℕ × IngestionService
fill_queue head block_number s = push_tasks s.options.max_concurrent_tasks head block_number s
