-- ===== src/Ingestion/Queue.antt =====
-- The queue asks for the blocks behind the last ingested one, in order.
use starkstream_dna.Base.{
  ℕ, zero, suc, ◌+◌, ◌≤◌, ◌<◌, ◌≡◌, ◌⊎◌, inl, inr, refl, ap, ◌∙◌, Option, none, some, List, [], ◌∷◌,
  ◌++◌, arith, ltb, ◌==◌, if◌then◌else◌, Bool-cases, length, length-append, add_u64, u64_mod,
}
use starkstream_dna.Ingestion.{QueuedTask, ingest_block, ingest_pending, IngestionService}
use starkstream_dna.Ingestion.Tasks.{
  push_tasks, fill_queue, can_push_task, push_task, push_ingest_block_by_number,
}

-- The last block that a queue asks for, when it asks for the blocks behind a number one by one.
unfoldable pub last_queued : ℕ → List QueuedTask → Option ℕ
last_queued n [] = some n
last_queued n (ingest_block k ∷ rest) =
    let onward = last_queued k rest in if k == n + 1 then onward else none
last_queued n (ingest_pending parent generation ∷ rest) = last_queued n rest

pub last_queued-append :
    (n m : ℕ) (q : List QueuedTask) (t : QueuedTask)
    → last_queued n q ≡ some m
    → last_queued n (q ++ t ∷ []) ≡ last_queued m (t ∷ [])
unfolding last_queued
last_queued-append n m [] t e = let same : n ≡ m = cc in ap (λ k. last_queued k (t ∷ [])) same
last_queued-append n m (ingest_block k ∷ rest) t e = elim (Bool-cases (k == n + 1)) [
  | inl next ↦ rw next (last_queued-append k m rest t (ground arith))
  | inr other ↦ ground arith
]
last_queued-append n m (ingest_pending parent generation ∷ rest) t e =
    last_queued-append n m rest t e

pub last_queued-le : (n m : ℕ) (q : List QueuedTask) → last_queued n q ≡ some m → n ≤ m
unfolding last_queued
last_queued-le n m [] e = let same : n ≡ m = cc in omega (arith, same)
last_queued-le n m (ingest_block k ∷ rest) e = ground (arith, last_queued-le k m rest)
last_queued-le n m (ingest_pending parent generation ∷ rest) e = last_queued-le n m rest e

-- What `fill_queue` makes of a service.
pub record Filled (last head block_number : ℕ) (s : IngestionService) (r : ℕ × IngestionService)
    : Type 0 where
  pub asks : last_queued last r.1.task_queue ≡ some r.0
  pub from : block_number ≤ r.0
  pub until : (r.0 ≤ block_number) ⊎ (r.0 ≤ head)
  pub enough : (head ≤ r.0) ⊎ (s.options.max_concurrent_tasks ≤ length r.1.task_queue)
  pub limited :
      (length r.1.task_queue ≤ length s.task_queue)
      ⊎ (length r.1.task_queue ≤ s.options.max_concurrent_tasks)
  pub builder : r.1.chain_builder ≡ s.chain_builder
  pub options : r.1.options ≡ s.options
  pub written : r.1.written ≡ s.written

stay :
    (last head block : ℕ) (s : IngestionService)
    → last_queued last s.task_queue ≡ some block
    → (head ≤ block) ⊎ (s.options.max_concurrent_tasks ≤ length s.task_queue)
    → Filled last head block s (block, s)
stay last head block s e done = record {
  asks = e;
  from = omega arith;
  until = inl (omega arith);
  enough = done;
  limited = inl (omega arith);
  builder = refl;
  options = refl;
  written = refl;
}

-- The service with one more task, for the next block.
abbrev pushed : ℕ → IngestionService → IngestionService
pushed block s = record s { task_queue = s.task_queue ++ ingest_block (block + 1) ∷ [] }

pushed-asks :
    (last block : ℕ) (s : IngestionService)
    → last_queued last s.task_queue ≡ some block
    → last_queued last (pushed block s).task_queue ≡ some (block + 1)
unfolding last_queued
pushed-asks last block s e =
    last_queued-append last block s.task_queue (ingest_block (block + 1)) e ∙ ground arith

further :
    (last head block : ℕ) (s : IngestionService) (r : ℕ × IngestionService)
    → length s.task_queue < s.options.max_concurrent_tasks
    → block + 1 ≤ head
    → Filled last head (block + 1) (pushed block s) r
    → Filled last head block s r
further last head block s r more ahead f = record {
  asks = f.asks;
  from = omega (arith, f.from);
  until = ground (arith, f.until);
  enough = f.enough;
  limited = ground (arith, f.limited, length-append s.task_queue (ingest_block (block + 1) ∷ []));
  builder = f.builder;
  options = f.options;
  written = f.written;
}

push_tasks-Filled :
    (fuel last head block : ℕ) (s : IngestionService)
    → last_queued last s.task_queue ≡ some block
    → s.options.max_concurrent_tasks ≤ length s.task_queue + fuel
    → head + 1 < u64_mod
    → block + 1 < u64_mod
    → Filled last head block s (push_tasks fuel head block s)
unfolding push_tasks can_push_task push_ingest_block_by_number push_task
push_tasks-Filled zero last head block s e room bound fits =
    stay last head block s e (inr (ground arith))
push_tasks-Filled (suc fuel) last head block s e room bound fits =
    let next : add_u64 block 1 ≡ block + 1 = omega arith in
    elim (Bool-cases (can_push_task s)) [
      | inr full ↦ rw full (stay last head block s e (inr (ground arith)))
      | inl more ↦ elim (Bool-cases (ltb head (block + 1))) [
        | inl reached ↦ rw (more, next, reached) (stay last head block s e (inl (ground arith)))
        | inr ahead ↦
            rw (more, next, ahead)
              (further last head block s (push_tasks fuel head (block + 1) (pushed block s))
                (ground arith) (ground arith)
                (push_tasks-Filled fuel last head (block + 1) (pushed block s)
                  (pushed-asks last block s e)
                  (omega (arith, length-append s.task_queue (ingest_block (block + 1) ∷ []))) bound
                  (ground arith)))
      ]
    ]

-- Filling the queue continues with the next blocks in order, up to the head: it ends with as many
-- tasks as allowed or more, or with the head queued, holds no more tasks than allowed unless it did before, and leaves the
-- builder and what is written alone.
pub fill_queue-Filled :
    (last head block : ℕ) (s : IngestionService)
    → last_queued last s.task_queue ≡ some block
    → head + 1 < u64_mod
    → block + 1 < u64_mod
    → Filled last head block s (fill_queue head block s)
unfolding fill_queue
fill_queue-Filled last head block s e bound fits =
    push_tasks-Filled s.options.max_concurrent_tasks last head block s e (omega arith) bound fits
