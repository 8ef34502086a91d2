-- ===== src/Ingestion/Serves/Tick.antt =====
-- The invariant of the service through any tick.
use starkstream_dna.Base.{
  ℕ, ◌+◌, ◌<◌, ◌≡◌, inl, inr, refl, subst, Bool, ◌&&◌, none, some, if-cases, u64_mod, ok, err,
  panic, >>=-eq-ok, ok-injective, panic-not-ok, change_context, change_context-eq-ok,
}
use starkstream_dna.Core.{cursor_eq, Cursor}
use starkstream_dna.Ingestion.{
  rpc_request, Remote, IngestState, IngestionState, ingest, recover, IngestionService,
}
use starkstream_dna.Ingestion.Ticks.{
  Event, cancelled, new_head, finalized_interval, pending_interval, head_interval, task_result,
  tick_ingest, tick,
}
use starkstream_dna.Ingestion.Serves.{Ingesting, Serves, Fits}
use starkstream_dna.Ingestion.Serves.Recovery.{tick_recover-Serves}
use starkstream_dna.Ingestion.Serves.Refresh.{head-Serves, finalized-Serves, pending-Serves}
use starkstream_dna.Ingestion.Serves.Task.{finish-Serves}

module _ (remote : Remote) (state : IngestState) (s : IngestionService)
    (i : Ingesting state s) where
  ingest-Serves :
      (event : Event) {r : IngestionState × IngestionService}
      → ((head : Cursor) → remote.head_cursor ≡ ok head → head.number + 1 < u64_mod)
      → Fits event s
      → tick_ingest remote event state s ≡ ok r
      → Serves r
  unfolding tick_ingest Fits
  ingest-Serves cancelled heads fits h = subst Serves (ok-injective h) i
  ingest-Serves (new_head none) heads fits h = subst Serves (ok-injective h) i
  ingest-Serves (new_head (some (ok head))) heads fits h = head-Serves remote state s i head fits h
  ingest-Serves (new_head (some (err e))) heads fits h = subst Serves (ok-injective h) i
  ingest-Serves (new_head (some panic)) heads fits h = absurd (panic-not-ok h)
  ingest-Serves finalized_interval heads fits h = finalized-Serves remote state s i h
  ingest-Serves pending_interval heads fits h =
      elim (if-cases (cursor_eq state.head state.last_ingested && remote.supports_pending) h) [
        | inl (_, e) ↦ pending-Serves remote state s i e
        | inr (_, e) ↦ subst Serves (ok-injective e) i
      ]
  ingest-Serves head_interval heads fits h =
      let (head, known, h1) = >>=-eq-ok (change_context rpc_request remote.head_cursor) _ h in
      head-Serves remote state s i head
        (heads head (change_context-eq-ok rpc_request remote.head_cursor known)) h1
  ingest-Serves (task_result result) heads fits h =
      finish-Serves remote state s i result s.task_queue refl fits h

-- Any tick that does not fail keeps this: the builder is valid, holds known hashes and ends at the
-- last ingested block, and while the service ingests, its queue asks for the blocks behind that one
-- without a gap, up to the queued block number. The node is assumed to number its blocks below the
-- largest `u64`, and tasks to return what they were started for, with a hash that is not zero.
pub tick-Serves :
    (remote : Remote) (event : Event) (is_cancelled : ℕ → Bool) (state : IngestionState)
    (s : IngestionService) {r : IngestionState × IngestionService}
    → Serves (state, s)
    → ((head : Cursor) → remote.head_cursor ≡ ok head → head.number + 1 < u64_mod)
    → Fits event s
    → tick remote event is_cancelled state s ≡ ok r
    → Serves r
unfolding tick
tick-Serves remote event is_cancelled (ingest state) s i heads fits h =
    ingest-Serves remote state s i event heads fits h
tick-Serves remote event is_cancelled (recover state) s i heads fits h =
    tick_recover-Serves remote is_cancelled state s i h
