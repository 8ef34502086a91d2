-- ===== src/Ingestion/Serves/Refresh.antt =====
-- The invariant of the service through the ticks that refresh the head, the finalized cursor and the
-- pending block.
use starkstream_dna.Base.{
  ◌+◌, ◌<◌, ◌≡◌, inl, inr, refl, sym, ap, subst, not, arith, ltb, if-cases, add_u64, u64_mod, ok,
  >>=-eq-ok, ok-injective, change_context, ensure,
}
use starkstream_dna.Core.{cursor_eq, Cursor}
use starkstream_dna.Ingestion.{
  IngestionError, model, state_client_request, rpc_request, put_finalized, Remote, Write,
  IngestState, IngestionState, ingest_pending, write, IngestionService,
}
use starkstream_dna.Ingestion.Tasks.{push_ingest_pending_block, push_task}
use starkstream_dna.Ingestion.Ticks.{
  tick_refresh_finalized, tick_refresh_head, tick_refresh_pending, is_reorg,
}
use starkstream_dna.Ingestion.Queue.{last_queued, last_queued-append}
use starkstream_dna.Ingestion.Chained.{Chained, with_builder, write-Keeps}
use starkstream_dna.Ingestion.Serves.{Ingesting, Serves, to_recover, filled-Ingesting}

module _ (remote : Remote) (state : IngestState) (s : IngestionService)
    (i : Ingesting state s) where
  pub head-Serves :
      (head : Cursor) {r : IngestionState × IngestionService}
      → head.number + 1 < u64_mod
      → tick_refresh_head state head s ≡ ok r
      → Serves r
  unfolding tick_refresh_head
  head-Serves head room h = elim (if-cases (cursor_eq state.head head) h) [
    | inl (_, e) ↦ subst Serves (ok-injective e) i
    | inr (_, e) ↦ elim (if-cases (is_reorg state head) e) [
      | inl (_, e) ↦ subst Serves (ok-injective e) (to_recover i s.task_queue)
      | inr (_, e) ↦
          subst Serves (ok-injective e)
            (filled-Ingesting state state.last_ingested head s i.chained i.asks i.room room i.sized)
    ]
  ]

  -- A write leaves what the invariant is about alone.
  pub after-write :
      (state' : IngestState) (e : IngestionError) (w : Write) {s' : IngestionService}
      → state'.last_ingested ≡ state.last_ingested
      → state'.queued_block_number ≡ state.queued_block_number
      → state'.head ≡ state.head
      → write remote e w s ≡ ok s'
      → Ingesting state' s'
  after-write state' e w {s'} last queued head h =
      let (kept, keeps) = write-Keeps remote e w s h in
      record {
        chained = subst (Chained s') (sym last) (with_builder kept i.chained);
        asks = rw (ap (λ (c : Cursor). c.number) last, keeps.queue, queued) i.asks;
        room = omega (arith, i.room, queued);
        head_room = omega (arith, i.head_room, ap (λ (c : Cursor). c.number) head);
        sized = subst (λ o. 0 < o.chain_segment_size) (sym keeps.options) i.sized;
      }

  pub finalized-Serves :
      {r : IngestionState × IngestionService}
      → tick_refresh_finalized remote state s ≡ ok r
      → Serves r
  unfolding tick_refresh_finalized
  finalized-Serves h =
      let (finalized, _, h1) = >>=-eq-ok (change_context rpc_request remote.finalized_cursor) _ h in
      let (_, _, h2) =
        >>=-eq-ok (ensure (not (ltb finalized.number state.finalized.number)) model) _ h1 in
      elim (if-cases (cursor_eq state.finalized finalized) h2) [
        | inl (_, e) ↦ subst Serves (ok-injective e) i
        | inr (_, e) ↦
            let (s', written, e) =
              >>=-eq-ok (write remote state_client_request (put_finalized finalized.number) s) _
                e in
            subst Serves (ok-injective e)
              (after-write (record state { finalized = finalized }) _ _ refl refl refl written)
      ]

  pub pending-Serves :
      {r : IngestionState × IngestionService} → tick_refresh_pending state s ≡ ok r → Serves r
  unfolding tick_refresh_pending push_ingest_pending_block push_task last_queued
  pending-Serves h = elim (if-cases state.pending_block_state.queued h) [
    | inl (_, e) ↦ subst Serves (ok-injective e) i
    | inr (_, e) ↦ elim (if-cases (cursor_eq state.head state.last_ingested) e) [
      | inr (_, e) ↦ subst Serves (ok-injective e) i
      | inl (_, e) ↦
          let task =
            ingest_pending state.last_ingested (add_u64 state.pending_block_state.generation 1) in
          subst Serves (ok-injective e) (record {
            chained = with_builder refl i.chained;
            asks =
                last_queued-append state.last_ingested.number state.queued_block_number s.task_queue
                  task i.asks;
            room = i.room;
            head_room = i.head_room;
            sized = i.sized;
          })
    ]
  ]
