-- ===== src/Ingestion/Serves/Recovery.antt =====
-- The invariant of the service through a recovery.
use starkstream_dna.Base.{
  ℕ, ◌<◌, ◌≡◌, inl, inr, sym, ap, ◌∙◌, subst, Bool, Option, none, some, List, arith, ok, >>=-eq-ok,
  ok-injective, change_context, change_context-eq-ok, ensure,
}
use starkstream_dna.Core.{cursor_eq, Cursor}
use starkstream_dna.Chain.{building, CanonicalChainBuilder}
use starkstream_dna.Chain.Builder.{shrink, current_segment}
use starkstream_dna.Chain.Segment.{canonical}
use starkstream_dna.Chain.Abstract.{hash_at_range}
use starkstream_dna.Chain.Shrink.{shrink-building}
use starkstream_dna.Ingestion.{
  model, Remote, RecoverState, IngestionState, publish_recent_segment, IngestionService,
}
use starkstream_dna.Ingestion.Tasks.{task_queue_clear}
use starkstream_dna.Ingestion.Recover.{recover_at, recover_or_stop, tick_recover, find_head}
use starkstream_dna.Ingestion.Queue.{last_queued}
use starkstream_dna.Ingestion.Chained.{publish-Keeps}
use starkstream_dna.Ingestion.Serves.{Recovering, Serves}

-- A recovery that succeeds goes on behind the block it found.
recover_at-Serves :
    (remote : Remote) (state : RecoverState) (head : Cursor) (s : IngestionService)
    {r : IngestionState × IngestionService}
    → Recovering state s
    → recover_at remote state head s ≡ ok r
    → Serves r
unfolding recover_at task_queue_clear last_queued
recover_at-Serves remote state head s {r} i h =
    let c = i.chained in
    let (shrunk, shrinks, h1) =
      >>=-eq-ok (change_context model (shrink s.chain_builder head)) _ h in
    let shrinks' : shrink (building c.chain) head ≡ ok shrunk =
      ap (λ o. shrink o head) (sym c.holds) ∙ change_context-eq-ok model _ shrinks in
    let (segment, _, h2) = >>=-eq-ok (change_context model (current_segment shrunk.1)) _ h1 in
    let (s', publishes, h3) =
      >>=-eq-ok
        (publish_recent_segment remote segment
          (record (task_queue_clear s) { chain_builder = shrunk.1 }))
        _ h2 in
    let (kept, keeps) =
      publish-Keeps remote segment (record (task_queue_clear s) { chain_builder = shrunk.1 })
        publishes in
    elim (shrink-building c.chain head c.valid) [
      | inr (_, refused) ↦ cc
      | inl (canonical, t) ↦
          let both : (t.removed, building t.after) ≡ shrunk = cc in
          let number = ap (λ (c : Cursor). c.number) c.ends in
          let range = hash_at_range c.chain c.valid head.number canonical in
          subst Serves (ok-injective h3) (record {
            chained = record {
              chain = t.after;
              holds = kept ∙ sym (ap (λ (p : List Cursor × CanonicalChainBuilder). p.1) both);
              valid = t.valid;
              known = λ n h e. ground (arith, t.hashes n, c.known n h);
              ends = t.ends;
            };
            asks = ap (last_queued head.number) keeps.queue;
            room = omega (arith, range, number, i.room);
            head_room = i.head_room;
            sized = subst (λ o. 0 < o.chain_segment_size) (sym keeps.options) i.sized;
          })
    ]

pub tick_recover-Serves :
    (remote : Remote) (is_cancelled : ℕ → Bool) (state : RecoverState) (s : IngestionService)
    {r : IngestionState × IngestionService}
    → Recovering state s
    → tick_recover remote is_cancelled state s ≡ ok r
    → Serves r
unfolding tick_recover recover_or_stop
tick_recover-Serves remote is_cancelled state s {r} i h =
    let (chain, _, h1) = >>=-eq-ok (change_context model (current_segment s.chain_builder)) _ h in
    let (last, _, h2) =
      >>=-eq-ok (change_context model (canonical chain state.last_ingested.number)) _ h1 in
    let (_, _, h3) = >>=-eq-ok (ensure (cursor_eq last state.last_ingested) model) _ h2 in
    let (found, _, h4) =
      >>=-eq-ok
        (find_head remote is_cancelled chain state.last_ingested.number state.last_ingested.hash) _
        h3 in
    recovered found h4
  where
    recovered : (found : Option Cursor) → recover_or_stop remote state found s ≡ ok r → Serves r
    recovered none e = subst Serves (ok-injective e) i
    recovered (some head) e = recover_at-Serves remote state head s i e
