-- ===== src/Ingestion/Chained.antt =====
-- The builder of the service ends at the last ingested block, through every change that a tick makes.
use starkstream_dna.Base.{
  ℕ, ◌+◌, ◌<◌, ◌≡◌, inl, inr, refl, sym, ap, ◌∙◌, subst, Bool, true, false, some, ◌∷◌, arith, leb,
  if◌then◌else◌, add_u64, u64_mod, ok, >>=-eq-ok, change_context, change_context-eq-ok, if-cases,
}
use starkstream_dna.Core.{Hash, Cursor, is_zero}
use starkstream_dna.Chain.{
  BlockInfo, cursor, Building, building, CanonicalChainSegment, CanonicalChainBuilder,
}
use starkstream_dna.Chain.Builder.{current_segment, grow, take_segment, segment_size}
use starkstream_dna.Chain.Abstract.{hash_at, IsValid, hash_at_last}
use starkstream_dna.Chain.Grow.{grow-building}
use starkstream_dna.Chain.Take.{take-building}
use starkstream_dna.Ingestion.{
  IngestionError, model, canonical_chain_store_request, put_chain_segment, Remote, Write,
  IngestState, publish_recent_segment, write, IngestionService,
}
use starkstream_dna.Ingestion.Ticks.{ingest_main, store_segment, store_finished_segment}

-- The service holds a valid builder that ends at a block, and knows the hashes of its blocks.
pub record Chained (s : IngestionService) (last : Cursor) : Type 0 where
  pub chain : Building
  pub holds : s.chain_builder ≡ building chain
  pub valid : IsValid chain
  pub known : (n : ℕ) (h : Hash) → hash_at chain n ≡ some h → is_zero h ≡ false
  pub ends : chain.info.last_block ≡ last

-- What the writes and the builder leave alone.
pub record Keeps (s s' : IngestionService) : Type 0 where
  pub queue : s'.task_queue ≡ s.task_queue
  pub options : s'.options ≡ s.options

Keeps-trans : {r s t : IngestionService} → Keeps r s → Keeps s t → Keeps r t
Keeps-trans k l = record { queue = l.queue ∙ k.queue; options = l.options ∙ k.options }

-- A write leaves the builder alone too.
pub write-Keeps :
    (remote : Remote) (e : IngestionError) (w : Write) (s : IngestionService)
    {s' : IngestionService}
    → write remote e w s ≡ ok s'
    → (s'.chain_builder ≡ s.chain_builder) × Keeps s s'
unfolding write
write-Keeps remote e w s {s'} h =
    let (_, _, done) = >>=-eq-ok (change_context e (remote.write w)) _ h in
    let same : s' ≡ record s { written = w ∷ s.written } = cc in
    (
      ap (λ (r : IngestionService). r.chain_builder) same,
      record {
        queue = ap (λ (r : IngestionService). r.task_queue) same;
        options = ap (λ (r : IngestionService). r.options) same;
      },
    )

pub publish-Keeps :
    (remote : Remote) (segment : CanonicalChainSegment) (s : IngestionService)
    {s' : IngestionService}
    → publish_recent_segment remote segment s ≡ ok s'
    → (s'.chain_builder ≡ s.chain_builder) × Keeps s s'
unfolding publish_recent_segment
publish-Keeps remote segment s h =
    let (a, first, second) = >>=-eq-ok _ _ h in
    let (one, k) = write-Keeps remote _ _ s first in
    let (two, l) = write-Keeps remote _ _ a second in (two ∙ one, Keeps-trans k l)

pub with_builder :
    {s s' : IngestionService} {last : Cursor}
    → s'.chain_builder ≡ s.chain_builder
    → Chained s last
    → Chained s' last
with_builder e c = record {
  chain = c.chain;
  holds = e ∙ c.holds;
  valid = c.valid;
  known = c.known;
  ends = c.ends;
}

-- Cutting off a finished segment keeps the last block.
store_segment-Chained :
    (remote : Remote) (s : IngestionService) (last : Cursor) {s' : IngestionService}
    → 0 < s.options.chain_segment_size
    → Chained s last
    → store_segment remote s ≡ ok s'
    → Chained s' last × Keeps s s'
unfolding store_segment
store_segment-Chained remote s last {s'} pos c h =
    let size = s.options.chain_segment_size in
    let (taken, took, stored) =
      >>=-eq-ok (change_context model (take_segment s.chain_builder size)) _ h in
    let took' : take_segment (building c.chain) size ≡ ok taken =
      ap (λ o. take_segment o size) (sym c.holds) ∙ change_context-eq-ok model _ took in
    let (kept, keeps) =
      write-Keeps remote canonical_chain_store_request (put_chain_segment taken.0)
        (record s { chain_builder = taken.1 }) stored in
    elim (take-building c.chain size c.valid pos) [
      | inr (_, short) ↦ cc
      | inl (_, t) ↦
          let both : (t.segment, building t.after) ≡ taken = cc in
          (
            record {
              chain = t.after;
              holds =
                  kept ∙ sym (ap (λ (p : CanonicalChainSegment × CanonicalChainBuilder). p.1) both);
              valid = t.valid;
              known = λ n h e. ground (arith, t.hashes n, c.known n h);
              ends = t.last_block ∙ c.ends;
            },
            record { queue = keeps.queue; options = keeps.options },
          )
    ]

stored-Chained :
    (remote : Remote) (s : IngestionService) (last : Cursor) {r : Bool × IngestionService}
    → 0 < s.options.chain_segment_size
    → Chained s last
    → store_finished_segment remote s ≡ ok r
    → Chained r.1 last × Keeps s r.1
unfolding store_finished_segment
stored-Chained remote s last {r} pos c h =
    elim (if-cases
      (leb (add_u64 s.options.chain_segment_size s.options.chain_segment_upload_offset_size)
        (segment_size s.chain_builder))
      h) [
        | inr (_, few) ↦
            let same : (false, s) ≡ r = cc in
            subst (λ (p : Bool × IngestionService). Chained p.1 last × Keeps s p.1) same
              (c, record { queue = refl; options = refl })
        | inl (_, enough) ↦
            let (s', stored, done) = >>=-eq-ok (store_segment remote s) _ enough in
            let same : (true, s') ≡ r = cc in
            subst (λ (p : Bool × IngestionService). Chained p.1 last × Keeps s p.1) same
              (store_segment-Chained remote s last pos c stored)
      ]

grown-Chained :
    (info : BlockInfo) (s : IngestionService) (last : Cursor) {grown : CanonicalChainBuilder}
    → last.number + 1 < u64_mod
    → is_zero info.hash ≡ false
    → Chained s last
    → grow s.chain_builder info ≡ ok grown
    → Chained (record s { chain_builder = grown }) (cursor info)
grown-Chained info s last {grown} room known c h =
    let end : is_zero c.chain.info.last_block.hash ≡ false =
      c.known c.chain.info.last_block.number c.chain.info.last_block.hash
        (hash_at_last c.chain c.valid) in
    let number = ap (λ (c : Cursor). c.number) c.ends in
    let h' : grow (building c.chain) info ≡ ok grown = ap (λ o. grow o info) (sym c.holds) ∙ h in
    elim (grow-building c.chain info c.valid end (omega (arith, number))) [
      | inr (_, refused) ↦ cc
      | inl (_, _, g) ↦ record {
        chain = g.after;
        holds = cc;
        valid = g.valid;
        known = λ n h e. ground (arith, g.hashes n, c.known n h, known);
        ends = g.ends;
      }
    ]

-- Growing by a block makes it the last block.
pub ingest_main-Chained :
    (remote : Remote) (state : IngestState) (info : BlockInfo) (s : IngestionService)
    (last : Cursor) {s' : IngestionService}
    → 0 < s.options.chain_segment_size
    → last.number + 1 < u64_mod
    → is_zero info.hash ≡ false
    → Chained s last
    → ingest_main remote state info s ≡ ok s'
    → Chained s' (cursor info) × Keeps s s'
unfolding ingest_main
ingest_main-Chained remote state info s last {s'} pos room known c h =
    let (grown, grows, h1) = >>=-eq-ok (change_context model (grow s.chain_builder info)) _ h in
    let longer = grown-Chained info s last room known c (change_context-eq-ok model _ grows) in
    let (stored, stores, h2) =
      >>=-eq-ok (store_finished_segment remote (record s { chain_builder = grown })) _ h1 in
    let (chained, keeps) =
      stored-Chained remote (record s { chain_builder = grown }) (cursor info) pos longer stores in
    let keeps' : Keeps s stored.1 = record { queue = keeps.queue; options = keeps.options } in
    elim (if-cases (if leb state.finalized.number info.number then true else stored.0) h2) [
      | inr (_, quiet) ↦
          let same : stored.1 ≡ s' = cc in
          subst (λ r. Chained r (cursor info) × Keeps s r) same (chained, keeps')
      | inl (_, published) ↦
          let (segment, _, h3) =
            >>=-eq-ok (change_context model (current_segment stored.1.chain_builder)) _ published in
          let (kept, publishes) = publish-Keeps remote segment stored.1 h3 in
          (with_builder kept chained, Keeps-trans keeps' publishes)
    ]
