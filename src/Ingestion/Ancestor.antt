-- ===== src/Ingestion/Ancestor.antt =====
-- A recovery goes back to the highest local block that the node still has.
use starkstream_dna.Base.{
  ℕ, zero, suc, ◌≤◌, ◌<◌, ◌≡◌, ◌≢◌, ◌⊎◌, refl, sym, ◌∙◌, Bool, true, false, Bool-cases, Option,
  some, [], ◌∷◌, arith, inl, inr, ℕ_discrete, ◌==◌, bytes_eq, bytes_eq_iff, Result, ok, err, ◌>>=◌,
}
use starkstream_dna.Core.{Hash, Cursor, new}
use starkstream_dna.Chain.{BlockInfo, Building, building, CanonicalChainSegment}
use starkstream_dna.Chain.Builder.{current_segment}
use starkstream_dna.Chain.Segment.{canonical}
use starkstream_dna.Chain.Abstract.{hash_at, IsValid, hash_at-cases, hash_at_range}
use starkstream_dna.Chain.Current.{segment_of, canonical_answer, canonical-segment}
use starkstream_dna.Chain.Shrink.{Shrinks, shrink-building}
use starkstream_dna.Ingestion.{
  IngestionError, block_not_found, is_block_not_found, rpc_request, Remote, Write, put_recent,
  put_recent_snapshot, publish_recent_segment, write, RecoverState, ingest, default_pending,
  IngestionService,
}
use starkstream_dna.Ingestion.Tasks.{task_queue_clear}
use starkstream_dna.Ingestion.Recover.{agrees, find_head, recover_at, recover_or_stop, tick_recover}

-- The node answers for a block's number with this block.
abbrev pub Has : Remote → Cursor → Type 0
Has remote c =
    (info : BlockInfo) × (remote.block_info_by_number c.number ≡ ok info)
    × (info.number ≡ c.number)
    × (info.hash ≡ c.hash)

-- The node has no block at the number, or answers with another one.
abbrev pub Lacks : Remote → Cursor → Type 0
Lacks remote c =
    (remote.block_info_by_number c.number ≡ err block_not_found)
    ⊎ ((info : BlockInfo) × (remote.block_info_by_number c.number ≡ ok info)
        × ((info.number ≢ c.number) ⊎ (info.hash ≢ c.hash)))

-- The node answers with an error that is not a missing block.
abbrev pub Fails : Remote → Cursor → Type 0
Fails remote c =
    (e : IngestionError) × (remote.block_info_by_number c.number ≡ err e) × (e ≢ block_not_found)

agrees-Has :
    (remote : Remote) (c : Cursor)
    → Has remote c
    → agrees c (remote.block_info_by_number c.number) ≡ ok true
unfolding agrees
agrees-Has remote c (info, answer, number, hash) =
    let hashes = (bytes_eq_iff info.hash c.hash).1 hash in
    let numbers : (info.number == c.number) ≡ true = ground arith in rw (answer, numbers, hashes)

agrees-Lacks :
    (remote : Remote) (c : Cursor)
    → Lacks remote c
    → agrees c (remote.block_info_by_number c.number) ≡ ok false
unfolding agrees is_block_not_found
agrees-Lacks remote c (inl missing) = rw missing
agrees-Lacks remote c (inr (info, answer, inl number)) =
    let numbers : (info.number == c.number) ≡ false = ground arith in rw (answer, numbers)
agrees-Lacks remote c (inr (info, answer, inr hash)) =
    elim (Bool-cases (bytes_eq info.hash c.hash)) [
      | inl same ↦ absurd (hash ((bytes_eq_iff info.hash c.hash).0 same))
      | inr hashes ↦ elim (Bool-cases (info.number == c.number)) [
        | inl numbers ↦ rw (answer, numbers, hashes)
        | inr numbers ↦ rw (answer, numbers)
      ]
    ]

agrees-Fails :
    (remote : Remote) (c : Cursor)
    → Fails remote c
    → agrees c (remote.block_info_by_number c.number) ≡ err rpc_request
unfolding agrees is_block_not_found
agrees-Fails remote c (e, answer, other) = rw answer (ground (arith, other))

module _ (remote : Remote) (is_cancelled : ℕ → Bool) (chain : CanonicalChainSegment)
    (goes_on : (n : ℕ) → is_cancelled n ≡ false) where
  stops-Has :
      (n : ℕ) (h : Hash)
      → Has remote (new n h)
      → find_head remote is_cancelled chain n h ≡ ok (some (new n h))
  unfolding find_head
  stops-Has zero h has = rw (goes_on 0, agrees-Has remote (new 0 h) has)
  stops-Has (suc n) h has = rw (goes_on (suc n), agrees-Has remote (new (suc n) h) has)

  stops-Fails :
      (n : ℕ) (h : Hash)
      → Fails remote (new n h)
      → find_head remote is_cancelled chain n h ≡ err rpc_request
  unfolding find_head
  stops-Fails zero h fails = rw (goes_on 0, agrees-Fails remote (new 0 h) fails)
  stops-Fails (suc n) h fails = rw (goes_on (suc n), agrees-Fails remote (new (suc n) h) fails)

module _ (remote : Remote) (is_cancelled : ℕ → Bool) (b : Building) (v : IsValid b) (m : ℕ)
    (g : Hash) (goes_on : (n : ℕ) → is_cancelled n ≡ false) (held : hash_at b m ≡ some g)
    (result : Result IngestionError (Option Cursor))
    (stops : find_head remote is_cancelled (segment_of b) m g ≡ result) where
  held-stops :
      (n : ℕ) (h : Hash)
      → n ≡ m
      → hash_at b n ≡ some h
      → find_head remote is_cancelled (segment_of b) n h ≡ result
  held-stops n h e here = let same : h ≡ g = cc in cc

  parent-held :
      (n : ℕ)
      → m ≤ n
      → n ≤ b.info.last_block.number
      → (h : Hash) × (hash_at b n ≡ some h) × (canonical (segment_of b) n ≡ ok (new n h))
  unfolding canonical_answer
  parent-held n low high = elim (hash_at-cases b v n) [
    | inl (inl below, _) ↦ absurd (omega (arith, hash_at_range b v m held))
    | inl (inr above, _) ↦ absurd (omega arith)
    | inr (h, e, _, _) ↦ (h, e, canonical-segment b v n ∙ rw e)
  ]

  before :
      (n : ℕ) (h f : Hash)
      → Lacks remote (new (suc n) h)
      → canonical (segment_of b) n ≡ ok (new n f)
      → find_head remote is_cancelled (segment_of b) (suc n) h
        ≡ find_head remote is_cancelled (segment_of b) n f
  unfolding find_head
  before n h f lacks e = rw (goes_on (suc n), agrees-Lacks remote (new (suc n) h) lacks, e)

  found :
      (n : ℕ) (h : Hash)
      → m ≤ n
      → hash_at b n ≡ some h
      → ((k : ℕ) (f : Hash) → m < k → k ≤ n → hash_at b k ≡ some f → Lacks remote (new k f))
      → find_head remote is_cancelled (segment_of b) n h ≡ result
  found zero h low here gone = held-stops 0 h (omega arith) here
  found (suc n) h low here gone = elim (ℕ_discrete m (suc n)) [
    | yes e ↦ held-stops (suc n) h (sym e) here
    | no ne ↦
        let (f, there, e) =
          parent-held n (omega arith) (omega (arith, hash_at_range b v (suc n) here)) in
        before n h f (gone (suc n) h (omega arith) (omega arith) here) e
        ∙ found n f (omega arith) there (λ k f low high. gone k f low (omega arith))
  ]

module _ (remote : Remote) (is_cancelled : ℕ → Bool) (s : IngestionService) (b : Building)
    (v : IsValid b) (held_by : s.chain_builder ≡ building b)
    (accepted : (w : Write) → remote.write w ≡ ok tt) where
  -- The service after a recovery.
  abbrev recovered : Building → IngestionService
  recovered c = record s {
    chain_builder = building c;
    task_queue = [];
    written = put_recent (segment_of c) ∷ put_recent_snapshot (segment_of c) ∷ s.written;
  }

  recover_at-eq :
      (state : RecoverState) (head : Cursor) (t : Shrinks b head)
      → recover_at remote state head s
        ≡ ok (
          ingest (record {
            finalized = state.finalized;
            head = state.existing_head;
            last_ingested = head;
            queued_block_number = head.number;
            pending_block_state = default_pending;
          }),
          recovered t.after,
        )
  unfolding recover_at current_segment publish_recent_segment write task_queue_clear
  recover_at-eq state head t = rw (
    held_by,
    t.shrinks,
    accepted (put_recent_snapshot (segment_of t.after)),
    accepted (put_recent (segment_of t.after)),
  )

  tick_recover-eq :
      (state : RecoverState) {r : Result IngestionError (Option Cursor)}
      → hash_at b state.last_ingested.number ≡ some state.last_ingested.hash
      → find_head remote is_cancelled
          (segment_of b)
          state.last_ingested.number
          state.last_ingested.hash
        ≡ r
      → tick_recover remote is_cancelled state s
        ≡ (r >>= λ found. recover_or_stop remote state found s)
  unfolding tick_recover current_segment canonical_answer
  tick_recover-eq state here finds =
      let last = canonical-segment b v state.last_ingested.number in
      let same = (bytes_eq_iff state.last_ingested.hash state.last_ingested.hash).1 refl in
      let number : (state.last_ingested.number == state.last_ingested.number) ≡ true =
        ground arith in
      rw (held_by, last, here, same, number, finds)

-- What a recovery to a block leaves: the builder is shrunk to it, the queue is emptied, the new
-- segment is published, and the ingestion goes on behind the block, with the head that it had.
abbrev pub Recovered :
    Remote → (ℕ → Bool) → RecoverState → IngestionService → Building → Cursor → Type 0
Recovered remote is_cancelled state s b head =
    (t : Shrinks b head) × (segment : CanonicalChainSegment) × (current_segment (building t.after)
      ≡ ok segment)
    × (tick_recover remote is_cancelled state s
        ≡ ok (
          ingest (record {
            finalized = state.finalized;
            head = state.existing_head;
            last_ingested = head;
            queued_block_number = head.number;
            pending_block_state = default_pending;
          }),
          record s {
            chain_builder = building t.after;
            task_queue = [];
            written = put_recent segment ∷ put_recent_snapshot segment ∷ s.written;
          },
        ))

-- A service whose last ingested block is canonical in its valid builder, that is not cancelled and
-- whose writes are accepted, goes down from the last ingested block past the canonical blocks that
-- the node does not have, because it has no block at the number or one with another number or hash.
-- At the first block for which the node answers otherwise, it recovers to the block if the node has
-- it: the builder is shrunk to the block, the queue is emptied, the new segment is published, and the
-- ingestion goes on behind the block, with the head that it had. If the node fails with another error
-- there, the recovery fails too, and goes back to no older block.
pub tick_recover-Shrinks :
    (remote : Remote) (is_cancelled : ℕ → Bool) (state : RecoverState) (s : IngestionService)
    (b : Building) (head : Cursor)
    → IsValid b
    → s.chain_builder ≡ building b
    → hash_at b state.last_ingested.number ≡ some state.last_ingested.hash
    → ((w : Write) → remote.write w ≡ ok tt)
    → ((n : ℕ) → is_cancelled n ≡ false)
    → head.number ≤ state.last_ingested.number
    → hash_at b head.number ≡ some head.hash
    → Has remote head ⊎ Fails remote head
    → ((n : ℕ) (h : Hash)
        → head.number < n
        → n ≤ state.last_ingested.number
        → hash_at b n ≡ some h
        → Lacks remote (new n h))
    → (Has remote head × Recovered remote is_cancelled state s b head)
      ⊎ (Fails remote head × (tick_recover remote is_cancelled state s ≡ err rpc_request))
unfolding current_segment recover_or_stop
tick_recover-Shrinks remote is_cancelled state s b head v held_by last accepted goes_on low held
      (inl has) gone =
    elim (shrink-building b head v) [
      | inl (_, t) ↦
          let stops =
            stops-Has remote is_cancelled (segment_of b) goes_on head.number head.hash has in
          let finds =
            found remote is_cancelled b v head.number head.hash goes_on held _ stops
              state.last_ingested.number state.last_ingested.hash low last gone in
          inl (
            has,
            (
              t,
              segment_of t.after,
              refl,
              tick_recover-eq remote is_cancelled s b v held_by accepted state last finds
                  ∙ recover_at-eq remote is_cancelled s b v held_by accepted state head t,
            ),
          )
      | inr (foreign, _) ↦ absurd (foreign held)
    ]
tick_recover-Shrinks remote is_cancelled state s b head v held_by last accepted goes_on low held
      (inr fails) gone =
    let stops =
      stops-Fails remote is_cancelled (segment_of b) goes_on head.number head.hash fails in
    let finds =
      found remote is_cancelled b v head.number head.hash goes_on held _ stops
        state.last_ingested.number state.last_ingested.hash low last gone in
    inr (fails, tick_recover-eq remote is_cancelled s b v held_by accepted state last finds)
