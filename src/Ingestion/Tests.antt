-- ===== src/Ingestion/Tests.antt =====
-- The theorems on the ingestion service at concrete inputs.
use starkstream_dna.Base.{
  ℕ, zero, suc, get_elem?, ◌-◌, ◌≤◌, ◌<◌, ◌≡◌, ◌⊎◌, inl, ap, ◌==◌, refl, none, some, [], ◌∷◌, ok,
  err, arith, if◌then◌else◌, bytes_eq, compare_bytes, false,
}
use starkstream_dna.Core.{Hash, Cursor, new, is_zero}
use starkstream_dna.Chain.{Building, building}
use starkstream_dna.Chain.Abstract.{hash_at, IsValid}
use starkstream_dna.Ingestion.{
  block_not_found, rpc_request, Remote, IngestState, RecoverState, ingest, default_pending,
  IngestionService, ingest_block,
}
use starkstream_dna.Ingestion.Tasks.{
  fill_queue, push_tasks, can_push_task, push_task, push_ingest_block_by_number,
}
use starkstream_dna.Ingestion.Recover.{tick_recover}
use starkstream_dna.Ingestion.Ticks.{new_head, tick, tick_ingest, tick_refresh_head, is_reorg}
use starkstream_dna.Ingestion.Ancestor.{Has, Lacks, Fails, Recovered, tick_recover-Shrinks}
use starkstream_dna.Ingestion.Queue.{last_queued, Filled, fill_queue-Filled}
use starkstream_dna.Ingestion.Serves.{Serves, Fits}
use starkstream_dna.Ingestion.Serves.Tick.{tick-Serves}

-- Blocks 7, 8 and 9.
abbrev trio : Building
trio = record {
  previous_segment = none;
  info = record { first_block = new 7 (1 ∷ []); last_block = new 9 (3 ∷ []) };
  canonical = (1 ∷ []) ∷ (2 ∷ []) ∷ (3 ∷ []) ∷ [];
  reorgs = [];
}

trio-IsValid : IsValid trio
trio-IsValid = record { gapless = omega arith; bounded = omega arith; first = refl; last = refl }

-- A node that has block 7 and no other.
abbrev node : Remote
node = record {
  head_cursor = ok (new 7 (1 ∷ []));
  finalized_cursor = ok (new 7 (1 ∷ []));
  supports_pending = false;
  block_info_by_number = λ n.
      if n == 7
      then ok (record { number = 7; hash = 1 ∷ []; parent = 0 ∷ [] })
      else err block_not_found;
  fetch_block = λ n. err block_not_found;
  write = λ w. ok tt;
  Pointer = Unit {0};
  recent_pointer = ok none;
  recent_snapshot = λ p. ok none;
  legacy_recent = ok none;
}

-- The service behind block 9, with a task for block 10.
abbrev service : IngestionService
service = record {
  options = record {
    max_concurrent_tasks = 2;
    chain_segment_size = 2;
    chain_segment_upload_offset_size = 1;
    override_starting_block = none;
  };
  chain_builder = building trio;
  task_queue = ingest_block 10 ∷ [];
  written = [];
}

abbrev behind : IngestState
behind = record {
  finalized = new 7 (1 ∷ []);
  head = new 10 (4 ∷ []);
  last_ingested = new 9 (3 ∷ []);
  queued_block_number = 10;
  pending_block_state = default_pending;
}

abbrev reorged : RecoverState
reorged = record {
  finalized = new 7 (1 ∷ []);
  existing_head = new 10 (4 ∷ []);
  last_ingested = new 9 (3 ∷ []);
}

gone : (n : ℕ) (h : Hash) → 7 < n → n ≤ 9 → hash_at trio n ≡ some h → Lacks node (new n h)
gone n h low high e = let other : (n == 7) ≡ false = ground arith in inl (rw other)

tick_recover-Shrinks_example :
    (Has node (new 7 (1 ∷ [])) × Recovered node (λ n. false) reorged service trio (new 7 (1 ∷ [])))
    ⊎ (Fails node (new 7 (1 ∷ []))
        × (tick_recover node (λ n. false) reorged service ≡ err rpc_request))
unfolding hash_at
tick_recover-Shrinks_example =
    tick_recover-Shrinks node (λ n. false) reorged service trio (new 7 (1 ∷ [])) trio-IsValid refl
      refl (λ w. refl) (λ n. refl) (omega arith) refl
      (inl (record { number = 7; hash = 1 ∷ []; parent = 0 ∷ [] }, refl, refl, refl)) gone

service_asks : last_queued 9 service.task_queue ≡ some 10
unfolding last_queued
service_asks = refl

fill_queue-Filled_example : Filled 9 12 10 service (fill_queue 12 10 service)
fill_queue-Filled_example =
    fill_queue-Filled 9 12 10 service service_asks (omega arith) (omega arith)

known-at : (i : ℕ) (h : Hash) → get_elem? trio.canonical i ≡ some h → is_zero h ≡ false
unfolding is_zero
known-at zero h e = let same : h ≡ 1 ∷ [] = cc in rw same
known-at (suc zero) h e = let same : h ≡ 2 ∷ [] = cc in rw same
known-at (suc (suc zero)) h e = let same : h ≡ 3 ∷ [] = cc in rw same
known-at (suc (suc (suc i))) h e = cc

trio-known : (n : ℕ) (h : Hash) → hash_at trio n ≡ some h → is_zero h ≡ false
unfolding hash_at
trio-known n h e = ground (arith, known-at (n - 7) h)

serves : Serves (ingest behind, service)
serves = record {
  chained = record {
    chain = trio;
    holds = refl;
    valid = trio-IsValid;
    known = trio-known;
    ends = refl;
  };
  asks = service_asks;
  room = omega arith;
  head_room = omega arith;
  sized = omega arith;
}

tick-Serves_example : Serves (
  ingest (record behind { head = new 12 (6 ∷ []); queued_block_number = 11 }),
  record service { task_queue = ingest_block 10 ∷ ingest_block 11 ∷ [] },
)
unfolding tick tick_ingest tick_refresh_head is_reorg fill_queue push_tasks can_push_task
    push_ingest_block_by_number push_task bytes_eq compare_bytes Fits
tick-Serves_example =
    tick-Serves node (new_head (some (ok (new 12 (6 ∷ []))))) (λ n. false) (ingest behind) service
      serves
      (λ head e.
        let same : head ≡ new 7 (1 ∷ []) = cc in omega (arith, ap (λ (c : Cursor). c.number) same))
      (omega arith) refl
