-- ===== src/StateClient/Tests.antt =====
-- Block numbers in a store in memory.
use starkstream_dna.Base.{
  ℕ, ◌<◌, u64_mod, Option, none, some, List, [], ◌∷◌, ◌++◌, ◌≡◌, ◌≢◌, refl, arith, Result, ok, err,
  panic,
}
use starkstream_dna.Base.Decimal.{to_string, parse_u64}
use starkstream_dna.Etcd.{KeyValue}
use starkstream_dna.Etcd.Memory.{Memory, memory, memory-EtcdLaws}
use starkstream_dna.StateClient.{
  PointerJson, RecentSegmentPointer, get_block, put_block, put_finalized,
}
use starkstream_dna.StateClient.Keys.{segmented_key, finalized_key}
use starkstream_dna.StateClient.Update.{finalized, from_kv}
use starkstream_dna.StateClient.Raise.{Others, put_if_higher}
use starkstream_dna.StateClient.Stored.{get_block-put_block}
use starkstream_dna.StateClient.Watched.{set, sets_finalized, from_kv-set}
use starkstream_dna.StateClient.Rises.{number_at, Writer, Writers}
use starkstream_dna.StateClient.Loop.{Reaches, Trace, put_if_higher-Reaches, put_if_higher-ends}

-- "dna/"
abbrev pub dna : List ℕ
dna = 100 ∷ 110 ∷ 97 ∷ 47 ∷ []

abbrev nothing_stored : Memory
nothing_stored = record { entries = []; revision = 0 }

-- The segmented block is 5.
abbrev five_stored : Memory
five_stored = record {
  entries = ((100 ∷ 110 ∷ 97 ∷ 47 ∷ segmented_key, (53 ∷ [], 0)) ∷ []);
  revision = 1;
}

-- It is 12.
abbrev twelve_stored : Memory
twelve_stored = record {
  entries = ((100 ∷ 110 ∷ 97 ∷ 47 ∷ segmented_key, (49 ∷ 50 ∷ [], 1)) ∷ []);
  revision = 2;
}

raised :
    put_if_higher memory dna ((λ s. s) ∷ []) segmented_key 12 five_stored ≡ ok (some twelve_stored)
unfolding put_if_higher starkstream_dna.StateClient.Raise.turn starkstream_dna.Etcd.get_key
    starkstream_dna.StateClient.Raise.revision_to_write starkstream_dna.Base.Maps.lookup
    starkstream_dna.Base.compare_bytes starkstream_dna.Etcd.format_key
    starkstream_dna.StateClient.decode_block starkstream_dna.Base.Decimal.from_utf8
    starkstream_dna.Base.Decimal.utf8_step parse_u64 starkstream_dna.Base.Decimal.parse_digits
    starkstream_dna.Base.Decimal.push_digit starkstream_dna.StateClient.Raise.write_turn
    starkstream_dna.Etcd.put_if_mod_revision starkstream_dna.Base.Maps.insert to_string
    starkstream_dna.Base.Decimal.digits starkstream_dna.Base.Decimal.utf8_from
raised = refl

not_lowered :
    put_if_higher memory dna ((λ s. s) ∷ []) segmented_key 5 twelve_stored ≡ ok (some twelve_stored)
unfolding put_if_higher starkstream_dna.StateClient.Raise.turn starkstream_dna.Etcd.get_key
    starkstream_dna.StateClient.Raise.revision_to_write starkstream_dna.Base.Maps.lookup
    starkstream_dna.Base.compare_bytes starkstream_dna.Etcd.format_key
    starkstream_dna.StateClient.decode_block starkstream_dna.Base.Decimal.from_utf8
    starkstream_dna.Base.Decimal.utf8_step parse_u64 starkstream_dna.Base.Decimal.parse_digits
    starkstream_dna.Base.Decimal.push_digit starkstream_dna.StateClient.Raise.write_turn
not_lowered = refl

-- A writer that does nothing.
idle : Writer memory dna segmented_key (λ s. s)
idle = record { keeps = λ s e. refl; climbs = λ s n. absurd (n refl) }

put_if_higher-Reaches_example :
    Reaches 12
      (number_at memory dna segmented_key five_stored)
      (number_at memory dna segmented_key twelve_stored)
    × Trace memory dna segmented_key 12 ((λ s. s) ∷ []) five_stored twelve_stored
put_if_higher-Reaches_example =
    put_if_higher-Reaches memory dna segmented_key 12 ((λ s. s) ∷ []) five_stored
      {next = twelve_stored} memory-EtcdLaws (omega arith) (idle, tt) raised

-- Two turns are enough when the number has room for one.
put_if_higher-ends_example :
    put_if_higher memory dna ((λ s. s) ∷ (λ s. s) ∷ []) segmented_key 6 five_stored ≢ ok none
unfolding starkstream_dna.StateClient.Rises.number starkstream_dna.Base.Maps.lookup
    starkstream_dna.Base.compare_bytes starkstream_dna.StateClient.decode_block
    starkstream_dna.Base.Decimal.from_utf8 starkstream_dna.Base.Decimal.utf8_step parse_u64
    starkstream_dna.Base.Decimal.parse_digits starkstream_dna.Base.Decimal.push_digit
put_if_higher-ends_example =
    put_if_higher-ends memory dna segmented_key 6 ((λ s. s) ∷ (λ s. s) ∷ []) five_stored
      memory-EtcdLaws (omega arith) (idle, (idle, tt)) (omega arith)

twelve_written : put_block memory dna segmented_key 12 five_stored ≡ ok twelve_stored
unfolding put_block starkstream_dna.Etcd.put_key starkstream_dna.Base.Maps.insert
    starkstream_dna.Base.compare_bytes starkstream_dna.Etcd.format_key to_string
twelve_written = refl

twelve_read : get_block memory dna segmented_key twelve_stored ≡ ok (some 12)
unfolding get_block starkstream_dna.Etcd.get_key starkstream_dna.StateClient.decode_first
    starkstream_dna.Base.Maps.lookup starkstream_dna.Base.compare_bytes
    starkstream_dna.Etcd.format_key starkstream_dna.StateClient.decode_block
    starkstream_dna.Base.Decimal.from_utf8 starkstream_dna.Base.Decimal.utf8_step parse_u64
    starkstream_dna.Base.Decimal.parse_digits starkstream_dna.Base.Decimal.push_digit
twelve_read = refl

get_block-put_block_example : ◌≡◌ {A = Option ℕ} (some 12) (some 12)
get_block-put_block_example =
    get_block-put_block memory dna segmented_key 12 five_stored {next = twelve_stored} {r = some 12}
      memory-EtcdLaws (omega arith) twelve_written twelve_read

abbrev no_json : PointerJson
no_json = record { to_vec = λ pointer. none; from_slice = λ bytes. none }

-- The finalized block is 12, and the segmented block is 5.
abbrev finalized_stored : Memory
finalized_stored = record {
  entries =
      (100 ∷ 110 ∷ 97 ∷ 47 ∷ finalized_key, (49 ∷ 50 ∷ [], 1))
      ∷ (100 ∷ 110 ∷ 97 ∷ 47 ∷ segmented_key, (53 ∷ [], 0))
      ∷ [];
  revision = 2;
}

finalized_written : set memory dna sets_finalized [] 12 five_stored ≡ ok (some finalized_stored)
unfolding put_finalized put_block starkstream_dna.Etcd.put_key starkstream_dna.Base.Maps.insert
    starkstream_dna.Base.compare_bytes starkstream_dna.Etcd.format_key to_string
finalized_written = refl

from_kv-set_example :
    (kv : KeyValue) × (b : ℕ) × (memory.entry (dna ++ finalized_key) finalized_stored ≡ some kv)
    × (from_kv no_json kv ≡ ok (some (finalized b)))
    × (b ≡ 12)
unfolding starkstream_dna.Base.Decimal.from_utf8 starkstream_dna.Base.Decimal.utf8_step
from_kv-set_example =
    from_kv-set memory no_json dna sets_finalized [] 12 five_stored {next = finalized_stored}
      memory-EtcdLaws refl (omega arith) tt finalized_written
