-- ===== src/StateClient/Update.antt =====
-- common/src/ingestion/state_client.rs: changes of the stored state, from the events of a watch.
use starkstream_dna.Base.{
  ℕ, Bool, true, false, ◌&&◌, ◌==◌, if◌then◌else◌, Option, none, some, List, [], ◌∷◌, Result, ok,
  err, panic, ◌>>=◌, ok_or,
}
use starkstream_dna.Base.Decimal.{from_utf8, parse_u64}
use starkstream_dna.Etcd.{KeyValue}
use starkstream_dna.StateClient.Keys.{
  recent_key, pending_key, starting_block_key, finalized_key, segmented_key, grouped_key,
}
use starkstream_dna.StateClient.{
  IngestionStateClientError, state_client_error, RecentSegmentPointer, PointerJson,
}

pub data IngestionStateUpdate : Type 0 where
  starting_block : ℕ → IngestionStateUpdate
  finalized : ℕ → IngestionStateUpdate
  pending : Option ℕ → IngestionStateUpdate
  segmented : ℕ → IngestionStateUpdate
  grouped : ℕ → IngestionStateUpdate
  recent : RecentSegmentPointer → IngestionStateUpdate

unfoldable pub is_pending : IngestionStateUpdate → Bool
is_pending update = elim update [ pending _ ↦ true | _ ↦ false ]

-- A text backwards, in front of another.
unfoldable pub reverse_onto : List ℕ → List ℕ → List ℕ
reverse_onto [] acc = acc
reverse_onto (b ∷ bs) acc = reverse_onto bs (b ∷ acc)

unfoldable pub starts_with : List ℕ → List ℕ → Bool
starts_with [] s = true
starts_with (b ∷ bs) [] = false
starts_with (b ∷ bs) (c ∷ s) = b == c && starts_with bs s

-- `key.ends_with(suffix)`
abbrev pub ends_with : List ℕ → List ℕ → Bool
ends_with key suffix = starts_with (reverse_onto suffix []) (reverse_onto key [])

abbrev pub parsed : List ℕ → Result IngestionStateClientError ℕ
parsed value = ok_or state_client_error (parse_u64 value)

unfoldable pub pending_update :
    List ℕ → Result IngestionStateClientError (Option IngestionStateUpdate)
pending_update [] = ok (some (pending none))
pending_update (b ∷ value) = do
  generation ← parsed (b ∷ value)
  ok (some (pending (some generation)))

-- The tests of `from_kv` after the one for a pointer.
unfoldable pub block_update :
    List ℕ → List ℕ → Result IngestionStateClientError (Option IngestionStateUpdate)
block_update key value =
    if ends_with key starting_block_key
    then (parsed value >>= λ block. ok (some (starting_block block)))
    else if ends_with key finalized_key
    then (parsed value >>= λ block. ok (some (finalized block)))
    else if ends_with key pending_key
    then pending_update value
    else if ends_with key segmented_key
    then (parsed value >>= λ block. ok (some (segmented block)))
    else if ends_with key grouped_key
    then (parsed value >>= λ block. ok (some (grouped block)))
    else ok none

-- `from_kv` once the key is decoded
unfoldable pub update_of :
    PointerJson → List ℕ → KeyValue → Result IngestionStateClientError (Option IngestionStateUpdate)
update_of json key kv =
    if ends_with key recent_key
    then (ok_or state_client_error (json.from_slice kv.value) >>= λ pointer.
        ok (some (recent pointer)))
    else (ok_or state_client_error (from_utf8 kv.value) >>= λ value. block_update key value)

unfoldable pub from_kv :
    PointerJson → KeyValue → Result IngestionStateClientError (Option IngestionStateUpdate)
from_kv json kv = do key ← ok_or state_client_error (from_utf8 kv.key); update_of json key kv

-- What `watch_changes` makes of the events of a response: one change or error for each that has one.
unfoldable pub changes :
    PointerJson
    → List (Option KeyValue)
    → List (Result IngestionStateClientError IngestionStateUpdate)
changes json [] = []
changes json (none ∷ events) = changes json events
changes json (some kv ∷ events) =
    let rest = changes json events in
    elim (from_kv json kv) [
      | ok none ↦ rest
      | ok (some update) ↦ ok update ∷ rest
      | err e ↦ err e ∷ rest
      | panic ↦ rest
    ]
