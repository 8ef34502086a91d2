-- ===== src/StateClient.antt =====
-- common/src/ingestion/state_client.rs: the progress of ingestion and compaction, in etcd.
pub mod Keys
pub mod Update
pub mod Raise
pub mod Stored
pub mod Rises
pub mod Loop
pub mod Watched
pub mod Tests
use starkstream_dna.Base.{
  ℕ, Option, none, some, List, [], ◌∷◌, Result, ok, err, panic, ◌>>=◌, change_context, ok_or,
}
use starkstream_dna.Base.Decimal.{from_utf8, parse_u64, to_string}
use starkstream_dna.Etcd.{KeyValue, Etcd, get_key, put_key, delete_key, put_and_delete}
use starkstream_dna.StateClient.Keys.{
  recent_key, legacy_ingested_key, pending_key, starting_block_key, finalized_key, segmented_key,
  grouped_key, pruned_key,
}

pub data IngestionStateClientError : Type 0 where
  state_client_error : IngestionStateClientError

-- common/src/chain_store.rs: `RecentSegmentPointer`
pub record RecentSegmentPointer : Type 0 where
  pub key : List ℕ
  pub version : List ℕ
  pub first_block : ℕ
  pub last_block : ℕ

-- `serde_json::to_vec` and `from_slice`
pub record PointerJson : Type 0 where
  pub to_vec : RecentSegmentPointer → Option (List ℕ)
  pub from_slice : List ℕ → Option RecentSegmentPointer

-- `String::from_utf8(value)` and `parse::<u64>`
unfoldable pub decode_block : List ℕ → Result IngestionStateClientError ℕ
decode_block bytes = do
  value ← ok_or state_client_error (from_utf8 bytes)
  ok_or state_client_error (parse_u64 value)

-- The block in the first entry of a response, if it has one.
unfoldable pub decode_first : Option KeyValue → Result IngestionStateClientError (Option ℕ)
decode_first none = ok none
decode_first (some kv) = do block ← decode_block kv.value; ok (some block)

module _ (E : Etcd) (prefix : List ℕ) where
  -- The body that the getters of a block share.
  unfoldable pub get_block : List ℕ → E.State → Result IngestionStateClientError (Option ℕ)
  get_block key s = do
    response ← change_context state_client_error (get_key E prefix key s)
    decode_first response

  -- The body that the unconditional setters of a block share.
  unfoldable pub put_block : List ℕ → ℕ → E.State → Result IngestionStateClientError E.State
  put_block key block s =
      change_context state_client_error (put_key E prefix key (to_string block) s)

  unfoldable pub get_starting_block : E.State → Result IngestionStateClientError (Option ℕ)
  get_starting_block s = get_block starting_block_key s

  unfoldable pub get_finalized : E.State → Result IngestionStateClientError (Option ℕ)
  get_finalized s = get_block finalized_key s

  unfoldable pub get_segmented : E.State → Result IngestionStateClientError (Option ℕ)
  get_segmented s = get_block segmented_key s

  unfoldable pub get_grouped : E.State → Result IngestionStateClientError (Option ℕ)
  get_grouped s = get_block grouped_key s

  unfoldable pub get_pruned : E.State → Result IngestionStateClientError (Option ℕ)
  get_pruned s = get_block pruned_key s

  unfoldable pub put_starting_block : ℕ → E.State → Result IngestionStateClientError E.State
  put_starting_block block s = put_block starting_block_key block s

  unfoldable pub put_finalized : ℕ → E.State → Result IngestionStateClientError E.State
  put_finalized block s = put_block finalized_key block s

  unfoldable pub put_pending : ℕ → E.State → Result IngestionStateClientError E.State
  put_pending block s = put_block pending_key block s

  unfoldable pub put_pruned : ℕ → E.State → Result IngestionStateClientError E.State
  put_pruned block s = put_block pruned_key block s

  unfoldable pub get_recent :
      PointerJson → E.State → Result IngestionStateClientError (Option RecentSegmentPointer)
  get_recent json s = do
    response ← change_context state_client_error (get_key E prefix recent_key s)
    elim response [
      | none ↦ ok none
      | some kv ↦ do
        pointer ← ok_or state_client_error (json.from_slice kv.value)
        ok (some pointer)
    ]

  -- The pointer is written and the pending block removed in one transaction.
  unfoldable pub put_recent :
      PointerJson → RecentSegmentPointer → E.State → Result IngestionStateClientError E.State
  put_recent json pointer s = do
    value ← ok_or state_client_error (json.to_vec pointer)
    change_context state_client_error (put_and_delete E prefix recent_key value pending_key s)

  unfoldable pub get_legacy_ingested : E.State → Result IngestionStateClientError (Option (List ℕ))
  get_legacy_ingested s = do
    response ← change_context state_client_error (get_key E prefix legacy_ingested_key s)
    elim response [
      | none ↦ ok none
      | some kv ↦ do value ← ok_or state_client_error (from_utf8 kv.value); ok (some value)
    ]

  unfoldable pub delete_legacy_ingested : E.State → Result IngestionStateClientError E.State
  delete_legacy_ingested s =
      change_context state_client_error (delete_key E prefix legacy_ingested_key s)
