-- ===== src/StateClient/Raise.antt =====
-- common/src/ingestion/state_client.rs: a block number that only rises.
use starkstream_dna.Base.{
  ℕ, leb, if◌then◌else◌, Option, none, some, List, [], ◌∷◌, Result, ok, ◌>>=◌, change_context,
}
use starkstream_dna.Base.Decimal.{to_string}
use starkstream_dna.Etcd.{KeyValue, Etcd, get_key, put_if_mod_revision}
use starkstream_dna.StateClient.Keys.{segmented_key, grouped_key}
use starkstream_dna.StateClient.{IngestionStateClientError, state_client_error, decode_block}

-- What the loop does with the stored value: the revision to write at, or nothing to write.
unfoldable pub revision_to_write : ℕ → Option KeyValue → Result IngestionStateClientError (Option ℕ)
revision_to_write block none = ok (some 0)
revision_to_write block (some kv) = do
  current ← decode_block kv.value
  ok (if leb block current then none else some kv.mod_revision)

module _ (E : Etcd) where
  -- The end of one turn of the loop: returned, or read again.
  pub data Turn : Type 0 where
    returned : E.State → Turn
    again : E.State → Turn

  -- What the other writers did to the store between the read and the write of a turn.
  abbrev pub Others : Type 0
  Others = E.State → E.State

  module _ (prefix : List ℕ) where
    unfoldable pub write_turn :
        List ℕ → ℕ → E.State → Option ℕ → Others → Result IngestionStateClientError Turn
    write_turn key block s none others = ok (returned s)
    write_turn key block s (some mod_revision) others = do
      response ←
          change_context state_client_error
            (put_if_mod_revision E prefix key (to_string block) mod_revision (others s))
      ok (if response.0 then returned response.1 else again response.1)

    unfoldable pub turn : List ℕ → ℕ → Others → E.State → Result IngestionStateClientError Turn
    turn key block others s = do
      response ← change_context state_client_error (get_key E prefix key s)
      revision ← revision_to_write block response
      write_turn key block s revision others

    -- The loop, for as many turns as the list has; `none` when it would go on.
    unfoldable pub put_if_higher :
        List Others → List ℕ → ℕ → E.State → Result IngestionStateClientError (Option E.State)
    put_if_higher [] key block s = ok none
    put_if_higher (others ∷ more) key block s = do
      end ← turn key block others s
      elim end [ returned next ↦ ok (some next) | again next ↦ put_if_higher more key block next ]

    unfoldable pub put_segmented :
        List Others → ℕ → E.State → Result IngestionStateClientError (Option E.State)
    put_segmented others block s = put_if_higher others segmented_key block s

    unfoldable pub put_grouped :
        List Others → ℕ → E.State → Result IngestionStateClientError (Option E.State)
    put_grouped others block s = put_if_higher others grouped_key block s
