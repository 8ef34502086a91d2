-- ===== src/Compaction/Prune.antt =====
-- common/src/compaction/prune.rs: the blocks up to the grouped one are deleted.
use starkstream_dna.Base.{
  ℕ, zero, suc, add_u64, sub_u64, ltb, Bool, if◌then◌else◌, Option, none, some, List, [], ◌∷◌, ◌++◌,
  Result, ok, ◌>>=◌, change_context,
}
use starkstream_dna.Etcd.{Etcd}
use starkstream_dna.StateClient.{get_grouped, get_pruned, put_pruned}
use starkstream_dna.Core.{Cursor}
use starkstream_dna.Compaction.{CompactionError, compaction_error}

pub data BlockStoreError : Type 0 where
  block_store_error : BlockStoreError

-- The block store that the loop deletes from, and the chain view's answer for the starting block.
pub record BlockStore : Type 1 where
  pub Store : Type 0
  pub delete_block_with_prefix : ℕ → Store → Result BlockStoreError Store

-- The state of a service that is stepped: the store, the state client's, and the numbers of the blocks
-- whose deletion the store accepted, in the order of the calls.
pub record Pruning (E : Etcd) (S : BlockStore) : Type 0 where
  pub etcd : E.State
  pub store : S.Store
  pub deleted : List ℕ

-- How a loop leaves, each time with the block that comes next: it goes on, or it was cancelled.
pub data Left (E : Etcd) (S : BlockStore) : Type 0 where
  ran : ℕ → Pruning E S → Left E S
  cancelled : ℕ → Pruning E S → Left E S

module _ {E : Etcd} (prefix : List ℕ) {S : BlockStore} where
  unfoldable pub delete_block : ℕ → Pruning E S → Result CompactionError (Pruning E S)
  delete_block block p = do
    store ← change_context compaction_error (S.delete_block_with_prefix block p.store)
    ok (record p { store = store; deleted = p.deleted ++ block ∷ [] })

  unfoldable pub update_pruned : ℕ → Pruning E S → Result CompactionError (Pruning E S)
  update_pruned block p = do
    etcd ← change_context compaction_error (put_pruned E prefix block p.etcd)
    ok (record p { etcd = etcd })

  -- `ct` says, for a block, whether the service is cancelled when the loop is about to delete it.
  module _ (ct : ℕ → Bool) (grouped : ℕ) where
    -- The inner loop, for as many blocks as a segment has.
    unfoldable pub prune_segment : ℕ → ℕ → Pruning E S → Result CompactionError (Left E S)
    prune_segment zero current p = ok (ran current p)
    prune_segment (suc more) current p =
        if ct current
        then ok (cancelled current p)
        else if ltb grouped current
        then ok (ran current p)
        else (delete_block current p >>= prune_segment more (add_u64 current 1))

    -- The outer loop, on fuel; `none` when it would go on.
    unfoldable pub prune_from : ℕ → ℕ → ℕ → Pruning E S → Result CompactionError (Option (Left E S))
    prune_from segment_size zero current p = ok none
    prune_from segment_size (suc fuel) current p =
        if ltb current grouped
        then (prune_segment segment_size current p >>= λ left. elim left [
          | cancelled next p ↦ ok (some (cancelled next p))
          | ran next p ↦ update_pruned (sub_u64 next 1) p >>= prune_from segment_size fuel next
        ])
        else ok (some (ran current p))

  -- The block to start from: the pruned one, else the first one of the chain.
  unfoldable pub starting_block :
      Result CompactionError Cursor → Pruning E S → Result CompactionError ℕ
  starting_block genesis p = do
    pruned ← change_context compaction_error (get_pruned E prefix p.etcd)
    elim pruned [ some block ↦ ok block | none ↦ genesis >>= λ cursor. ok cursor.number ]

  -- `genesis` is the answer of `chain_view.get_starting_cursor()`.
  unfoldable pub prune_loop :
      (ct : ℕ → Bool)
      → ℕ
      → ℕ
      → Result CompactionError Cursor
      → Pruning E S
      → Result CompactionError (Option (Left E S))
  prune_loop ct segment_size fuel genesis p = do
    found ← change_context compaction_error (get_grouped E prefix p.etcd)
    elim found [
      | none ↦ ok (some (ran 0 p))
      | some grouped ↦
          starting_block genesis p >>= λ start. prune_from ct grouped segment_size fuel start p
    ]
