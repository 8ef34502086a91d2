-- ===== src/ChainView/Sync.antt =====
-- common/src/chain_view/sync.rs and chain_store.rs: the view follows the state that ingestion and
-- compaction publish. The stream of updates is a list, each with the store at the time it arrives.
use starkstream_dna.Base.{
  ℕ, Bool, true, false, not, ◌&&◌, ◌==◌, leb, bytes_eq, if◌then◌else◌, Option, none, some, List, [],
  ◌∷◌, Result, ok, err, panic, ◌>>=◌, ◌>>◌, change_context, ensure,
}
use starkstream_dna.Chain.{CanonicalChainSegment}
use starkstream_dna.ChainView.Full.{ChainViewError, chain_view}
use starkstream_dna.ChainView.View.{
  ChainView, set_finalized_block, set_pending_generation, set_segmented_block, set_grouped_block,
  set_recent_segment,
}
use starkstream_dna.Etcd.{Etcd}
use starkstream_dna.StateClient.{RecentSegmentPointer, PointerJson, get_recent, get_legacy_ingested}
use starkstream_dna.StateClient.Update.{
  IngestionStateUpdate, starting_block, finalized, pending, segmented, grouped, recent, starts_with,
}

pub data ChainStoreError : Type 0 where
  chain_store_error : ChainStoreError

-- What the chain store asks of the object store: the segment under a key, at a version, and the
-- segment of the old layout.
pub record Snapshots : Type 0 where
  pub get_by_key : List ℕ → List ℕ → Result ChainStoreError (Option CanonicalChainSegment)
  pub get_legacy_recent : Result ChainStoreError (Option CanonicalChainSegment)

-- "canon/recent/"
abbrev pub expected_prefix : List ℕ
expected_prefix = 99 ∷ 97 ∷ 110 ∷ 111 ∷ 110 ∷ 47 ∷ 114 ∷ 101 ∷ 99 ∷ 101 ∷ 110 ∷ 116 ∷ 47 ∷ []

abbrev pub no_bytes : List ℕ → Bool
no_bytes [] = true
no_bytes (b ∷ bs) = false

unfoldable pub validate_recent_pointer : RecentSegmentPointer → Result ChainStoreError (Unit {0})
validate_recent_pointer pointer = do
  ensure (starts_with expected_prefix pointer.key) chain_store_error
  ensure (not (no_bytes pointer.version)) chain_store_error
  ensure (leb pointer.first_block pointer.last_block) chain_store_error

-- The segment must have the range that the pointer says.
unfoldable pub check_range :
    RecentSegmentPointer
    → Option CanonicalChainSegment
    → Result ChainStoreError (Option CanonicalChainSegment)
check_range pointer none = ok none
check_range pointer (some segment) =
    if segment.info.first_block.number == pointer.first_block
      && segment.info.last_block.number == pointer.last_block
    then ok (some segment)
    else err chain_store_error

unfoldable pub get_recent_snapshot :
    Snapshots → RecentSegmentPointer → Result ChainStoreError (Option CanonicalChainSegment)
get_recent_snapshot store pointer = do
  validate_recent_pointer pointer
  segment ← store.get_by_key pointer.key pointer.version
  check_range pointer segment

-- The view after a recent segment is announced; without a snapshot the update is skipped.
unfoldable pub with_recent : ChainView → Option CanonicalChainSegment → ChainView
with_recent v none = v
with_recent v (some segment) = set_recent_segment v segment

module _ (E : Etcd) (prefix : List ℕ) (json : PointerJson) (store : Snapshots) where
  -- `ChainViewSyncService::get_legacy_recent`
  unfoldable pub legacy_recent : E.State → Result ChainViewError (Option CanonicalChainSegment)
  legacy_recent s = do
    ingested ← change_context chain_view (get_legacy_ingested E prefix s)
    elim ingested [ none ↦ ok none | some _ ↦ change_context chain_view store.get_legacy_recent ]

  -- `ChainViewSyncService::get_recent`
  unfoldable pub published_recent : E.State → Result ChainViewError (Option CanonicalChainSegment)
  published_recent s = do
    pointer ← change_context chain_view (get_recent E prefix json s)
    elim pointer [
      | none ↦ legacy_recent s
      | some pointer ↦ change_context chain_view (get_recent_snapshot store pointer)
    ]

  -- Without a snapshot, the pointer is read again, and used when it is another one.
  unfoldable pub current_snapshot :
      E.State
      → RecentSegmentPointer
      → Option RecentSegmentPointer
      → Result ChainViewError (Option CanonicalChainSegment)
  current_snapshot s pointer none = ok none
  current_snapshot s pointer (some current) =
      if bytes_eq current.key pointer.key
      then ok none
      else change_context chain_view (get_recent_snapshot store current)

  unfoldable pub or_current :
      E.State
      → RecentSegmentPointer
      → Option CanonicalChainSegment
      → Result ChainViewError (Option CanonicalChainSegment)
  or_current s pointer (some segment) = ok (some segment)
  or_current s pointer none = do
    current ← change_context chain_view (get_recent E prefix json s)
    current_snapshot s pointer current

  unfoldable pub announced_recent :
      E.State → RecentSegmentPointer → Result ChainViewError (Option CanonicalChainSegment)
  announced_recent s pointer = do
    snapshot ← change_context chain_view (get_recent_snapshot store pointer)
    or_current s pointer snapshot

  unfoldable pub apply_update :
      E.State → IngestionStateUpdate → ChainView → Result ChainViewError ChainView
  apply_update s (starting_block block) v = ok v
  apply_update s (finalized block) v = ok (set_finalized_block v block)
  apply_update s (segmented block) v = ok (set_segmented_block v block)
  apply_update s (grouped block) v = ok (set_grouped_block v block)
  apply_update s (pending generation) v = ok (set_pending_generation v generation)
  apply_update s (recent pointer) v = do
    segment ← announced_recent s pointer
    ok (with_recent v segment)

  -- The updates of a stream until it ends or one fails, and the view that is left; the view is shared,
  -- so what was applied stays.
  unfoldable pub sync_updates : List (E.State × IngestionStateUpdate) → ChainView → ChainView
  sync_updates [] v = v
  sync_updates ((s, update) ∷ updates) v = elim (apply_update s update v) [
    | ok next ↦ sync_updates updates next
    | err e ↦ v
    | panic ↦ v
  ]
