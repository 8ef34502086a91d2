-- ===== src/ChainView/Full.antt =====
-- common/src/chain_view/full.rs: `FullCanonicalChain`, the recent segment and the stored ones.
use starkstream_dna.Base.{
  ℕ, ◌/◌, Bool, false, Option, none, some, List, [], ◌∷◌, ltb, leb, ◌==◌, if◌then◌else◌, add_u64,
  sub_u64, mul_u64, Result, ok, err, panic, ◌>>=◌, change_context, ok_or,
}
use starkstream_dna.Core.{Cursor, is_equivalent}
use starkstream_dna.Chain.{ReconnectAction, continue, offline_reorg, unknown, CanonicalChainSegment}
use starkstream_dna.Chain.Segment.{canonical, siblings, reconnect}

pub data CanonicalCursor : Type 0 where
  before_available : Cursor → CanonicalCursor
  after_available : Cursor → CanonicalCursor
  canonical_at : Cursor → CanonicalCursor

pub data ValidatedCursor : Type 0 where
  valid : Cursor → ValidatedCursor
  invalid : Cursor → List Cursor → ValidatedCursor

pub data NextCursor : Type 0 where
  continue_at : Cursor → Bool → NextCursor
  invalidate : Cursor → NextCursor
  at_head : NextCursor

pub data ChainViewError : Type 0 where
  chain_view : ChainViewError

-- What the chain view asks of the chain store: the stored segment that starts at a block number.
-- The store reads an object store behind a cache, so a call may fail.
pub record ChainStore : Type 1 where
  pub Error : Type 0
  pub get : ℕ → Result Error (Option CanonicalChainSegment)

pub record FullCanonicalChain : Type 0 where
  pub starting_block : ℕ
  pub chain_segment_size : ℕ
  pub recent : CanonicalChainSegment

-- A division by zero panics.
unfoldable pub chain_segment_start : ℕ → ℕ → ℕ → Result ChainViewError ℕ
chain_segment_start block_number starting_block chain_segment_size =
    if chain_segment_size == 0
    then panic
    else ok (
        add_u64
          (mul_u64 (sub_u64 block_number starting_block / chain_segment_size) chain_segment_size)
          starting_block)

-- `FullCanonicalChain::set_recent`
unfoldable pub set_recent : FullCanonicalChain → CanonicalChainSegment → FullCanonicalChain
set_recent f recent = record f { recent = recent }

module _ (store : ChainStore) where
  unfoldable pub get_chain_segment :
      FullCanonicalChain → ℕ → Result ChainViewError CanonicalChainSegment
  get_chain_segment f block_number =
      if leb f.recent.info.first_block.number block_number then ok f.recent else (do
        start ← chain_segment_start block_number f.starting_block f.chain_segment_size
        segment ← change_context chain_view (store.get start)
        ok_or chain_view segment)

  unfoldable pub get_canonical_impl : FullCanonicalChain → ℕ → Result ChainViewError Cursor
  get_canonical_impl f block_number = do
    segment ← get_chain_segment f block_number
    change_context chain_view (canonical segment block_number)

  -- What `get_next_cursor` does with the action for the cursor.
  unfoldable pub next_after :
      FullCanonicalChain → Cursor → ReconnectAction → Result ChainViewError NextCursor
  next_after f cursor continue =
      if cursor.number == f.recent.info.last_block.number then ok at_head else (do
        next_available ← get_canonical_impl f (add_u64 cursor.number 1)
        ok (continue_at next_available (next_available.number == f.recent.info.last_block.number)))
  next_after f cursor (offline_reorg target) = ok (invalidate target)
  next_after f cursor unknown = err chain_view

  unfoldable pub get_next_cursor :
      FullCanonicalChain → Option Cursor → Result ChainViewError NextCursor
  get_next_cursor f none = do
    first_available ← get_canonical_impl f f.starting_block
    ok (continue_at first_available false)
  get_next_cursor f (some cursor) = do
    segment ← get_chain_segment f cursor.number
    action ← change_context chain_view (reconnect segment cursor)
    next_after f cursor action

  -- The loop of `validate_cursor` over the siblings that are left; `all` is the whole list.
  unfoldable pub validate_siblings : Cursor → Cursor → List Cursor → List Cursor → ValidatedCursor
  validate_siblings cursor canonical all [] = invalid canonical all
  validate_siblings cursor canonical all (sibling ∷ rest) =
      if is_equivalent sibling cursor
      then valid sibling
      else validate_siblings cursor canonical all rest

  unfoldable pub validate_cursor :
      FullCanonicalChain → Cursor → Result ChainViewError ValidatedCursor
  validate_cursor f cursor = do
    segment ← get_chain_segment f cursor.number
    here ← change_context chain_view (canonical segment cursor.number)
    if is_equivalent here cursor then ok (valid here) else (do
      all ← change_context chain_view (siblings segment cursor)
      ok (validate_siblings cursor here all all))

  unfoldable pub get_canonical : FullCanonicalChain → ℕ → Result ChainViewError CanonicalCursor
  get_canonical f block_number =
      if ltb f.recent.info.last_block.number block_number
      then ok (after_available f.recent.info.last_block)
      else if ltb block_number f.starting_block
      then (do
        first_available ← get_canonical_impl f f.starting_block
        ok (before_available first_available))
      else (do cursor ← get_canonical_impl f block_number; ok (canonical_at cursor))

-- `FullCanonicalChain::get_head`
unfoldable pub get_head : FullCanonicalChain → Cursor
get_head f = f.recent.info.last_block

-- `ChainStore::put`, as later reads see it: the segment stands under the number at which it starts.
abbrev pub put_segment : ChainStore → CanonicalChainSegment → ChainStore
put_segment store segment = record {
  Error = store.Error;
  get = λ m. if m == segment.info.first_block.number then ok (some segment) else store.get m;
}
