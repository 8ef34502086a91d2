-- ===== src/ChainView/View.antt =====
-- common/src/chain_view/view.rs: `ChainView`, which adds to the chain how far its blocks are
-- finalized, segmented and grouped. The lock and the notifications are left out: a method is a
-- function of the state that it reads, and a setter returns the new state.
use starkstream_dna.Base.{
  ℕ, ◌/◌, Bool, false, Option, none, some, leb, ◌==◌, if◌then◌else◌, add_u64, sub_u64, mul_u64,
  Result, ok, panic, ◌>>=◌,
}
use starkstream_dna.Core.{Cursor, new_finalized}
use starkstream_dna.Chain.{CanonicalChainSegment}
use starkstream_dna.ChainView.Full.{
  ChainStore, FullCanonicalChain, ChainViewError, CanonicalCursor, canonical_at, before_available,
  after_available, get_canonical, set_recent,
}

pub record ChainView : Type 0 where
  pub finalized : ℕ
  pub pending_generation : Option ℕ
  pub segmented : Option ℕ
  pub grouped : Option ℕ
  pub canonical : FullCanonicalChain
  pub segment_size : ℕ
  pub group_size : ℕ

unfoldable pub new_view : ℕ → Option ℕ → Option ℕ → ℕ → ℕ → FullCanonicalChain → ChainView
new_view finalized segmented grouped segment_size group_size canonical = record {
  finalized = finalized;
  pending_generation = none;
  segmented = segmented;
  grouped = grouped;
  canonical = canonical;
  segment_size = segment_size;
  group_size = group_size;
}

-- The start of the piece of `size` blocks that holds a block; a division by zero panics.
unfoldable pub piece_start : ChainView → ℕ → ℕ → Result ChainViewError ℕ
piece_start v size block =
    if size == 0
    then panic
    else ok (
        add_u64 v.canonical.starting_block
          (mul_u64 (sub_u64 block v.canonical.starting_block / size) size))

unfoldable pub get_segment_start_block : ChainView → ℕ → Result ChainViewError ℕ
get_segment_start_block v block = piece_start v v.segment_size block

unfoldable pub get_segment_end_block : ChainView → ℕ → Result ChainViewError ℕ
get_segment_end_block v block = do
  start ← get_segment_start_block v block
  ok (sub_u64 (add_u64 start v.segment_size) 1)

unfoldable pub get_blocks_in_group : ChainView → ℕ
get_blocks_in_group v = mul_u64 v.group_size v.segment_size

unfoldable pub get_group_start_block : ChainView → ℕ → Result ChainViewError ℕ
get_group_start_block v block = piece_start v (get_blocks_in_group v) block

unfoldable pub get_group_end_block : ChainView → ℕ → Result ChainViewError ℕ
get_group_end_block v block = do
  start ← get_group_start_block v block
  ok (sub_u64 (add_u64 start (get_blocks_in_group v)) 1)

unfoldable pub has_segment_for_block : ChainView → ℕ → Result ChainViewError Bool
has_segment_for_block v block = elim v.segmented [
  | none ↦ ok false
  | some segmented ↦ do end ← get_segment_end_block v block; ok (leb end segmented)
]

unfoldable pub has_group_for_block : ChainView → ℕ → Result ChainViewError Bool
has_group_for_block v block = elim v.grouped [
  | none ↦ ok false
  | some grouped ↦ do end ← get_group_end_block v block; ok (leb end grouped)
]

unfoldable pub set_finalized_block : ChainView → ℕ → ChainView
set_finalized_block v block = record v { finalized = block }

unfoldable pub set_pending_generation : ChainView → Option ℕ → ChainView
set_pending_generation v generation = record v { pending_generation = generation }

unfoldable pub set_segmented_block : ChainView → ℕ → ChainView
set_segmented_block v block = record v { segmented = some block }

unfoldable pub set_grouped_block : ChainView → ℕ → ChainView
set_grouped_block v block = record v { grouped = some block }

unfoldable pub set_recent_segment : ChainView → CanonicalChainSegment → ChainView
set_recent_segment v recent = record v { canonical = set_recent v.canonical recent }

-- `Ok(cursor)` for a canonical block, else the finalized cursor of the number.
unfoldable pub known_or_finalized : ℕ → CanonicalCursor → Cursor
known_or_finalized number (canonical_at cursor) = cursor
known_or_finalized number (before_available cursor) = new_finalized number
known_or_finalized number (after_available cursor) = new_finalized number

module _ (store : ChainStore) where
  unfoldable pub cursor_at : ChainView → ℕ → Result ChainViewError Cursor
  cursor_at v number = do
    found ← get_canonical store v.canonical number
    ok (known_or_finalized number found)

  unfoldable pub get_starting_cursor : ChainView → Result ChainViewError Cursor
  get_starting_cursor v = cursor_at v v.canonical.starting_block

  unfoldable pub get_finalized_cursor : ChainView → Result ChainViewError Cursor
  get_finalized_cursor v = cursor_at v v.finalized

  unfoldable pub optional_cursor : ChainView → Option ℕ → Result ChainViewError (Option Cursor)
  optional_cursor v none = ok none
  optional_cursor v (some number) = do cursor ← cursor_at v number; ok (some cursor)

  unfoldable pub get_segmented_cursor : ChainView → Result ChainViewError (Option Cursor)
  get_segmented_cursor v = optional_cursor v v.segmented

  unfoldable pub get_grouped_cursor : ChainView → Result ChainViewError (Option Cursor)
  get_grouped_cursor v = optional_cursor v v.grouped
