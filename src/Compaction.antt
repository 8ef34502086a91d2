-- ===== src/Compaction.antt =====
-- common/src/compaction: blocks are packed into segments, and segments are indexed in groups.
pub mod Group
pub mod Recorded
pub mod Answers
pub mod Built
pub mod Grouped
pub mod Prune
pub mod Pruned
pub mod PruneLoop
pub mod Blocks
pub mod Segments
pub mod Packed
pub mod Bodies
pub mod SegmentData
pub mod Restart
mod SegmentTests
mod Tests
use starkstream_dna.Base.{ℕ, List, Option}
use starkstream_dna.Core.{Cursor}
use starkstream_dna.Query.{IndexFragment}

pub data CompactionError : Type 0 where
  compaction_error : CompactionError

-- common/src/segment.rs: `FragmentData`
pub record FragmentData (T : Type 0) : Type 0 where
  pub cursor : Cursor
  pub content : T

-- `Segment`
pub record Segment (T : Type 0) : Type 0 where
  pub first_block : Cursor
  pub content : List (FragmentData T)

-- common/src/fragment.rs: `IndexGroupFragment`
abbrev pub IndexGroupFragment : Type 0
IndexGroupFragment = List IndexFragment

-- common/src/segment.rs: `SegmentGroup`
pub record SegmentGroup : Type 0 where
  pub first_block : Cursor
  pub index : IndexGroupFragment
