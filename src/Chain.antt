-- ===== src/Chain.antt =====
-- common/src/chain.rs: the data of a canonical chain segment and of its builder.
pub mod Builder
pub mod Segment
pub mod Abstract
pub mod Grow
pub mod Shrink
pub mod Current
pub mod Resolve
pub mod History
pub mod Settle
pub mod Restore
pub mod Take
mod Tests
use starkstream_dna.Base.{ℕ, Option, none, some, List, ◌==◌, if◌then◌else◌, sub_u64}
use starkstream_dna.Base.Maps.{BTreeMap}
use starkstream_dna.Core.{Hash, Cursor, new}

pub record BlockInfo : Type 0 where
  pub number : ℕ
  pub hash : Hash
  pub parent : Hash

pub record PendingBlockInfo : Type 0 where
  pub number : ℕ
  pub generation : ℕ
  pub parent : Hash

-- `BlockInfo::cursor`
abbrev pub cursor : BlockInfo → Cursor
cursor b = new b.number b.hash

parent_at : ℕ → Hash → Option Cursor
parent_at number parent = if number == 0 then none else some (new (sub_u64 number 1) parent)

pub parent_cursor : BlockInfo → Option Cursor
unfolding parent_at
parent_cursor b = parent_at b.number b.parent

pub pending_parent_cursor : PendingBlockInfo → Option Cursor
unfolding parent_at
pending_parent_cursor b = parent_at b.number b.parent

pub data ReconnectAction : Type 0 where
  continue : ReconnectAction
  offline_reorg : Cursor → ReconnectAction
  unknown : ReconnectAction

-- From the hash of a block that was reorged to the new head of that reorg.
abbrev pub ReorgMap : Type 0
ReorgMap = BTreeMap Hash Cursor

pub record CanonicalBlock : Type 0 where
  pub hash : Hash
  pub reorgs : ReorgMap

pub record ExtraReorg : Type 0 where
  pub block_number : ℕ
  pub reorgs : ReorgMap

pub record CanonicalChainSegmentInfo : Type 0 where
  pub first_block : Cursor
  pub last_block : Cursor

pub record CanonicalChainSegment : Type 0 where
  pub previous_segment : Option CanonicalChainSegmentInfo
  pub info : CanonicalChainSegmentInfo
  pub canonical : List CanonicalBlock
  pub extra_reorgs : List ExtraReorg

pub data CanonicalChainError : Type 0 where
  builder view : CanonicalChainError

-- The fields of `CanonicalChainBuilder::Building`.
pub record Building : Type 0 where
  pub previous_segment : Option CanonicalChainSegmentInfo
  pub info : CanonicalChainSegmentInfo
  pub canonical : List Hash
  pub reorgs : BTreeMap ℕ ReorgMap

pub data CanonicalChainBuilder : Type 0 where
  empty : CanonicalChainBuilder
  building : Building → CanonicalChainBuilder
