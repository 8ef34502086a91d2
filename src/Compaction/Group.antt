-- ===== src/Compaction/Group.antt =====
-- common/src/compaction/group_builder.rs: the index of a group, from the indexes of its blocks.
use starkstream_dna.Base.{
  ℕ, Option, none, some, List, [], ◌∷◌, leb, if◌then◌else◌, add_u64, sub_u64, as_u32, Result, ok,
  ◌>>=◌, change_context, ok_or,
}
use starkstream_dna.Base.Maps.{nat_ord, BTreeMap, insert, lookup_or}
use starkstream_dna.Core.{Cursor}
use starkstream_dna.Bitmaps.{Bitmaps}
use starkstream_dna.Index.Scalar.{ScalarValue}
use starkstream_dna.Index.Build.{BitmapIndexBuilder, insert_value, build_index}
use starkstream_dna.Query.{Index, bitmap, empty, FragmentIndex, IndexFragment}
use starkstream_dna.Compaction.{
  CompactionError, compaction_error, FragmentData, Segment, IndexGroupFragment, SegmentGroup,
}

module _ (B : Bitmaps) where
  -- The indexes of a fragment, and of all fragments, under their numbers.
  abbrev pub FragmentBuilders : Type 0
  FragmentBuilders = BTreeMap ℕ (BitmapIndexBuilder B)

  abbrev pub BlockIndexes : Type 0
  BlockIndexes = BTreeMap ℕ FragmentBuilders

pub record SegmentGroupBuilder (B : Bitmaps) : Type 0 where
  pub segment_size : ℕ
  pub segment_count : ℕ
  pub block_range : Option (Cursor × ℕ)
  pub block_indexes : BlockIndexes B

module _ (B : Bitmaps) where
  unfoldable pub new_group_builder : ℕ → SegmentGroupBuilder B
  new_group_builder segment_size = record {
    segment_size = segment_size;
    segment_count = 0;
    block_range = none;
    block_indexes = [];
  }

  -- The block is recorded under each key of an index of one of its fragments.
  unfoldable pub add_keys : ℕ → List ScalarValue → BitmapIndexBuilder B → BitmapIndexBuilder B
  add_keys block_number [] builder = builder
  add_keys block_number (key ∷ keys) builder =
      add_keys block_number keys (insert_value B key block_number builder)

  unfoldable pub add_index : ℕ → Index → BitmapIndexBuilder B → BitmapIndexBuilder B
  add_index block_number (bitmap index) builder = add_keys block_number index.keys builder
  add_index block_number empty builder = builder

  -- The loops over the indexes of a fragment, the fragments of a block, and the blocks.
  unfoldable pub add_indexes : ℕ → List FragmentIndex → FragmentBuilders B → FragmentBuilders B
  add_indexes block_number [] builders = builders
  add_indexes block_number (index ∷ indexes) builders = add_indexes block_number indexes (
      insert index.index_id
        (add_index block_number index.index (lookup_or index.index_id [] builders)) builders)

  unfoldable pub add_fragments : ℕ → IndexGroupFragment → BlockIndexes B → BlockIndexes B
  add_fragments block_number [] block_indexes = block_indexes
  add_fragments block_number (fragment ∷ fragments) block_indexes =
      add_fragments block_number fragments (
        insert fragment.fragment_id
          (add_indexes block_number fragment.indexes
            (lookup_or fragment.fragment_id [] block_indexes))
          block_indexes)

  unfoldable pub add_blocks :
      List (FragmentData IndexGroupFragment) → BlockIndexes B → BlockIndexes B
  add_blocks [] block_indexes = block_indexes
  add_blocks (block ∷ blocks) block_indexes =
      add_blocks blocks (add_fragments (as_u32 block.cursor.number) block.content block_indexes)

  -- The range from the first block of the first segment to the end of the last one.
  unfoldable pub extended : Option (Cursor × ℕ) → Cursor → ℕ → Option (Cursor × ℕ)
  extended none segment_cursor segment_end = some (segment_cursor, segment_end)
  extended (some (first_block, _)) segment_cursor segment_end = some (first_block, segment_end)

  unfoldable pub add_segment :
      Segment IndexGroupFragment → SegmentGroupBuilder B → SegmentGroupBuilder B
  add_segment segment builder =
      let segment_end = sub_u64 (add_u64 segment.first_block.number builder.segment_size) 1 in
      record builder {
        block_range = extended builder.block_range segment.first_block segment_end;
        block_indexes = add_blocks segment.content builder.block_indexes;
        segment_count = add_u64 builder.segment_count 1;
      }

  -- `build`: the indexes of a fragment, in the order of their numbers.
  unfoldable pub build_indexes : FragmentBuilders B → Result CompactionError (List FragmentIndex)
  build_indexes [] = ok []
  build_indexes ((index_id, builder) ∷ builders) = do
    index ← change_context compaction_error (build_index B builder)
    indexes ← build_indexes builders
    ok (record { index_id = index_id; index = bitmap index } ∷ indexes)

  unfoldable pub build_fragments :
      ℕ → ℕ → BlockIndexes B → Result CompactionError IndexGroupFragment
  build_fragments range_start range_len [] = ok []
  build_fragments range_start range_len ((fragment_id, builders) ∷ rest) = do
    indexes ← build_indexes builders
    fragments ← build_fragments range_start range_len rest
    ok (
        record {
          fragment_id = fragment_id;
          range_start = range_start;
          range_len = range_len;
          indexes = indexes;
        }
        ∷ fragments)

-- `sort_by_key`, which is stable.
unfoldable pub insert_by_id : IndexFragment → IndexGroupFragment → IndexGroupFragment
insert_by_id fragment [] = fragment ∷ []
insert_by_id fragment (other ∷ fragments) =
    if leb fragment.fragment_id other.fragment_id
    then fragment ∷ other ∷ fragments
    else other ∷ insert_by_id fragment fragments

unfoldable pub sort_by_id : IndexGroupFragment → IndexGroupFragment
sort_by_id [] = []
sort_by_id (fragment ∷ fragments) = insert_by_id fragment (sort_by_id fragments)

module _ (B : Bitmaps) where
  unfoldable pub build_group : SegmentGroupBuilder B → Result CompactionError SegmentGroup
  build_group builder = do
    range ← ok_or compaction_error builder.block_range
    let (first_block, last_block) = range
    fragments ←
        build_fragments B (as_u32 first_block.number)
          (as_u32 (add_u64 (sub_u64 last_block first_block.number) 1)) builder.block_indexes
    ok (record { first_block = first_block; index = sort_by_id fragments })
