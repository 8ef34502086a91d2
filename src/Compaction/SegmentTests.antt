-- ===== src/Compaction/SegmentTests.antt =====
-- A segment of two small blocks.
use starkstream_dna.Base.{
  ℕ, Option, none, some, List, [], ◌∷◌, ◌≡◌, ◌⊎◌, refl, Result, ok, err, panic, length,
}
use starkstream_dna.Core.{Cursor, new_finalized}
use starkstream_dna.Compaction.{CompactionError, compaction_error, FragmentData}
use starkstream_dna.Compaction.Blocks.{Block}
use starkstream_dna.Compaction.Segments.{
  Archive, SerializedSegment, SegmentBuilder, new_segment_builder, start_new_segment, push_block,
  add_block, segment_data,
}
use starkstream_dna.Compaction.Packed.{Blocks}
use starkstream_dna.Compaction.SegmentData.{add_all, Decoded, IsStarted, Packs}
use starkstream_dna.Compaction.Restart.{
  segment_data-Packs, segment_data-restarts, Refused, Added, add_block-Refused,
}

-- A block with one fragment, of number 2, named "a".
abbrev small_block : Block
small_block = record {
  header = record { content = 7 ∷ [] };
  index = [];
  join = [];
  body = record { fragment_id = 2; name = 97 ∷ []; content = [] } ∷ [];
}

-- Every text is this block; segments are written as the number of their entries.
abbrev small_archive : Archive
small_archive = record {
  block_from_bytes = λ bytes. some small_block;
  index_to_bytes = λ s. some (length s.content ∷ []);
  join_to_bytes = λ s. some (length s.content ∷ []);
  header_to_bytes = λ s. some (length s.content ∷ []);
  body_to_bytes = λ s. some (length s.content ∷ []);
}

abbrev inputs : List (Cursor × List ℕ)
inputs = (new_finalized 4, []) ∷ (new_finalized 5, []) ∷ []

abbrev started : SegmentBuilder
started = record new_segment_builder { first_block = some (new_finalized 4) }

start : start_new_segment (new_finalized 4) new_segment_builder ≡ ok started
unfolding start_new_segment
start = refl

abbrev filled : SegmentBuilder
filled = record {
  expected_fragment_count = some 1;
  first_block = some (new_finalized 4);
  headers =
      record { cursor = new_finalized 4; content = record { content = 7 ∷ [] } }
      ∷ record { cursor = new_finalized 5; content = record { content = 7 ∷ [] } }
      ∷ [];
  indexes =
      record { cursor = new_finalized 4; content = [] }
      ∷ record { cursor = new_finalized 5; content = [] }
      ∷ [];
  joins =
      record { cursor = new_finalized 4; content = [] }
      ∷ record { cursor = new_finalized 5; content = [] }
      ∷ [];
  body =
      ((
        2,
        (
          97 ∷ [],
          record {
            cursor = new_finalized 4;
            content = record { fragment_id = 2; name = 97 ∷ []; content = [] };
          }
              ∷ record {
                cursor = new_finalized 5;
                content = record { fragment_id = 2; name = 97 ∷ []; content = [] };
              }
              ∷ [],
        ),
      )
        ∷ []);
}

abbrev segments : List SerializedSegment
segments =
    record { name = 105 ∷ 110 ∷ 100 ∷ 101 ∷ 120 ∷ []; content = 2 ∷ [] }
    ∷ record { name = 106 ∷ 111 ∷ 105 ∷ 110 ∷ []; content = 2 ∷ [] }
    ∷ record { name = 104 ∷ 101 ∷ 97 ∷ 100 ∷ 101 ∷ 114 ∷ []; content = 2 ∷ [] }
    ∷ record { name = 97 ∷ []; content = 2 ∷ [] }
    ∷ []

added : add_all small_archive inputs started ≡ ok filled
unfolding add_all add_block starkstream_dna.Compaction.Segments.expected_count push_block
    starkstream_dna.Compaction.Segments.push_fragments
    starkstream_dna.Compaction.Segments.push_fragment starkstream_dna.Base.Maps.insert
    starkstream_dna.Base.Maps.lookup
added = refl

built : (segment_data small_archive filled).0 ≡ ok segments
unfolding segment_data starkstream_dna.Compaction.Segments.serialized
    starkstream_dna.Compaction.Segments.body_segments
built = refl

segment_data-Packs_example :
    (blocks : Blocks) × Decoded small_archive inputs blocks
    × Packs small_archive (new_finalized 4) blocks segments
segment_data-Packs_example =
    segment_data-Packs small_archive (new_finalized 4) inputs started {last = filled}
      {segments = segments}
      (record { first = refl; headers = refl; indexes = refl; joins = refl; body = refl }) added
      built

segment_data-restarts_example :
    (next : SegmentBuilder) × (start_new_segment
        (new_finalized 6)
        (segment_data small_archive filled).1
      ≡ ok next)
    × IsStarted (new_finalized 6) next
    × (next.expected_fragment_count ≡ some 1)
segment_data-restarts_example =
    segment_data-restarts small_archive (new_finalized 4) (new_finalized 6) filled refl

add_block-Refused_example :
    ((add_block small_archive (new_finalized 6) [] filled ≡ err compaction_error)
      × Refused small_archive [] filled)
    ⊎ ((block : Block) × (next : SegmentBuilder) × (small_archive.block_from_bytes [] ≡ some block)
        × (add_block small_archive (new_finalized 6) [] filled ≡ ok next)
        × Added (new_finalized 6) block filled next
        × ¬ Refused small_archive [] filled)
add_block-Refused_example = add_block-Refused small_archive (new_finalized 6) [] filled
