-- ===== src/Compaction/Tests.antt =====
-- A small group, and a short prune loop.
use starkstream_dna.Base.{
  ℕ, suc, ◌-◌, ◌<◌, ◌≤◌, u64_mod, Bool, true, false, Option, none, some, List, [], ◌∷◌, ◌≡◌, ◌≢◌,
  refl, arith, Result, ok, err, panic,
}
use starkstream_dna.Base.Maps.{unwrap_or}
use starkstream_dna.Core.{new_finalized}
use starkstream_dna.Bitmaps.Lists.{list_bitmaps, list_bitmaps-BitmapLaws}
use starkstream_dna.Index.Scalar.{uint8}
use starkstream_dna.Index.Build.{BitmapIndex}
use starkstream_dna.Query.{bitmap, IndexFragment}
use starkstream_dna.Etcd.Memory.{memory}
use starkstream_dna.StateClient.{get_grouped}
use starkstream_dna.StateClient.Keys.{grouped_key, pruned_key}
use starkstream_dna.Compaction.{
  CompactionError, FragmentData, Segment, IndexGroupFragment, SegmentGroup,
}
use starkstream_dna.Compaction.Group.{new_group_builder, build_group}
use starkstream_dna.Compaction.Recorded.{add_segments}
use starkstream_dna.Compaction.Answers.{any, segment_holds, group_index}
use starkstream_dna.Compaction.Grouped.{answer, build_group-answers}
use starkstream_dna.Compaction.Prune.{BlockStore, Pruning, Left, ran, starting_block, prune_loop}
use starkstream_dna.Compaction.Pruned.{Pruned}
use starkstream_dna.Compaction.PruneLoop.{prune_loop-Pruned, prune_loop-ends}

-- The index of fragment 2 of a block whose events have the value 7 or 9.
abbrev index_of : ℕ → List IndexFragment
index_of key =
    record {
      fragment_id = 2;
      range_start = 0;
      range_len = 4;
      indexes =
          record {
            index_id = 0;
            index = bitmap (record { keys = uint8 key ∷ []; values = (0 ∷ []) ∷ [] });
          }
          ∷ [];
    }
    ∷ []

-- A segment of two blocks, of which block 11 holds the value 9.
abbrev segment : Segment IndexGroupFragment
segment = record {
  first_block = new_finalized 10;
  content =
      record { cursor = new_finalized 10; content = index_of 7 }
      ∷ record { cursor = new_finalized 11; content = index_of 9 }
      ∷ [];
}

abbrev group : SegmentGroup
group = record {
  first_block = new_finalized 10;
  index =
      record {
        fragment_id = 2;
        range_start = 10;
        range_len = 2;
        indexes =
            record {
              index_id = 0;
              index =
                  bitmap
                    (record { keys = uint8 7 ∷ uint8 9 ∷ []; values = (10 ∷ []) ∷ (11 ∷ []) ∷ [] });
            }
            ∷ [];
      }
      ∷ [];
}

group_built :
    build_group list_bitmaps
      (add_segments list_bitmaps (segment ∷ []) (new_group_builder list_bitmaps 2))
    ≡ ok group
unfolding build_group add_segments starkstream_dna.Compaction.Group.add_segment
    starkstream_dna.Compaction.Group.extended new_group_builder
    starkstream_dna.Compaction.Group.build_fragments starkstream_dna.Compaction.Group.add_blocks
    starkstream_dna.Compaction.Group.add_fragments starkstream_dna.Compaction.Group.build_indexes
    starkstream_dna.Compaction.Group.add_indexes starkstream_dna.Compaction.Group.add_index
    starkstream_dna.Compaction.Group.add_keys starkstream_dna.Compaction.Group.insert_by_id
    starkstream_dna.Compaction.Group.sort_by_id starkstream_dna.Base.Maps.insert
    starkstream_dna.Base.Maps.lookup_or starkstream_dna.Base.Maps.lookup
    starkstream_dna.Index.Build.build_index starkstream_dna.Index.Build.build_from
    starkstream_dna.Index.Build.insert_value starkstream_dna.Index.Scalar.cmp_derived
    starkstream_dna.Index.Scalar.payload starkstream_dna.Index.Scalar.variant
    starkstream_dna.Base.compare_bytes
group_built = refl

build_group-answers_example :
    (found : Option (List ℕ)) × (answer list_bitmaps (uint8 9) (group_index 2 0 group.index)
      ≡ ok found)
    × ((n : ℕ)
        → list_bitmaps.contains n (unwrap_or [] found)
          ≡ any (segment_holds 2 0 (uint8 9) n) (segment ∷ []))
unfolding starkstream_dna.Compaction.Recorded.segments_insertions
    starkstream_dna.Compaction.Recorded.blocks_insertions
    starkstream_dna.Compaction.Recorded.fragments_insertions
    starkstream_dna.Compaction.Recorded.indexes_insertions starkstream_dna.Index.Scalar.variant
build_group-answers_example =
    build_group-answers list_bitmaps 2 2 0 3 (uint8 9) (segment ∷ []) {group = group}
      list_bitmaps-BitmapLaws (refl, (refl, tt)) group_built

-- A store that keeps no blocks, and a state in which block 3 is the grouped one and none was pruned.
abbrev bare_store : BlockStore
bare_store = record { Store = Unit; delete_block_with_prefix = λ block store. ok store }

abbrev before : Pruning memory bare_store
before = record {
  etcd = record {
    entries = ((100 ∷ 110 ∷ 97 ∷ 47 ∷ grouped_key, (51 ∷ [], 0)) ∷ []);
    revision = 1;
  };
  store = tt;
  deleted = [];
}

abbrev dna : List ℕ
dna = 100 ∷ 110 ∷ 97 ∷ 47 ∷ []

grouped_three : get_grouped memory dna before.etcd ≡ ok (some 3)
unfolding get_grouped starkstream_dna.StateClient.get_block starkstream_dna.Etcd.get_key
    starkstream_dna.StateClient.decode_first starkstream_dna.Base.Maps.lookup
    starkstream_dna.Base.compare_bytes starkstream_dna.Etcd.format_key
    starkstream_dna.StateClient.decode_block starkstream_dna.Base.Decimal.from_utf8
    starkstream_dna.Base.Decimal.utf8_step starkstream_dna.Base.Decimal.parse_u64
    starkstream_dna.Base.Decimal.parse_digits starkstream_dna.Base.Decimal.push_digit
grouped_three = refl

from_one : starting_block dna (ok (new_finalized 1)) before ≡ ok 1
unfolding starting_block starkstream_dna.StateClient.get_pruned
    starkstream_dna.StateClient.get_block starkstream_dna.Etcd.get_key
    starkstream_dna.StateClient.decode_first starkstream_dna.Base.Maps.lookup
    starkstream_dna.Base.compare_bytes starkstream_dna.Etcd.format_key
from_one = refl

prune_loop-ends_example :
    prune_loop dna (λ block. false) 2 3 (ok (new_finalized 1)) before ≢ ok none
prune_loop-ends_example =
    prune_loop-ends memory dna bare_store (λ block. false) 2 3 3 1 (ok (new_finalized 1)) before
      (omega arith) grouped_three from_one (omega arith) (omega arith)

abbrev after : Pruning memory bare_store
after = record {
  etcd = record {
    entries =
        ((100 ∷ 110 ∷ 97 ∷ 47 ∷ pruned_key, (50 ∷ [], 1))
          ∷ (100 ∷ 110 ∷ 97 ∷ 47 ∷ grouped_key, (51 ∷ [], 0))
          ∷ []);
    revision = 2;
  };
  store = tt;
  deleted = 1 ∷ 2 ∷ [];
}

pruned : prune_loop dna (λ block. false) 2 3 (ok (new_finalized 1)) before ≡ ok (some (ran 3 after))
unfolding prune_loop starkstream_dna.Compaction.Prune.prune_from
    starkstream_dna.Compaction.Prune.prune_segment starkstream_dna.Compaction.Prune.delete_block
    starkstream_dna.Compaction.Prune.update_pruned starting_block get_grouped
    starkstream_dna.StateClient.get_pruned starkstream_dna.StateClient.put_pruned
    starkstream_dna.StateClient.get_block starkstream_dna.StateClient.put_block
    starkstream_dna.StateClient.decode_first starkstream_dna.StateClient.decode_block
    starkstream_dna.Etcd.get_key starkstream_dna.Etcd.put_key starkstream_dna.Etcd.format_key
    starkstream_dna.Base.Decimal.from_utf8 starkstream_dna.Base.Decimal.utf8_from
    starkstream_dna.Base.Decimal.utf8_step starkstream_dna.Base.Decimal.parse_u64
    starkstream_dna.Base.Decimal.parse_digits starkstream_dna.Base.Decimal.push_digit
    starkstream_dna.Base.Decimal.to_string starkstream_dna.Base.Decimal.digits
    starkstream_dna.Base.Maps.insert starkstream_dna.Base.Maps.lookup
    starkstream_dna.Base.compare_bytes
pruned = refl

prune_loop-Pruned_example : Pruned {S = bare_store} 3 1 before (ran 3 after)
prune_loop-Pruned_example =
    prune_loop-Pruned memory dna bare_store (λ block. false) 2 3 3 1 (ok (new_finalized 1)) before
      {left = ran 3 after} (omega arith) grouped_three from_one (omega arith) pruned
