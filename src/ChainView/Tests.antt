-- ===== src/ChainView/Tests.antt =====
-- The theorems on the chain view at concrete inputs.
use starkstream_dna.Base.{
  ℕ, ◌+◌, ◌*◌, subst, leb, ◌≤◌, ◌≡◌, refl, none, some, List, [], ◌∷◌, ok, arith,
}
use starkstream_dna.Core.{new}
use starkstream_dna.Chain.{Building, building, CanonicalChainSegment}
use starkstream_dna.Chain.Builder.{current_segment, take_segment}
use starkstream_dna.Chain.Abstract.{IsValid}
use starkstream_dna.Chain.Current.{segment_of}
use starkstream_dna.ChainView.Full.{
  ChainStore, FullCanonicalChain, get_next_cursor, put_segment, set_recent,
}
use starkstream_dna.ChainView.Represents.{Represents, action, next_answer, get_next_cursor-answer}
use starkstream_dna.ChainView.Stream.{head_reached, streamed, blocks_from, streamed-chain}
use starkstream_dna.ChainView.Fresh.{chain_of, fresh-Represents}
use starkstream_dna.ChainView.Publish.{take-Represents}
use starkstream_dna.ChainView.View.{
  ChainView, get_segment_start_block, get_segment_end_block, get_group_start_block,
  get_group_end_block, get_blocks_in_group, piece_start, has_segment_for_block, set_segmented_block,
  set_finalized_block, set_recent_segment,
}
use starkstream_dna.ChainView.Sync.{Snapshots, sync_updates}
use starkstream_dna.ChainView.Synced.{Keeps, sync_updates-Keeps}
use starkstream_dna.Etcd.Memory.{Memory, memory}
use starkstream_dna.StateClient.{RecentSegmentPointer, PointerJson}
use starkstream_dna.StateClient.Update.{IngestionStateUpdate, finalized, recent}
use starkstream_dna.ChainView.Bounds.{Piece, segment-Piece, has_segment-segmented, segment-in-group}

-- Blocks 7, 8 and 9.
abbrev trio : Building
trio = record {
  previous_segment = none;
  info = record { first_block = new 7 (1 ∷ []); last_block = new 9 (3 ∷ []) };
  canonical = (1 ∷ []) ∷ (2 ∷ []) ∷ (3 ∷ []) ∷ [];
  reorgs = [];
}

trio-IsValid : IsValid trio
trio-IsValid = record { gapless = omega arith; bounded = omega arith; first = refl; last = refl }

-- A store without segments.
abbrev no_segments : ChainStore
no_segments = record { Error = Unit {0}; get = λ n. ok none }

abbrev fresh : FullCanonicalChain
fresh = record { starting_block = 7; chain_segment_size = 2; recent = segment_of trio }

fresh_chain : Represents no_segments fresh (chain_of trio)
unfolding current_segment
fresh_chain =
    let (s, e, r) = fresh-Represents no_segments 2 trio trio-IsValid (omega arith) in
    let same : s ≡ segment_of trio = cc in
    subst (λ s. Represents no_segments (record fresh { recent = s }) (chain_of trio)) same r

fresh-Represents_example :
    (recent : CanonicalChainSegment) × (current_segment (building trio) ≡ ok recent)
    × Represents no_segments
        (record { starting_block = 7; chain_segment_size = 2; recent = recent })
        (chain_of trio)
fresh-Represents_example = fresh-Represents no_segments 2 trio trio-IsValid (omega arith)

get_next_cursor-answer_example :
    get_next_cursor no_segments fresh (some (new 8 (2 ∷ [])))
    ≡ next_answer fresh (chain_of trio) 8 (action (chain_of trio) (new 8 (2 ∷ [])))
get_next_cursor-answer_example =
    get_next_cursor-answer no_segments fresh (chain_of trio) (new 8 (2 ∷ [])) fresh_chain
      (omega arith) (omega arith)

streamed-chain_example :
    streamed no_segments fresh 4 none ≡ ok (blocks_from (chain_of trio) 7 3, head_reached)
streamed-chain_example = streamed-chain no_segments fresh (chain_of trio) 2 fresh_chain refl

take-Represents_example :
    (segment : CanonicalChainSegment) × (c : Building) × (recent : CanonicalChainSegment)
    × (take_segment (building trio) 2 ≡ ok (segment, building c))
    × (current_segment (building c) ≡ ok recent)
    × (c.info.first_block.number ≡ 7 + (0 + 1) * 2)
    × Represents (put_segment no_segments segment) (set_recent fresh recent) (chain_of trio)
unfolding current_segment
take-Represents_example =
    take-Represents no_segments fresh (chain_of trio) trio 0 trio-IsValid refl fresh_chain
      (omega arith) (omega arith)

-- Segments of two blocks from block 7 on, in groups of three segments.
abbrev view : ChainView
view = record {
  finalized = 9;
  pending_generation = none;
  segmented = none;
  grouped = none;
  canonical = fresh;
  segment_size = 2;
  group_size = 3;
}

segment-Piece_example :
    (k : ℕ) × (first : ℕ) × (last : ℕ) × (get_segment_start_block view 12 ≡ ok first)
    × (get_segment_end_block view 12 ≡ ok last)
    × (first ≤ 12)
    × (12 ≤ last)
    × Piece view 2 k first last
segment-Piece_example = segment-Piece view 12 (omega arith) (omega arith) (omega arith)

has_segment-segmented_example :
    has_segment_for_block (set_segmented_block view 10) 12 ≡ ok (leb 12 10)
has_segment-segmented_example =
    has_segment-segmented view 12 1 9 10 (omega arith) (omega arith) (omega arith)
      (record { aligned = refl; full = refl })

segment-in-group_example : (k : ℕ) × Piece view 6 k 7 12 × (7 ≤ 9) × (10 ≤ 12)
unfolding get_segment_end_block get_segment_start_block get_group_start_block get_group_end_block
    get_blocks_in_group piece_start
segment-in-group_example =
    segment-in-group view 10 9 10 7 12 (omega arith) (omega arith) (omega arith) (omega arith) refl
      refl refl refl

-- A pointer to the segment of the trio, and one whose range is not that of the segment.
abbrev pointer : ℕ → RecentSegmentPointer
pointer last_block = record {
  key = 99 ∷ 97 ∷ 110 ∷ 111 ∷ 110 ∷ 47 ∷ 114 ∷ 101 ∷ 99 ∷ 101 ∷ 110 ∷ 116 ∷ 47 ∷ 97 ∷ [];
  version = 49 ∷ [];
  first_block = 7;
  last_block = last_block;
}

abbrev snapshots : Snapshots
snapshots = record {
  get_by_key = λ key version. ok (some (segment_of trio));
  get_legacy_recent = ok none;
}

abbrev no_json : PointerJson
no_json = record { to_vec = λ pointer. none; from_slice = λ bytes. none }

abbrev nothing_stored : Memory
nothing_stored = record { entries = []; revision = 0 }

-- The second pointer ends the stream, so the last update is not applied.
abbrev updates : List (Memory × IngestionStateUpdate)
updates =
    (nothing_stored, finalized 8)
    ∷ (nothing_stored, recent (pointer 9))
    ∷ (nothing_stored, recent (pointer 10))
    ∷ (nothing_stored, finalized 9)
    ∷ []

synced :
    sync_updates memory [] no_json snapshots updates view
    ≡ set_finalized_block (set_recent_segment view (segment_of trio)) 8
unfolding set_finalized_block sync_updates starkstream_dna.ChainView.Sync.apply_update
    starkstream_dna.ChainView.Sync.announced_recent
    starkstream_dna.ChainView.Sync.get_recent_snapshot
    starkstream_dna.ChainView.Sync.validate_recent_pointer
    starkstream_dna.StateClient.Update.starts_with starkstream_dna.ChainView.Sync.check_range
    starkstream_dna.ChainView.Sync.or_current starkstream_dna.ChainView.Sync.with_recent
    set_recent_segment
synced = refl

sync_updates-Keeps_example :
    Keeps snapshots view (sync_updates memory [] no_json snapshots updates view)
sync_updates-Keeps_example = sync_updates-Keeps memory [] no_json snapshots updates view
