-- ===== src/Chain/Builder.antt =====
-- common/src/chain.rs: `CanonicalChainBuilder`. A method that changes the builder returns it anew.
use starkstream_dna.Base.{
  ℕ, suc, ◌+◌, ◌-◌, Bool, true, false, not, ◌&&◌, Option, none, some, List, [], ◌∷◌, ◌++◌, map, ltb,
  ◌==◌, if◌then◌else◌, bytes_eq, length, get_elem?, take, drop, filter, add_u64, sub_u64, Result,
  ok, err, ◌>>=◌, ◌>>◌, ensure, assert, or_panic,
}
use starkstream_dna.Base.Maps.{nat_ord, bytes_ord, BTreeMap, insert, remove, lookup_or}
use starkstream_dna.Core.{Hash, Cursor, new, is_zero}
use starkstream_dna.Chain.{
  BlockInfo, cursor, ReorgMap, CanonicalBlock, ExtraReorg, CanonicalChainSegmentInfo,
  CanonicalChainSegment, CanonicalChainError, builder, Building, CanonicalChainBuilder, empty,
  building,
}

-- The loop of `restore_from_segment`, from the block at `offset` on.
unfoldable pub restore_blocks :
    ℕ → ℕ → List CanonicalBlock → List Hash → BTreeMap ℕ ReorgMap → List Hash × BTreeMap ℕ ReorgMap
restore_blocks first offset [] canonical reorgs = (canonical, reorgs)
restore_blocks first offset (b ∷ bs) canonical reorgs =
    restore_blocks first (suc offset) bs (canonical ++ b.hash ∷ [])
      (insert (add_u64 first offset) b.reorgs reorgs)

unfoldable pub restore_from_segment :
    CanonicalChainSegment → Result CanonicalChainError CanonicalChainBuilder
restore_from_segment segment =
    let (canonical, reorgs) =
      restore_blocks segment.info.first_block.number 0 segment.canonical [] [] in
    ok (
      building (record {
        previous_segment = segment.previous_segment;
        info = segment.info;
        canonical = canonical;
        reorgs = reorgs;
      }))

unfoldable pub info : CanonicalChainBuilder → Option CanonicalChainSegmentInfo
info empty = none
info (building b) = some b.info

unfoldable pub segment_size : CanonicalChainBuilder → ℕ
segment_size empty = 0
segment_size (building b) = length b.canonical

unfoldable pub can_grow : CanonicalChainBuilder → BlockInfo → Bool
can_grow empty block = true
can_grow (building b) block =
    let last_block = b.info.last_block in
    if is_zero last_block.hash
    then true
    else add_u64 last_block.number 1 == block.number && bytes_eq last_block.hash block.parent

unfoldable pub grown_building : Building → BlockInfo → Building
grown_building b block = record b {
  info = record { first_block = b.info.first_block; last_block = cursor block };
  canonical = b.canonical ++ block.hash ∷ [];
}

abbrev pub initial_building : BlockInfo → Building
initial_building block = record {
  previous_segment = none;
  info = record { first_block = cursor block; last_block = cursor block };
  canonical = block.hash ∷ [];
  reorgs = [];
}

grown : CanonicalChainBuilder → BlockInfo → CanonicalChainBuilder
grown empty block = building (initial_building block)
grown (building b) block = building (grown_building b block)

unfoldable pub grow :
    CanonicalChainBuilder → BlockInfo → Result CanonicalChainError CanonicalChainBuilder
unfolding can_grow grown grown_building
grow b block = do ensure (can_grow b block) builder; ok (grown b block)

-- The loop of `shrink`, from the block at `index` on: what is removed, and the recorded reorgs.
unfoldable pub remove_blocks :
    Cursor
    → ℕ
    → ℕ
    → List Hash
    → List Cursor
    → BTreeMap ℕ ReorgMap
    → List Cursor × BTreeMap ℕ ReorgMap
remove_blocks new_head first index [] removed reorgs = (removed, reorgs)
remove_blocks new_head first index (hash ∷ rest) removed reorgs =
    let block_number = add_u64 first index in
    remove_blocks new_head first (suc index) rest (removed ++ new block_number hash ∷ [])
      (insert block_number (insert hash new_head (lookup_or block_number [] reorgs)) reorgs)

-- `shrink` past its checks, with the index of the new head.
unfoldable pub truncate :
    Building → Cursor → ℕ → Result CanonicalChainError (List Cursor × CanonicalChainBuilder)
unfolding remove_blocks
truncate b new_head new_head_index =
    let first = b.info.first_block in
    let kept = take (new_head_index + 1) b.canonical in
    let (removed, reorgs) =
      remove_blocks new_head first.number (new_head_index + 1)
        (drop (new_head_index + 1) b.canonical) [] b.reorgs in
    let after = building (record b {
      info = record { first_block = first; last_block = new_head };
      canonical = kept;
      reorgs = reorgs;
    }) in
    do assert (length kept == add_u64 (sub_u64 new_head.number first.number) 1); ok (removed, after)

-- `canonical[index] != hash`, where the index may lie outside.
abbrev pub holds_hash : List Hash → ℕ → Hash → Bool
holds_hash canonical index hash = elim (get_elem? canonical index) [
  | none ↦ false
  | some h ↦ bytes_eq h hash
]

shrink_building :
    Building → Cursor → Result CanonicalChainError (List Cursor × CanonicalChainBuilder)
shrink_building b new_head = do
  ensure (not (ltb new_head.number b.info.first_block.number)) builder
  ensure (not (ltb b.info.last_block.number new_head.number)) builder
  let new_head_index = sub_u64 new_head.number b.info.first_block.number
  ensure (holds_hash b.canonical new_head_index new_head.hash) builder
  if new_head_index == length b.canonical - 1
      then ok ([], building b)
      else truncate b new_head new_head_index

unfoldable pub shrink :
    CanonicalChainBuilder
    → Cursor
    → Result CanonicalChainError (List Cursor × CanonicalChainBuilder)
unfolding shrink_building
shrink empty new_head = err builder
shrink (building b) new_head = shrink_building b new_head

-- The loop of `current_segment`, from the block at `offset` on.
unfoldable pub segment_blocks : ℕ → ℕ → BTreeMap ℕ ReorgMap → List Hash → List CanonicalBlock
segment_blocks first offset reorgs [] = []
segment_blocks first offset reorgs (hash ∷ rest) =
    record { hash = hash; reorgs = lookup_or (add_u64 first offset) [] reorgs }
    ∷ segment_blocks first (suc offset) reorgs rest

abbrev pub extra_reorg : ℕ × ReorgMap → ExtraReorg
extra_reorg (block_number, reorgs) = record { block_number = block_number; reorgs = reorgs }

unfoldable pub extra_reorgs_after : ℕ → BTreeMap ℕ ReorgMap → List ExtraReorg
extra_reorgs_after last reorgs = map extra_reorg (filter (λ e. ltb last e.0) reorgs)

unfoldable pub current_segment :
    CanonicalChainBuilder → Result CanonicalChainError CanonicalChainSegment
current_segment empty = err builder
current_segment (building b) = ok (record {
  previous_segment = b.previous_segment;
  info = b.info;
  canonical = segment_blocks b.info.first_block.number 0 b.reorgs b.canonical;
  extra_reorgs = extra_reorgs_after b.info.last_block.number b.reorgs;
})

-- The loop of `take_segment`: as `segment_blocks`, but the reorgs leave the builder.
unfoldable pub drain_blocks :
    ℕ → ℕ → BTreeMap ℕ ReorgMap → List Hash → List CanonicalBlock × BTreeMap ℕ ReorgMap
drain_blocks first offset reorgs [] = ([], reorgs)
drain_blocks first offset reorgs (hash ∷ rest) =
    let number = add_u64 first offset in
    let (blocks, left) = drain_blocks first (suc offset) (remove number reorgs) rest in
    (record { hash = hash; reorgs = lookup_or number [] reorgs } ∷ blocks, left)

take_building :
    Building → ℕ → Result CanonicalChainError (CanonicalChainSegment × CanonicalChainBuilder)
take_building b size = do
  let first = b.info.first_block
  ensure (not (ltb (sub_u64 b.info.last_block.number first.number) size)) builder
  last_hash ← or_panic (get_elem? b.canonical (sub_u64 size 1))
  let segment_info : CanonicalChainSegmentInfo = record {
    first_block = first;
    last_block = new (sub_u64 (add_u64 first.number size) 1) last_hash;
  }
  let (blocks, reorgs) = drain_blocks first.number 0 b.reorgs (take size b.canonical)
  first_hash ← or_panic (get_elem? (drop size b.canonical) 0)
  ok (
    record {
      previous_segment = b.previous_segment;
      info = segment_info;
      canonical = blocks;
      extra_reorgs = [];
    },
    building (record {
      previous_segment = some segment_info;
      info = record {
        first_block = new (add_u64 first.number size) first_hash;
        last_block = b.info.last_block;
      };
      canonical = drop size b.canonical;
      reorgs = reorgs;
    }),
  )

unfoldable pub take_segment :
    CanonicalChainBuilder
    → ℕ
    → Result CanonicalChainError (CanonicalChainSegment × CanonicalChainBuilder)
unfolding take_building
take_segment empty size = err builder
take_segment (building b) size = take_building b size
