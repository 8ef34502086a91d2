-- ===== src/Compaction/Segments.antt =====
-- common/src/compaction/segment_builder.rs: blocks are packed into a segment for each kind of fragment.
use starkstream_dna.Base.{
  ℕ, ◌==◌, length, Option, none, some, List, [], ◌∷◌, ◌++◌, Result, ok, err, ◌>>=◌, ◌>>◌, ensure,
  ok_or,
}
use starkstream_dna.Base.Maps.{nat_ord, BTreeMap, insert, lookup}
use starkstream_dna.Core.{Cursor}
use starkstream_dna.Compaction.{
  CompactionError, compaction_error, FragmentData, Segment, IndexGroupFragment,
}
use starkstream_dna.Compaction.Blocks.{HeaderFragment, BodyFragment, JoinGroupFragment, Block}

-- `rkyv::from_bytes` and `to_bytes`
pub record Archive : Type 0 where
  pub block_from_bytes : List ℕ → Option Block
  pub index_to_bytes : Segment IndexGroupFragment → Option (List ℕ)
  pub join_to_bytes : Segment JoinGroupFragment → Option (List ℕ)
  pub header_to_bytes : Segment HeaderFragment → Option (List ℕ)
  pub body_to_bytes : Segment BodyFragment → Option (List ℕ)

pub record SerializedSegment : Type 0 where
  pub name : List ℕ
  pub content : List ℕ

-- "index", "join" and "header"
abbrev pub index_fragment_name : List ℕ
index_fragment_name = 105 ∷ 110 ∷ 100 ∷ 101 ∷ 120 ∷ []

abbrev pub join_fragment_name : List ℕ
join_fragment_name = 106 ∷ 111 ∷ 105 ∷ 110 ∷ []

abbrev pub header_fragment_name : List ℕ
header_fragment_name = 104 ∷ 101 ∷ 97 ∷ 100 ∷ 101 ∷ 114 ∷ []

-- The fragments of a body under their number, each with its name. The hash map has no order of its
-- own; here it is the order of the numbers.
abbrev pub Body : Type 0
Body = BTreeMap ℕ (List ℕ × List (FragmentData BodyFragment))

pub record SegmentBuilder : Type 0 where
  pub expected_fragment_count : Option ℕ
  pub first_block : Option Cursor
  pub headers : List (FragmentData HeaderFragment)
  pub indexes : List (FragmentData IndexGroupFragment)
  pub joins : List (FragmentData JoinGroupFragment)
  pub body : Body

-- `default()`
abbrev pub new_segment_builder : SegmentBuilder
new_segment_builder = record {
  expected_fragment_count = none;
  first_block = none;
  headers = [];
  indexes = [];
  joins = [];
  body = [];
}

unfoldable pub start_new_segment : Cursor → SegmentBuilder → Result CompactionError SegmentBuilder
start_new_segment first_block b = elim b.first_block [
  | some _ ↦ err compaction_error
  | none ↦ ok (record b { first_block = some first_block })
]

unfoldable pub block_count : SegmentBuilder → ℕ
block_count b = length b.headers

-- The check of a block against the first block that was added.
unfoldable pub expected_count : Option ℕ → ℕ → Result CompactionError (Option ℕ)
expected_count none count = ok (some count)
expected_count (some expected) count = do
  ensure (count == expected) compaction_error
  ok (some expected)

-- The entry of a fragment with one more block.
abbrev pub push_entry :
    Cursor
    → BodyFragment
    → Option (List ℕ × List (FragmentData BodyFragment))
    → List ℕ × List (FragmentData BodyFragment)
push_entry cursor fragment none =
    (fragment.name, record { cursor = cursor; content = fragment } ∷ [])
push_entry cursor fragment (some (name, existing)) =
    (name, existing ++ record { cursor = cursor; content = fragment } ∷ [])

unfoldable pub push_fragment : Cursor → BodyFragment → Body → Body
push_fragment cursor fragment body =
    insert fragment.fragment_id (push_entry cursor fragment (lookup fragment.fragment_id body)) body

-- The loop over the fragments of a body.
unfoldable pub push_fragments : Cursor → List BodyFragment → Body → Body
push_fragments cursor [] body = body
push_fragments cursor (fragment ∷ fragments) body =
    push_fragments cursor fragments (push_fragment cursor fragment body)

unfoldable pub push_block : Cursor → Block → Option ℕ → SegmentBuilder → SegmentBuilder
push_block cursor block expected b = record b {
  expected_fragment_count = expected;
  indexes = b.indexes ++ record { cursor = cursor; content = block.index } ∷ [];
  joins = b.joins ++ record { cursor = cursor; content = block.join } ∷ [];
  headers = b.headers ++ record { cursor = cursor; content = block.header } ∷ [];
  body = push_fragments cursor block.body b.body;
}

module _ (archive : Archive) where
  unfoldable pub add_block :
      Cursor → List ℕ → SegmentBuilder → Result CompactionError SegmentBuilder
  add_block cursor bytes b = do
    block ← ok_or compaction_error (archive.block_from_bytes bytes)
    expected ← expected_count b.expected_fragment_count (length block.body)
    ok (push_block cursor block expected b)

  -- The last loop of `segment_data`.
  unfoldable pub body_segments : Cursor → ℕ → Body → Result CompactionError (List SerializedSegment)
  body_segments first_block count [] = ok []
  body_segments first_block count ((fragment_id, (name, fragments)) ∷ body) = do
    ensure (length fragments == count) compaction_error
    bytes ←
        ok_or compaction_error
          (archive.body_to_bytes (record { first_block = first_block; content = fragments }))
    segments ← body_segments first_block count body
    ok (record { name = name; content = bytes } ∷ segments)

  unfoldable pub serialized :
      Cursor → SegmentBuilder → Result CompactionError (List SerializedSegment)
  serialized first_block b = do
    ensure (length b.indexes == length b.headers) compaction_error
    ensure (length b.joins == length b.headers) compaction_error
    index ←
        ok_or compaction_error
          (archive.index_to_bytes (record { first_block = first_block; content = b.indexes }))
    join ←
        ok_or compaction_error
          (archive.join_to_bytes (record { first_block = first_block; content = b.joins }))
    header ←
        ok_or compaction_error
          (archive.header_to_bytes (record { first_block = first_block; content = b.headers }))
    segments ← body_segments first_block (length b.headers) b.body
    ok (
        record { name = index_fragment_name; content = index }
        ∷ record { name = join_fragment_name; content = join }
        ∷ record { name = header_fragment_name; content = header }
        ∷ segments)

  -- What is returned, and the builder afterwards: it is emptied also when the result is an error.
  unfoldable pub segment_data :
      SegmentBuilder → Result CompactionError (List SerializedSegment) × SegmentBuilder
  segment_data b = elim b.first_block [
    | none ↦ (err compaction_error, b)
    | some first_block ↦ (
      serialized first_block b,
      record b { first_block = none; headers = []; indexes = []; joins = []; body = [] },
    )
  ]
