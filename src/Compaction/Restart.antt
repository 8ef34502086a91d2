-- ===== src/Compaction/Restart.antt =====
-- A segment from its start to its bytes, and again; and which blocks are refused.
use starkstream_dna.Base.{
  ℕ, ◌==◌, true, false, ℕ_discrete, Option, Option-cases, inl, inr, ◌⊎◌, none, some, List, [], ◌∷◌,
  ◌++◌, length, ◌≡◌, ◌≢◌, refl, sym, ap, ◌∙◌, subst, arith, ok, err,
}
use starkstream_dna.Base.Maps.{nat_ord, lookup}
use starkstream_dna.Base.Orders.{IsSorted}
use starkstream_dna.Core.{Cursor}
use starkstream_dna.Compaction.{compaction_error}
use starkstream_dna.Compaction.Blocks.{Block}
use starkstream_dna.Compaction.Segments.{
  Archive, SerializedSegment, SegmentBuilder, start_new_segment, expected_count, push_block,
  add_block, serialized, segment_data,
}
use starkstream_dna.Compaction.Packed.{
  Blocks, fragments_with, Holds, Named, fragments_of, numbered, push_fragments-fragments,
}
use starkstream_dna.Compaction.SegmentData.{
  add_all, Decoded, IsStarted, add_all-Holds, Packs, serialized-Packs,
}

IsStarted-Holds : (first_block : Cursor) (b : SegmentBuilder) → IsStarted first_block b → Holds b []
unfolding fragments_with lookup
IsStarted-Holds first_block b s = record {
  headers = s.headers;
  indexes = s.indexes;
  joins = s.joins;
  body = λ id. rw s.body;
  named = λ id. subst (λ m. Named (lookup id m)) (sym s.body) tt;
  sorted = subst (IsSorted nat_ord) (sym s.body) tt;
}

pub segment_data-Packs :
    (archive : Archive) (first_block : Cursor) (inputs : List (Cursor × List ℕ))
    (b : SegmentBuilder) {last : SegmentBuilder} {segments : List SerializedSegment}
    → IsStarted first_block b
    → add_all archive inputs b ≡ ok last
    → (segment_data archive last).0 ≡ ok segments
    → (blocks : Blocks) × Decoded archive inputs blocks × Packs archive first_block blocks segments
unfolding segment_data serialized
segment_data-Packs archive first_block inputs b {last} {segments} started added built =
    let (blocks, decoded, holds, same) =
      add_all-Holds archive inputs b [] (IsStarted-Holds first_block b started) added in
    (
      blocks,
      decoded,
      serialized-Packs archive first_block last blocks holds (rw (same ∙ started.first) at built),
    )

-- After the data of a segment was built, or failed to be built, the builder is as if it had just been
-- made, but for the number of fragments that it expects: the next segment starts, and it starts empty.
pub segment_data-restarts :
    (archive : Archive) (first_block next_block : Cursor) (b : SegmentBuilder)
    → b.first_block ≡ some first_block
    → (next : SegmentBuilder) × (start_new_segment next_block (segment_data archive b).1 ≡ ok next)
      × IsStarted next_block next
      × (next.expected_fragment_count ≡ b.expected_fragment_count)
unfolding segment_data start_new_segment
segment_data-restarts archive first_block next_block b started = (
  record {
    expected_fragment_count = b.expected_fragment_count;
    first_block = some next_block;
    headers = [];
    indexes = [];
    joins = [];
    body = [];
  },
  rw started,
  record { first = refl; headers = refl; indexes = refl; joins = refl; body = refl },
  refl,
)

-- Why a block is refused: its bytes are not a block, or it has another number of fragments than the
-- first block had.
abbrev pub Refused : Archive → List ℕ → SegmentBuilder → Type 0
Refused archive bytes b =
    (archive.block_from_bytes bytes ≡ none)
    ⊎ ((block : Block) × (expected : ℕ) × (archive.block_from_bytes bytes ≡ some block)
        × (b.expected_fragment_count ≡ some expected)
        × (length block.body ≢ expected))

none-not-some : {A : Type 0} {a : A} → ¬ (◌≡◌ {A = Option A} none (some a))
none-not-some e = cc

some-injective : {A : Type 0} {a b : A} → ◌≡◌ {A = Option A} (some a) (some b) → a ≡ b
some-injective e = cc

first-not-Refused :
    (archive : Archive) (bytes : List ℕ) (b : SegmentBuilder) {block : Block}
    → archive.block_from_bytes bytes ≡ some block
    → b.expected_fragment_count ≡ none
    → ¬ Refused archive bytes b
first-not-Refused archive bytes b read first refused = elim refused [
  | inl broken ↦ none-not-some (sym broken ∙ read)
  | inr (_, expected, _, known, _) ↦ none-not-some (sym first ∙ known)
]

same-not-Refused :
    (archive : Archive) (bytes : List ℕ) (b : SegmentBuilder) {block : Block} {expected : ℕ}
    → archive.block_from_bytes bytes ≡ some block
    → b.expected_fragment_count ≡ some expected
    → length block.body ≡ expected
    → ¬ Refused archive bytes b
same-not-Refused archive bytes b {block} {expected} read known same refused = elim refused [
  | inl broken ↦ none-not-some (sym broken ∙ read)
  | inr (other, count, read_other, known_other, differs) ↦
      let blocks : other ≡ block = some-injective (sym read_other ∙ read) in
      let counts : count ≡ expected = some-injective (sym known_other ∙ known) in
      differs (ap (λ (b : Block). length b.body) blocks ∙ same ∙ sym counts)
]

-- What a builder is after a block was added: its parts are behind those of the blocks before, under
-- the block's cursor, each fragment behind those with its number, and the number of its fragments is
-- the one expected from then on.
pub record Added (cursor : Cursor) (block : Block) (b next : SegmentBuilder) : Type 0 where
  pub expected : next.expected_fragment_count ≡ some (length block.body)
  pub first : next.first_block ≡ b.first_block
  pub headers : next.headers ≡ b.headers ++ record { cursor = cursor; content = block.header } ∷ []
  pub indexes : next.indexes ≡ b.indexes ++ record { cursor = cursor; content = block.index } ∷ []
  pub joins : next.joins ≡ b.joins ++ record { cursor = cursor; content = block.join } ∷ []
  pub body :
      (id : ℕ)
      → fragments_of (lookup id next.body)
        ≡ fragments_of (lookup id b.body) ++ numbered id cursor block.body

push_block-Added :
    (cursor : Cursor) (block : Block) (b : SegmentBuilder)
    → Added cursor block b (push_block cursor block (some (length block.body)) b)
unfolding push_block
push_block-Added cursor block b = record {
  expected = refl;
  first = refl;
  headers = refl;
  indexes = refl;
  joins = refl;
  body = λ id. push_fragments-fragments id cursor block.body b.body;
}

-- A block is refused with an error exactly when its bytes do not decode or its number of fragments is
-- not the one expected; every other block is added: its parts are behind those of the blocks before,
-- and its number of fragments is expected from then on.
pub add_block-Refused :
    (archive : Archive) (cursor : Cursor) (bytes : List ℕ) (b : SegmentBuilder)
    → ((add_block archive cursor bytes b ≡ err compaction_error) × Refused archive bytes b)
      ⊎ ((block : Block) × (next : SegmentBuilder) × (archive.block_from_bytes bytes ≡ some block)
          × (add_block archive cursor bytes b ≡ ok next)
          × Added cursor block b next
          × ¬ Refused archive bytes b)
unfolding add_block expected_count push_block
add_block-Refused archive cursor bytes b = elim (Option-cases (archive.block_from_bytes bytes)) [
  | inl broken ↦ inl (rw broken, inl broken)
  | inr (block, read) ↦ elim (Option-cases b.expected_fragment_count) [
    | inl first ↦ inr (
      block,
      push_block cursor block (some (length block.body)) b,
      read,
      rw (read, first),
      push_block-Added cursor block b,
      first-not-Refused archive bytes b read first,
    )
    | inr (expected, known) ↦ elim (ℕ_discrete (length block.body) expected) [
      | yes same ↦
          let test : (length block.body == expected) ≡ true = ground arith in
          inr (
            block,
            push_block cursor block (some (length block.body)) b,
            read,
            rw (read, known, test) (ap (λ n. ok (push_block cursor block (some n) b)) (sym same)),
            push_block-Added cursor block b,
            same-not-Refused archive bytes b read known same,
          )
      | no other ↦
          let test : (length block.body == expected) ≡ false = ground arith in
          inl (rw (read, known, test), inr (block, expected, read, known, other))
    ]
  ]
]
