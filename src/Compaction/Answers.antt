-- ===== src/Compaction/Answers.antt =====
-- A group that was built answers, for a value, with the blocks whose own index holds it.
use starkstream_dna.Base.{
  ℕ, Bool, true, false, ◌&&◌, ◌||◌, ◌==◌, if◌then◌else◌, Option, none, some, List, [], ◌∷◌, ◌++◌,
  map, find, arith, as_u32, ◌≡◌, refl, ◌∙◌,
}
use starkstream_dna.Base.Maps.{nat_ord, key_eq}
use starkstream_dna.Index.Scalar.{ScalarValue}
use starkstream_dna.Index.Order.{scalar_ord}
use starkstream_dna.Index.Inserted.{Insertions, has_insertion}
use starkstream_dna.Query.{Index, bitmap, empty, FragmentIndex, IndexFragment}
use starkstream_dna.Compaction.{FragmentData, Segment, IndexGroupFragment}
use starkstream_dna.Compaction.Group.{insert_by_id, sort_by_id}
use starkstream_dna.Compaction.Recorded.{
  index_insertions, indexes_insertions, fragments_insertions, blocks_insertions,
  segments_insertions,
}

-- Whether a list has an element that passes a test.
unfoldable pub any {ℓ} : {A : Type ℓ} → (A → Bool) → List A → Bool
any p [] = false
any p (x ∷ xs) = p x || any p xs

-- Whether a block, by its own indexes, holds a value in an index of a fragment.
unfoldable pub holds : ScalarValue → Index → Bool
holds key empty = false
holds key (bitmap index) = any (key_eq key) index.keys

abbrev pub block_holds : ℕ → ℕ → ScalarValue → FragmentData IndexGroupFragment → Bool
block_holds fragment_id index_id key block =
    any
      (λ f.
        f.fragment_id == fragment_id
        && any (λ i. i.index_id == index_id && holds key i.index) f.indexes)
      block.content

-- Whether a segment has a block with this number, cut to 32 bits, that holds the value.
abbrev pub segment_holds : ℕ → ℕ → ScalarValue → ℕ → Segment IndexGroupFragment → Bool
segment_holds fragment_id index_id key n segment =
    any (λ b. as_u32 b.cursor.number == n && block_holds fragment_id index_id key b) segment.content

module _ (key : ScalarValue) (n : ℕ) where
  has_insertion-append :
      (ps qs : Insertions)
      → has_insertion key n (ps ++ qs) ≡ (has_insertion key n ps || has_insertion key n qs)
  unfolding has_insertion
  has_insertion-append [] qs = refl
  has_insertion-append ((k, j) ∷ ps) qs = ground (arith, has_insertion-append ps qs)

  has_insertion-if :
      (test : Bool) (ps qs : Insertions)
      → has_insertion key n ((if test then ps else []) ++ qs)
        ≡ (test && has_insertion key n ps || has_insertion key n qs)
  unfolding has_insertion
  has_insertion-if true ps qs = has_insertion-append ps qs
  has_insertion-if false ps qs = refl

  has_insertion-keys :
      (block : ℕ) (ks : List ScalarValue)
      → has_insertion key n (map (λ k. (k, block)) ks) ≡ (block == n && any (key_eq key) ks)
  unfolding has_insertion any
  has_insertion-keys block [] = ground arith
  has_insertion-keys block (k ∷ ks) = ground (arith, has_insertion-keys block ks)

  has_insertion-index :
      (block : ℕ) (i : Index)
      → has_insertion key n (index_insertions block i) ≡ (block == n && holds key i)
  unfolding has_insertion holds
  has_insertion-index block empty = ground arith
  has_insertion-index block (bitmap index) = has_insertion-keys block index.keys

  module _ (fragment_id index_id : ℕ) where
    has_insertion-indexes :
        (block : ℕ) (is : List FragmentIndex)
        → has_insertion key n (indexes_insertions index_id block is)
          ≡ (block == n && any (λ i. i.index_id == index_id && holds key i.index) is)
    unfolding has_insertion indexes_insertions any
    has_insertion-indexes block [] = ground arith
    has_insertion-indexes block (i ∷ is) =
        has_insertion-if (i.index_id == index_id) (index_insertions block i.index)
          (indexes_insertions index_id block is)
        ∙ rw (has_insertion-index block i.index, has_insertion-indexes block is) (ground arith)

    has_insertion-fragments :
        (block : ℕ) (fs : IndexGroupFragment)
        → has_insertion key n (fragments_insertions fragment_id index_id block fs) ≡ (
            block == n
            && any
                (λ f.
                  f.fragment_id == fragment_id
                  && any (λ i. i.index_id == index_id && holds key i.index) f.indexes)
                fs)
    unfolding has_insertion fragments_insertions any
    has_insertion-fragments block [] = ground arith
    has_insertion-fragments block (f ∷ fs) =
        has_insertion-if (f.fragment_id == fragment_id)
          (indexes_insertions index_id block f.indexes)
          (fragments_insertions fragment_id index_id block fs)
        ∙ rw (has_insertion-indexes block f.indexes, has_insertion-fragments block fs)
            (ground arith)

    has_insertion-blocks :
        (blocks : List (FragmentData IndexGroupFragment))
        → has_insertion key n (blocks_insertions fragment_id index_id blocks)
          ≡ any (λ b. as_u32 b.cursor.number == n && block_holds fragment_id index_id key b) blocks
    unfolding has_insertion blocks_insertions any
    has_insertion-blocks [] = refl
    has_insertion-blocks (b ∷ blocks) =
        has_insertion-append
          (fragments_insertions fragment_id index_id (as_u32 b.cursor.number) b.content)
          (blocks_insertions fragment_id index_id blocks)
        ∙ rw (
          has_insertion-fragments (as_u32 b.cursor.number) b.content,
          has_insertion-blocks blocks,
        )

    pub has_insertion-segments :
        (segments : List (Segment IndexGroupFragment))
        → has_insertion key n (segments_insertions fragment_id index_id segments)
          ≡ any (segment_holds fragment_id index_id key n) segments
    unfolding has_insertion segments_insertions any
    has_insertion-segments [] = refl
    has_insertion-segments (s ∷ segments) =
        has_insertion-append (blocks_insertions fragment_id index_id s.content)
          (segments_insertions fragment_id index_id segments)
        ∙ rw (has_insertion-blocks s.content, has_insertion-segments segments)

-- The index of a group that has a number, in the fragment that has a number.
abbrev pub group_index : ℕ → ℕ → IndexGroupFragment → Option Index
group_index fragment_id index_id fs = elim (find (λ f. f.fragment_id == fragment_id) fs) [
  | none ↦ none
  | some f ↦ elim (find (λ i. i.index_id == index_id) f.indexes) [
    | none ↦ none
    | some i ↦ some i.index
  ]
]

-- Sorting does not change which fragment is the first with a number.
find-insert_by_id :
    (fragment_id : ℕ) (f : IndexFragment) (fs : IndexGroupFragment)
    → find (λ f. f.fragment_id == fragment_id) (insert_by_id f fs)
      ≡ find (λ f. f.fragment_id == fragment_id) (f ∷ fs)
unfolding insert_by_id find
find-insert_by_id fragment_id f [] = refl
find-insert_by_id fragment_id f (g ∷ fs) = ground (arith, find-insert_by_id fragment_id f fs)

pub find-sort_by_id :
    (fragment_id : ℕ) (fs : IndexGroupFragment)
    → find (λ f. f.fragment_id == fragment_id) (sort_by_id fs)
      ≡ find (λ f. f.fragment_id == fragment_id) fs
unfolding sort_by_id find
find-sort_by_id fragment_id [] = refl
find-sort_by_id fragment_id (f ∷ fs) =
    find-insert_by_id fragment_id f (sort_by_id fs) ∙ rw (find-sort_by_id fragment_id fs)
