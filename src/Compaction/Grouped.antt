-- ===== src/Compaction/Grouped.antt =====
-- Segments in, group out: what the index of the group answers.
use starkstream_dna.Base.{
  ℕ, false, Option, none, some, List, [], find, arith, ◌≡◌, refl, sym, ap, ◌∙◌, ◌==◌, Result, ok,
  subst,
}
use starkstream_dna.Base.Maps.{nat_ord, lookup, lookup_or, unwrap_or}
use starkstream_dna.Bitmaps.{Bitmaps, BitmapLaws}
use starkstream_dna.Index.Scalar.{ScalarValue}
use starkstream_dna.Index.Order.{scalar_ord}
use starkstream_dna.Index.Build.{BitmapIndexBuilder, IndexError, build_index, get_bitmap}
use starkstream_dna.Index.Inserted.{
  Insertions, has_insertion, insert_values, contains-insert_values, OfVariant, get_bitmap-inserted,
  rows,
}
use starkstream_dna.Query.{Index, bitmap, empty, FragmentIndex, IndexFragment}
use starkstream_dna.Compaction.{Segment, IndexGroupFragment, SegmentGroup}
use starkstream_dna.Compaction.Group.{
  BlockIndexes, FragmentBuilders, new_group_builder, build_group,
}
use starkstream_dna.Compaction.Recorded.{
  segments_insertions, add_segments, add_segments-eq, builder_of,
}
use starkstream_dna.Compaction.Answers.{any, segment_holds, has_insertion-segments, group_index}
use starkstream_dna.Compaction.Built.{
  BuiltIndex, BuiltFragment, build_indexes-BuiltIndex, build_group-BuiltFragment,
}

module _ (B : Bitmaps) where
  -- What an index answers for a value; without an index, nothing.
  unfoldable pub answer : ScalarValue → Option Index → Result IndexError (Option B.Bitmap)
  answer key none = ok none
  answer key (some empty) = ok none
  answer key (some (bitmap index)) = get_bitmap B index key

  -- The index of a group was built by the builder that the group builder held for it, if it held one.
  abbrev BuiltBy : Option (BitmapIndexBuilder B) → Option Index → Type 0
  BuiltBy none none = Unit
  BuiltBy none (some i) = ⊥
  BuiltBy (some m) none = ⊥
  BuiltBy (some m) (some empty) = ⊥
  BuiltBy (some m) (some (bitmap index)) = build_index B m ≡ ok index

  abbrev builder_at : ℕ → Option (FragmentBuilders B) → Option (BitmapIndexBuilder B)
  builder_at index_id none = none
  builder_at index_id (some bs) = lookup index_id bs

  BuiltIndex-BuiltBy :
      (m : Option (BitmapIndexBuilder B)) (i : Option FragmentIndex)
      → BuiltIndex B m i
      → BuiltBy m (elim i [ none ↦ none | some i ↦ some i.index ])
  BuiltIndex-BuiltBy none none b = tt
  BuiltIndex-BuiltBy none (some i) b = elim b [ ]
  BuiltIndex-BuiltBy (some m) none b = elim b [ ]
  BuiltIndex-BuiltBy (some m) (some i) (index, e, built) =
      subst (λ i. BuiltBy (some m) (some i)) (sym e) built

  BuiltFragment-BuiltBy :
      (index_id : ℕ) (bs : Option (FragmentBuilders B)) (f : Option IndexFragment)
      → BuiltFragment B bs f
      → BuiltBy (builder_at index_id bs) (elim f [
        | none ↦ none
        | some f ↦ elim (find (λ i. i.index_id == index_id) f.indexes) [
          | none ↦ none
          | some i ↦ some i.index
        ]
      ])
  BuiltFragment-BuiltBy index_id none none b = tt
  BuiltFragment-BuiltBy index_id none (some f) b = elim b [ ]
  BuiltFragment-BuiltBy index_id (some bs) none b = elim b [ ]
  BuiltFragment-BuiltBy index_id (some bs) (some f) b =
      BuiltIndex-BuiltBy (lookup index_id bs) (find (λ i. i.index_id == index_id) f.indexes)
        (build_indexes-BuiltIndex B index_id bs b)

  builder_of-at :
      (fragment_id index_id : ℕ) (m : BlockIndexes B)
      → builder_of B fragment_id index_id m
        ≡ unwrap_or [] (builder_at index_id (lookup fragment_id m))
  unfolding lookup_or
  builder_of-at fragment_id index_id m =
      elim (lookup fragment_id m)
        as (λ bs.
          unwrap_or [] (lookup index_id (unwrap_or [] bs))
          ≡ unwrap_or [] (builder_at index_id bs)) [ none ↦ refl | some bs ↦ refl ]

  -- What is answered by an index that is built, or not built, from a builder that holds insertions.
  answer-BuiltBy :
      (L : BitmapLaws B) (t : ℕ) (ps : Insertions) (key : ScalarValue)
      (m : Option (BitmapIndexBuilder B)) (i : Option Index)
      → OfVariant t ps
      → unwrap_or [] m ≡ insert_values B ps []
      → BuiltBy m i
      → (found : Option B.Bitmap) × (answer key i ≡ ok found)
        × ((n : ℕ) → B.contains n (unwrap_or B.nothing found) ≡ has_insertion key n ps)
  unfolding answer lookup
  answer-BuiltBy L t ps key none none o e b = (
    none,
    refl,
    λ n.
        let all = contains-insert_values B L ps key n [] in
        let empty_rows : B.contains n (rows B key []) ≡ false = L.contains-nothing n in
        let none_rows : B.contains n (rows B key (insert_values B ps [])) ≡ false =
          ap (λ m. B.contains n (rows B key m)) (sym e) ∙ empty_rows in
        ground (arith, all, empty_rows, none_rows, L.contains-nothing n),
  )
  answer-BuiltBy L t ps key none (some i) o e b = elim b [ ]
  answer-BuiltBy L t ps key (some m) none o e b = elim b [ ]
  answer-BuiltBy L t ps key (some m) (some empty) o e b = elim b [ ]
  answer-BuiltBy L t ps key (some m) (some (bitmap index)) o e b =
      get_bitmap-inserted B t ps key L o (subst (λ m. build_index B m ≡ ok index) e b)

-- When segments are added in order to a new builder and the group is built, and the keys that they
-- hold in an index of a fragment are of one variant, the index of the group answers for any value
-- with exactly the numbers, cut to 32 bits, of the blocks of the segments whose own index holds it;
-- where the group has no such index, no block holds the value.
pub build_group-answers :
    (B : Bitmaps) (segment_size fragment_id index_id t : ℕ) (key : ScalarValue)
    (segments : List (Segment IndexGroupFragment)) {group : SegmentGroup}
    → BitmapLaws B
    → OfVariant t (segments_insertions fragment_id index_id segments)
    → build_group B (add_segments B segments (new_group_builder B segment_size)) ≡ ok group
    → (found : Option B.Bitmap) × (answer B key (group_index fragment_id index_id group.index)
        ≡ ok found)
      × ((n : ℕ)
          → B.contains n (unwrap_or B.nothing found)
            ≡ any (segment_holds fragment_id index_id key n) segments)
unfolding new_group_builder lookup lookup_or
build_group-answers B segment_size fragment_id index_id t key segments {group} L o h =
    let builder = add_segments B segments (new_group_builder B segment_size) in
    let ps = segments_insertions fragment_id index_id segments in
    let m = builder_at B index_id (lookup fragment_id builder.block_indexes) in
    let built =
      BuiltFragment-BuiltBy B index_id (lookup fragment_id builder.block_indexes)
        (find (λ f. f.fragment_id == fragment_id) group.index)
        (build_group-BuiltFragment B fragment_id builder h) in
    let held : unwrap_or [] m ≡ insert_values B ps [] =
      sym (builder_of-at B fragment_id index_id builder.block_indexes)
      ∙ add_segments-eq B fragment_id index_id segments (new_group_builder B segment_size) in
    let (found, e, all) =
      answer-BuiltBy B L t ps key m (group_index fragment_id index_id group.index) o held built in
    (found, e, λ n. all n ∙ has_insertion-segments key n fragment_id index_id segments)
