-- ===== src/Compaction/Recorded.antt =====
-- The builder of a group holds, for each index of each fragment, what its segments say of their blocks.
use starkstream_dna.Base.{
  ℕ, Bool, true, false, ◌==◌, if◌then◌else◌, List, [], ◌∷◌, ◌++◌, map, arith, as_u32, ◌≡◌, refl,
  sym, ap, ◌∙◌, ℕ_discrete,
}
use starkstream_dna.Base.Maps.{nat_ord, insert, lookup_or, lookup_or-insert, key_eq}
use starkstream_dna.Bitmaps.{Bitmaps}
use starkstream_dna.Index.Scalar.{ScalarValue}
use starkstream_dna.Index.Build.{BitmapIndexBuilder, insert_value}
use starkstream_dna.Index.Inserted.{Insertions, insert_values}
use starkstream_dna.Query.{Index, bitmap, empty, FragmentIndex}
use starkstream_dna.Compaction.{FragmentData, Segment, IndexGroupFragment}
use starkstream_dna.Compaction.Group.{
  FragmentBuilders, BlockIndexes, SegmentGroupBuilder, add_keys, add_index, add_indexes,
  add_fragments, add_blocks, add_segment,
}

-- The segments of a group, added in order.
unfoldable pub add_segments :
    (B : Bitmaps)
    → List (Segment IndexGroupFragment)
    → SegmentGroupBuilder B
    → SegmentGroupBuilder B
add_segments B [] builder = builder
add_segments B (segment ∷ segments) builder =
    add_segments B segments (add_segment B segment builder)

-- Each key of an index of a block, with the number of the block.
abbrev pub index_insertions : ℕ → Index → Insertions
index_insertions block empty = []
index_insertions block (bitmap index) = map (λ key. (key, block)) index.keys

-- What the blocks say of the index that has a number, in the fragment that has a number.
module _ (index_id : ℕ) where
  unfoldable pub indexes_insertions : ℕ → List FragmentIndex → Insertions
  indexes_insertions block [] = []
  indexes_insertions block (i ∷ is) =
      (if i.index_id == index_id then index_insertions block i.index else [])
      ++ indexes_insertions block is

module _ (fragment_id index_id : ℕ) where
  unfoldable pub fragments_insertions : ℕ → IndexGroupFragment → Insertions
  fragments_insertions block [] = []
  fragments_insertions block (f ∷ fs) =
      (if f.fragment_id == fragment_id then indexes_insertions index_id block f.indexes else [])
      ++ fragments_insertions block fs

  unfoldable pub blocks_insertions : List (FragmentData IndexGroupFragment) → Insertions
  blocks_insertions [] = []
  blocks_insertions (b ∷ blocks) =
      fragments_insertions (as_u32 b.cursor.number) b.content ++ blocks_insertions blocks

  unfoldable pub segments_insertions : List (Segment IndexGroupFragment) → Insertions
  segments_insertions [] = []
  segments_insertions (s ∷ segments) = blocks_insertions s.content ++ segments_insertions segments

module _ (B : Bitmaps) where
  insert_values-append :
      (ps qs : Insertions) (m : BitmapIndexBuilder B)
      → insert_values B (ps ++ qs) m ≡ insert_values B qs (insert_values B ps m)
  unfolding insert_values
  insert_values-append [] qs m = refl
  insert_values-append ((key, value) ∷ ps) qs m =
      insert_values-append ps qs (insert_value B key value m)

  -- A step that inserts when a test holds, after which other insertions follow.
  insert_values-if :
      (test : Bool) (ps qs : Insertions) (m : BitmapIndexBuilder B)
      → insert_values B qs (if test then insert_values B ps m else m)
        ≡ insert_values B ((if test then ps else []) ++ qs) m
  unfolding insert_values
  insert_values-if true ps qs m = rw (insert_values-append ps qs m)
  insert_values-if false ps qs m = refl

  add_keys-eq :
      (block : ℕ) (ks : List ScalarValue) (m : BitmapIndexBuilder B)
      → add_keys B block ks m ≡ insert_values B (map (λ key. (key, block)) ks) m
  unfolding add_keys insert_values
  add_keys-eq block [] m = refl
  add_keys-eq block (k ∷ ks) m = add_keys-eq block ks (insert_value B k block m)

  add_index-eq :
      (block : ℕ) (i : Index) (m : BitmapIndexBuilder B)
      → add_index B block i m ≡ insert_values B (index_insertions block i) m
  unfolding add_index insert_values
  add_index-eq block empty m = refl
  add_index-eq block (bitmap index) m = add_keys-eq block index.keys m

  -- A replaced entry, under the number that is looked for or not.
  lookup_or-entry {ℓ} :
      {V : Type ℓ} (id other : ℕ) (d v : V) (m : List (ℕ × V))
      → lookup_or id d (insert other v m) ≡ (if other == id then v else lookup_or id d m)
  lookup_or-entry id other d v m = lookup_or-insert id other d v m ∙ (elim (ℕ_discrete other id) [
    | yes same ↦
        let a : key_eq id other ≡ true = ground arith in
        let b : (other == id) ≡ true = ground arith in rw (a, b)
    | no different ↦
        let a : key_eq id other ≡ false = ground arith in
        let b : (other == id) ≡ false = ground arith in rw (a, b)
  ])

  same-entry {ℓ} :
      {V : Type ℓ} (id other : ℕ) (d : V) (f : V → V) (m : List (ℕ × V))
      → (if other == id then f (lookup_or other d m) else lookup_or id d m)
        ≡ (if other == id then f (lookup_or id d m) else lookup_or id d m)
  same-entry id other d f m = elim (ℕ_discrete other id) [
    | yes same ↦ rw same
    | no different ↦ let b : (other == id) ≡ false = ground arith in rw b
  ]

  add_indexes-eq :
      (index_id block : ℕ) (is : List FragmentIndex) (bs : FragmentBuilders B)
      → lookup_or index_id [] (add_indexes B block is bs)
        ≡ insert_values B (indexes_insertions index_id block is) (lookup_or index_id [] bs)
  unfolding add_indexes indexes_insertions insert_values
  add_indexes-eq index_id block [] bs = refl
  add_indexes-eq index_id block (i ∷ is) bs =
      add_indexes-eq index_id block is
        (insert i.index_id (add_index B block i.index (lookup_or i.index_id [] bs)) bs)
      ∙ ap (insert_values B (indexes_insertions index_id block is)) (
          lookup_or-entry index_id i.index_id []
            (add_index B block i.index (lookup_or i.index_id [] bs)) bs
          ∙ same-entry index_id i.index_id [] (add_index B block i.index) bs
          ∙ rw (add_index-eq block i.index (lookup_or index_id [] bs)))
      ∙ insert_values-if (i.index_id == index_id) (index_insertions block i.index)
          (indexes_insertions index_id block is) (lookup_or index_id [] bs)

  -- The builder of an index of a fragment.
  abbrev pub builder_of : ℕ → ℕ → BlockIndexes B → BitmapIndexBuilder B
  builder_of fragment_id index_id m = lookup_or index_id [] (lookup_or fragment_id [] m)

  if-lookup {ℓ κ} :
      {V : Type ℓ} {W : Type κ} (test : Bool) (f : V → W) (a b : V)
      → f (if test then a else b) ≡ (if test then f a else f b)
  if-lookup true f a b = refl
  if-lookup false f a b = refl

  module _ (fragment_id index_id : ℕ) where
    add_fragments-eq :
        (block : ℕ) (fs : IndexGroupFragment) (m : BlockIndexes B)
        → builder_of fragment_id index_id (add_fragments B block fs m)
          ≡ insert_values B
              (fragments_insertions fragment_id index_id block fs)
              (builder_of fragment_id index_id m)
    unfolding add_fragments fragments_insertions insert_values
    add_fragments-eq block [] m = refl
    add_fragments-eq block (f ∷ fs) m =
        let added = add_indexes B block f.indexes in
        let old = lookup_or fragment_id [] m in
        add_fragments-eq block fs (insert f.fragment_id (added (lookup_or f.fragment_id [] m)) m)
        ∙ ap
            (λ bs.
              insert_values B (fragments_insertions fragment_id index_id block fs)
                (lookup_or index_id [] bs))
            (lookup_or-entry fragment_id f.fragment_id [] (added (lookup_or f.fragment_id [] m)) m
              ∙ same-entry fragment_id f.fragment_id [] added m)
        ∙ ap (insert_values B (fragments_insertions fragment_id index_id block fs)) (
            if-lookup (f.fragment_id == fragment_id) (lookup_or index_id []) (added old) old
            ∙ rw (add_indexes-eq index_id block f.indexes old))
        ∙ insert_values-if (f.fragment_id == fragment_id)
            (indexes_insertions index_id block f.indexes)
            (fragments_insertions fragment_id index_id block fs) (builder_of fragment_id index_id m)

    add_blocks-eq :
        (blocks : List (FragmentData IndexGroupFragment)) (m : BlockIndexes B)
        → builder_of fragment_id index_id (add_blocks B blocks m)
          ≡ insert_values B
              (blocks_insertions fragment_id index_id blocks)
              (builder_of fragment_id index_id m)
    unfolding add_blocks blocks_insertions insert_values
    add_blocks-eq [] m = refl
    add_blocks-eq (b ∷ blocks) m =
        add_blocks-eq blocks (add_fragments B (as_u32 b.cursor.number) b.content m)
        ∙ ap (insert_values B (blocks_insertions fragment_id index_id blocks))
            (add_fragments-eq (as_u32 b.cursor.number) b.content m)
        ∙ sym (
            insert_values-append
              (fragments_insertions fragment_id index_id (as_u32 b.cursor.number) b.content)
              (blocks_insertions fragment_id index_id blocks) (builder_of fragment_id index_id m))

    pub add_segments-eq :
        (segments : List (Segment IndexGroupFragment)) (builder : SegmentGroupBuilder B)
        → builder_of fragment_id index_id (add_segments B segments builder).block_indexes
          ≡ insert_values B
              (segments_insertions fragment_id index_id segments)
              (builder_of fragment_id index_id builder.block_indexes)
    unfolding add_segments add_segment segments_insertions insert_values
    add_segments-eq [] builder = refl
    add_segments-eq (s ∷ segments) builder =
        add_segments-eq segments (add_segment B s builder)
        ∙ ap (insert_values B (segments_insertions fragment_id index_id segments))
            (add_blocks-eq s.content builder.block_indexes)
        ∙ sym (
            insert_values-append (blocks_insertions fragment_id index_id s.content)
              (segments_insertions fragment_id index_id segments)
              (builder_of fragment_id index_id builder.block_indexes))
