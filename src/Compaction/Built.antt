-- ===== src/Compaction/Built.antt =====
-- What the indexes of a group that was built are built from.
use starkstream_dna.Base.{
  ℕ, true, false, ◌==◌, if◌then◌else◌, ℕ_discrete, Option, none, some, List, [], ◌∷◌, find, arith,
  ◌≡◌, refl, sym, ok, >>=-eq-ok, ok-injective, change_context, change_context-eq-ok, ok_or, subst,
  add_u64, sub_u64, as_u32,
}
use starkstream_dna.Base.Maps.{nat_ord, lookup, key_eq}
use starkstream_dna.Bitmaps.{Bitmaps}
use starkstream_dna.Index.Build.{BitmapIndexBuilder, BitmapIndex, build_index}
use starkstream_dna.Query.{bitmap, FragmentIndex, IndexFragment}
use starkstream_dna.Compaction.{compaction_error, IndexGroupFragment, SegmentGroup}
use starkstream_dna.Compaction.Group.{
  FragmentBuilders, BlockIndexes, SegmentGroupBuilder, build_indexes, build_fragments, build_group,
}
use starkstream_dna.Compaction.Answers.{find-sort_by_id}

module _ (B : Bitmaps) where
  -- An index that a builder gives; without a builder there is none.
  abbrev pub BuiltIndex : Option (BitmapIndexBuilder B) → Option FragmentIndex → Type 0
  BuiltIndex none none = Unit
  BuiltIndex none (some i) = ⊥
  BuiltIndex (some m) none = ⊥
  BuiltIndex (some m) (some i) =
      (index : BitmapIndex) × (i.index ≡ bitmap index) × (build_index B m ≡ ok index)

  abbrev pub BuiltFragment : Option (FragmentBuilders B) → Option IndexFragment → Type 0
  BuiltFragment none none = Unit
  BuiltFragment none (some f) = ⊥
  BuiltFragment (some bs) none = ⊥
  BuiltFragment (some bs) (some f) = build_indexes B bs ≡ ok f.indexes

  -- The test of the search and the test of the map.
  same_test : (id other : ℕ) → key_eq id other ≡ (other == id)
  same_test id other = elim (ℕ_discrete other id) [
    | yes same ↦ ground arith
    | no different ↦ ground arith
  ]

  pub build_indexes-BuiltIndex :
      (id : ℕ) (bs : FragmentBuilders B) {is : List FragmentIndex}
      → build_indexes B bs ≡ ok is
      → BuiltIndex (lookup id bs) (find (λ i. i.index_id == id) is)
  unfolding build_indexes lookup find
  build_indexes-BuiltIndex id [] h =
      subst (λ is. BuiltIndex none (find (λ i. i.index_id == id) is)) (ok-injective h) tt
  build_indexes-BuiltIndex id ((other, m) ∷ bs) h =
      let (index, made, h1) = >>=-eq-ok (change_context compaction_error (build_index B m)) _ h in
      let (rest, built, h2) = >>=-eq-ok (build_indexes B bs) _ h1 in
      subst (λ is. BuiltIndex (lookup id ((other, m) ∷ bs)) (find (λ i. i.index_id == id) is))
        (ok-injective h2)
        (subst
          (λ test. BuiltIndex (if test then some m else lookup id bs) (
            if other == id
            then some (record { index_id = other; index = bitmap index })
            else find (λ i. i.index_id == id) rest))
          (sym (same_test id other))
          (elim (other == id)
            as (λ test. BuiltIndex (if test then some m else lookup id bs) (
              if test
              then some (record { index_id = other; index = bitmap index })
              else find (λ i. i.index_id == id) rest)) [
                | true ↦ (index, refl, change_context-eq-ok compaction_error (build_index B m) made)
                | false ↦ build_indexes-BuiltIndex id bs built
              ]))

  build_fragments-BuiltFragment :
      (id range_start range_len : ℕ) (m : BlockIndexes B) {fs : IndexGroupFragment}
      → build_fragments B range_start range_len m ≡ ok fs
      → BuiltFragment (lookup id m) (find (λ f. f.fragment_id == id) fs)
  unfolding build_fragments lookup find
  build_fragments-BuiltFragment id range_start range_len [] h =
      subst (λ fs. BuiltFragment none (find (λ f. f.fragment_id == id) fs)) (ok-injective h) tt
  build_fragments-BuiltFragment id range_start range_len ((other, bs) ∷ m) h =
      let (indexes, made, h1) = >>=-eq-ok (build_indexes B bs) _ h in
      let (rest, built, h2) = >>=-eq-ok (build_fragments B range_start range_len m) _ h1 in
      let fragment : IndexFragment = record {
        fragment_id = other;
        range_start = range_start;
        range_len = range_len;
        indexes = indexes;
      } in
      subst (λ fs. BuiltFragment (lookup id ((other, bs) ∷ m)) (find (λ f. f.fragment_id == id) fs))
        (ok-injective h2)
        (subst
          (λ test.
            BuiltFragment (if test then some bs else lookup id m)
              (if other == id then some fragment else find (λ f. f.fragment_id == id) rest))
          (sym (same_test id other))
          (elim (other == id)
            as (λ test.
              BuiltFragment (if test then some bs else lookup id m)
                (if test then some fragment else find (λ f. f.fragment_id == id) rest)) [
                  | true ↦ made
                  | false ↦ build_fragments-BuiltFragment id range_start range_len m built
                ]))

  pub build_group-BuiltFragment :
      (id : ℕ) (builder : SegmentGroupBuilder B) {group : SegmentGroup}
      → build_group B builder ≡ ok group
      → BuiltFragment
          (lookup id builder.block_indexes)
          (find (λ f. f.fragment_id == id) group.index)
  unfolding build_group
  build_group-BuiltFragment id builder h =
      let ((first_block, last_block), _, h1) =
        >>=-eq-ok (ok_or compaction_error builder.block_range) _ h in
      let (fs, built, h2) =
        >>=-eq-ok
          (build_fragments B (as_u32 first_block.number)
            (as_u32 (add_u64 (sub_u64 last_block first_block.number) 1)) builder.block_indexes)
          _ h1 in
      subst
        (λ (g : SegmentGroup).
          BuiltFragment (lookup id builder.block_indexes) (find (λ f. f.fragment_id == id) g.index))
        (ok-injective h2)
        (subst (BuiltFragment (lookup id builder.block_indexes)) (sym (find-sort_by_id id fs))
          (build_fragments-BuiltFragment id _ _ builder.block_indexes built))
