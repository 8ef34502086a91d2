-- ===== src/Compaction/SegmentData.antt =====
-- From blocks to the serialised segment, and the errors on the way.
use starkstream_dna.Base.{
  ℕ, ◌==◌, ◌⊎◌, length, some, List, [], ◌∷◌, ◌++◌, ◌≡◌, refl, sym, ap, ◌∙◌, subst, Result, ok,
  ◌>>=◌, >>=-eq-ok, ok-injective, ensure, ok_or, ok_or-eq-ok, suc,
}
use mathlib.Core.List.{Memᴰ, append_assoc, append-nil}
use starkstream_dna.Base.Maps.{nat_ord}
use starkstream_dna.Core.{Cursor}
use starkstream_dna.Compaction.{CompactionError, compaction_error}
use starkstream_dna.Compaction.Blocks.{Block}
use starkstream_dna.Compaction.Segments.{
  Archive, SerializedSegment, index_fragment_name, join_fragment_name, header_fragment_name,
  SegmentBuilder, expected_count, push_block, add_block, body_segments, serialized,
}
use starkstream_dna.Compaction.Packed.{Blocks, parts, fragments_with, Holds, push_block-Holds}
use starkstream_dna.Compaction.Bodies.{
  IsRising, AreBodies, keys, keys-IsRising, body_segments-AreBodies, fragments_with-keys,
}

-- Blocks, as cursors with bytes, are added in order.
unfoldable pub add_all :
    Archive → List (Cursor × List ℕ) → SegmentBuilder → Result CompactionError SegmentBuilder
add_all archive [] b = ok b
add_all archive ((cursor, bytes) ∷ more) b = do
  next ← add_block archive cursor bytes b
  add_all archive more next

-- The bytes are those of the blocks.
abbrev pub Decoded : Archive → List (Cursor × List ℕ) → Blocks → Type 0
Decoded archive [] [] = Unit
Decoded archive [] (block ∷ blocks) = ⊥
Decoded archive (input ∷ more) [] = ⊥
Decoded archive ((cursor, bytes) ∷ more) ((c, block) ∷ blocks) =
    (cursor ≡ c) × (archive.block_from_bytes bytes ≡ some block) × Decoded archive more blocks

-- A builder that was started and has no blocks.
pub record IsStarted (first_block : Cursor) (b : SegmentBuilder) : Type 0 where
  pub first : b.first_block ≡ some first_block
  pub headers : b.headers ≡ []
  pub indexes : b.indexes ≡ []
  pub joins : b.joins ≡ []
  pub body : b.body ≡ []

module _ (archive : Archive) where
  add_block-Holds :
      (cursor : Cursor) (bytes : List ℕ) (b : SegmentBuilder) (blocks : Blocks)
      {next : SegmentBuilder}
      → Holds b blocks
      → add_block archive cursor bytes b ≡ ok next
      → (block : Block) × (archive.block_from_bytes bytes ≡ some block)
        × Holds next (blocks ++ (cursor, block) ∷ [])
        × (next.first_block ≡ b.first_block)
  unfolding add_block push_block
  add_block-Holds cursor bytes b blocks h e =
      let (block, read, e1) =
        >>=-eq-ok (ok_or compaction_error (archive.block_from_bytes bytes)) _ e in
      let (expected, _, e2) =
        >>=-eq-ok (expected_count b.expected_fragment_count (length block.body)) _ e1 in
      (
        block,
        ok_or-eq-ok compaction_error (archive.block_from_bytes bytes) read,
        subst (λ next. Holds next (blocks ++ (cursor, block) ∷ [])) (ok-injective e2)
            (push_block-Holds cursor block expected b blocks h),
        ap (λ (b : SegmentBuilder). b.first_block) (sym (ok-injective e2)),
      )

  pub add_all-Holds :
      (inputs : List (Cursor × List ℕ)) (b : SegmentBuilder) (before : Blocks)
      {last : SegmentBuilder}
      → Holds b before
      → add_all archive inputs b ≡ ok last
      → (blocks : Blocks) × Decoded archive inputs blocks
        × Holds last (before ++ blocks)
        × (last.first_block ≡ b.first_block)
  unfolding add_all
  add_all-Holds [] b before h e =
      let same = ok-injective e in
      (
        [],
        tt,
        subst (Holds _) (sym (append-nil before)) (subst (λ b. Holds b before) same h),
        ap (λ (b : SegmentBuilder). b.first_block) (sym same),
      )
  add_all-Holds ((cursor, bytes) ∷ more) b before {last} h e =
      let (next, added, e1) = >>=-eq-ok (add_block archive cursor bytes b) _ e in
      let (block, read, h1, first) = add_block-Holds cursor bytes b before h added in
      let (blocks, decoded, h2, first1) =
        add_all-Holds more next (before ++ (cursor, block) ∷ []) h1 e1 in
      (
        (cursor, block) ∷ blocks,
        (refl, read, decoded),
        subst (Holds last) (append_assoc before ((cursor, block) ∷ []) blocks) h2,
        first1 ∙ first,
      )

  -- What a serialised segment says of its blocks.
  pub record Packs (first_block : Cursor) (blocks : Blocks) (segments : List SerializedSegment)
      : Type 0 where
    pub index : List ℕ
    pub join : List ℕ
    pub header : List ℕ
    pub bodies : List SerializedSegment
    pub all :
        segments
        ≡ record { name = index_fragment_name; content = index }
          ∷ record { name = join_fragment_name; content = join }
          ∷ record { name = header_fragment_name; content = header }
          ∷ bodies
    pub of_index :
        archive.index_to_bytes
          (record { first_block = first_block; content = parts (λ block. block.index) blocks })
        ≡ some index
    pub of_join :
        archive.join_to_bytes
          (record { first_block = first_block; content = parts (λ block. block.join) blocks })
        ≡ some join
    pub of_header :
        archive.header_to_bytes
          (record { first_block = first_block; content = parts (λ block. block.header) blocks })
        ≡ some header
    pub ids : List ℕ
    pub rising : IsRising ids
    pub complete : (id : ℕ) → (fragments_with id blocks ≡ []) ⊎ Memᴰ id ids
    pub of_bodies : AreBodies archive first_block blocks ids bodies

  length-parts :
      {T : Type 0} (part : Block → T) (blocks : Blocks) → length (parts part blocks) ≡ length blocks
  length-parts part [] = refl
  length-parts part (b ∷ blocks) = ap suc (length-parts part blocks)

  pub serialized-Packs :
      (first_block : Cursor) (b : SegmentBuilder) (blocks : Blocks)
      {segments : List SerializedSegment}
      → Holds b blocks
      → serialized archive first_block b ≡ ok segments
      → Packs first_block blocks segments
  unfolding serialized
  serialized-Packs first_block b blocks h e =
      let (_, _, e1) =
        >>=-eq-ok (ensure (length b.indexes == length b.headers) compaction_error) _ e in
      let (_, _, e2) =
        >>=-eq-ok (ensure (length b.joins == length b.headers) compaction_error) _ e1 in
      let (index, i, e3) =
        >>=-eq-ok
          (ok_or compaction_error
            (archive.index_to_bytes (record { first_block = first_block; content = b.indexes })))
          _ e2 in
      let (join, j, e4) =
        >>=-eq-ok
          (ok_or compaction_error
            (archive.join_to_bytes (record { first_block = first_block; content = b.joins })))
          _ e3 in
      let (header, k, e5) =
        >>=-eq-ok
          (ok_or compaction_error
            (archive.header_to_bytes (record { first_block = first_block; content = b.headers })))
          _ e4 in
      let (bodies, written, e6) =
        >>=-eq-ok (body_segments archive first_block (length b.headers) b.body) _ e5 in
      let count : length b.headers ≡ length blocks =
        ap length h.headers ∙ length-parts (λ block. block.header) blocks in
      record {
        index = index;
        join = join;
        header = header;
        bodies = bodies;
        all = sym (ok-injective e6);
        of_index =
            ap (λ ds. archive.index_to_bytes (record { first_block = first_block; content = ds }))
              (sym h.indexes)
            ∙ ok_or-eq-ok compaction_error _ i;
        of_join =
            ap (λ ds. archive.join_to_bytes (record { first_block = first_block; content = ds }))
              (sym h.joins)
            ∙ ok_or-eq-ok compaction_error _ j;
        of_header =
            ap (λ ds. archive.header_to_bytes (record { first_block = first_block; content = ds }))
              (sym h.headers)
            ∙ ok_or-eq-ok compaction_error _ k;
        ids = keys b.body;
        rising = keys-IsRising b.body h.sorted;
        complete = fragments_with-keys archive first_block blocks b.body h.body h.named;
        of_bodies =
            body_segments-AreBodies archive first_block blocks b.body h.body h.named h.sorted
              (subst (λ n. body_segments archive first_block n b.body ≡ ok bodies) count written);
      }
