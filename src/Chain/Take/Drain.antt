-- ===== src/Chain/Take/Drain.antt =====
-- The loop of `take_segment`: the blocks it makes are those of the current segment, and the reorgs
-- at their numbers leave the builder.
use starkstream_dna.Base.{
  ℕ, suc, ◌+◌, ◌<◌, ◌≤◌, ◌≡◌, refl, ◌∙◌, false, ◌&&◌, none, [], ◌∷◌, List, arith, ltb, leb, ◌==◌,
  if◌then◌else◌, length, u64_mod, add_u64,
}
use starkstream_dna.Base.Maps.{
  nat_ord, bytes_ord, BTreeMap, remove, lookup, lookup-remove, lookup_or-remove,
}
use starkstream_dna.Core.{Hash}
use starkstream_dna.Chain.{ReorgMap}
use starkstream_dna.Chain.Builder.{drain_blocks, segment_blocks}

-- Reorgs at lower numbers do not show.
segment_blocks-remove :
    (first offset k : ℕ) (m : BTreeMap ℕ ReorgMap) (hs : List Hash)
    → first + offset + length hs ≤ u64_mod
    → k < first + offset
    → segment_blocks first offset (remove k m) hs ≡ segment_blocks first offset m hs
unfolding segment_blocks
segment_blocks-remove first offset k m [] fits low = refl
segment_blocks-remove first offset k m (h ∷ hs) fits low =
    let here : add_u64 first offset ≡ first + offset = omega arith in
    let apart : (first + offset == k) ≡ false = ground arith in
    rw (
      here,
      lookup_or-remove (first + offset) k [] m apart,
      segment_blocks-remove first (suc offset) k m hs (omega arith) (omega arith),
    )

pub drain_blocks-segment :
    (first offset : ℕ) (m : BTreeMap ℕ ReorgMap) (hs : List Hash)
    → first + offset + length hs ≤ u64_mod
    → (drain_blocks first offset m hs).0 ≡ segment_blocks first offset m hs
unfolding drain_blocks segment_blocks
drain_blocks-segment first offset m [] fits = refl
drain_blocks-segment first offset m (h ∷ hs) fits =
    let here : add_u64 first offset ≡ first + offset = omega arith in
    rw (
      here,
      drain_blocks-segment first (suc offset) (remove (first + offset) m) hs (omega arith),
      segment_blocks-remove first (suc offset) (first + offset) m hs (omega arith) (omega arith),
    )

pub drain_blocks-left :
    (first offset : ℕ) (m : BTreeMap ℕ ReorgMap) (hs : List Hash) (n : ℕ)
    → first + offset + length hs ≤ u64_mod
    → lookup n (drain_blocks first offset m hs).1
      ≡ (if ltb n (first + offset + length hs) && leb (first + offset) n then none else lookup n m)
unfolding drain_blocks
drain_blocks-left first offset m [] n fits = ground arith
drain_blocks-left first offset m (h ∷ hs) n fits =
    let here : add_u64 first offset ≡ first + offset = omega arith in
    drain_blocks-left first (suc offset) _ hs n (omega arith)
    ∙ rw here (ground (arith, lookup-remove n (first + offset) m))
