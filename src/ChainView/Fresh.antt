-- ===== src/ChainView/Fresh.antt =====
-- A view that is initialised with the current segment of a builder, before anything is stored.
use starkstream_dna.Base.{ℕ, ◌≤◌, ◌<◌, ◌≡◌, ◌∙◌, inl, inr, refl, false, [], arith, ltb, ok}
use starkstream_dna.Base.Maps.{unwrap_or}
use starkstream_dna.Core.{new}
use starkstream_dna.Chain.{Building, building, CanonicalChainSegment}
use starkstream_dna.Chain.Builder.{current_segment}
use starkstream_dna.Chain.Abstract.{hash_at, reorg_at, IsValid, hash_at-cases, first-le-last}
use starkstream_dna.Chain.Current.{
  segment_of, canonical_answer, reconnect_answer, canonical-segment, reconnect-segment,
}
use starkstream_dna.ChainView.Full.{ChainStore}
use starkstream_dna.ChainView.Represents.{ChainSpec, Covers, Represents}

-- The chain that a builder stands for.
abbrev pub chain_of : Building → ChainSpec
chain_of b = record { hash = λ n. unwrap_or [] (hash_at b n); reorg = reorg_at b }

module _ (b : Building) (v : IsValid b) where
  segment-Covers :
      (n : ℕ)
      → b.info.first_block.number ≤ n
      → n ≤ b.info.last_block.number
      → Covers (chain_of b) (segment_of b) n
  unfolding canonical_answer reconnect_answer
  segment-Covers n low high = elim (hash_at-cases b v n) [
    | inl (inl below, _) ↦ absurd (omega arith)
    | inl (inr above, _) ↦ absurd (omega arith)
    | inr (g, e, _, _) ↦
        let since : ltb n b.info.first_block.number ≡ false = ground arith in
        record {
          canonicals = canonical-segment b v n ∙ rw e;
          reconnects = λ h. reconnect-segment b v (new n h) ∙ rw (e, since);
        }
  ]

-- A view whose recent segment is the current segment of a valid builder, and that starts where the
-- builder starts, presents the chain of the builder, over any store.
pub fresh-Represents :
    (store : ChainStore) (size : ℕ) (b : Building)
    → IsValid b
    → 0 < size
    → (recent : CanonicalChainSegment) × (current_segment (building b) ≡ ok recent)
      × Represents store
          (record {
            starting_block = b.info.first_block.number;
            chain_segment_size = size;
            recent = recent;
          })
          (chain_of b)
unfolding current_segment
fresh-Represents store size b v pos = (
  segment_of b,
  refl,
  record {
    sized = pos;
    starts = omega arith;
    ordered = first-le-last b v;
    bounded = v.bounded;
    recents = segment-Covers b v;
    stored = λ n low high. absurd (omega arith);
  },
)
