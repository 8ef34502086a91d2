-- ===== src/Chain/Current.antt =====
-- `current_segment`: the segment answers what the builder knows.
use mathlib.Core.Option
use starkstream_dna.Base.{
  ℕ, zero, suc, ◌+◌, ◌-◌, ◌<◌, ◌≤◌, ◌≡◌, refl, ap, true, false, ◌||◌, Option, none, some, List, [],
  ◌∷◌, arith, ltb, ◌==◌, if◌then◌else◌, get_elem?, find, filter, u64_mod, add_u64, sub_u64,
  bytes_eq, Result, ok, err, ok_or, ◌>>=◌, inl, inr,
}
use starkstream_dna.Base.Maps.{nat_ord, bytes_ord, BTreeMap, lookup, lookup_or}
use starkstream_dna.Core.{Hash, Cursor, new, is_zero}
use starkstream_dna.Chain.{
  ReconnectAction, continue, ReorgMap, CanonicalBlock, CanonicalChainSegment, CanonicalChainError,
  view, Building, building,
}
use starkstream_dna.Chain.Builder.{current_segment, segment_blocks, extra_reorgs_after, extra_reorg}
use starkstream_dna.Chain.Segment.{canonical, reconnect, find_extra, block_at, reorg_action}
use starkstream_dna.Chain.Abstract.{hash_at, reorg_at, IsValid, hash_at-cases, size_pos}

unfoldable pub block_of : BTreeMap ℕ ReorgMap → ℕ → Hash → CanonicalBlock
block_of reorgs number hash = record { hash = hash; reorgs = lookup_or number [] reorgs }

pub segment_blocks-get_elem? :
    (first offset : ℕ) (reorgs : BTreeMap ℕ ReorgMap) (hashes : List Hash) (i n : ℕ)
    → n ≡ first + offset + i
    → n < u64_mod
    → get_elem? (segment_blocks first offset reorgs hashes) i
      ≡ Option.map (block_of reorgs n) (get_elem? hashes i)
unfolding segment_blocks block_of
segment_blocks-get_elem? first offset reorgs [] i n e fits = refl
segment_blocks-get_elem? first offset reorgs (h ∷ rest) zero n e fits =
    let here : add_u64 first offset ≡ n = omega (arith, e, fits) in rw here
segment_blocks-get_elem? first offset reorgs (h ∷ rest) (suc i) n e fits =
    segment_blocks-get_elem? first (suc offset) reorgs rest i n (omega (arith, e)) fits

find-extra :
    (last n : ℕ) (reorgs : BTreeMap ℕ ReorgMap)
    → last < n
    → find (λ r. r.block_number == n) (extra_reorgs_after last reorgs)
      ≡ Option.map (λ m. extra_reorg (n, m)) (lookup n reorgs)
unfolding find filter lookup extra_reorgs_after
find-extra last n [] h = refl
find-extra last n ((k, m) ∷ reorgs) h = ground (arith, find-extra last n reorgs h)

abbrev pub segment_of : Building → CanonicalChainSegment
segment_of b = record {
  previous_segment = b.previous_segment;
  info = b.info;
  canonical = segment_blocks b.info.first_block.number 0 b.reorgs b.canonical;
  extra_reorgs = extra_reorgs_after b.info.last_block.number b.reorgs;
}

-- What a segment has to answer, by what its builder stands for.
unfoldable pub canonical_answer : Building → ℕ → Result CanonicalChainError Cursor
canonical_answer b n = ok_or view (Option.map (new n) (hash_at b n))

-- A block above the head may still be known as reorged.
abbrev pub extra_answer : Option ReorgMap → Hash → Result CanonicalChainError ReconnectAction
extra_answer none h = err view
extra_answer (some m) h = ok (reorg_action (lookup h m))

-- The answer at a cursor, by the canonical hash at its number, the reorgs recorded at the number
-- and the one recorded for its hash.
abbrev pub answer_from :
    ℕ
    → Option ReorgMap
    → Option Cursor
    → Cursor
    → Option Hash
    → Result CanonicalChainError ReconnectAction
answer_from first entry target c o = if ltb c.number first then err view else elim o [
  | none ↦ extra_answer entry c.hash
  | some h ↦ ok (if bytes_eq h c.hash || is_zero c.hash then continue else reorg_action target)
]

unfoldable pub reconnect_answer : Building → Cursor → Result CanonicalChainError ReconnectAction
reconnect_answer b c =
    answer_from b.info.first_block.number (lookup c.number b.reorgs) (reorg_at b c.number c.hash) c
      (hash_at b c.number)

module _ (b : Building) (v : IsValid b) where
  block_at-segment :
      (n : ℕ)
      → b.info.first_block.number ≤ n
      → n ≤ b.info.last_block.number
      → (h : Hash) → hash_at b n ≡ some h
      → block_at (segment_of b) n ≡ ok (block_of b.reorgs n h)
  unfolding block_at hash_at
  block_at-segment n low high h e =
      let i = n - b.info.first_block.number in
      let offset : sub_u64 n b.info.first_block.number ≡ i = omega (arith, v.bounded) in
      let found : get_elem? b.canonical i ≡ some h = ground arith in
      rw (
        offset,
        segment_blocks-get_elem? b.info.first_block.number 0 b.reorgs b.canonical i n (omega arith)
            (omega (arith, v.bounded)),
        found,
      )

  pub canonical-segment : (n : ℕ) → canonical (segment_of b) n ≡ canonical_answer b n
  unfolding canonical canonical_answer block_of
  canonical-segment n = elim (hash_at-cases b v n) [
    | inl (inl low, missing) ↦
        let below : ltb n b.info.first_block.number ≡ true = ground arith in rw (missing, below)
    | inl (inr high, missing) ↦
        let above : ltb b.info.last_block.number n ≡ true = ground arith in
        let since : ltb n b.info.first_block.number ≡ false =
          ground (arith, v.gapless, size_pos b v) in
        rw (missing, since, above)
    | inr (h, held, low, high) ↦
        let since : ltb n b.info.first_block.number ≡ false = ground arith in
        let until : ltb b.info.last_block.number n ≡ false = ground arith in
        rw (held, since, until, block_at-segment n low high h held)
  ]

  find_extra-segment :
      (n : ℕ)
      → b.info.last_block.number < n
      → find_extra (segment_of b) n
        ≡ ok_or view (Option.map (λ m. extra_reorg (n, m)) (lookup n b.reorgs))
  unfolding find_extra
  find_extra-segment n h = ap (ok_or view) (find-extra b.info.last_block.number n b.reorgs h)

  extra_action :
      (n : ℕ) (h : Hash) (o : Option ReorgMap)
      → (ok_or view (Option.map (λ m. extra_reorg (n, m)) o) >>= λ extra.
          ok (reorg_action (lookup h extra.reorgs)))
        ≡ extra_answer o h
  extra_action n h none = refl
  extra_action n h (some m) = refl

  pub reconnect-segment : (c : Cursor) → reconnect (segment_of b) c ≡ reconnect_answer b c
  unfolding reconnect reconnect_answer block_of reorg_at
  reconnect-segment c = elim (hash_at-cases b v c.number) [
    | inl (inl low, missing) ↦
        let below : ltb c.number b.info.first_block.number ≡ true = ground arith in rw below
    | inl (inr high, missing) ↦
        let above : ltb b.info.last_block.number c.number ≡ true = ground arith in
        let since : ltb c.number b.info.first_block.number ≡ false =
          ground (arith, v.gapless, size_pos b v) in
        rw (missing, since, above, find_extra-segment c.number high)
          (extra_action c.number c.hash (lookup c.number b.reorgs))
    | inr (h, held, low, high) ↦
        let since : ltb c.number b.info.first_block.number ≡ false = ground arith in
        let until : ltb b.info.last_block.number c.number ≡ false = ground arith in
        rw (held, since, until, block_at-segment c.number low high h held)
  ]

-- A segment that answers as its builder stands.
pub record Answers (b : Building) (s : CanonicalChainSegment) : Type 0 where
  pub canonicals : (n : ℕ) → canonical s n ≡ canonical_answer b n
  pub reconnects : (c : Cursor) → reconnect s c ≡ reconnect_answer b c

-- The current segment of a valid builder exists, and it answers `canonical` for any number and
-- `reconnect` for any cursor by the canonical hashes and the recorded reorgs of the builder, with
-- the error where the block is out of range and unknown; neither panics.
pub current_segment-Answers :
    (b : Building)
    → IsValid b
    → (s : CanonicalChainSegment) × (current_segment (building b) ≡ ok s)
      × (s.info ≡ b.info)
      × Answers b s
unfolding current_segment
current_segment-Answers b v = (
  segment_of b,
  refl,
  refl,
  record { canonicals = canonical-segment b v; reconnects = reconnect-segment b v },
)
