-- ===== src/ChainView/Bounds.antt =====
-- Where the segment and the group of a block lie.
use native.Mathlib.Nat.{
  div-mul-le_self, div-lt_iff_lt-mul, mul-le-mul_right, le-div_iff_mul-le, mul_assoc,
}
use starkstream_dna.Base.{
  ℕ, ◌+◌, ◌-◌, ◌*◌, ◌/◌, ◌≤◌, ◌<◌, ◌≡◌, ◌↔◌, refl, ap, sym, ◌∙◌, arith, false, true, leb, ◌==◌,
  add_u64, sub_u64, mul_u64, u64_mod, ok, ◌>>=◌, dec_lt,
}
use starkstream_dna.ChainView.View.{
  ChainView, piece_start, get_segment_start_block, get_segment_end_block, get_blocks_in_group,
  get_group_start_block, get_group_end_block, has_segment_for_block, set_segmented_block,
}

-- The number of the piece of `size` blocks that holds a block.
abbrev piece : ChainView → ℕ → ℕ → ℕ
piece v size block = (block - v.canonical.starting_block) / size

-- A block is in an earlier piece exactly if it lies before the end of the pieces up to there.
earlier : (a size k : ℕ) → 0 < size → (a / size < k) ↔ (a < k * size)
earlier a size k pos = div-lt_iff_lt-mul pos

div-below : (a size : ℕ) → 0 < size → a < (a / size + 1) * size
div-below a size pos = (earlier a size (a / size + 1) pos).0 (omega arith)

next-piece : (k size : ℕ) → (k + 1) * size ≡ k * size + size
next-piece k size = omega arith

module _ (v : ChainView) (size block : ℕ) (pos : 0 < size)
    (low : v.canonical.starting_block ≤ block) (high : block + size < u64_mod) where
  abbrev start : ℕ
  start = v.canonical.starting_block + piece v size block * size

  within : (start ≤ block) × (block < start + size)
  within =
      let a = block - v.canonical.starting_block in
      (
        omega (arith, div-mul-le_self a size),
        omega (arith, div-below a size pos, next-piece (a / size) size),
      )

  piece_start-eq : piece_start v size block ≡ ok start
  unfolding piece_start
  piece_start-eq =
      let a = block - v.canonical.starting_block in
      let sized : (size == 0) ≡ false = ground arith in
      let bound = div-mul-le_self a size in
      let offset : sub_u64 block v.canonical.starting_block ≡ a = omega arith in
      let product : mul_u64 (a / size) size ≡ a / size * size = omega (arith, bound) in
      let sum : add_u64 v.canonical.starting_block (a / size * size) ≡ start =
        omega (arith, bound) in
      rw (sized, offset, product, sum)

  piece_end-eq : sub_u64 (add_u64 start size) 1 ≡ start + size - 1
  piece_end-eq = omega (arith, within)

-- The blocks from `first` to `last` are a piece of `size` blocks, the `k`-th from the starting block.
pub record Piece (v : ChainView) (size k first last : ℕ) : Type 0 where
  pub aligned : first ≡ v.canonical.starting_block + k * size
  pub full : last + 1 ≡ first + size

-- A block that is not before the starting block lies in its segment, which has exactly
-- `segment_size` blocks and starts a whole number of segments behind the starting block.
pub segment-Piece :
    (v : ChainView) (block : ℕ)
    → 0 < v.segment_size
    → v.canonical.starting_block ≤ block
    → block + v.segment_size < u64_mod
    → (k : ℕ) × (first : ℕ) × (last : ℕ) × (get_segment_start_block v block ≡ ok first)
      × (get_segment_end_block v block ≡ ok last)
      × (first ≤ block)
      × (block ≤ last)
      × Piece v v.segment_size k first last
unfolding get_segment_end_block get_segment_start_block
segment-Piece v block pos low high =
    let at = piece_start-eq v v.segment_size block pos low high in
    let end = piece_end-eq v v.segment_size block pos low high in
    let bounds = within v v.segment_size block pos low high in
    (
      piece v v.segment_size block,
      start v v.segment_size block pos low high,
      start v v.segment_size block pos low high + v.segment_size - 1,
      at,
      rw (at, end),
      bounds.0,
      omega (arith, bounds),
      record { aligned = refl; full = omega (arith, pos) },
    )

-- The end of the `m`-th piece and a block in it are on the same side of the end of the `k`-th piece.
end-before :
    (s m k size block last : ℕ)
    → s + m * size ≤ block
    → block < s + m * size + size
    → last + 1 ≡ s + k * size + size
    → leb (s + m * size + size - 1) last ≡ leb block last
end-before s m k size block last low high e = elim (dec_lt m (k + 1)) [
  | yes h ↦
      let bound = mul-le-mul_right {m = m} {n = k} size (omega arith) in
      let left : leb (s + m * size + size - 1) last ≡ true = ground arith in
      let right : leb block last ≡ true = ground arith in rw (left, right)
  | no h ↦
      let bound = mul-le-mul_right {m = k + 1} {n = m} size (omega arith) in
      let spread = next-piece k size in
      let left : leb (s + m * size + size - 1) last ≡ false = ground arith in
      let right : leb block last ≡ false = ground arith in rw (left, right)
]

-- When the last segmented block is the end of a segment, a block has a segment exactly if it is not
-- behind that block.
pub has_segment-segmented :
    (v : ChainView) (block k first last : ℕ)
    → 0 < v.segment_size
    → v.canonical.starting_block ≤ block
    → block + v.segment_size < u64_mod
    → Piece v v.segment_size k first last
    → has_segment_for_block (set_segmented_block v last) block ≡ ok (leb block last)
unfolding has_segment_for_block set_segmented_block get_segment_end_block get_segment_start_block
    piece_start
has_segment-segmented v block k first last pos low high p =
    let size = v.segment_size in
    let at = piece_start-eq v size block pos low high in
    let end = piece_end-eq v size block pos low high in
    let (above, below) = within v size block pos low high in
    rw (at, end)
      (ap ok (
        end-before v.canonical.starting_block (piece v size block) k size block last above below
          (omega (arith, p.full, p.aligned))))

segments-in-group :
    (a g size : ℕ)
    → 0 < size
    → 0 < g * size
    → (a / (g * size) * (g * size) ≤ a / size * size)
      × (a / size * size + size ≤ a / (g * size) * (g * size) + g * size)
segments-in-group a g size pos group_pos =
    let q = a / (g * size) in
    let m = a / size in
    let regroup : q * g * size ≡ q * (g * size) = mul_assoc q g size in
    let regroup' : (q + 1) * g * size ≡ (q + 1) * (g * size) = mul_assoc (q + 1) g size in
    let lower : q * g ≤ m =
      (le-div_iff_mul-le pos).1 (omega (arith, div-mul-le_self a (g * size), regroup)) in
    let upper : m < (q + 1) * g =
      (earlier a size ((q + 1) * g) pos).1
        (omega (arith, div-below a (g * size) group_pos, regroup')) in
    let low = mul-le-mul_right {m = q * g} {n = m} size lower in
    let high = mul-le-mul_right {m = m + 1} {n = (q + 1) * g} size (omega arith) in
    (omega (arith, regroup), omega (arith, regroup', next-piece m size, next-piece q (g * size)))

segment-values :
    (v : ChainView) (size block first last : ℕ) (pos : 0 < size)
    (low : v.canonical.starting_block ≤ block) (high : block + size < u64_mod)
    → piece_start v size block ≡ ok first
    → (piece_start v size block >>= λ start. ok (sub_u64 (add_u64 start size) 1)) ≡ ok last
    → (first ≡ start v size block pos low high)
      × (last + 1 ≡ start v size block pos low high + size)
segment-values v size block first last pos low high e f =
    let at = piece_start-eq v size block pos low high in
    let end = piece_end-eq v size block pos low high in
    let f' = ap (λ r. r >>= λ first. ok (sub_u64 (add_u64 first size) 1)) (sym at) ∙ f in
    let here : first ≡ start v size block pos low high = cc in
    let there : last ≡ start v size block pos low high + size - 1 = cc in
    (here, omega (arith, there, pos))

-- With sizes that are not zero, for a block that is not before the starting block and whose group ends
-- within 64 bits: its group is `group_size` segments. It starts a whole number of groups behind the
-- starting block, has exactly the blocks of `group_size` segments, and holds the block's whole segment.
pub segment-in-group :
    (v : ChainView) (block first last group_first group_last : ℕ)
    → 0 < v.segment_size
    → 0 < v.group_size
    → v.canonical.starting_block ≤ block
    → block + v.group_size * v.segment_size < u64_mod
    → get_segment_start_block v block ≡ ok first
    → get_segment_end_block v block ≡ ok last
    → get_group_start_block v block ≡ ok group_first
    → get_group_end_block v block ≡ ok group_last
    → (k : ℕ) × Piece v (v.group_size * v.segment_size) k group_first group_last
      × (group_first ≤ first)
      × (last ≤ group_last)
unfolding get_segment_end_block get_segment_start_block get_group_start_block get_group_end_block
    get_blocks_in_group
segment-in-group v block first last group_first group_last pos group_pos low high e1 e2 e3 e4 =
    let size = v.segment_size in
    let group = v.group_size * size in
    let whole : mul_u64 v.group_size size ≡ group = omega arith in
    let one = mul-le-mul_right {m = 1} {n = v.group_size} size group_pos in
    let segment = segment-values v size block first last pos low (omega arith) e1 e2 in
    let grouped =
      segment-values v group block group_first group_last (omega arith) low high (rw (← whole) e3)
        (rw (← whole) e4) in
    let inside =
      segments-in-group (block - v.canonical.starting_block) v.group_size size pos (omega arith) in
    (
      piece v group block,
      record { aligned = grouped.0; full = omega (arith, grouped) },
      omega (arith, segment, grouped, inside),
      omega (arith, segment, grouped, inside),
    )
