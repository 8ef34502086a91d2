-- ===== src/Chain/Abstract.antt =====
-- What a builder stands for: the canonical hash of each block number, and for each block that was
-- reorged away the head that replaced it. With it, the invariant of a builder.
use starkstream_dna.Base.{
  ℕ, ◌+◌, ◌⊎◌, inl, inr, Option-cases, get_elem?-lt, ◌≤◌, lt-of-get_elem?, get_elem?-none, ◌-◌, ◌<◌,
  ◌≡◌, Option, none, some, [], arith, ltb, if◌then◌else◌, length, get_elem?, u64_mod,
}
use starkstream_dna.Base.Maps.{nat_ord, bytes_ord, lookup, lookup_or}
use starkstream_dna.Core.{Hash, Cursor}
use starkstream_dna.Chain.{Building}

-- The canonical hash at a block number.
unfoldable pub hash_at : Building → ℕ → Option Hash
hash_at b n =
    if ltb n b.info.first_block.number
    then none
    else get_elem? b.canonical (n - b.info.first_block.number)

-- The head that replaced the block with this number and hash.
unfoldable pub reorg_at : Building → ℕ → Hash → Option Cursor
reorg_at b n h = lookup h (lookup_or n [] b.reorgs)

-- The canonical hashes run from the first block to the last one without a gap, and block numbers
-- fit a `u64`.
pub record IsValid (b : Building) : Type 0 where
  pub gapless : b.info.first_block.number + length b.canonical ≡ b.info.last_block.number + 1
  pub bounded : b.info.last_block.number < u64_mod
  pub first : get_elem? b.canonical 0 ≡ some b.info.first_block.hash
  pub last : get_elem? b.canonical (length b.canonical - 1) ≡ some b.info.last_block.hash

module _ (b : Building) (v : IsValid b) where
  pub size_pos : 0 < length b.canonical
  size_pos = lt-of-get_elem? b.canonical 0 v.first

  pub hash_at_above : (n : ℕ) → b.info.last_block.number < n → hash_at b n ≡ none
  unfolding hash_at
  hash_at_above n h =
      ground (arith, v.gapless, get_elem?-none b.canonical (n - b.info.first_block.number))

  pub hash_at_range :
      (n : ℕ) {h : Hash}
      → hash_at b n ≡ some h
      → (b.info.first_block.number ≤ n) × (n ≤ b.info.last_block.number)
  unfolding hash_at
  hash_at_range n {h} e =
      ground (arith, v.gapless, lt-of-get_elem? b.canonical (n - b.info.first_block.number) {a = h})

  pub hash_at_last : hash_at b b.info.last_block.number ≡ some b.info.last_block.hash
  unfolding hash_at
  hash_at_last = ground (arith, v.gapless, size_pos, v.last)

  pub get_elem?-hash_at :
      (n : ℕ) (h : Hash)
      → hash_at b n ≡ some h
      → get_elem? b.canonical (n - b.info.first_block.number) ≡ some h
  unfolding hash_at
  get_elem?-hash_at n h held = ground arith

  outside :
      (n : ℕ)
      → hash_at b n ≡ none
      → (n < b.info.first_block.number) ⊎ (b.info.last_block.number < n)
  unfolding hash_at
  outside n e = ground (arith, v.gapless, get_elem?-lt b.canonical (n - b.info.first_block.number))

  -- A block is canonical exactly within the range of the builder.
  pub hash_at-cases :
      (n : ℕ)
      → (((n < b.info.first_block.number) ⊎ (b.info.last_block.number < n)) × (hash_at b n ≡ none))
        ⊎ ((h : Hash) × (hash_at b n ≡ some h)
            × (b.info.first_block.number ≤ n)
            × (n ≤ b.info.last_block.number))
  hash_at-cases n = elim (Option-cases (hash_at b n)) [
    | inl e ↦ inl (outside n e, e)
    | inr (h, e) ↦ let (low, high) = hash_at_range n e in inr (h, e, low, high)
  ]

  pub first-le-last : b.info.first_block.number ≤ b.info.last_block.number
  first-le-last = omega (arith, v.gapless, size_pos)
