-- ===== src/Chain/Grow.antt =====
-- `grow` adds one block at the end.
use starkstream_dna.Base.{
  ℕ, ◌+◌, ◌-◌, ◌<◌, ◌≡◌, ◌↔◌, ◌⊎◌, inl, inr, Bool-cases, get_elem?-snoc, refl, true, false, some,
  [], ◌∷◌, arith, ◌==◌, if◌then◌else◌, length, length-append, lt-of-get_elem?, u64_mod,
  bytes_eq_iff, ok, err,
}
use starkstream_dna.Core.{Hash, is_zero}
use starkstream_dna.Chain.{BlockInfo, cursor, builder, Building, building}
use starkstream_dna.Chain.Builder.{grow, grown_building, can_grow}
use starkstream_dna.Chain.Abstract.{hash_at, reorg_at, IsValid}

-- The builder after `block`, and what it stands for.
pub record Grows (b : Building) (block : BlockInfo) : Type 0 where
  pub after : Building
  pub grows : grow (building b) block ≡ ok (building after)
  pub valid : IsValid after
  pub ends : after.info.last_block ≡ cursor block
  pub hashes :
      (n : ℕ) → hash_at after n ≡ (if n == block.number then some block.hash else hash_at b n)
  pub reorgs : (n : ℕ) (h : Hash) → reorg_at after n h ≡ reorg_at b n h
  pub start : after.info.first_block ≡ b.info.first_block
  pub previous : after.previous_segment ≡ b.previous_segment

module _ (b : Building) (block : BlockInfo) (v : IsValid b) where
  -- Where the last hash is known, `can_grow` accepts just the child of the last block.
  pub can_grow_iff :
      is_zero b.info.last_block.hash ≡ false
      → b.info.last_block.number + 1 < u64_mod
      → (can_grow (building b) block ≡ true)
        ↔ ((block.number ≡ b.info.last_block.number + 1) × (block.parent ≡ b.info.last_block.hash))
  unfolding can_grow
  can_grow_iff z room = ground (arith, bytes_eq_iff b.info.last_block.hash block.parent)

  hash_at-grown :
      block.number ≡ b.info.last_block.number + 1
      → (n : ℕ)
      → hash_at (grown_building b block) n
        ≡ (if n == block.number then some block.hash else hash_at b n)
  unfolding hash_at grown_building
  hash_at-grown e n =
      ground
        (arith, v.gapless, get_elem?-snoc b.canonical block.hash (n - b.info.first_block.number))

  grown-IsValid :
      b.info.last_block.number + 1 < u64_mod
      → block.number ≡ b.info.last_block.number + 1
      → IsValid (grown_building b block)
  unfolding grown_building
  grown-IsValid room e = record {
    gapless = omega (arith, v.gapless, length-append b.canonical (block.hash ∷ []));
    bounded = omega (arith, e, room);
    first =
        (ground (
          arith,
          v.first,
          lt-of-get_elem? b.canonical 0 v.first,
          get_elem?-snoc b.canonical block.hash 0,
        ));
    last =
        (ground (
          arith,
          length-append b.canonical (block.hash ∷ []),
          get_elem?-snoc b.canonical block.hash (length b.canonical),
        ));
  }

  -- A builder whose last hash is known takes a block exactly if it is the child of the last block,
  -- and refuses any other with an error. The builder that took it is valid, ends at the block, and
  -- has its hash at its number; the other canonical hashes, the recorded reorgs, the first block
  -- and the link to the previous segment are as before.
  pub grow-building :
      is_zero b.info.last_block.hash ≡ false
      → b.info.last_block.number + 1 < u64_mod
      → ((block.number ≡ b.info.last_block.number + 1)
          × (block.parent ≡ b.info.last_block.hash)
          × Grows b block)
        ⊎ ((¬ (
              (block.number ≡ b.info.last_block.number + 1)
              × (block.parent ≡ b.info.last_block.hash)))
            × (grow (building b) block ≡ err builder))
  unfolding grow reorg_at
  grow-building z room = elim (Bool-cases (can_grow (building b) block)) [
    | inl fits ↦
        let linked = (can_grow_iff z room).0 fits in
        inl (
          linked.0,
          linked.1,
          record {
            after = grown_building b block;
            grows = rw fits refl;
            valid = grown-IsValid room linked.0;
            ends = refl;
            hashes = hash_at-grown linked.0;
            reorgs = λ n h. refl;
            start = refl;
            previous = refl;
          },
        )
    | inr bad ↦ inr (λ linked. cc ((can_grow_iff z room).1 linked), rw bad refl)
  ]
