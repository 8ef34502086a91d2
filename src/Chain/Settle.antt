-- ===== src/Chain/Settle.antt =====
-- A client on a reorged block that follows `reconnect` reaches a block where it may continue.
use starkstream_dna.Base.{
  ℕ, zero, suc, ◌<◌, ◌≤◌, ◌≡◌, refl, ◌∙◌, ◌⊎◌, inl, inr, false, some, arith, ltb, bytes_eq_iff, ok,
}
use starkstream_dna.Base.Maps.{nat_ord, bytes_ord, lookup_or}
use starkstream_dna.Core.{Hash, Cursor, new}
use starkstream_dna.Chain.{continue, offline_reorg, CanonicalChainSegment, Building, building}
use starkstream_dna.Chain.Builder.{current_segment}
use starkstream_dna.Chain.Segment.{reconnect}
use starkstream_dna.Chain.Abstract.{hash_at, reorg_at, IsValid, hash_at_range}
use starkstream_dna.Chain.Current.{segment_of, reconnect_answer, reconnect-segment}
use starkstream_dna.Chain.Resolve.{Known, Resolves}
use starkstream_dna.Chain.History.{Reach, Reach-IsSound}

-- A client that follows the answers of a segment from one cursor to another, where it may continue.
pub data Settles (s : CanonicalChainSegment) : Cursor → Cursor → Type 0 where
  stays : (c : Cursor) → reconnect s c ≡ ok continue → Settles s c c
  moves : {c t u : Cursor} → reconnect s c ≡ ok (offline_reorg t) → Settles s t u → Settles s c u

module _ (b : Building) (v : IsValid b) (r : Resolves b) where
  canonical-continue :
      (c : Cursor) → hash_at b c.number ≡ some c.hash → reconnect_answer b c ≡ ok continue
  unfolding reconnect_answer
  canonical-continue c e =
      let low : ltb c.number b.info.first_block.number ≡ false =
        ground (arith, hash_at_range b v c.number e) in
      rw (low, e, (bytes_eq_iff c.hash c.hash).1 refl)

  reorged-answer :
      (n : ℕ) (h : Hash) (t : Cursor)
      → b.info.first_block.number ≤ n
      → reorg_at b n h ≡ some t
      → (reconnect_answer b (new n h) ≡ ok continue)
        ⊎ (reconnect_answer b (new n h) ≡ ok (offline_reorg t))
  unfolding reconnect_answer reorg_at lookup_or
  reorged-answer n h t low e = ground (arith)

  -- From a known target the client gets on, by the canonical hash or by the next hop.
  abbrev Settled : ℕ → Cursor → Type 0
  Settled n c = (u : Cursor) × Settles (segment_of b) c u × (u.number ≤ n)

  settles-target :
      (n : ℕ) (t : Cursor)
      → t.number < n
      → Known b t
      → ((u : Cursor) → reorg_at b t.number t.hash ≡ some u → Settled t.number t)
      → Settled n t
  settles-target n t low (inl c) next =
      (t, stays t (reconnect-segment b v t ∙ canonical-continue t c), omega arith)
  settles-target n t low (inr (u, e)) next =
      let (w, path, below) = next u e in (w, path, omega arith)

  settles :
      (k n : ℕ) (h : Hash) (t : Cursor) → n < k → reorg_at b n h ≡ some t → Settled n (new n h)
  settles zero n h t lt e = absurd (omega arith)
  settles (suc k) n h t lt e =
      let target = r n h t e in
      let next = λ (u : Cursor) (f : reorg_at b t.number t.hash ≡ some u).
        settles k t.number t.hash u (omega (arith, target.below)) f in
      elim (reorged-answer n h t (omega (arith, target.below, target.within)) e) [
        | inl done ↦
            (new n h, stays (new n h) (reconnect-segment b v (new n h) ∙ done), omega arith)
        | inr moved ↦
            let (u, path, low) = settles-target n t target.below target.known next in
            (u, moves (reconnect-segment b v (new n h) ∙ moved) path, low)
      ]

-- In every history from a first block on, of blocks added behind one whose hash is not zero, reorgs and
-- restarts, with numbers within 64 bits and no segment taken: a client on a block that was reorged away
-- and is still recorded, who follows the answers of the current segment, reaches after finitely many
-- of them a block, not above its own, where it may continue.
pub reorged-Settles :
    (b : Building) (n : ℕ) (h : Hash) (t : Cursor)
    → Reach b
    → reorg_at b n h ≡ some t
    → (s : CanonicalChainSegment) × (current_segment (building b) ≡ ok s)
      × (u : Cursor) × Settles s (new n h) u
      × (u.number ≤ n)
unfolding current_segment
reorged-Settles b n h t reach e =
    let (v, r) = Reach-IsSound reach in
    let (u, path, low) = settles b v r (suc n) n h t (omega arith) e in
    (segment_of b, refl, u, path, low)
