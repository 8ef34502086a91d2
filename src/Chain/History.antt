-- ===== src/Chain/History.antt =====
-- Histories of a builder between two finished segments: a first block, then blocks that are added,
-- reorgs that cut them off, and restarts.
use starkstream_dna.Base.{
  ◌+◌, ◌<◌, ◌≡◌, refl, sym, ap, ◌∙◌, inl, inr, false, List, arith, u64_mod, Result, ok,
  ok-injective, subst,
}
use starkstream_dna.Base.Maps.{nat_ord, bytes_ord, lookup, lookup_or}
use starkstream_dna.Core.{Cursor, is_zero}
use starkstream_dna.Chain.{
  BlockInfo, CanonicalChainError, CanonicalChainSegment, Building, CanonicalChainBuilder, empty,
  building,
}
use starkstream_dna.Chain.Builder.{
  grow, shrink, initial_building, current_segment, restore_from_segment,
}
use starkstream_dna.Chain.Abstract.{reorg_at, IsValid}
use starkstream_dna.Chain.Grow.{grow-building}
use starkstream_dna.Chain.Shrink.{shrink-building}
use starkstream_dna.Chain.Resolve.{Resolves, Grows-Resolves, Shrinks-Resolves, Restores-Resolves}
use starkstream_dna.Chain.Restore.{restore-current}

-- One successful call that keeps the builder's first block: taking a segment is no such call. A block
-- is added behind a block whose hash is not zero, since behind a zero hash `can_grow` accepts every
-- block, and numbers stay within 64 bits. A restart restores the builder from its current segment.
pub data Step (b c : Building) : Type 0 where
  grows :
      (block : BlockInfo)
      → is_zero b.info.last_block.hash ≡ false
      → b.info.last_block.number + 1 < u64_mod
      → grow (building b) block ≡ ok (building c)
      → Step b c
  shrinks :
      (head : Cursor) (removed : List Cursor)
      → shrink (building b) head ≡ ok (removed, building c)
      → Step b c
  restarts :
      (segment : CanonicalChainSegment)
      → current_segment (building b) ≡ ok segment
      → restore_from_segment segment ≡ ok (building c)
      → Step b c

pub data Reach : Building → Type 0 where
  started :
      (block : BlockInfo) {b : Building}
      → block.number < u64_mod
      → grow empty block ≡ ok (building b)
      → Reach b
  stepped : {b c : Building} → Reach b → Step b c → Reach c

building-injective : {b c : Building} → building b ≡ building c → b ≡ c
building-injective e = cc

ok_building-injective :
    {b c : Building}
    → ◌≡◌ {A = Result CanonicalChainError CanonicalChainBuilder} (ok (building b)) (ok (building c))
    → b ≡ c
ok_building-injective e = cc

abbrev IsSound : Building → Type 0
IsSound b = IsValid b × Resolves b

initial-IsSound : (block : BlockInfo) → block.number < u64_mod → IsSound (initial_building block)
unfolding reorg_at lookup_or lookup
initial-IsSound block h = (
  record { gapless = omega arith; bounded = h; first = refl; last = refl },
  λ n k t e. absurd (cc),
)

started-IsSound :
    (block : BlockInfo) (b : Building)
    → block.number < u64_mod
    → grow empty block ≡ ok (building b)
    → IsSound b
unfolding grow
started-IsSound block b h e = subst IsSound (ok_building-injective e) (initial-IsSound block h)

grows-IsSound :
    (b c : Building) (block : BlockInfo)
    → IsSound b
    → is_zero b.info.last_block.hash ≡ false
    → b.info.last_block.number + 1 < u64_mod
    → grow (building b) block ≡ ok (building c)
    → IsSound c
grows-IsSound b c block (v, r) z room e = elim (grow-building b block v z room) [
  | inl (next, _, g) ↦
      subst IsSound (ok_building-injective (sym g.grows ∙ e))
        (g.valid, Grows-Resolves b v r block (omega arith) g)
  | inr (_, bad) ↦ absurd (cc)
]

shrinks-IsSound :
    (b c : Building) (head : Cursor) (removed : List Cursor)
    → IsSound b
    → shrink (building b) head ≡ ok (removed, building c)
    → IsSound c
shrinks-IsSound b c head removed (v, r) e = elim (shrink-building b head v) [
  | inl (canonical, s) ↦
      let same : s.after ≡ c = cc in
      subst IsSound same (s.valid, Shrinks-Resolves b v r head canonical s)
  | inr (_, bad) ↦ absurd (cc)
]

restarts-IsSound :
    (b c : Building) (segment : CanonicalChainSegment)
    → IsSound b
    → current_segment (building b) ≡ ok segment
    → restore_from_segment segment ≡ ok (building c)
    → IsSound c
restarts-IsSound b c segment (v, r) e f =
    let (s, taken, restores) = restore-current b v in
    let segments : s ≡ segment = ok-injective (sym taken ∙ e) in
    let same : restores.after ≡ c =
      ok_building-injective (sym restores.restored_from ∙ ap restore_from_segment segments ∙ f) in
    subst IsSound same (restores.valid, Restores-Resolves b v r s restores)

-- In every history from a first block on, of successful calls that add a block behind one whose hash is
-- not zero, shrink the builder, or restore it from its current segment after a restart, with numbers
-- within 64 bits and no segment taken, the builder stays gapless, and every block that was reorged away
-- and is still recorded points to a lower block within the builder that is canonical or was replaced
-- itself.
pub Reach-IsSound : {b : Building} → Reach b → IsValid b × Resolves b
Reach-IsSound (started block {b} h e) = started-IsSound block b h e
Reach-IsSound (stepped {b} {c} r (grows block z room e)) =
    grows-IsSound b c block (Reach-IsSound r) z room e
Reach-IsSound (stepped {b} {c} r (shrinks head removed e)) =
    shrinks-IsSound b c head removed (Reach-IsSound r) e
Reach-IsSound (stepped {b} {c} r (restarts segment e f)) =
    restarts-IsSound b c segment (Reach-IsSound r) e f
