-- ===== src/Chain/Segment.antt =====
-- common/src/chain.rs: what a `CanonicalChainSegment` answers.
use starkstream_dna.Base.{
  ℕ, not, ◌||◌, Option, none, some, List, map, ltb, ◌==◌, if◌then◌else◌, bytes_eq, get_elem?, find,
  sub_u64, Result, ok, ◌>>=◌, ◌>>◌, ensure, ok_or, or_panic,
}
use starkstream_dna.Base.Maps.{bytes_ord, lookup, keys}
use starkstream_dna.Core.{Cursor, new, is_zero}
use starkstream_dna.Chain.{
  ReconnectAction, continue, offline_reorg, unknown, ReorgMap, CanonicalBlock, ExtraReorg,
  CanonicalChainSegment, CanonicalChainError, view,
}

-- `&self.canonical[offset as usize]`
unfoldable pub block_at : CanonicalChainSegment → ℕ → Result CanonicalChainError CanonicalBlock
block_at s number = or_panic (get_elem? s.canonical (sub_u64 number s.info.first_block.number))

unfoldable pub canonical : CanonicalChainSegment → ℕ → Result CanonicalChainError Cursor
canonical s block_number = do
  ensure (not (ltb block_number s.info.first_block.number)) view
  ensure (not (ltb s.info.last_block.number block_number)) view
  block ← block_at s block_number
  ok (new block_number block.hash)

unfoldable pub find_extra : CanonicalChainSegment → ℕ → Result CanonicalChainError ExtraReorg
find_extra s number = ok_or view (find (λ r. r.block_number == number) s.extra_reorgs)

abbrev sibling_cursors : ℕ → ReorgMap → List Cursor
sibling_cursors number reorgs = map (new number) (keys reorgs)

unfoldable pub siblings : CanonicalChainSegment → Cursor → Result CanonicalChainError (List Cursor)
siblings s cursor = do
  ensure (not (ltb cursor.number s.info.first_block.number)) view
  if ltb s.info.last_block.number cursor.number
      then (do extra ← find_extra s cursor.number; ok (sibling_cursors cursor.number extra.reorgs))
      else (do block ← block_at s cursor.number; ok (sibling_cursors cursor.number block.reorgs))

abbrev pub reorg_action : Option Cursor → ReconnectAction
reorg_action none = unknown
reorg_action (some target) = offline_reorg target

unfoldable pub reconnect :
    CanonicalChainSegment → Cursor → Result CanonicalChainError ReconnectAction
reconnect s cursor = do
  ensure (not (ltb cursor.number s.info.first_block.number)) view
  if ltb s.info.last_block.number cursor.number
      then (do
        extra ← find_extra s cursor.number
        ok (reorg_action (lookup cursor.hash extra.reorgs)))
      else (do
        block ← block_at s cursor.number
        ok (
            if bytes_eq block.hash cursor.hash || is_zero cursor.hash
            then continue
            else reorg_action (lookup cursor.hash block.reorgs)))
