-- ===== src/ChainView/Represents.antt =====
-- The chain that a `FullCanonicalChain` and its store present, and what the view answers about it.
use native.Mathlib.Nat.{div-mul-le_self}
use starkstream_dna.Base.{
  ℕ, ◌+◌, ◌-◌, ◌*◌, ◌/◌, ◌≤◌, ◌<◌, ◌≡◌, refl, true, false, ◌||◌, Option, some, arith, leb, ◌==◌,
  if◌then◌else◌, Bool-cases, inl, inr, add_u64, sub_u64, mul_u64, u64_mod, bytes_eq, Result, ok,
  err, dec_le,
}
use starkstream_dna.Core.{Hash, Cursor, new, is_zero}
use starkstream_dna.Chain.{ReconnectAction, continue, offline_reorg, unknown, CanonicalChainSegment}
use starkstream_dna.Chain.Segment.{canonical, reconnect, reorg_action}
use starkstream_dna.ChainView.Full.{
  ChainStore, FullCanonicalChain, ChainViewError, chain_view, NextCursor, continue_at, invalidate,
  at_head, chain_segment_start, get_chain_segment, get_canonical_impl, next_after, get_next_cursor,
}

-- A chain: the canonical hash at each number, and where a reorged block was sent.
pub record ChainSpec : Type 0 where
  pub hash : ℕ → Hash
  pub reorg : ℕ → Hash → Option Cursor

-- What a client at a cursor has to do.
abbrev pub action : ChainSpec → Cursor → ReconnectAction
action ch c =
    if bytes_eq (ch.hash c.number) c.hash || is_zero c.hash
    then continue
    else reorg_action (ch.reorg c.number c.hash)

-- A segment that knows the chain at a number.
pub record Covers (ch : ChainSpec) (s : CanonicalChainSegment) (n : ℕ) : Type 0 where
  pub canonicals : canonical s n ≡ ok (new n (ch.hash n))
  pub reconnects : (h : Hash) → reconnect s (new n h) ≡ ok (action ch (new n h))

-- The number at which the stored segment of a block starts.
abbrev pub segment_start : FullCanonicalChain → ℕ → ℕ
segment_start f n =
    (n - f.starting_block) / f.chain_segment_size * f.chain_segment_size + f.starting_block

-- The recent segment knows the chain from its first block to the head; what lies before it is in
-- the stored segments, each at the number where it starts.
pub record Represents (store : ChainStore) (f : FullCanonicalChain) (ch : ChainSpec) : Type 1 where
  pub sized : 0 < f.chain_segment_size
  pub starts : f.starting_block ≤ f.recent.info.first_block.number
  pub ordered : f.recent.info.first_block.number ≤ f.recent.info.last_block.number
  pub bounded : f.recent.info.last_block.number < u64_mod
  pub recents :
      (n : ℕ)
      → f.recent.info.first_block.number ≤ n
      → n ≤ f.recent.info.last_block.number
      → Covers ch f.recent n
  pub stored :
      (n : ℕ)
      → f.starting_block ≤ n
      → n < f.recent.info.first_block.number
      → (s : CanonicalChainSegment) × (store.get (segment_start f n) ≡ ok (some s)) × Covers ch s n

-- What `get_next_cursor` has to answer at a cursor, by its action.
abbrev pub next_answer :
    FullCanonicalChain → ChainSpec → ℕ → ReconnectAction → Result ChainViewError NextCursor
next_answer f ch n continue =
    if n == f.recent.info.last_block.number
    then ok at_head
    else ok (continue_at (new (n + 1) (ch.hash (n + 1))) (n + 1 == f.recent.info.last_block.number))
next_answer f ch n (offline_reorg target) = ok (invalidate target)
next_answer f ch n unknown = err chain_view

module _ (store : ChainStore) (f : FullCanonicalChain) (ch : ChainSpec)
    (r : Represents store f ch) where
  start-eq :
      (n : ℕ)
      → f.starting_block ≤ n
      → n < u64_mod
      → chain_segment_start n f.starting_block f.chain_segment_size ≡ ok (segment_start f n)
  unfolding chain_segment_start
  start-eq n low high =
      let a = n - f.starting_block in
      let k = f.chain_segment_size in
      let sized : (k == 0) ≡ false = ground (arith, r.sized) in
      let offset : sub_u64 n f.starting_block ≡ a = omega arith in
      let bound = div-mul-le_self a k in
      let product : mul_u64 (a / k) k ≡ a / k * k = omega (arith, bound) in
      let sum : add_u64 (a / k * k) f.starting_block ≡ a / k * k + f.starting_block =
        omega (arith, bound) in
      rw (sized, offset, product, sum)

  -- The segment that is looked up for a block knows the chain there.
  pub found :
      (n : ℕ)
      → f.starting_block ≤ n
      → n ≤ f.recent.info.last_block.number
      → (s : CanonicalChainSegment) × (get_chain_segment store f n ≡ ok s) × Covers ch s n
  unfolding get_chain_segment
  found n low high = elim (dec_le f.recent.info.first_block.number n) [
    | yes h ↦
        let test : leb f.recent.info.first_block.number n ≡ true = ground arith in
        (f.recent, rw test, r.recents n h high)
    | no h ↦
        let test : leb f.recent.info.first_block.number n ≡ false = ground arith in
        let (s, e, c) = r.stored n low (omega arith) in
        (s, rw (test, start-eq n low (omega (arith, r.bounded)), e), c)
  ]

  pub canonical-found :
      (n : ℕ)
      → f.starting_block ≤ n
      → n ≤ f.recent.info.last_block.number
      → get_canonical_impl store f n ≡ ok (new n (ch.hash n))
  unfolding get_canonical_impl
  canonical-found n low high = let (s, e, c) = found n low high in rw (e, c.canonicals)

  next_after-answer :
      (c : Cursor) (a : ReconnectAction)
      → f.starting_block ≤ c.number
      → c.number ≤ f.recent.info.last_block.number
      → next_after store f c a ≡ next_answer f ch c.number a
  unfolding next_after
  next_after-answer c continue low high =
      elim (Bool-cases (c.number == f.recent.info.last_block.number)) [
        | inl last ↦ rw last
        | inr more ↦
            let next : add_u64 c.number 1 ≡ c.number + 1 = ground (arith, r.bounded) in
            rw (more, next, canonical-found (c.number + 1) (omega arith) (ground arith))
      ]
  next_after-answer c (offline_reorg target) low high = refl
  next_after-answer c unknown low high = refl

-- At a cursor between the starting block and the head, the view answers by what became of its
-- block: behind a canonical block it goes on with the next canonical block, and tells whether that
-- is the head, or that the head is reached; a reorged block is sent to its recorded head; for an
-- unknown block the answer is an error.
pub get_next_cursor-answer :
    (store : ChainStore) (f : FullCanonicalChain) (ch : ChainSpec) (c : Cursor)
    → Represents store f ch
    → f.starting_block ≤ c.number
    → c.number ≤ f.recent.info.last_block.number
    → get_next_cursor store f (some c) ≡ next_answer f ch c.number (action ch c)
unfolding get_next_cursor
get_next_cursor-answer store f ch c r low high =
    let (s, e, covers) = found store f ch r c.number low high in
    rw (e, covers.reconnects c.hash) (next_after-answer store f ch r c (action ch c) low high)
