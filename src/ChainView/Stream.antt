-- ===== src/ChainView/Stream.antt =====
-- A client that asks for the next cursor again and again.
use starkstream_dna.Base.{
  ℕ, zero, suc, ◌+◌, ◌≤◌, ◌≡◌, refl, ap, ◌∙◌, true, false, Option, none, some, List, [], ◌∷◌, arith,
  ◌==◌, bytes_eq_iff, Result, ok, ◌>>=◌,
}
use starkstream_dna.Core.{Cursor, new}
use starkstream_dna.Chain.{continue}
use starkstream_dna.ChainView.Full.{
  ChainStore, FullCanonicalChain, ChainViewError, NextCursor, continue_at, invalidate, at_head,
  get_next_cursor,
}
use starkstream_dna.ChainView.Represents.{
  ChainSpec, Represents, action, next_answer, get_next_cursor-answer, canonical-found,
}

-- Why a client has no further cursor: its rounds are used up, it is at the head, or it is sent back.
pub data Ending : Type 0 where
  running : Ending
  head_reached : Ending
  sent_back : Cursor → Ending

-- The cursors that a client saw, and why it stopped.
abbrev pub Heard : Type 0
Heard = Result ChainViewError (List Cursor × Ending)

-- What the client adds for an answer, given what it sees from a cursor on.
abbrev pub heard : (Cursor → Heard) → NextCursor → Heard
heard onward (continue_at c is_head) = do (rest, ending) ← onward c; ok (c ∷ rest, ending)
heard onward (invalidate target) = ok ([], sent_back target)
heard onward at_head = ok ([], head_reached)

-- What the client sees, in so many rounds, from a cursor on.
pub streamed : ChainStore → FullCanonicalChain → ℕ → Option Cursor → Heard
streamed store f zero c = ok ([], running)
streamed store f (suc rounds) c = do
  next ← get_next_cursor store f c
  heard (λ d. streamed store f rounds (some d)) next

-- So many blocks of the chain, from a number on.
pub blocks_from : ChainSpec → ℕ → ℕ → List Cursor
blocks_from ch n zero = []
blocks_from ch n (suc k) = new n (ch.hash n) ∷ blocks_from ch (n + 1) k

module _ (store : ChainStore) (f : FullCanonicalChain) (ch : ChainSpec)
    (r : Represents store f ch) where
  canonical-action : (n : ℕ) → action ch (new n (ch.hash n)) ≡ continue
  canonical-action n = rw ((bytes_eq_iff (ch.hash n) (ch.hash n)).1 refl)

  canonical-next :
      (n : ℕ)
      → f.starting_block ≤ n
      → n ≤ f.recent.info.last_block.number
      → get_next_cursor store f (some (new n (ch.hash n))) ≡ next_answer f ch n continue
  canonical-next n low high =
      get_next_cursor-answer store f ch (new n (ch.hash n)) r low high
      ∙ ap (next_answer f ch n) (canonical-action n)

  streamed-from :
      (k n : ℕ)
      → f.starting_block ≤ n
      → n + k ≡ f.recent.info.last_block.number
      → streamed store f (suc k) (some (new n (ch.hash n)))
        ≡ ok (blocks_from ch (n + 1) k, head_reached)
  unfolding streamed blocks_from
  streamed-from zero n low e =
      let last : (n == f.recent.info.last_block.number) ≡ true = ground arith in
      rw (canonical-next n low (omega arith), last)
  streamed-from (suc k) n low e =
      let more : (n == f.recent.info.last_block.number) ≡ false = ground arith in
      rw (
        canonical-next n low (omega arith),
        more,
        streamed-from k (n + 1) (omega arith) (omega arith),
      )

-- A client that starts without a cursor sees, in enough rounds, exactly the canonical blocks from
-- the starting block to the head, in order and each once, and then the answer that it is at the head:
-- it is never sent back.
pub streamed-chain :
    (store : ChainStore) (f : FullCanonicalChain) (ch : ChainSpec) (k : ℕ)
    → Represents store f ch
    → f.starting_block + k ≡ f.recent.info.last_block.number
    → streamed store f (suc (suc k)) none
      ≡ ok (blocks_from ch f.starting_block (suc k), head_reached)
unfolding streamed blocks_from get_next_cursor
streamed-chain store f ch k r e = rw (
  canonical-found store f ch r f.starting_block (omega arith) (omega arith),
  streamed-from store f ch r k f.starting_block (omega arith) (omega arith),
)
