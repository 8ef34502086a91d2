-- ===== src/Chain/Tests.antt =====
-- Runs of the builder on small chains, and the theorems on builders at concrete inputs.
use starkstream_dna.Base.{
  ℕ, ◌+◌, ◌≤◌, ◌<◌, length, ◌≡◌, ◌≢◌, ◌⊎◌, refl, none, some, [], ◌∷◌, ok, err, ◌>>=◌, Result,
  bytes_eq, compare_bytes, arith,
}
use starkstream_dna.Base.Maps.{lookup, lookup_or, insert}
use starkstream_dna.Core.{Cursor, new, is_zero}
use starkstream_dna.Chain.{
  BlockInfo, CanonicalChainError, builder, view, Building, CanonicalChainBuilder,
  CanonicalChainSegment, empty, building, offline_reorg,
}
use starkstream_dna.Chain.Builder.{
  grow, shrink, truncate, take_segment, current_segment, restore_from_segment, initial_building,
}
use starkstream_dna.Chain.Segment.{reconnect}
use starkstream_dna.Chain.Abstract.{hash_at, reorg_at, IsValid}
use starkstream_dna.Chain.Grow.{Grows, grow-building}
use starkstream_dna.Chain.Take.{Takes, take-building}
use starkstream_dna.Chain.Shrink.{Shrinks, shrink-building}
use starkstream_dna.Chain.Current.{Answers, current_segment-Answers}
use starkstream_dna.Chain.History.{Reach, started, stepped, grows, shrinks, Reach-IsSound}
use starkstream_dna.Chain.Resolve.{Resolves}
use starkstream_dna.Chain.Settle.{Settles, reorged-Settles}
use starkstream_dna.Chain.Restore.{Restores, restore-current, restart-forgets}

abbrev block : ℕ → ℕ → ℕ → BlockInfo
block n h p = record { number = n; hash = h ∷ []; parent = p ∷ [] }

abbrev head : Cursor
head = new 7 (1 ∷ [])

-- Blocks 7, 8 and 9.
abbrev trio : Building
trio = record {
  previous_segment = none;
  info = record { first_block = head; last_block = new 9 (3 ∷ []) };
  canonical = (1 ∷ []) ∷ (2 ∷ []) ∷ (3 ∷ []) ∷ [];
  reorgs = [];
}

-- After a reorg down to block 7.
abbrev cut_back : Building
cut_back = record {
  previous_segment = none;
  info = record { first_block = head; last_block = head };
  canonical = (1 ∷ []) ∷ [];
  reorgs = (8, ((2 ∷ []), head) ∷ []) ∷ (9, ((3 ∷ []), head) ∷ []) ∷ [];
}

grow_trio : Result CanonicalChainError CanonicalChainBuilder
grow_trio = do b ← grow empty (block 7 1 0); b ← grow b (block 8 2 1); grow b (block 9 3 2)

grows_trio : grow_trio ≡ ok (building trio)
unfolding grow_trio grow is_zero bytes_eq compare_bytes
grows_trio = refl

shrinks_trio :
    shrink (building trio) head ≡ ok (new 8 (2 ∷ []) ∷ new 9 (3 ∷ []) ∷ [], building cut_back)
unfolding shrink truncate bytes_eq compare_bytes lookup lookup_or insert
shrinks_trio = refl

shrink_unknown : shrink (building trio) (new 8 (9 ∷ [])) ≡ err builder
unfolding shrink bytes_eq compare_bytes
shrink_unknown = refl

take_too_much : take_segment (building trio) 3 ≡ err builder
unfolding take_segment
take_too_much = refl

trio-IsValid : IsValid trio
trio-IsValid = record { gapless = omega arith; bounded = omega arith; first = refl; last = refl }

cut_back-IsValid : IsValid cut_back
cut_back-IsValid = record {
  gapless = omega arith;
  bounded = omega arith;
  first = refl;
  last = refl;
}

grow-building_example :
    ((10 ≡ trio.info.last_block.number + 1)
      × ((block 10 4 3).parent ≡ trio.info.last_block.hash)
      × Grows trio (block 10 4 3))
    ⊎ ((¬ (
          (10 ≡ trio.info.last_block.number + 1)
          × ((block 10 4 3).parent ≡ trio.info.last_block.hash)))
        × (grow (building trio) (block 10 4 3) ≡ err builder))
unfolding is_zero
grow-building_example = grow-building trio (block 10 4 3) trio-IsValid refl (omega arith)

shrink-building_example :
    ((hash_at trio head.number ≡ some head.hash) × Shrinks trio head)
    ⊎ ((hash_at trio head.number ≢ some head.hash) × (shrink (building trio) head ≡ err builder))
shrink-building_example = shrink-building trio head trio-IsValid

current_segment-Answers_example :
    (s : CanonicalChainSegment) × (current_segment (building cut_back) ≡ ok s)
    × (s.info ≡ cut_back.info)
    × Answers cut_back s
current_segment-Answers_example = current_segment-Answers cut_back cut_back-IsValid

restore-current_example :
    (s : CanonicalChainSegment) × (current_segment (building trio) ≡ ok s) × Restores trio s
restore-current_example = restore-current trio trio-IsValid

restart-forgets_example :
    (s : CanonicalChainSegment) × (b' : Building) × (s' : CanonicalChainSegment) × (current_segment
        (building cut_back)
      ≡ ok s)
    × (restore_from_segment s ≡ ok (building b'))
    × (current_segment (building b') ≡ ok s')
    × (reconnect s (new 9 (3 ∷ [])) ≡ ok (offline_reorg head))
    × (reconnect s' (new 9 (3 ∷ [])) ≡ err view)
unfolding reorg_at lookup_or lookup compare_bytes
restart-forgets_example =
    restart-forgets cut_back 9 (3 ∷ []) head cut_back-IsValid (omega arith) refl

initial : Building
initial = initial_building (block 7 1 0)

pair : Building
pair = record trio {
  info = record { first_block = head; last_block = new 8 (2 ∷ []) };
  canonical = (1 ∷ []) ∷ (2 ∷ []) ∷ [];
}

trio-Reach : Reach trio
unfolding grow is_zero bytes_eq compare_bytes initial pair
trio-Reach =
    stepped {b = pair}
      (stepped {b = initial} (started (block 7 1 0) (omega arith) refl)
        (grows (block 8 2 1) refl (omega arith) refl))
      (grows (block 9 3 2) refl (omega arith) refl)

cut_back-Reach : Reach cut_back
cut_back-Reach = stepped trio-Reach (shrinks head _ shrinks_trio)

Reach-IsSound_example : IsValid cut_back × Resolves cut_back
Reach-IsSound_example = Reach-IsSound cut_back-Reach

reorged-Settles_example :
    (s : CanonicalChainSegment) × (current_segment (building cut_back) ≡ ok s)
    × (u : Cursor) × Settles s (new 9 (3 ∷ [])) u
    × (u.number ≤ 9)
unfolding reorg_at lookup_or lookup compare_bytes
reorged-Settles_example = reorged-Settles cut_back 9 (3 ∷ []) head cut_back-Reach refl

take-building_example :
    ((2 < length trio.canonical) × Takes trio 2)
    ⊎ ((length trio.canonical ≤ 2) × (take_segment (building trio) 2 ≡ err builder))
take-building_example = take-building trio 2 trio-IsValid (omega arith)
