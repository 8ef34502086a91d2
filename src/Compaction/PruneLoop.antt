-- ===== src/Compaction/PruneLoop.antt =====
-- The prune loop deletes what is left up to the grouped block, and ends.
use starkstream_dna.Base.{
  ℕ, zero, suc, ◌-◌, ◌≤◌, ◌<◌, u64_mod, sub_u64, Bool, inl, inr, Option, none, some, List, ◌≡◌, ◌≢◌,
  sym, subst, arith, Result, ok, >>=-eq-ok, ok-injective,
}
use starkstream_dna.Core.{Cursor}
use starkstream_dna.Etcd.{Etcd}
use starkstream_dna.StateClient.{get_grouped}
use starkstream_dna.Compaction.{CompactionError}
use starkstream_dna.Compaction.Prune.{
  BlockStore, Pruning, Left, ran, cancelled, update_pruned, prune_segment, prune_from,
  starting_block, prune_loop,
}
use starkstream_dna.Compaction.Pruned.{
  Deletes-none, Deletes-then, update_pruned-Deletes, Prunes, prune_segment-Prunes, Pruned,
  Pruned-then, prune_segment-moves, onward, rounds,
}

module _ {A : Type 0} where
  none-not-some : {a : A} → ¬ (◌≡◌ {A = Option A} none (some a))
  none-not-some e = cc

  some-injective : {a b : A} → ◌≡◌ {A = Option A} (some a) (some b) → a ≡ b
  some-injective e = cc

module _ {E : Etcd} (prefix : List ℕ) {S : BlockStore} (ct : ℕ → Bool) (grouped : ℕ)
    (small : suc grouped < u64_mod) (segment_size : ℕ) where
  abbrev loop : ℕ → ℕ → Pruning E S → Result CompactionError (Option (Left E S))
  loop fuel current p = prune_from prefix ct grouped segment_size fuel current p

  prune_from-Pruned :
      (fuel current : ℕ) (p : Pruning E S) {left : Left E S}
      → current ≤ suc grouped
      → loop fuel current p ≡ ok (some left)
      → Pruned grouped current p left
  unfolding prune_from
  prune_from-Pruned zero current p low h = absurd (none-not-some (ok-injective h))
  prune_from-Pruned (suc fuel) current p {left} low h =
      elim (rounds prefix ct grouped small segment_size fuel current p h) [
        | inl (past, same) ↦
            subst (Pruned grouped current p) (sym (some-injective same))
              (Deletes-none current p, low, past)
        | inr (before, (batch, e, h1)) ↦
            (elim batch
                as (λ batch.
                  Prunes grouped current p batch
                  → onward prefix ct grouped small segment_size fuel batch ≡ ok (some left)
                  → Pruned grouped current p left) [
                    | cancelled next q ↦ λ d h1.
                        subst (Pruned grouped current p) (some-injective (ok-injective h1)) d
                    | ran next q ↦ λ (d, bound) h1.
                        let (r, put, h2) =
                          >>=-eq-ok (update_pruned prefix (sub_u64 next 1) q)
                            (prune_from prefix ct grouped segment_size fuel next) h1 in
                        Pruned-then grouped left
                          (Deletes-then d
                            (update_pruned-Deletes prefix (sub_u64 next 1) next q put))
                          (prune_from-Pruned fuel next r bound h2)
                  ])
              (prune_segment-Prunes prefix ct grouped small segment_size current p low e) h1
      ]

  moves_on :
      (current next : ℕ) (p : Pruning E S) {q : Pruning E S}
      → 0 < segment_size
      → current ≤ grouped
      → prune_segment prefix ct grouped segment_size current p ≡ ok (ran next q)
      → current < next
  moves_on current next p {q} filled low h =
      (elim segment_size
          as (λ n.
            0 < n
            → prune_segment prefix ct grouped n current p ≡ ok (ran next q)
            → current < next) [
              | zero ↦ λ filled h. absurd (omega arith)
              | suc more ↦
                  λ filled h. prune_segment-moves prefix ct grouped small more current next p low h
            ])
        filled h

  prune_from-ends :
      (fuel current : ℕ) (p : Pruning E S)
      → 0 < segment_size
      → grouped - current < fuel
      → loop fuel current p ≢ ok none
  unfolding prune_from
  prune_from-ends zero current p filled fits = absurd (omega arith)
  prune_from-ends (suc fuel) current p filled fits = λ h.
      elim (rounds prefix ct grouped small segment_size fuel current p h) [
        | inl (past, same) ↦ none-not-some same
        | inr (before, (batch, e, h1)) ↦
            (elim batch
                as (λ batch.
                  prune_segment prefix ct grouped segment_size current p ≡ ok batch
                  → ¬ (onward prefix ct grouped small segment_size fuel batch ≡ ok none)) [
                    | cancelled next q ↦ λ e h1. none-not-some (sym (ok-injective h1))
                    | ran next q ↦ λ e h1.
                        let (r, put, h2) =
                          >>=-eq-ok (update_pruned prefix (sub_u64 next 1) q)
                            (prune_from prefix ct grouped segment_size fuel next) h1 in
                        let moves = moves_on current next p filled (omega arith) e in
                        prune_from-ends fuel next r filled (omega arith) h2
                  ])
              e h1
      ]

pub prune_loop-Pruned :
    (E : Etcd) (prefix : List ℕ) (S : BlockStore) (ct : ℕ → Bool)
    (segment_size fuel grouped start : ℕ) (genesis : Result CompactionError Cursor)
    (p : Pruning E S) {left : Left E S}
    → suc grouped < u64_mod
    → get_grouped E prefix p.etcd ≡ ok (some grouped)
    → starting_block prefix genesis p ≡ ok start
    → start ≤ suc grouped
    → prune_loop prefix ct segment_size fuel genesis p ≡ ok (some left)
    → Pruned grouped start p left
unfolding prune_loop
prune_loop-Pruned E prefix S ct segment_size fuel grouped start genesis p {left} small found from
      low h =
    prune_from-Pruned prefix ct grouped small segment_size fuel start p low (rw (found, from) at h)

-- The prune loop ends, with or without an error, when a segment has a block: it takes fewer rounds
-- than there are blocks from the start to the grouped block, and one.
pub prune_loop-ends :
    (E : Etcd) (prefix : List ℕ) (S : BlockStore) (ct : ℕ → Bool)
    (segment_size fuel grouped start : ℕ) (genesis : Result CompactionError Cursor)
    (p : Pruning E S)
    → suc grouped < u64_mod
    → get_grouped E prefix p.etcd ≡ ok (some grouped)
    → starting_block prefix genesis p ≡ ok start
    → 0 < segment_size
    → grouped - start < fuel
    → prune_loop prefix ct segment_size fuel genesis p ≢ ok none
unfolding prune_loop
prune_loop-ends E prefix S ct segment_size fuel grouped start genesis p small found from filled fits
      h =
    prune_from-ends prefix ct grouped small segment_size fuel start p filled fits
      (rw (found, from) at h)
