-- ===== src/Compaction/Pruned.antt =====
-- Which blocks the prune loop deletes.
use starkstream_dna.Base.{
  ℕ, zero, suc, ◌+◌, ◌≤◌, ◌<◌, u64_mod, add_u64, sub_u64, ltb, Bool, if-cases, inl, inr, ◌⊎◌,
  Option, some, List, [], ◌∷◌, ◌++◌, ◌≡◌, refl, sym, ap, ◌∙◌, subst, arith, Result, ok, ◌>>=◌,
  >>=-eq-ok, ok-injective, change_context,
}
use mathlib.Core.List.{append_assoc, append-nil}
use starkstream_dna.Etcd.{Etcd}
use starkstream_dna.StateClient.{put_pruned}
use starkstream_dna.Compaction.{CompactionError, compaction_error}
use starkstream_dna.Compaction.Prune.{
  BlockStore, Pruning, Left, ran, cancelled, delete_block, update_pruned, prune_segment, prune_from,
}

-- So many blocks, from one on.
abbrev pub blocks_from : ℕ → ℕ → List ℕ
blocks_from start zero = []
blocks_from start (suc n) = start ∷ blocks_from (suc start) n

blocks_from-append :
    (start m n : ℕ) → blocks_from start m ++ blocks_from (start + m) n ≡ blocks_from start (m + n)
blocks_from-append start zero n =
    ap (λ s. blocks_from s n) (omega arith) ∙ ap (blocks_from start) (omega arith)
blocks_from-append start (suc m) n =
    ap (λ s. start ∷ (blocks_from (suc start) m ++ blocks_from s n)) (omega arith)
    ∙ ap (◌∷◌ start) (blocks_from-append (suc start) m n)
    ∙ ap (blocks_from start) {x = suc (m + n)} (omega arith)

pub cancelled-not-ran :
    {E : Etcd} {S : BlockStore} {a b : ℕ} {p q : Pruning E S} → ¬ (cancelled a p ≡ ran b q)
cancelled-not-ran e = cc

module _ {E : Etcd} {S : BlockStore} where
  -- From one block to before another, every block was deleted, in order, once.
  pub record Deletes (from to : ℕ) (p q : Pruning E S) : Type 0 where
    pub count : ℕ
    pub ends : to ≡ from + count
    pub all : q.deleted ≡ p.deleted ++ blocks_from from count

  pub Deletes-none : (from : ℕ) (p : Pruning E S) → Deletes from from p p
  Deletes-none from p = record { count = 0; ends = omega arith; all = sym (append-nil p.deleted) }

  pub Deletes-then :
      {a b c : ℕ} {p q r : Pruning E S} → Deletes a b p q → Deletes b c q r → Deletes a c p r
  Deletes-then {a} {b} {c} {p} {q} {r} d e = record {
    count = d.count + e.count;
    ends = omega (arith, d.ends, e.ends);
    all =
        e.all
        ∙ ap (λ ds. ds ++ blocks_from b e.count) d.all
        ∙ append_assoc p.deleted (blocks_from a d.count) (blocks_from b e.count)
        ∙ ap (λ s. p.deleted ++ (blocks_from a d.count ++ blocks_from s e.count)) d.ends
        ∙ ap (λ ds. p.deleted ++ ds) (blocks_from-append a d.count e.count);
  }

  -- What a loop that started at a block leaves: it deleted the blocks before the next one, none of
  -- them after the grouped one.
  abbrev pub Prunes : ℕ → ℕ → Pruning E S → Left E S → Type 0
  Prunes grouped from p (ran next q) = Deletes from next p q × (next ≤ suc grouped)
  Prunes grouped from p (cancelled next q) = Deletes from next p q × (next ≤ suc grouped)

  Prunes-then :
      (grouped : ℕ) {a b : ℕ} {p q : Pruning E S} (left : Left E S)
      → Deletes a b p q
      → Prunes grouped b q left
      → Prunes grouped a p left
  Prunes-then grouped (ran next r) d (e, bound) = (Deletes-then d e, bound)
  Prunes-then grouped (cancelled next r) d (e, bound) = (Deletes-then d e, bound)

  -- And when it was not cancelled, no block before the grouped one is left.
  abbrev pub Pruned : ℕ → ℕ → Pruning E S → Left E S → Type 0
  Pruned grouped from p (ran next q) =
      Deletes from next p q × (next ≤ suc grouped) × (grouped ≤ next)
  Pruned grouped from p (cancelled next q) = Deletes from next p q × (next ≤ suc grouped)

  pub Pruned-then :
      (grouped : ℕ) {a b : ℕ} {p q : Pruning E S} (left : Left E S)
      → Deletes a b p q
      → Pruned grouped b q left
      → Pruned grouped a p left
  Pruned-then grouped (ran next r) d (e, bound, all) = (Deletes-then d e, bound, all)
  Pruned-then grouped (cancelled next r) d (e, bound) = (Deletes-then d e, bound)

module _ {E : Etcd} (prefix : List ℕ) {S : BlockStore} where
  delete_block-Deletes :
      (block : ℕ) (p : Pruning E S) {q : Pruning E S}
      → delete_block prefix block p ≡ ok q
      → Deletes block (suc block) p q
  unfolding delete_block
  delete_block-Deletes block p h =
      let (store, done, h1) =
        >>=-eq-ok (change_context compaction_error (S.delete_block_with_prefix block p.store)) _
          h in
      subst (Deletes block (suc block) p) (ok-injective h1)
        (record { count = 1; ends = omega arith; all = refl })

  pub update_pruned-Deletes :
      (block at : ℕ) (p : Pruning E S) {q : Pruning E S}
      → update_pruned prefix block p ≡ ok q
      → Deletes at at p q
  unfolding update_pruned
  update_pruned-Deletes block at p h =
      let (etcd, done, h1) =
        >>=-eq-ok (change_context compaction_error (put_pruned E prefix block p.etcd)) _ h in
      subst (Deletes at at p) (ok-injective h1)
        (record { count = 0; ends = omega arith; all = sym (append-nil p.deleted) })

  module _ (ct : ℕ → Bool) (grouped : ℕ) (small : suc grouped < u64_mod) where
    pub prune_segment-Prunes :
        (more current : ℕ) (p : Pruning E S) {left : Left E S}
        → current ≤ suc grouped
        → prune_segment prefix ct grouped more current p ≡ ok left
        → Prunes grouped current p left
    unfolding prune_segment
    prune_segment-Prunes zero current p low h =
        subst (Prunes grouped current p) (ok-injective h) (Deletes-none current p, low)
    prune_segment-Prunes (suc more) current p {left} low h = elim (if-cases (ct current) h) [
      | inl (_, h1) ↦
          subst (Prunes grouped current p) (ok-injective h1) (Deletes-none current p, low)
      | inr (_, h1) ↦ elim (if-cases (ltb grouped current) h1) [
        | inl (_, h2) ↦
            subst (Prunes grouped current p) (ok-injective h2) (Deletes-none current p, low)
        | inr (inside, h2) ↦
            let (q, done, h3) =
              >>=-eq-ok (delete_block prefix current p)
                (prune_segment prefix ct grouped more (add_u64 current 1)) h2 in
            let next : add_u64 current 1 ≡ suc current = ground arith in
            Prunes-then grouped left (delete_block-Deletes current p done) (
              prune_segment-Prunes more (suc current) q (ground arith)
                (subst (λ n. prune_segment prefix ct grouped more n q ≡ ok left) next h3))
      ]
    ]

    pub prune_segment-moves :
        (more current next : ℕ) (p : Pruning E S) {q : Pruning E S}
        → current ≤ grouped
        → prune_segment prefix ct grouped (suc more) current p ≡ ok (ran next q)
        → current < next
    unfolding prune_segment
    prune_segment-moves more current next p {q} low h = elim (if-cases (ct current) h) [
      | inl (_, h1) ↦ absurd (cancelled-not-ran (ok-injective h1))
      | inr (_, h1) ↦ elim (if-cases (ltb grouped current) h1) [
        | inl (outside, _) ↦ absurd (ground arith)
        | inr (_, h2) ↦
            let (r, done, h3) =
              >>=-eq-ok (delete_block prefix current p)
                (prune_segment prefix ct grouped more (add_u64 current 1)) h2 in
            let one : add_u64 current 1 ≡ suc current = ground arith in
            let (d, _) =
              prune_segment-Prunes more (suc current) r {left = ran next q} (omega arith)
                (subst (λ n. prune_segment prefix ct grouped more n r ≡ ok (ran next q)) one h3) in
            omega (arith, d.ends)
      ]
    ]

    -- What follows a segment in the outer loop.
    abbrev pub onward : ℕ → ℕ → Left E S → Result CompactionError (Option (Left E S))
    onward segment_size fuel (cancelled next q) = ok (some (cancelled next q))
    onward segment_size fuel (ran next q) =
        update_pruned prefix (sub_u64 next 1) q
        >>= prune_from prefix ct grouped segment_size fuel next

    pub rounds :
        (segment_size fuel current : ℕ) (p : Pruning E S) {r : Option (Left E S)}
        → prune_from prefix ct grouped segment_size (suc fuel) current p ≡ ok r
        → ((grouped ≤ current) × (r ≡ some (ran current p)))
          ⊎ ((current < grouped)
              × ((left : Left E S) × (prune_segment prefix ct grouped segment_size current p
                    ≡ ok left)
                  × (onward segment_size fuel left ≡ ok r)))
    unfolding prune_from
    rounds segment_size fuel current p {r} h = elim (if-cases (ltb current grouped) h) [
      | inr (past, h1) ↦ inl (ground arith, sym (ok-injective h1))
      | inl (before, h1) ↦
          let (left, e, h2) =
            >>=-eq-ok (prune_segment prefix ct grouped segment_size current p) _ h1 in
          inr (
            ground arith,
            (
              left,
              e,
              elim left
                    as (λ left.
                      (elim left as (λ _. Result CompactionError (Option (Left E S))) [
                        | cancelled next p ↦ ok (some (cancelled next p))
                        | ran next p ↦
                            update_pruned prefix (sub_u64 next 1) p
                            >>= prune_from prefix ct grouped segment_size fuel next
                      ])
                        ≡ ok r
                      → onward segment_size fuel left ≡ ok r) [
                        | cancelled next q ↦ λ h. h
                        | ran next q ↦ λ h. h
                      ]
                  h2,
            ),
          )
    ]
