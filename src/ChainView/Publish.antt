-- ===== src/ChainView/Publish.antt =====
-- The ingestion moves the oldest recent blocks into a stored segment; readers see the same chain.
use native.Mathlib.Nat.{div-mul-le_self, add-mul-div_right, div-eq_of_lt}
use starkstream_dna.Base.{
  ℕ, ◌+◌, ◌-◌, ◌*◌, ◌/◌, ◌≤◌, ◌<◌, ◌≡◌, refl, sym, ap, ◌∙◌, inl, inr, true, false, some, arith, ltb,
  ◌==◌, length, ok, dec_lt, subst,
}
use starkstream_dna.Core.{Hash, Cursor, new}
use starkstream_dna.Chain.{CanonicalChainSegment, Building, building}
use starkstream_dna.Chain.Builder.{current_segment, take_segment}
use starkstream_dna.Chain.Segment.{canonical, reconnect}
use starkstream_dna.Chain.Abstract.{hash_at, reorg_at, IsValid, hash_at-cases, first-le-last}
use starkstream_dna.Chain.Current.{
  segment_of, canonical_answer, reconnect_answer, canonical-segment, reconnect-segment,
}
use starkstream_dna.Chain.Take.{Takes, take-building}
use starkstream_dna.ChainView.Full.{ChainStore, FullCanonicalChain, set_recent, put_segment}
use starkstream_dna.ChainView.Represents.{ChainSpec, Covers, Represents, segment_start}

-- All blocks of a segment have the same start.
start-aligned :
    (start k size first n : ℕ)
    → 0 < size
    → first ≡ start + k * size
    → first ≤ n
    → n < first + size
    → (n - start) / size * size + start ≡ first
start-aligned start k size first n pos aligned low high =
    let r = n - first in
    let split : n - start ≡ r + k * size = omega arith in
    let quotient : r / size ≡ 0 = div-eq_of_lt (omega arith) in
    rw (split, add-mul-div_right r k pos, quotient) (omega arith)

module _ (ch : ChainSpec) (b : Building) (v : IsValid b) where
  -- A segment that answers as the current one knows the chain where that one does.
  as-Covers :
      (s : CanonicalChainSegment) (n : ℕ)
      → canonical s n ≡ canonical_answer b n
      → ((h : Hash) → reconnect s (new n h) ≡ reconnect_answer b (new n h))
      → Covers ch (segment_of b) n
      → Covers ch s n
  as-Covers s n p q c = record {
    canonicals = p ∙ sym (canonical-segment b v n) ∙ c.canonicals;
    reconnects = λ h. q h ∙ sym (reconnect-segment b v (new n h)) ∙ c.reconnects h;
  }

  module _ (size : ℕ) (t : Takes b size) where
    taken-Covers :
        (n : ℕ)
        → n < b.info.first_block.number + size
        → Covers ch (segment_of b) n
        → Covers ch t.segment n
    taken-Covers n low =
        let test : ltb n (b.info.first_block.number + size) ≡ true = ground arith in
        as-Covers t.segment n (t.canonicals n ∙ rw test) (λ h. t.reconnects (new n h) ∙ rw test)

    hash_at-after : (n : ℕ) → b.info.first_block.number + size ≤ n → hash_at t.after n ≡ hash_at b n
    hash_at-after n high =
        let test : ltb n (b.info.first_block.number + size) ≡ false = ground arith in
        t.hashes n ∙ rw test

    answer-after :
        (n : ℕ) (h g : Hash)
        → b.info.first_block.number + size ≤ n
        → hash_at b n ≡ some g
        → reconnect_answer t.after (new n h) ≡ reconnect_answer b (new n h)
    unfolding reconnect_answer
    answer-after n h g high e =
        let test : ltb n (b.info.first_block.number + size) ≡ false = ground arith in
        let since : ltb n b.info.first_block.number ≡ false = ground arith in
        let later : ltb n t.after.info.first_block.number ≡ false = ground (arith, t.next) in
        let target : reorg_at t.after n h ≡ reorg_at b n h = t.reorgs n h ∙ rw test in
        rw (hash_at-after n high, e, since, later, target)

    after-Covers :
        (n : ℕ)
        → b.info.first_block.number + size ≤ n
        → n ≤ b.info.last_block.number
        → Covers ch (segment_of b) n
        → Covers ch (segment_of t.after) n
    unfolding canonical_answer
    after-Covers n high low c = elim (hash_at-cases b v n) [
      | inl (inl below, _) ↦ absurd (omega arith)
      | inl (inr above, _) ↦ absurd (omega arith)
      | inr (g, e, _, _) ↦
          as-Covers (segment_of t.after) n
            (canonical-segment t.after t.valid n ∙ rw (hash_at-after n high))
            (λ h. reconnect-segment t.after t.valid (new n h) ∙ answer-after n h g high e) c
    ]

module _ (store : ChainStore) (start size : ℕ) (ch : ChainSpec) (b : Building) (k : ℕ)
    (v : IsValid b) (t : Takes b size) where
  -- The view before and after.
  abbrev before : FullCanonicalChain
  before = record { starting_block = start; chain_segment_size = size; recent = segment_of b }

  abbrev afterwards : FullCanonicalChain
  afterwards = record {
    starting_block = start;
    chain_segment_size = size;
    recent = segment_of t.after;
  }

  same_last : t.after.info.last_block.number ≡ b.info.last_block.number
  same_last = ap (λ (c : Cursor). c.number) t.last_block

  module _ (r : Represents store before ch)
      (aligned : b.info.first_block.number ≡ start + k * size) where
    stored-afterwards :
        (n : ℕ)
        → start ≤ n
        → n < t.after.info.first_block.number
        → (s : CanonicalChainSegment) × ((put_segment store t.segment).get
              (segment_start afterwards n)
            ≡ ok (some s))
          × Covers ch s n
    stored-afterwards n low high = elim (dec_lt n b.info.first_block.number) [
      | yes old ↦
          let (s, e, c) = r.stored n low old in
          let bound = div-mul-le_self (n - start) size in
          let other : (segment_start afterwards n == t.segment.info.first_block.number) ≡ false =
            ground (arith, ap (λ (c : Cursor). c.number) t.first_block) in
          (s, rw other e, c)
      | no new_one ↦
          let found : segment_start afterwards n ≡ b.info.first_block.number =
            start-aligned start k size b.info.first_block.number n r.sized aligned (omega arith)
              (omega (arith, t.next)) in
          let here : (segment_start afterwards n == t.segment.info.first_block.number) ≡ true =
            ground (arith, found, ap (λ (c : Cursor). c.number) t.first_block) in
          (
            t.segment,
            rw here,
            taken-Covers ch b v size t n (omega (arith, t.next)) (
                r.recents n (omega arith)
                  (omega (arith, first-le-last t.after t.valid, same_last))),
          )
    ]

    Represents-afterwards : Represents (put_segment store t.segment) afterwards ch
    Represents-afterwards = record {
      sized = r.sized;
      starts = omega (arith, r.starts, t.next);
      ordered = first-le-last t.after t.valid;
      bounded = t.valid.bounded;
      recents = λ n low high.
          after-Covers ch b v size t n (omega (arith, t.next)) (omega (arith, same_last))
            (r.recents n (omega (arith, t.next)) (omega (arith, same_last)));
      stored = stored-afterwards;
    }

next-start : (k size : ℕ) → (k + 1) * size ≡ k * size + size
next-start k size = omega arith

-- A builder whose current segment the view reads, at a number where a stored segment starts, gives
-- up as many blocks as a stored segment has. With that segment in the store and the new current
-- segment as the recent one, the view presents the same chain, and the builder starts again at a
-- number where a stored segment starts.
pub take-Represents :
    (store : ChainStore) (f : FullCanonicalChain) (ch : ChainSpec) (b : Building) (k : ℕ)
    → IsValid b
    → current_segment (building b) ≡ ok f.recent
    → Represents store f ch
    → b.info.first_block.number ≡ f.starting_block + k * f.chain_segment_size
    → f.chain_segment_size < length b.canonical
    → (segment : CanonicalChainSegment) × (c : Building) × (recent : CanonicalChainSegment)
      × (take_segment (building b) f.chain_segment_size ≡ ok (segment, building c))
      × (current_segment (building c) ≡ ok recent)
      × (c.info.first_block.number ≡ f.starting_block + (k + 1) * f.chain_segment_size)
      × Represents (put_segment store segment) (set_recent f recent) ch
unfolding current_segment set_recent
take-Represents store f ch b k v e r aligned more =
    elim (take-building b f.chain_segment_size v r.sized) [
      | inl (_, t) ↦
          let same : f.recent ≡ segment_of b = cc in
          let r' = subst (λ s. Represents store (record f { recent = s }) ch) same r in
          (
            t.segment,
            t.after,
            segment_of t.after,
            t.takes,
            refl,
            omega (arith, t.next, aligned, next-start k f.chain_segment_size),
            Represents-afterwards store f.starting_block f.chain_segment_size ch b k v t r' aligned,
          )
      | inr (few, _) ↦ absurd (omega arith)
    ]
