-- ===== src/Chain/Restore.antt =====
-- `restore_from_segment` after a restart: what the segment keeps of the builder, and what is lost.
use mathlib.Core.Option
use mathlib.Core.List.{append-nil, append_assoc}
use starkstream_dna.Base.{
  slot, slot-cons, ℕ, suc, ◌+◌, ◌-◌, ◌<◌, ◌≤◌, ◌≡◌, refl, sym, ap, ◌∙◌, inl, inr, true, false,
  Option, none, some, [], ◌∷◌, ◌++◌, map, List, arith, ltb, length, get_elem?-none, u64_mod,
  add_u64, ok, err,
}
use starkstream_dna.Base.Maps.{
  nat_ord, bytes_ord, BTreeMap, lookup, lookup_or, unwrap_or, lookup-insert,
}
use starkstream_dna.Core.{Hash, Cursor, new}
use starkstream_dna.Chain.{
  ReorgMap, CanonicalBlock, offline_reorg, CanonicalChainSegment, view, Building, building,
}
use starkstream_dna.Chain.Builder.{
  current_segment, restore_from_segment, restore_blocks, segment_blocks,
}
use starkstream_dna.Chain.Segment.{reconnect}
use starkstream_dna.Chain.Abstract.{
  hash_at, reorg_at, IsValid, hash_at-cases, hash_at_above, size_pos, get_elem?-hash_at,
}
use starkstream_dna.Chain.Current.{
  segment_of, block_of, segment_blocks-get_elem?, extra_answer, reconnect_answer, reconnect-segment,
}

hashes_of : List CanonicalBlock → List Hash
hashes_of = map (λ b. b.hash)

restore_blocks-canonical :
    (first offset : ℕ) (bs : List CanonicalBlock) (canonical : List Hash) (m : BTreeMap ℕ ReorgMap)
    → (restore_blocks first offset bs canonical m).0 ≡ canonical ++ hashes_of bs
unfolding restore_blocks hashes_of
restore_blocks-canonical first offset [] canonical m = sym (append-nil canonical)
restore_blocks-canonical first offset (b ∷ bs) canonical m =
    restore_blocks-canonical first (suc offset) bs _ _
    ∙ append_assoc canonical (b.hash ∷ []) (hashes_of bs)

abbrev entry : Option CanonicalBlock → Option ReorgMap → Option ReorgMap
entry none before = before
entry (some b) before = some b.reorgs

restore_blocks-lookup :
    (first offset : ℕ) (bs : List CanonicalBlock) (canonical : List Hash) (m : BTreeMap ℕ ReorgMap)
    (n : ℕ)
    → first + offset + length bs ≤ u64_mod
    → lookup n (restore_blocks first offset bs canonical m).1
      ≡ entry (slot (first + offset) bs n) (lookup n m)
unfolding restore_blocks
restore_blocks-lookup first offset [] canonical m n fits = ground arith
restore_blocks-lookup first offset (b ∷ bs) canonical m n fits =
    let here : add_u64 first offset ≡ first + offset = omega arith in
    let onward : first + suc offset ≡ suc (first + offset) = omega arith in
    restore_blocks-lookup first (suc offset) bs _ _ n (omega arith)
    ∙ rw (here, onward, slot-cons) (ground (arith, lookup-insert n (first + offset) b.reorgs m))

segment_blocks-hashes :
    (first offset : ℕ) (m : BTreeMap ℕ ReorgMap) (hs : List Hash)
    → hashes_of (segment_blocks first offset m hs) ≡ hs
unfolding segment_blocks hashes_of
segment_blocks-hashes first offset m [] = refl
segment_blocks-hashes first offset m (h ∷ hs) =
    ap (◌∷◌ h) (segment_blocks-hashes first (suc offset) m hs)

segment_blocks-length :
    (first offset : ℕ) (m : BTreeMap ℕ ReorgMap) (hs : List Hash)
    → length (segment_blocks first offset m hs) ≡ length hs
unfolding segment_blocks
segment_blocks-length first offset m [] = refl
segment_blocks-length first offset m (h ∷ hs) =
    ap suc (segment_blocks-length first (suc offset) m hs)

entry-block :
    (m : BTreeMap ℕ ReorgMap) (n : ℕ) (o : Option Hash)
    → entry (Option.map (block_of m n) o) none ≡ Option.map (λ h. lookup_or n [] m) o
unfolding block_of
entry-block m n none = refl
entry-block m n (some h) = refl

-- The recorded reorgs of a block number without a canonical block are lost.
abbrev pub reorg_kept : Option Hash → Option Cursor → Option Cursor
reorg_kept none t = none
reorg_kept (some g) t = t

kept-of :
    (m : BTreeMap ℕ ReorgMap) (n : ℕ) (h : Hash) (o : Option Hash)
    → lookup h (unwrap_or [] (Option.map (λ g. lookup_or n [] m) o))
      ≡ reorg_kept o (lookup h (lookup_or n [] m))
unfolding lookup
kept-of m n h none = refl
kept-of m n h (some g) = refl

module _ (b : Building) (v : IsValid b) where
  abbrev restored : Building
  restored = record b {
    reorgs = (restore_blocks b.info.first_block.number 0 (segment_of b).canonical [] []).1;
  }

  blocks : List CanonicalBlock
  blocks = (segment_of b).canonical

  restores : restore_from_segment (segment_of b) ≡ ok (building restored)
  unfolding restore_from_segment
  restores = rw (
      restore_blocks-canonical b.info.first_block.number 0 (segment_of b).canonical [] []
      ∙ segment_blocks-hashes b.info.first_block.number 0 b.reorgs b.canonical)

  slot-blocks :
      (n : ℕ)
      → slot b.info.first_block.number blocks n ≡ Option.map (block_of b.reorgs n) (hash_at b n)
  unfolding blocks
  slot-blocks n = elim (hash_at-cases b v n) [
    | inl (inl low, missing) ↦
        let below : ltb n b.info.first_block.number ≡ true = ground arith in rw (missing, below)
    | inl (inr high, missing) ↦
        let since : ltb n b.info.first_block.number ≡ false =
          ground (arith, v.gapless, size_pos b v) in
        let size = segment_blocks-length b.info.first_block.number 0 b.reorgs b.canonical in
        rw (missing, since)
          (get_elem?-none _ (n - b.info.first_block.number) (omega (arith, size, v.gapless)))
    | inr (h, held, low, high) ↦
        let since : ltb n b.info.first_block.number ≡ false = ground arith in
        rw (held, since)
          (segment_blocks-get_elem? b.info.first_block.number 0 b.reorgs b.canonical
              (n - b.info.first_block.number) n (omega arith) (omega (arith, v.bounded))
            ∙ ap (Option.map (block_of b.reorgs n)) (get_elem?-hash_at b v n h held))
  ]

  restored-lookup :
      (n : ℕ) → lookup n restored.reorgs ≡ Option.map (λ h. lookup_or n [] b.reorgs) (hash_at b n)
  unfolding blocks lookup
  restored-lookup n =
      let size = segment_blocks-length b.info.first_block.number 0 b.reorgs b.canonical in
      let from : b.info.first_block.number + 0 ≡ b.info.first_block.number = omega arith in
      restore_blocks-lookup b.info.first_block.number 0 (segment_of b).canonical [] [] n
        (omega (arith, size, v.gapless, v.bounded))
      ∙ rw (from, slot-blocks) (entry-block b.reorgs n (hash_at b n))

  restored-IsValid : IsValid restored
  restored-IsValid = record {
    gapless = v.gapless;
    bounded = v.bounded;
    first = v.first;
    last = v.last;
  }

  restored-reorg_at :
      (n : ℕ) (h : Hash) → reorg_at restored n h ≡ reorg_kept (hash_at b n) (reorg_at b n h)
  unfolding reorg_at lookup_or lookup
  restored-reorg_at n h =
      ap (λ o. lookup h (unwrap_or [] o)) (restored-lookup n) ∙ kept-of b.reorgs n h (hash_at b n)

above-answer :
    (b : Building) (v : IsValid b) (n : ℕ) (h : Hash)
    → b.info.last_block.number < n
    → reconnect_answer b (new n h) ≡ extra_answer (lookup n b.reorgs) h
unfolding reconnect_answer
above-answer b v n h above =
    let since : ltb n b.info.first_block.number ≡ false = ground (arith, v.gapless, size_pos b v) in
    rw (since, hash_at_above b v n above)

extra-recorded :
    (h : Hash) (t : Cursor) (o : Option ReorgMap)
    → lookup h (unwrap_or [] o) ≡ some t
    → extra_answer o h ≡ ok (offline_reorg t)
unfolding lookup
extra-recorded h t none e = absurd (cc)
extra-recorded h t (some r) e = rw e

-- What a restart leaves of a builder.
pub record Restores (b : Building) (s : CanonicalChainSegment) : Type 0 where
  pub after : Building
  pub restored_from : restore_from_segment s ≡ ok (building after)
  pub valid : IsValid after
  pub same_info : after.info ≡ b.info
  pub previous : after.previous_segment ≡ b.previous_segment
  pub hashes : (n : ℕ) → hash_at after n ≡ hash_at b n
  pub reorgs : (n : ℕ) (h : Hash) → reorg_at after n h ≡ reorg_kept (hash_at b n) (reorg_at b n h)

-- Restoring a builder from its current segment succeeds, and gives a valid builder with the same
-- range, link to the previous segment and canonical hashes. The reorgs recorded at the numbers of
-- canonical blocks stay; those recorded at other numbers are gone.
pub restore-current :
    (b : Building)
    → IsValid b
    → (s : CanonicalChainSegment) × (current_segment (building b) ≡ ok s) × Restores b s
unfolding current_segment hash_at
restore-current b v = (
  segment_of b,
  refl,
  record {
    after = restored b v;
    restored_from = restores b v;
    valid = restored-IsValid b v;
    same_info = refl;
    previous = refl;
    hashes = λ n. refl;
    reorgs = restored-reorg_at b v;
  },
)

-- The defect: a client on a block above the head that was reorged away is sent to the new head by
-- the segment before a restart of the ingestion, and gets an error from the segment after it,
-- although the head is the same.
pub restart-forgets :
    (b : Building) (n : ℕ) (h : Hash) (t : Cursor)
    → IsValid b
    → b.info.last_block.number < n
    → reorg_at b n h ≡ some t
    → (s : CanonicalChainSegment) × (b' : Building) × (s' : CanonicalChainSegment)
      × (current_segment (building b) ≡ ok s)
      × (restore_from_segment s ≡ ok (building b'))
      × (current_segment (building b') ≡ ok s')
      × (reconnect s (new n h) ≡ ok (offline_reorg t))
      × (reconnect s' (new n h) ≡ err view)
unfolding current_segment reorg_at lookup_or
restart-forgets b n h t v above e = (
  segment_of b,
  restored b v,
  segment_of (restored b v),
  refl,
  restores b v,
  refl,
  reconnect-segment b v (new n h)
      ∙ above-answer b v n h above
      ∙ extra-recorded h t (lookup n b.reorgs) e,
  reconnect-segment (restored b v) (restored-IsValid b v) (new n h)
      ∙ above-answer (restored b v) (restored-IsValid b v) n h above
      ∙ rw (restored-lookup b v n, hash_at_above b v n above),
)
