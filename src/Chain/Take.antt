-- ===== src/Chain/Take.antt =====
-- `take_segment` cuts the oldest blocks off as a finished segment.
mod Drain
use mathlib.Core.Option
use Drain.{drain_blocks-segment, drain_blocks-left}
use starkstream_dna.Base.{
  ℕ, zero, suc, ◌+◌, ◌-◌, ◌<◌, ◌≤◌, ◌≡◌, refl, sym, ap, ◌∙◌, ◌⊎◌, inl, inr, Bool, true, false, not,
  ◌&&◌, Option, none, some, [], ◌∷◌, List, arith, ltb, leb, ◌==◌, if◌then◌else◌, Bool-cases,
  Option-cases, dec_lt, length, get_elem?, take, drop, get_elem?-take, get_elem?-drop, length-take,
  length-drop, get_elem?-none, get_elem?-lt, u64_mod, add_u64, sub_u64, bytes_eq, Result, ok, err,
  ok_or, find,
}
use starkstream_dna.Base.Maps.{nat_ord, bytes_ord, BTreeMap, lookup, lookup_or, unwrap_or}
use starkstream_dna.Core.{Hash, Cursor, new, is_zero}
use starkstream_dna.Chain.{
  ReorgMap, CanonicalBlock, ReconnectAction, CanonicalChainSegmentInfo, CanonicalChainSegment,
  CanonicalChainError, builder, view, Building, CanonicalChainBuilder, building,
}
use starkstream_dna.Chain.Builder.{take_segment, drain_blocks, segment_blocks}
use starkstream_dna.Chain.Segment.{canonical, reconnect, find_extra, block_at}
use starkstream_dna.Chain.Abstract.{
  hash_at, reorg_at, IsValid, hash_at-cases, hash_at_range, size_pos, get_elem?-hash_at,
}
use starkstream_dna.Chain.Current.{
  segment_of, canonical_answer, answer_from, reconnect_answer, canonical-segment, reconnect-segment,
}

-- A finished segment and the builder that goes on behind it.
pub record Takes (b : Building) (size : ℕ) : Type 0 where
  pub segment : CanonicalChainSegment
  pub after : Building
  pub takes : take_segment (building b) size ≡ ok (segment, building after)
  pub valid : IsValid after
  pub first_block : segment.info.first_block ≡ b.info.first_block
  pub last_number : segment.info.last_block.number + 1 ≡ b.info.first_block.number + size
  pub next : after.info.first_block.number ≡ b.info.first_block.number + size
  pub last_block : after.info.last_block ≡ b.info.last_block
  pub previous : segment.previous_segment ≡ b.previous_segment
  pub linked : after.previous_segment ≡ some segment.info
  pub canonicals :
      (n : ℕ)
      → canonical segment n
        ≡ (if ltb n (b.info.first_block.number + size) then canonical_answer b n else err view)
  pub reconnects :
      (c : Cursor)
      → reconnect segment c ≡ (
          if ltb c.number (b.info.first_block.number + size)
          then reconnect_answer b c
          else err view)
  pub hashes :
      (n : ℕ)
      → hash_at after n ≡ (if ltb n (b.info.first_block.number + size) then none else hash_at b n)
  pub reorgs :
      (n : ℕ) (h : Hash)
      → reorg_at after n h ≡ (
          if ltb n (b.info.first_block.number + size) && leb b.info.first_block.number n
          then none
          else reorg_at b n h)

module _ (b : Building) (size : ℕ) (v : IsValid b) (pos : 0 < size) where
  abbrev first : ℕ
  first = b.info.first_block.number

  abbrev drained : List CanonicalBlock × BTreeMap ℕ ReorgMap
  drained = drain_blocks first 0 b.reorgs (take size b.canonical)

  module _ (room : size + first ≤ b.info.last_block.number) where
    more : size < length b.canonical
    more = omega (arith, v.gapless)

    last_hash : (h : Hash) × (get_elem? b.canonical (size - 1) ≡ some h)
    last_hash = get_elem?-lt b.canonical (size - 1) (omega (arith, more))

    next_hash : (h : Hash) × (get_elem? b.canonical size ≡ some h)
    next_hash = get_elem?-lt b.canonical size more

    abbrev segment_info : CanonicalChainSegmentInfo
    segment_info = record {
      first_block = b.info.first_block;
      last_block = new (first + size - 1) last_hash.0;
    }

    abbrev taken : CanonicalChainSegment
    taken = record {
      previous_segment = b.previous_segment;
      info = segment_info;
      canonical = drained.0;
      extra_reorgs = [];
    }

    abbrev rest : Building
    rest = record {
      previous_segment = some segment_info;
      info = record {
        first_block = new (first + size) next_hash.0;
        last_block = b.info.last_block;
      };
      canonical = drop size b.canonical;
      reorgs = drained.1;
    }

    -- The blocks that are taken, as a builder of their own.
    abbrev front : Building
    front = record b { info = segment_info; canonical = take size b.canonical }

    takes : take_segment (building b) size ≡ ok (taken, building rest)
    unfolding take_segment
    takes =
        let enough : ltb (sub_u64 b.info.last_block.number first) size ≡ false =
          ground (arith, v.bounded) in
        let end : sub_u64 size 1 ≡ size - 1 = omega (arith, v.bounded) in
        let number : sub_u64 (add_u64 first size) 1 ≡ first + size - 1 = omega (arith, v.bounded) in
        let next : add_u64 first size ≡ first + size = omega (arith, v.bounded) in
        let start : size + 0 ≡ size = omega arith in
        let behind = get_elem?-drop size b.canonical 0 size (omega arith) in
        rw (enough, end, last_hash.1, number, behind, next_hash.1, next)

    front-IsValid : IsValid front
    front-IsValid = record {
      gapless = omega (arith, length-take size b.canonical (omega (arith, more)));
      bounded = omega (arith, v.bounded);
      first = get_elem?-take size b.canonical 0 pos ∙ v.first;
      last =
          rw (length-take size b.canonical (omega (arith, more)))
            (get_elem?-take size b.canonical (size - 1) (omega arith) ∙ last_hash.1);
    }

    rest-IsValid : IsValid rest
    rest-IsValid = record {
      gapless = omega (arith, v.gapless, length-drop size b.canonical);
      bounded = v.bounded;
      first = get_elem?-drop size b.canonical 0 size (omega arith) ∙ next_hash.1;
      last = rw (length-drop size b.canonical) (
          get_elem?-drop size b.canonical (length b.canonical - size - 1) (length b.canonical - 1)
            (omega (arith, more))
          ∙ v.last);
    }

    fits : first + 0 + length (take size b.canonical) ≤ u64_mod
    fits =
        omega
          (arith, v.gapless, v.bounded, more, length-take size b.canonical (omega (arith, more)))

    drained-front : drained.0 ≡ (segment_of front).canonical
    drained-front = drain_blocks-segment first 0 b.reorgs (take size b.canonical) fits

    hash_at-front : (n : ℕ) → n < first + size → hash_at front n ≡ hash_at b n
    unfolding hash_at
    hash_at-front n low = ground (arith, get_elem?-take size b.canonical (n - first))

    hash_at-rest : (n : ℕ) → hash_at rest n ≡ (if ltb n (first + size) then none else hash_at b n)
    unfolding hash_at
    hash_at-rest n =
        ground (arith, get_elem?-drop size b.canonical (n - (first + size)) (n - first))

    reorg_at-rest :
        (n : ℕ) (h : Hash)
        → reorg_at rest n h ≡ (if ltb n (first + size) && leb first n then none else reorg_at b n h)
    unfolding reorg_at lookup_or lookup
    reorg_at-rest n h =
        let size' = length-take size b.canonical (omega (arith, more)) in
        let start : first + 0 ≡ first = omega arith in
        let left = drain_blocks-left first 0 b.reorgs (take size b.canonical) n fits in
        ap (λ o. lookup h (unwrap_or [] o)) left ∙ rw (size', start) (ground arith)

    canonical-front : (n : ℕ) → canonical taken n ≡ canonical (segment_of front) n
    unfolding canonical block_at
    canonical-front n = ap (λ cs. canonical (record taken { canonical = cs }) n) drained-front

    canonical-taken :
        (n : ℕ)
        → canonical taken n ≡ (if ltb n (first + size) then canonical_answer b n else err view)
    unfolding canonical canonical_answer
    canonical-taken n = elim (dec_lt n (first + size)) [
      | yes low ↦
          let test : ltb n (first + size) ≡ true = ground arith in
          rw test (
            canonical-front n
            ∙ canonical-segment front front-IsValid n
            ∙ ap (λ o. ok_or view (Option.map (new n) o)) (hash_at-front n low))
      | no high ↦
          let test : ltb n (first + size) ≡ false = ground arith in
          let since : ltb n first ≡ false = ground arith in
          let above : ltb (first + size - 1) n ≡ true = ground arith in rw (test, since, above)
    ]

    reconnect-front :
        (c : Cursor) → c.number < first + size → reconnect taken c ≡ reconnect (segment_of front) c
    unfolding reconnect block_at
    reconnect-front c low =
        let until : ltb (first + size - 1) c.number ≡ false = ground arith in
        rw (until, drained-front)

    answer-front :
        (c : Cursor) → c.number < first + size → reconnect_answer front c ≡ reconnect_answer b c
    unfolding reconnect_answer reorg_at
    answer-front c low =
        ap (answer_from first (lookup c.number b.reorgs) (reorg_at b c.number c.hash) c)
          (hash_at-front c.number low)

    reconnect-taken :
        (c : Cursor)
        → reconnect taken c
          ≡ (if ltb c.number (first + size) then reconnect_answer b c else err view)
    unfolding reconnect find_extra find
    reconnect-taken c = elim (dec_lt c.number (first + size)) [
      | yes low ↦
          let test : ltb c.number (first + size) ≡ true = ground arith in
          rw test
            (reconnect-front c low ∙ reconnect-segment front front-IsValid c ∙ answer-front c low)
      | no high ↦
          let test : ltb c.number (first + size) ≡ false = ground arith in
          let since : ltb c.number first ≡ false = ground arith in
          let above : ltb (first + size - 1) c.number ≡ true = ground arith in
          rw (test, since, above)
    ]

    Takes-room : Takes b size
    Takes-room = record {
      segment = taken;
      after = rest;
      takes = takes;
      valid = rest-IsValid;
      first_block = refl;
      last_number = omega arith;
      next = refl;
      last_block = refl;
      previous = refl;
      linked = refl;
      canonicals = canonical-taken;
      reconnects = reconnect-taken;
      hashes = hash_at-rest;
      reorgs = reorg_at-rest;
    }

-- From a valid builder a positive number of blocks can be taken exactly if more blocks than that
-- are there; a request for more is refused with an error, and nothing panics. The segment that is
-- taken answers as the builder did up to its last block and refuses what is above; the builder goes
-- on at the next number, linked to the segment, and keeps the other hashes and reorgs.
pub take-building :
    (b : Building) (size : ℕ)
    → IsValid b
    → 0 < size
    → ((size < length b.canonical) × Takes b size)
      ⊎ ((length b.canonical ≤ size) × (take_segment (building b) size ≡ err builder))
unfolding take_segment
take-building b size v pos = elim (dec_lt size (length b.canonical)) [
  | yes more ↦ inl (more, Takes-room b size v pos (omega (arith, v.gapless)))
  | no less ↦
      let short : ltb (sub_u64 b.info.last_block.number b.info.first_block.number) size ≡ true =
        ground (arith, v.gapless, v.bounded, size_pos b v) in
      inr (omega arith, rw short)
]
