-- ===== src/Chain/Shrink.antt =====
-- `shrink` cuts the chain back to one of its blocks and remembers what it cut.
mod Loop
use Loop.{noted, remove_blocks-lookup, remove_blocks-removed, numbered, numbered-get_elem?}
use mathlib.Core.Option
use starkstream_dna.Base.{
  slot, ℕ, suc, ◌+◌, ◌-◌, ◌≤◌, ◌<◌, ◌≡◌, ◌≢◌, refl, ap, ◌∙◌, ◌⊎◌, ◌↔◌, inl, inr, Bool, true, false,
  ◌&&◌, Option, none, some, List, [], ◌∷◌, arith, Bool-cases, dec_lt, Option-cases, ltb, leb, ◌==◌,
  if◌then◌else◌, length, get_elem?, take, drop, length-take, get_elem?-none, get_elem?-take,
  get_elem?-drop, lt-of-get_elem?, length-drop, u64_mod, add_u64, sub_u64, bytes_eq, bytes_eq_iff,
  compare_bytes_eq, Result, ok, err,
}
use starkstream_dna.Base.Maps.{
  nat_ord, bytes_ord, BTreeMap, lookup, lookup_or, unwrap_or, insert, lookup-insert,
}
use starkstream_dna.Core.{Hash, Cursor, new}
use starkstream_dna.Chain.{
  ReorgMap, CanonicalChainError, builder, Building, CanonicalChainBuilder, building,
}
use starkstream_dna.Chain.Builder.{shrink, truncate, holds_hash, remove_blocks}
use starkstream_dna.Chain.Abstract.{
  hash_at, reorg_at, IsValid, size_pos, hash_at_above, hash_at_range, hash_at_last,
}

-- Whether the block is the one at that place.
abbrev pub is_hash : Option Hash → Hash → Bool
is_hash none h = false
is_hash (some g) h = bytes_eq g h

pub is_hash_iff : (o : Option Hash) (h : Hash) → (is_hash o h ≡ true) ↔ (o ≡ some h)
is_hash_iff none h = ground arith
is_hash_iff (some g) h = ground (arith, bytes_eq_iff g h)

-- The builder after `shrink`, and what it stands for.
pub record Shrinks (b : Building) (head : Cursor) : Type 0 where
  pub removed : List Cursor
  pub after : Building
  pub shrinks : shrink (building b) head ≡ ok (removed, building after)
  pub valid : IsValid after
  pub ends : after.info.last_block ≡ head
  pub hashes : (n : ℕ) → hash_at after n ≡ (if leb n head.number then hash_at b n else none)
  pub reorgs :
      (n : ℕ) (h : Hash)
      → reorg_at after n h
        ≡ (if ltb head.number n && is_hash (hash_at b n) h then some head else reorg_at b n h)
  pub listed :
      (j : ℕ)
      → get_elem? removed j
        ≡ Option.map (new (head.number + 1 + j)) (hash_at b (head.number + 1 + j))
  pub start : after.info.first_block ≡ b.info.first_block
  pub previous : after.previous_segment ≡ b.previous_segment

module _ (b : Building) (head : Cursor) (v : IsValid b) where
  abbrev index : ℕ
  index = head.number - b.info.first_block.number

  abbrev cut : List Cursor × BTreeMap ℕ ReorgMap
  cut =
      remove_blocks head b.info.first_block.number (index + 1) (drop (index + 1) b.canonical) []
        b.reorgs

  abbrev truncated : Building
  truncated = record b {
    info = record { first_block = b.info.first_block; last_block = head };
    canonical = take (index + 1) b.canonical;
    reorgs = cut.1;
  }

  module _ (canonical : hash_at b head.number ≡ some head.hash) where
    range : (b.info.first_block.number ≤ head.number) × (head.number ≤ b.info.last_block.number)
    range = hash_at_range b v head.number canonical

    held : get_elem? b.canonical index ≡ some head.hash
    unfolding hash_at
    held = ground (arith, range, canonical)

    kept : length (take (index + 1) b.canonical) ≡ index + 1
    kept = length-take (index + 1) b.canonical (omega (arith, range, v.gapless))

    found : holds_hash b.canonical index head.hash ≡ true
    found = ground (arith, held, bytes_eq_iff head.hash head.hash)

    -- The checks of `shrink` pass at a canonical block.
    passes :
        shrink (building b) head
        ≡ (if index == length b.canonical - 1 then ok ([], building b) else truncate b head index)
    unfolding shrink
    passes =
        let low : ltb head.number b.info.first_block.number ≡ false = ground (arith, range) in
        let high : ltb b.info.last_block.number head.number ≡ false = ground (arith, range) in
        let offset : sub_u64 head.number b.info.first_block.number
            ≡ head.number - b.info.first_block.number =
          omega (arith, range, v.bounded) in
        rw (low, high, offset, found)

    shrinks_short :
        head.number < b.info.last_block.number
        → shrink (building b) head ≡ ok (cut.0, building truncated)
    unfolding truncate
    shrinks_short h =
        let more : (index == length b.canonical - 1) ≡ false = ground (arith, range, v.gapless) in
        let size : add_u64 (sub_u64 head.number b.info.first_block.number) 1 ≡ index + 1 =
          omega (arith, range, v.bounded) in
        passes ∙ rw (more, kept, size) (ground arith)

    shrinks_same :
        head.number ≡ b.info.last_block.number → shrink (building b) head ≡ ok ([], building b)
    shrinks_same h =
        let done : (index == length b.canonical - 1) ≡ true = ground (arith, range, v.gapless) in
        passes ∙ rw done

    hash_at-truncated :
        (n : ℕ) → hash_at truncated n ≡ (if leb n head.number then hash_at b n else none)
    unfolding hash_at
    hash_at-truncated n =
        let place = n - b.info.first_block.number in
        ground (
          arith,
          range,
          get_elem?-take (index + 1) b.canonical place,
          get_elem?-none (take (index + 1) b.canonical) place,
          kept,
        )

    truncated-IsValid : IsValid truncated
    truncated-IsValid = record {
      gapless = omega (arith, range, kept);
      bounded = omega (arith, range, v.bounded);
      first = get_elem?-take (index + 1) b.canonical 0 (omega arith) ∙ v.first;
      last = rw kept (
          let end : index + 1 - 1 ≡ index = omega arith in
          rw end (get_elem?-take (index + 1) b.canonical index (omega arith) ∙ held));
    }

    slot-cut :
        (n : ℕ)
        → slot (b.info.first_block.number + (index + 1)) (drop (index + 1) b.canonical) n
          ≡ (if ltb head.number n then hash_at b n else none)
    unfolding hash_at
    slot-cut n =
        let start = b.info.first_block.number + (index + 1) in
        ground (
          arith,
          range,
          get_elem?-drop (index + 1) b.canonical (n - start) (n - b.info.first_block.number),
        )

    fits : b.info.first_block.number + (index + 1) + length (drop (index + 1) b.canonical) ≤ u64_mod
    fits = omega (arith, range, v.gapless, v.bounded, length-drop (index + 1) b.canonical)

    cut-lookup :
        (n : ℕ)
        → lookup n cut.1 ≡ noted head (if ltb head.number n then hash_at b n else none) n b.reorgs
    cut-lookup n = remove_blocks-lookup head _ _ _ [] b.reorgs n fits ∙ rw slot-cut

    noted-action :
        (t : Bool) (o : Option Hash) (n : ℕ) (h : Hash)
        → lookup h (unwrap_or [] (noted head (if t then o else none) n b.reorgs))
          ≡ (if t && is_hash o h then some head else reorg_at b n h)
    unfolding reorg_at lookup_or
    noted-action false o n h = refl
    noted-action true none n h = refl
    noted-action true (some g) n h = ground (
      arith,
      lookup-insert h g head (lookup_or n [] b.reorgs),
      bytes_eq_iff g h,
      compare_bytes_eq h g,
    )

    reorg_at-truncated :
        (n : ℕ) (h : Hash)
        → reorg_at truncated n h
          ≡ (if ltb head.number n && is_hash (hash_at b n) h then some head else reorg_at b n h)
    unfolding reorg_at lookup_or
    reorg_at-truncated n h =
        ap (λ o. lookup h (unwrap_or [] o)) (cut-lookup n)
        ∙ noted-action (ltb head.number n) (hash_at b n) n h

    get_elem?-cut :
        (j : ℕ)
        → get_elem? cut.0 j
          ≡ Option.map (new (head.number + 1 + j)) (hash_at b (head.number + 1 + j))
    unfolding hash_at
    get_elem?-cut j =
        let n = head.number + 1 + j in
        let e = remove_blocks-removed head _ _ _ [] b.reorgs fits in
        let place =
          numbered-get_elem? head b.info.first_block.number (index + 1)
            (drop (index + 1) b.canonical) j n (omega (arith, range)) in
        let hash =
          get_elem?-drop (index + 1) b.canonical j (n - b.info.first_block.number)
            (omega (arith, range)) in
        let low : ltb n b.info.first_block.number ≡ false = ground (arith, range) in
        rw (low, e) (place ∙ rw hash)

    Shrinks-canonical : Shrinks b head
    Shrinks-canonical = elim (dec_lt head.number b.info.last_block.number) [
      | yes h ↦ record {
        removed = cut.0;
        after = truncated;
        shrinks = shrinks_short h;
        valid = truncated-IsValid;
        ends = refl;
        hashes = hash_at-truncated;
        reorgs = reorg_at-truncated;
        listed = get_elem?-cut;
        start = refl;
        previous = refl;
      }
      | no h ↦
          let same : head.number ≡ b.info.last_block.number = omega (arith, range) in
          record {
            removed = [];
            after = b;
            shrinks = shrinks_same same;
            valid = v;
            ends = ground (arith, hash_at_last b v, canonical);
            hashes = λ n. ground (arith, hash_at_above b v n);
            reorgs = λ n k. ground (arith, hash_at_above b v n);
            listed = λ j. rw (hash_at_above b v (head.number + 1 + j) (omega arith));
            start = refl;
            previous = refl;
          }
    ]

refused :
    (b : Building) (head : Cursor)
    → IsValid b
    → is_hash (hash_at b head.number) head.hash ≡ false
    → shrink (building b) head ≡ err builder
unfolding shrink hash_at
refused b head v bad = elim (Bool-cases (ltb head.number b.info.first_block.number)) [
  | inl low ↦ rw low
  | inr low ↦ elim (Bool-cases (ltb b.info.last_block.number head.number)) [
    | inl high ↦ rw (low, high)
    | inr high ↦
        let n = head.number - b.info.first_block.number in
        let offset : sub_u64 head.number b.info.first_block.number ≡ n =
          ground (arith, v.bounded) in
        let missing : holds_hash b.canonical n head.hash ≡ false = ground arith in
        rw (low, high, offset, missing)
  ]
]

-- `shrink` never panics on a valid builder. It accepts a new head exactly if that block is
-- canonical: the builder after it is valid and ends at the head, the hashes up to the head stay and
-- those above are gone, each removed block is listed in order and recorded as replaced by the head,
-- every other recorded reorg stays. Any other head is refused with an error.
pub shrink-building :
    (b : Building) (head : Cursor)
    → IsValid b
    → ((hash_at b head.number ≡ some head.hash) × Shrinks b head)
      ⊎ ((hash_at b head.number ≢ some head.hash) × (shrink (building b) head ≡ err builder))
shrink-building b head v = elim (Bool-cases (is_hash (hash_at b head.number) head.hash)) [
  | inl e ↦
      let canonical = is_hash_iff (hash_at b head.number) head.hash in
      inl (canonical.0 e, Shrinks-canonical b head v (canonical.0 e))
  | inr e ↦ inr (λ c. cc ((is_hash_iff (hash_at b head.number) head.hash).1 c), refused b head v e)
]
