-- ===== src/Chain/Shrink/Loop.antt =====
-- The loop of `shrink` over the removed blocks: the cursors it lists and the reorgs it records.
use starkstream_dna.Base.{
  slot, slot-cons, ℕ, zero, suc, ◌+◌, ◌≤◌, ◌≡◌, refl, sym, ◌∙◌, Option, none, some, List, [], ◌∷◌,
  ◌++◌, arith, length, get_elem?, u64_mod, add_u64,
}
use starkstream_dna.Base.Maps.{
  nat_ord, bytes_ord, BTreeMap, lookup, insert, lookup_or, lookup-insert,
}
use mathlib.Core.Option
use mathlib.Core.List.{append-nil, append_assoc}
use starkstream_dna.Core.{Hash, Cursor, new}
use starkstream_dna.Chain.{ReorgMap}
use starkstream_dna.Chain.Builder.{remove_blocks}

-- The entry of block `n` once the block with the given hash was removed.
abbrev pub noted : Cursor → Option Hash → ℕ → BTreeMap ℕ ReorgMap → Option ReorgMap
noted head none n reorgs = lookup n reorgs
noted head (some h) n reorgs = some (insert h head (lookup_or n [] reorgs))

-- One round: the entry of the block at `start` is noted, then those of the blocks behind it.
noted-step :
    (head : Cursor) (start : ℕ) (h : Hash) (rest : List Hash) (reorgs : BTreeMap ℕ ReorgMap) (n : ℕ)
    → noted head
        (slot (suc start) rest n)
        n
        (insert start (insert h head (lookup_or start [] reorgs)) reorgs)
      ≡ noted head (slot start (h ∷ rest) n) n reorgs
unfolding lookup_or
noted-step head start h rest reorgs n =
    rw slot-cons
      (ground (arith, lookup-insert n start (insert h head (lookup_or start [] reorgs)) reorgs))

module _ (head : Cursor) (first : ℕ) where
  pub remove_blocks-lookup :
      (index : ℕ) (hashes : List Hash) (removed : List Cursor) (reorgs : BTreeMap ℕ ReorgMap)
      (n : ℕ)
      → first + index + length hashes ≤ u64_mod
      → lookup n (remove_blocks head first index hashes removed reorgs).1
        ≡ noted head (slot (first + index) hashes n) n reorgs
  unfolding remove_blocks
  remove_blocks-lookup index [] removed reorgs n fits = ground arith
  remove_blocks-lookup index (h ∷ rest) removed reorgs n fits =
      let here : add_u64 first index ≡ first + index = omega arith in
      let onward : first + suc index ≡ suc (first + index) = omega arith in
      remove_blocks-lookup (suc index) rest _ _ n (omega arith)
      ∙ rw (here, onward) (noted-step head (first + index) h rest reorgs n)

  -- The cursors of hashes that follow one another.
  pub numbered : ℕ → List Hash → List Cursor
  numbered index [] = []
  numbered index (h ∷ rest) = new (first + index) h ∷ numbered (suc index) rest

  pub remove_blocks-removed :
      (index : ℕ) (hashes : List Hash) (removed : List Cursor) (reorgs : BTreeMap ℕ ReorgMap)
      → first + index + length hashes ≤ u64_mod
      → (remove_blocks head first index hashes removed reorgs).0 ≡ removed ++ numbered index hashes
  unfolding remove_blocks numbered
  remove_blocks-removed index [] removed reorgs fits = sym (append-nil removed)
  remove_blocks-removed index (h ∷ rest) removed reorgs fits =
      let here : add_u64 first index ≡ first + index = omega arith in
      remove_blocks-removed (suc index) rest _ _ (omega arith)
      ∙ rw here (append_assoc removed (new (first + index) h ∷ []) (numbered (suc index) rest))

  pub numbered-get_elem? :
      (index : ℕ) (hashes : List Hash) (j n : ℕ)
      → n ≡ first + index + j
      → get_elem? (numbered index hashes) j ≡ Option.map (new n) (get_elem? hashes j)
  unfolding numbered
  numbered-get_elem? index [] j n e = refl
  numbered-get_elem? index (h ∷ rest) zero n e = ground arith
  numbered-get_elem? index (h ∷ rest) (suc j) n e =
      numbered-get_elem? (suc index) rest j n (omega arith)
