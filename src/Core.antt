-- ===== src/Core.antt =====
-- common/src/core.rs: hashes of any length and the cursors that name blocks.
pub mod Equivalence
mod Tests
use starkstream_dna.Base.{
  ℕ, ◌-◌, ◌≡◌, ◌↔◌, Bool, true, false, not, ◌&&◌, ◌||◌, List, [], ◌∷◌, arith, min, ltb, ◌==◌,
  if◌then◌else◌, bytes_eq, bytes_eq_iff, length, take, drop, replicate,
}

-- The bytes of a hash, each below 256.
abbrev pub Hash : Type 0
Hash = List ℕ

unfoldable pub is_zero : Hash → Bool
is_zero [] = true
is_zero (b ∷ bs) = b == 0 && is_zero bs

unfoldable pub is_empty : Hash → Bool
is_empty [] = true
is_empty (b ∷ bs) = false

pub record Cursor : Type 0 where
  pub number : ℕ
  pub hash : Hash

-- `Cursor::new`
abbrev pub new : ℕ → Hash → Cursor
new number hash = record { number = number; hash = hash }

-- `Cursor::new_finalized`, and `Cursor::new_pending` is the same.
abbrev pub new_finalized : ℕ → Cursor
new_finalized number = new number []

unfoldable pub strict_before : Cursor → Cursor → Bool
strict_before c other = ltb c.number other.number

unfoldable pub strict_after : Cursor → Cursor → Bool
strict_after c other = ltb other.number c.number

-- The derived `==`.
abbrev pub cursor_eq : Cursor → Cursor → Bool
cursor_eq a b = a.number == b.number && bytes_eq a.hash b.hash

-- The hashes end with the same bytes, and what the longer one has in front is zero.
unfoldable pub padded_eq : Hash → Hash → Bool
padded_eq hash other =
    let min_len = min (length hash) (length other) in
    let prefix = drop (length hash - min_len) hash in
    let other_prefix = drop (length other - min_len) other in
    if ltb (length other) (length hash)
    then bytes_eq other_prefix prefix
      && bytes_eq (take (length hash - length other) hash)
          (replicate (length hash - length other) 0)
    else bytes_eq prefix other_prefix
      && bytes_eq (take (length other - length hash) other)
          (replicate (length other - length hash) 0)

unfoldable pub is_equivalent : Cursor → Cursor → Bool
unfolding is_empty padded_eq
is_equivalent c other =
    if not (c.number == other.number)
    then false
    else if is_empty c.hash || is_empty other.hash
    then true
    else if length c.hash == length other.hash
    then bytes_eq c.hash other.hash
    else padded_eq c.hash other.hash
