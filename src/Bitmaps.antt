-- ===== src/Bitmaps.antt =====
-- Roaring bitmaps, which the program takes from a library: sets of row numbers.
pub mod Lists
use starkstream_dna.Base.{
  ℕ, Bool, false, ◌&&◌, ◌||◌, Option, some, List, [], ◌∷◌, ◌≡◌, ltb, leb, ◌==◌,
}

pub record Bitmaps : Type 1 where
  pub Bitmap : Type 0
  -- `default`
  pub nothing : Bitmap
  -- `from_iter(start..end)`
  pub from_range : ℕ → ℕ → Bitmap
  pub add : ℕ → Bitmap → Bitmap
  -- `insert_range(start..end)`
  pub add_range : ℕ → ℕ → Bitmap → Bitmap
  -- `&=`
  pub intersect : Bitmap → Bitmap → Bitmap
  pub contains : ℕ → Bitmap → Bool
  -- The rows, in rising order.
  pub iter : Bitmap → List ℕ
  pub is_empty : Bitmap → Bool
  -- Writing to a vector is an operation that may fail.
  pub serialize_into : Bitmap → Option (List ℕ)
  pub deserialize_unchecked_from : List ℕ → Option Bitmap

-- Whether a row is in a list.
unfoldable pub has_row : ℕ → List ℕ → Bool
has_row i [] = false
has_row i (j ∷ rows) = i == j || has_row i rows

-- What the documentation of the library says.
pub record BitmapLaws (B : Bitmaps) : Type 0 where
  pub contains-nothing : (i : ℕ) → B.contains i B.nothing ≡ false
  pub contains-from_range :
      (i first end : ℕ) → B.contains i (B.from_range first end) ≡ (leb first i && ltb i end)
  pub contains-add :
      (i j : ℕ) (b : B.Bitmap) → B.contains i (B.add j b) ≡ (i == j || B.contains i b)
  pub contains-add_range :
      (i first end : ℕ) (b : B.Bitmap)
      → B.contains i (B.add_range first end b) ≡ (leb first i && ltb i end || B.contains i b)
  pub contains-intersect :
      (i : ℕ) (a b : B.Bitmap) → B.contains i (B.intersect a b) ≡ (B.contains i a && B.contains i b)
  pub has_row-iter : (i : ℕ) (b : B.Bitmap) → has_row i (B.iter b) ≡ B.contains i b
  pub deserialize-serialize :
      (b : B.Bitmap) (bytes : List ℕ)
      → B.serialize_into b ≡ some bytes
      → B.deserialize_unchecked_from bytes ≡ some b
