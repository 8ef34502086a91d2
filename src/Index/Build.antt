-- ===== src/Index/Build.antt =====
-- common/src/index.rs: the index from a scalar value to the rows that hold it.
use starkstream_dna.Base.{
  ℕ, Option, none, some, List, [], ◌∷◌, ◌++◌, get_elem?, Result, ok, ◌>>=◌, ok_or, or_panic,
}
use starkstream_dna.Base.Maps.{BTreeMap, insert, lookup_or}
use starkstream_dna.Base.Search.{binary_search_by}
use starkstream_dna.Bitmaps.{Bitmaps}
use starkstream_dna.Index.Scalar.{ScalarValue, cmp_scalar_value}
use starkstream_dna.Index.Order.{scalar_ord}

pub record BitmapIndex : Type 0 where
  pub keys : List ScalarValue
  pub values : List (List ℕ)

abbrev pub empty_index : BitmapIndex
empty_index = record { keys = []; values = [] }

pub data IndexError : Type 0 where
  io_error : IndexError

module _ (B : Bitmaps) where
  -- `BitmapIndexBuilder`
  abbrev pub BitmapIndexBuilder : Type 0
  BitmapIndexBuilder = BTreeMap ScalarValue B.Bitmap

  unfoldable pub insert_value : ScalarValue → ℕ → BitmapIndexBuilder → BitmapIndexBuilder
  insert_value key value builder =
      insert key (B.add value (lookup_or key B.nothing builder)) builder

  unfoldable pub insert_value_range : ScalarValue → ℕ → ℕ → BitmapIndexBuilder → BitmapIndexBuilder
  insert_value_range key first end builder =
      insert key (B.add_range first end (lookup_or key B.nothing builder)) builder

  -- The fold of `build`, from an index on.
  unfoldable pub build_from : BitmapIndex → BitmapIndexBuilder → Result IndexError BitmapIndex
  build_from index [] = ok index
  build_from index ((key, bitmap) ∷ entries) = do
    out ← ok_or io_error (B.serialize_into bitmap)
    build_from (record { keys = index.keys ++ key ∷ []; values = index.values ++ out ∷ [] }) entries

  unfoldable pub build_index : BitmapIndexBuilder → Result IndexError BitmapIndex
  unfolding build_from
  build_index builder = build_from empty_index builder

-- What stands at a place that the search found; the access and the decoding may panic.
unfoldable pub bitmap_at :
    (B : Bitmaps) → List (List ℕ) → Option ℕ → Result IndexError (Option B.Bitmap)
bitmap_at B values none = ok none
bitmap_at B values (some pos) = do
  value ← or_panic (get_elem? values pos)
  bitmap ← or_panic (B.deserialize_unchecked_from value)
  ok (some bitmap)

-- `ArchivedBitmapIndex::get`
unfoldable pub get_bitmap :
    (B : Bitmaps) → BitmapIndex → ScalarValue → Result IndexError (Option B.Bitmap)
unfolding bitmap_at
get_bitmap B index key =
    bitmap_at B index.values (binary_search_by (λ entry. cmp_scalar_value entry key) index.keys)
