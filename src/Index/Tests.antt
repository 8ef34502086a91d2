-- ===== src/Index/Tests.antt =====
-- A small index.
use starkstream_dna.Base.{ℕ, Option, none, some, List, [], ◌∷◌, ◌≡◌, refl, Result, ok, err, panic}
use starkstream_dna.Base.Maps.{unwrap_or}
use starkstream_dna.Bitmaps.Lists.{list_bitmaps, list_bitmaps-BitmapLaws}
use starkstream_dna.Index.Scalar.{ScalarValue, uint8, uint16, cmp_scalar_value}
use starkstream_dna.Index.Build.{BitmapIndex, build_index, get_bitmap}
use starkstream_dna.Index.Inserted.{
  Insertions, OfVariant, has_insertion, insert_values, get_bitmap-inserted,
}

-- Row 4 has the value 9, row 5 the value 7, row 6 the value 9.
abbrev pub small_column : Insertions
small_column = (uint8 9, 4) ∷ (uint8 7, 5) ∷ (uint8 9, 6) ∷ []

abbrev pub small_index : BitmapIndex
small_index = record { keys = uint8 7 ∷ uint8 9 ∷ []; values = (5 ∷ []) ∷ (6 ∷ 4 ∷ []) ∷ [] }

pub build_small_index :
    build_index list_bitmaps (insert_values list_bitmaps small_column []) ≡ ok small_index
unfolding build_index insert_values starkstream_dna.Index.Build.insert_value
    starkstream_dna.Base.Maps.insert starkstream_dna.Index.Scalar.cmp_derived
    starkstream_dna.Index.Scalar.variant starkstream_dna.Base.compare_bytes
    starkstream_dna.Index.Scalar.payload starkstream_dna.Base.Maps.lookup_or
build_small_index = refl

get_small_index : get_bitmap list_bitmaps small_index (uint8 9) ≡ ok (some (6 ∷ 4 ∷ []))
unfolding get_bitmap starkstream_dna.Base.Search.binary_search_by cmp_scalar_value
    starkstream_dna.Index.Scalar.variant starkstream_dna.Base.compare_bytes
    starkstream_dna.Index.Scalar.payload
get_small_index = refl

pub small_column-OfVariant : OfVariant 3 small_column
unfolding starkstream_dna.Index.Scalar.variant
small_column-OfVariant = (refl, (refl, (refl, tt)))

get_bitmap-inserted_example :
    (found : Option (List ℕ)) × (get_bitmap list_bitmaps small_index (uint8 9) ≡ ok found)
    × ((i : ℕ)
        → list_bitmaps.contains i (unwrap_or [] found) ≡ has_insertion (uint8 9) i small_column)
get_bitmap-inserted_example =
    get_bitmap-inserted list_bitmaps 3 small_column (uint8 9) list_bitmaps-BitmapLaws
      small_column-OfVariant build_small_index
