-- ===== src/Query/Tests.antt =====
-- A filter over a small fragment.
use starkstream_dna.Base.{
  ℕ, ◌+◌, Bool, true, ◌&&◌, ltb, leb, List, [], ◌∷◌, ◌≡◌, refl, Result, ok, err, panic, arith,
}
use starkstream_dna.Bitmaps.{has_row}
use starkstream_dna.Bitmaps.Lists.{list_bitmaps, list_bitmaps-BitmapLaws}
use starkstream_dna.Index.Scalar.{uint8}
use starkstream_dna.Index.Tests.{
  small_column, small_index, small_column-OfVariant, build_small_index,
}
use starkstream_dna.Query.{
  Index, bitmap, empty, FragmentIndex, IndexFragment, Condition, Filter, always, all_fragment_ids,
  filter_rows,
}
use starkstream_dna.Query.Fragments.{add_filters, needed, no_filters, all_fragment_ids-add_filters}
use starkstream_dna.Query.Select.{Column, unindexed, indexed, meets, filter_rows-Selects}

abbrev small_fragment : IndexFragment
small_fragment = record {
  fragment_id = 2;
  range_start = 4;
  range_len = 3;
  indexes =
      record { index_id = 0; index = bitmap small_index }
      ∷ record { index_id = 1; index = empty }
      ∷ [];
}

abbrev columns : List Column
columns = indexed 3 small_column ∷ unindexed ∷ []

abbrev nines : Filter
nines = record {
  filter_id = 1;
  fragment_id = 2;
  conditions = record { index_id = 0; key = uint8 9 } ∷ record { index_id = 1; key = uint8 0 } ∷ [];
  joins = [];
}

filter_nines : filter_rows list_bitmaps nines small_fragment ≡ ok (4 ∷ 6 ∷ [])
unfolding filter_rows starkstream_dna.Query.apply_conditions starkstream_dna.Query.apply_index
    starkstream_dna.Index.Build.get_bitmap starkstream_dna.Base.Search.binary_search_by
    starkstream_dna.Index.Scalar.cmp_scalar_value starkstream_dna.Index.Scalar.variant
    starkstream_dna.Base.compare_bytes starkstream_dna.Index.Scalar.payload
    starkstream_dna.Query.meet starkstream_dna.Base.filter starkstream_dna.Bitmaps.has_row
filter_nines = refl

filter_rows-Selects_example :
    (rows : List ℕ) × (filter_rows list_bitmaps nines small_fragment ≡ ok rows)
    × ((i : ℕ)
        → list_bitmaps.contains i rows
          ≡ (leb 4 i && ltb i (4 + 3) && meets columns nines.conditions i))
filter_rows-Selects_example =
    filter_rows-Selects list_bitmaps nines small_fragment columns list_bitmaps-BitmapLaws
      ((small_column-OfVariant, build_small_index), (tt, tt)) (omega arith, (omega arith, tt))
      (omega arith)

all_fragment_ids-add_filters_example :
    has_row 2 (all_fragment_ids (add_filters (nines ∷ []) (no_filters always))) ≡ true
unfolding needed
all_fragment_ids-add_filters_example = all_fragment_ids-add_filters 2 (nines ∷ []) always
