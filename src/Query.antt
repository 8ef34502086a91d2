-- ===== src/Query.antt =====
-- common/src/query.rs and fragment.rs: filters, and the fragments they select rows of.
pub mod Select
pub mod Fragments
mod Tests
use starkstream_dna.Base.{
  ℕ, Bool, true, false, not, ◌||◌, Option, none, some, List, [], ◌∷◌, ◌++◌, get_elem?, add_u32,
  length, Result, ok, err, panic, ◌>>=◌, ok_or, change_context,
}
use starkstream_dna.Base.Maps.{nat_ord, BTreeMap, insert, lookup_or}
use starkstream_dna.Bitmaps.{Bitmaps}
use starkstream_dna.Index.Scalar.{ScalarValue}
use starkstream_dna.Index.Build.{BitmapIndex, get_bitmap}

-- `index::Index`
pub data Index : Type 0 where
  bitmap : BitmapIndex → Index
  empty : Index

-- `fragment::Index`
pub record FragmentIndex : Type 0 where
  pub index_id : ℕ
  pub index : Index

pub record IndexFragment : Type 0 where
  pub fragment_id : ℕ
  pub range_start : ℕ
  pub range_len : ℕ
  pub indexes : List FragmentIndex

pub data HeaderFilter : Type 0 where
  always on_data on_data_or_on_new_block : HeaderFilter

pub record Condition : Type 0 where
  pub index_id : ℕ
  pub key : ScalarValue

pub record Filter : Type 0 where
  pub filter_id : ℕ
  pub fragment_id : ℕ
  pub conditions : List Condition
  pub joins : List ℕ

pub record BlockFilter : Type 0 where
  pub header_filter : HeaderFilter
  pub filters : BTreeMap ℕ (List Filter)

unfoldable pub is_empty : BlockFilter → Bool
is_empty f = elim f.filters [ [] ↦ true | _ ∷ _ ↦ false ]

unfoldable pub always_include_header : BlockFilter → Bool
always_include_header f = elim f.header_filter [
  | always ↦ true
  | on_data ↦ false
  | on_data_or_on_new_block ↦ false
]

unfoldable pub can_produce_data : BlockFilter → Bool
can_produce_data f = always_include_header f || not (is_empty f)

unfoldable pub set_header_filter : HeaderFilter → BlockFilter → BlockFilter
set_header_filter value f = record f { header_filter = value }

unfoldable pub add_filter : Filter → BlockFilter → BlockFilter
add_filter filter f = record f {
  filters =
      insert filter.fragment_id (lookup_or filter.fragment_id [] f.filters ++ filter ∷ [])
        f.filters;
}

-- The fragments that a list of filters joins with.
unfoldable pub joined_ids : List Filter → List ℕ
joined_ids [] = []
joined_ids (filter ∷ filters) = filter.joins ++ joined_ids filters

-- The loop of `all_fragment_ids`; the set is a list, with an element perhaps more than once.
unfoldable pub fragment_ids : BTreeMap ℕ (List Filter) → List ℕ
unfolding joined_ids
fragment_ids [] = []
fragment_ids ((fragment_id, filters) ∷ rest) =
    fragment_id ∷ (joined_ids filters ++ fragment_ids rest)

unfoldable pub all_fragment_ids : BlockFilter → List ℕ
unfolding fragment_ids
all_fragment_ids f = fragment_ids f.filters

pub data FilterError : Type 0 where
  filter_error : FilterError

module _ (B : Bitmaps) where
  -- What the loop of `filter` does with the bitmap of a condition; without one it clears and breaks.
  unfoldable pub meet :
      (B.Bitmap → Result FilterError B.Bitmap)
      → B.Bitmap
      → Option B.Bitmap
      → Result FilterError B.Bitmap
  meet onward result none = ok B.nothing
  meet onward result (some rows) = onward (B.intersect result rows)

  unfoldable pub apply_index :
      (B.Bitmap → Result FilterError B.Bitmap)
      → B.Bitmap
      → ScalarValue
      → Index
      → Result FilterError B.Bitmap
  apply_index onward result key empty = onward result
  apply_index onward result key (bitmap index) = do
    rows ← change_context filter_error (get_bitmap B index key)
    meet onward result rows

  -- The loop of `filter` over the conditions that are left.
  unfoldable pub apply_conditions :
      List FragmentIndex → List Condition → B.Bitmap → Result FilterError B.Bitmap
  apply_conditions indexes [] result = ok result
  apply_conditions indexes (condition ∷ conditions) result = do
    cond_index ← ok_or filter_error (get_elem? indexes condition.index_id)
    apply_index (apply_conditions indexes conditions) result condition.key cond_index.index

  unfoldable pub filter_rows : Filter → IndexFragment → Result FilterError B.Bitmap
  filter_rows filter fragment =
      apply_conditions fragment.indexes filter.conditions
        (B.from_range fragment.range_start (add_u32 fragment.range_start fragment.range_len))
