-- ===== src/Query/Select.antt =====
-- A filter selects exactly the rows that meet all of its conditions.
use starkstream_dna.Base.{
  ℕ, zero, suc, ◌+◌, ◌<◌, Bool, true, ◌&&◌, Option, none, some, List, [], ◌∷◌, get_elem?, length,
  add_u32, u32_mod, ltb, leb, arith, ◌≡◌, refl, ◌∙◌, Result, ok,
}
use starkstream_dna.Base.Maps.{unwrap_or}
use starkstream_dna.Bitmaps.{Bitmaps, BitmapLaws}
use starkstream_dna.Index.Scalar.{ScalarValue}
use starkstream_dna.Index.Build.{build_index}
use starkstream_dna.Index.Inserted.{
  Insertions, OfVariant, has_insertion, insert_values, get_bitmap-inserted,
}
use starkstream_dna.Query.{
  Index, bitmap, empty, FragmentIndex, IndexFragment, Condition, Filter, FilterError, meet,
  apply_index, apply_conditions, filter_rows,
}

-- What a column of a fragment holds: no index at all, or values of one variant with their rows.
pub data Column : Type 0 where
  unindexed : Column
  indexed : ℕ → Insertions → Column

-- Whether a row has a value in a column; a column without an index does not say.
unfoldable pub column_has : ScalarValue → ℕ → Column → Bool
column_has key i unindexed = true
column_has key i (indexed t ps) = has_insertion key i ps

-- Whether a row meets all conditions.
unfoldable pub meets : List Column → List Condition → ℕ → Bool
meets columns [] i = true
meets columns (c ∷ conditions) i =
    column_has c.key i (unwrap_or unindexed (get_elem? columns c.index_id))
    && meets columns conditions i

-- Each condition names a column.
abbrev pub Named : List Column → List Condition → Type 0
Named columns [] = Unit
Named columns (c ∷ conditions) = (c.index_id < length columns) × Named columns conditions

module _ (B : Bitmaps) where
  -- The index of a column was built from what the column holds.
  abbrev pub Indexes : Column → Index → Type 0
  Indexes unindexed empty = Unit
  Indexes unindexed (bitmap index) = ⊥
  Indexes (indexed t ps) empty = ⊥
  Indexes (indexed t ps) (bitmap index) =
      OfVariant t ps × (build_index B (insert_values B ps []) ≡ ok index)

  abbrev pub IndexesAll : List Column → List FragmentIndex → Type 0
  IndexesAll [] [] = Unit
  IndexesAll [] (index ∷ indexes) = ⊥
  IndexesAll (column ∷ columns) [] = ⊥
  IndexesAll (column ∷ columns) (index ∷ indexes) =
      Indexes column index.index × IndexesAll columns indexes

  IndexesAll-at :
      (columns : List Column) (indexes : List FragmentIndex) (p : ℕ)
      → IndexesAll columns indexes
      → p < length columns
      → (column : Column) × (index : FragmentIndex) × (get_elem? columns p ≡ some column)
        × (get_elem? indexes p ≡ some index)
        × Indexes column index.index
  IndexesAll-at [] indexes p a h = elim h [ ]
  IndexesAll-at (column ∷ columns) [] p a h = elim a [ ]
  IndexesAll-at (column ∷ columns) (index ∷ indexes) zero (a, rest) h =
      (column, index, refl, refl, a)
  IndexesAll-at (column ∷ columns) (index ∷ indexes) (suc p) (a, rest) h =
      IndexesAll-at columns indexes p rest (omega arith)

  -- What is selected: the rows of a bitmap that pass a test.
  abbrev Selects : Result FilterError B.Bitmap → (ℕ → Bool) → Type 0
  Selects r test = (rows : B.Bitmap) × (r ≡ ok rows) × ((i : ℕ) → B.contains i rows ≡ test i)

  module _ (L : BitmapLaws B) where
    meet-Selects :
        (found : Option B.Bitmap) (has later : ℕ → Bool) (result : B.Bitmap)
        (onward : B.Bitmap → Result FilterError B.Bitmap)
        → ((i : ℕ) → B.contains i (unwrap_or B.nothing found) ≡ has i)
        → ((rows : B.Bitmap) → Selects (onward rows) (λ i. B.contains i rows && later i))
        → Selects (meet B onward result found) (λ i. B.contains i result && (has i && later i))
    unfolding meet
    meet-Selects none has later result onward holds next =
        (B.nothing, refl, λ i. ground (arith, L.contains-nothing i, holds i))
    meet-Selects (some rows) has later result onward holds next =
        let (met, e, all) = next (B.intersect result rows) in
        (met, e, λ i. ground (arith, all i, L.contains-intersect i result rows, holds i))

    apply_index-Selects :
        (column : Column) (index : Index) (key : ScalarValue) (result : B.Bitmap) (later : ℕ → Bool)
        (onward : B.Bitmap → Result FilterError B.Bitmap)
        → Indexes column index
        → ((rows : B.Bitmap) → Selects (onward rows) (λ i. B.contains i rows && later i))
        → Selects
            (apply_index B onward result key index)
            (λ i. B.contains i result && (column_has key i column && later i))
    unfolding apply_index column_has meet
    apply_index-Selects unindexed empty key result later onward a next = next result
    apply_index-Selects unindexed (bitmap index) key result later onward a next = elim a [ ]
    apply_index-Selects (indexed t ps) empty key result later onward a next = elim a [ ]
    apply_index-Selects (indexed t ps) (bitmap index) key result later onward (o, built) next =
        let (found, e, holds) = get_bitmap-inserted B t ps key L o built in
        rw e (meet-Selects found (λ i. has_insertion key i ps) later result onward holds next)

    apply_conditions-Selects :
        (columns : List Column) (indexes : List FragmentIndex) (conditions : List Condition)
        (result : B.Bitmap)
        → IndexesAll columns indexes
        → Named columns conditions
        → Selects
            (apply_conditions B indexes conditions result)
            (λ i. B.contains i result && meets columns conditions i)
    unfolding apply_conditions meets
    apply_conditions-Selects columns indexes [] result a n = (result, refl, λ i. ground arith)
    apply_conditions-Selects columns indexes (c ∷ conditions) result a (named, n) =
        let (column, index, here, there, one) = IndexesAll-at columns indexes c.index_id a named in
        rw (here, there)
          (apply_index-Selects column index.index c.key result (meets columns conditions)
            (apply_conditions B indexes conditions) one
            (λ rows. apply_conditions-Selects columns indexes conditions rows a n))

-- A filter over a fragment whose indexes were built from its columns returns, when each condition
-- names a column and the range fits 32 bits, exactly the rows of the range that have the value of
-- every condition in its column; a column without an index excludes no row.
pub filter_rows-Selects :
    (B : Bitmaps) (filter : Filter) (fragment : IndexFragment) (columns : List Column)
    → BitmapLaws B
    → IndexesAll B columns fragment.indexes
    → Named columns filter.conditions
    → fragment.range_start + fragment.range_len < u32_mod
    → (rows : B.Bitmap) × (filter_rows B filter fragment ≡ ok rows)
      × ((i : ℕ)
          → B.contains i rows ≡ (
              leb fragment.range_start i
              && ltb i (fragment.range_start + fragment.range_len)
              && meets columns filter.conditions i))
unfolding filter_rows
filter_rows-Selects B filter fragment columns L a n fits =
    let end : add_u32 fragment.range_start fragment.range_len
        ≡ fragment.range_start + fragment.range_len =
      omega arith in
    let (rows, e, holds) =
      apply_conditions-Selects B L columns fragment.indexes filter.conditions
        (B.from_range fragment.range_start (fragment.range_start + fragment.range_len)) a n in
    (
      rows,
      rw end e,
      λ i.
          holds i
          ∙ rw (
              L.contains-from_range i fragment.range_start
                (fragment.range_start + fragment.range_len)),
    )
