-- ===== src/Join.antt =====
-- common/src/join.rs: indexes that join the rows of a fragment to those of another.
pub mod Find
mod Tests
use starkstream_dna.Base.{
  ℕ, compare, Option, none, some, List, [], ◌∷◌, ◌++◌, get_elem?, Result, ok, err, panic, ◌>>=◌,
  ok_or, or_panic,
}
use starkstream_dna.Base.Maps.{nat_ord, BTreeMap, insert, lookup_or}
use starkstream_dna.Base.Search.{binary_search_by}
use starkstream_dna.Bitmaps.{Bitmaps}

pub record JoinToOneIndex : Type 0 where
  pub keys : List ℕ
  pub values : List ℕ

pub record JoinToManyIndex : Type 0 where
  pub keys : List ℕ
  pub values : List (List ℕ)

-- `JoinTo`
pub data JoinTo : Type 0 where
  one : JoinToOneIndex → JoinTo
  many : JoinToManyIndex → JoinTo

-- Writing a bitmap may fail.
pub data JoinError : Type 0 where
  io_error : JoinError

abbrev pub JoinToOneIndexBuilder : Type 0
JoinToOneIndexBuilder = BTreeMap ℕ ℕ

unfoldable pub insert_one : ℕ → ℕ → JoinToOneIndexBuilder → JoinToOneIndexBuilder
insert_one key value builder = insert key value builder

-- The fold of `build`, from an index on.
unfoldable pub build_one_from : JoinToOneIndex → JoinToOneIndexBuilder → JoinToOneIndex
build_one_from index [] = index
build_one_from index ((key, value) ∷ entries) =
    build_one_from (record { keys = index.keys ++ key ∷ []; values = index.values ++ value ∷ [] })
      entries

unfoldable pub build_one : JoinToOneIndexBuilder → JoinToOneIndex
unfolding build_one_from
build_one builder = build_one_from (record { keys = []; values = [] }) builder

-- The value at a place that the search found; the access may panic.
unfoldable pub value_at : List ℕ → Option ℕ → Result JoinError (Option ℕ)
value_at values none = ok none
value_at values (some pos) = do value ← or_panic (get_elem? values pos); ok (some value)

unfoldable pub get_one : JoinToOneIndex → ℕ → Result JoinError (Option ℕ)
unfolding value_at
get_one index key = value_at index.values (binary_search_by (λ entry. compare entry key) index.keys)

module _ (B : Bitmaps) where
  abbrev pub JoinToManyIndexBuilder : Type 0
  JoinToManyIndexBuilder = BTreeMap ℕ B.Bitmap

  unfoldable pub insert_many : ℕ → ℕ → JoinToManyIndexBuilder → JoinToManyIndexBuilder
  insert_many key value builder = insert key (B.add value (lookup_or key B.nothing builder)) builder

  unfoldable pub insert_many_range : ℕ → ℕ → ℕ → JoinToManyIndexBuilder → JoinToManyIndexBuilder
  insert_many_range key first end builder =
      insert key (B.add_range first end (lookup_or key B.nothing builder)) builder

  unfoldable pub build_many_from :
      JoinToManyIndex → JoinToManyIndexBuilder → Result JoinError JoinToManyIndex
  build_many_from index [] = ok index
  build_many_from index ((key, value) ∷ entries) = do
    out ← ok_or io_error (B.serialize_into value)
    build_many_from (record { keys = index.keys ++ key ∷ []; values = index.values ++ out ∷ [] })
        entries

  unfoldable pub build_many : JoinToManyIndexBuilder → Result JoinError JoinToManyIndex
  build_many builder = build_many_from (record { keys = []; values = [] }) builder

-- The rows at a place that the search found; the access and the decoding may panic.
unfoldable pub rows_at :
    (B : Bitmaps) → List (List ℕ) → Option ℕ → Result JoinError (Option B.Bitmap)
rows_at B values none = ok none
rows_at B values (some pos) = do
  value ← or_panic (get_elem? values pos)
  rows ← or_panic (B.deserialize_unchecked_from value)
  ok (some rows)

unfoldable pub get_many : (B : Bitmaps) → JoinToManyIndex → ℕ → Result JoinError (Option B.Bitmap)
unfolding rows_at
get_many B index key =
    rows_at B index.values (binary_search_by (λ entry. compare entry key) index.keys)
