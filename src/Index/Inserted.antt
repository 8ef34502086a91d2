-- ===== src/Index/Inserted.antt =====
-- What is inserted under a value is what the index answers for it.
use starkstream_dna.Base.{
  ℕ, zero, suc, Bool, false, Option, none, some, List, [], ◌∷◌, ◌++◌, ◌==◌, ◌&&◌, ◌||◌, ◌≡◌, refl,
  sym, ap, ◌∙◌, arith, ◌<◌, Ordering, get_elem?, length, ok, >>=-eq-ok, ok-injective, ok_or,
  ok_or-eq-ok, Bool-cases, inl, inr,
}
use mathlib.Core.List.{append_assoc, append-nil}
use starkstream_dna.Base.Maps.{key_eq, keys, lookup, lookup_or, insert, lookup-insert, unwrap_or}
use starkstream_dna.Base.Orders.{IsSorted, insert-IsSorted}
use starkstream_dna.Base.Sorted.{values}
use starkstream_dna.Base.Search.{binary_search_by, binary_search_by_inside}
use starkstream_dna.Bitmaps.{Bitmaps, BitmapLaws}
use starkstream_dna.Index.Scalar.{ScalarValue, variant, cmp_scalar_value}
use starkstream_dna.Index.Order.{scalar_ord, scalar-IsOrder}
use starkstream_dna.Index.Build.{
  BitmapIndexBuilder, insert_value, io_error, BitmapIndex, empty_index, build_from, build_index,
  bitmap_at, get_bitmap,
}
use starkstream_dna.Index.Lookup.{IsColumn, column-lookup}

module _ (B : Bitmaps) where
  -- The bytes of the bitmaps of a map.
  abbrev Serialized : BitmapIndexBuilder B → List (List ℕ) → Type 0
  Serialized [] [] = Unit
  Serialized [] (out ∷ outs) = ⊥
  Serialized ((key, bitmap) ∷ m) [] = ⊥
  Serialized ((key, bitmap) ∷ m) (out ∷ outs) =
      (B.serialize_into bitmap ≡ some out) × Serialized m outs

  build_from-Serialized :
      (index : BitmapIndex) (m : BitmapIndexBuilder B) {r : BitmapIndex}
      → build_from B index m ≡ ok r
      → (outs : List (List ℕ)) × Serialized m outs
        × (r.keys ≡ index.keys ++ keys m)
        × (r.values ≡ index.values ++ outs)
  unfolding build_from
  build_from-Serialized index [] {r} h =
      let same : r ≡ index = sym (ok-injective h) in
      (
        [],
        tt,
        ap (λ (i : BitmapIndex). i.keys) same ∙ sym (append-nil index.keys),
        ap (λ (i : BitmapIndex). i.values) same ∙ sym (append-nil index.values),
      )
  build_from-Serialized index ((key, bitmap) ∷ m) h =
      let (out, written, h1) = >>=-eq-ok (ok_or io_error (B.serialize_into bitmap)) _ h in
      let next : BitmapIndex = record {
        keys = index.keys ++ key ∷ [];
        values = index.values ++ out ∷ [];
      } in
      let (outs, rest, ks, vs) = build_from-Serialized next m h1 in
      (
        out ∷ outs,
        (ok_or-eq-ok io_error (B.serialize_into bitmap) written, rest),
        ks ∙ append_assoc index.keys (key ∷ []) (keys m),
        vs ∙ append_assoc index.values (out ∷ []) outs,
      )

  Serialized-at :
      (m : BitmapIndexBuilder B) (outs : List (List ℕ)) (p : ℕ)
      → Serialized m outs
      → p < length (keys m)
      → (bitmap : B.Bitmap) × (out : List ℕ) × (get_elem? (values m) p ≡ some bitmap)
        × (get_elem? outs p ≡ some out)
        × (B.serialize_into bitmap ≡ some out)
  Serialized-at [] outs p s h = elim h [ ]
  Serialized-at ((key, bitmap) ∷ m) [] p s h = elim s [ ]
  Serialized-at ((key, bitmap) ∷ m) (out ∷ outs) zero (e, s) h = (bitmap, out, refl, refl, e)
  Serialized-at ((key, bitmap) ∷ m) (out ∷ outs) (suc p) (e, s) h =
      Serialized-at m outs p s (omega arith)

  module _ (L : BitmapLaws B) where
    bitmap_at-Serialized :
        (m : BitmapIndexBuilder B) (outs : List (List ℕ)) (found : Option ℕ)
        → Serialized m outs
        → ((p : ℕ) → found ≡ some p → p < length (keys m))
        → bitmap_at B outs found ≡ ok (elim found [ none ↦ none | some p ↦ get_elem? (values m) p ])
    unfolding bitmap_at
    bitmap_at-Serialized m outs none s inside = refl
    bitmap_at-Serialized m outs (some p) s inside =
        let (bitmap, out, here, there, written) = Serialized-at m outs p s (inside p refl) in
        rw (here, there, L.deserialize-serialize bitmap out written)

    -- An index that was built from a sorted column answers what the column holds.
    pub get_bitmap-build_index :
        (t : ℕ) (m : BitmapIndexBuilder B) (key : ScalarValue) {index : BitmapIndex}
        → IsSorted scalar_ord m
        → IsColumn t m
        → build_index B m ≡ ok index
        → get_bitmap B index key ≡ ok (lookup key m)
    unfolding get_bitmap build_index
    get_bitmap-build_index t m key {index} sorted column h =
        let (outs, s, ks, vs) = build_from-Serialized empty_index m h in
        let search =
          λ (ks : List ScalarValue). binary_search_by (λ entry. cmp_scalar_value entry key) ks in
        rw (ks, vs)
          (bitmap_at-Serialized m outs (search (keys m)) s
              (binary_search_by_inside (λ entry. cmp_scalar_value entry key) (keys m))
            ∙ ap ok (column-lookup t key m sorted column))

-- Values with their rows, in the order in which they are inserted.
abbrev pub Insertions : Type 0
Insertions = List (ScalarValue × ℕ)

unfoldable pub has_insertion : ScalarValue → ℕ → Insertions → Bool
has_insertion key i [] = false
has_insertion key i ((k, j) ∷ more) = key_eq key k && i == j || has_insertion key i more

-- The values inserted are of one variant.
abbrev pub OfVariant : ℕ → Insertions → Type 0
OfVariant t [] = Unit
OfVariant t ((k, j) ∷ more) = (variant k ≡ t) × OfVariant t more

module _ (B : Bitmaps) where
  unfoldable pub insert_values : Insertions → BitmapIndexBuilder B → BitmapIndexBuilder B
  insert_values [] m = m
  insert_values ((key, value) ∷ more) m = insert_values more (insert_value B key value m)

  -- The rows of a value.
  abbrev pub rows : ScalarValue → BitmapIndexBuilder B → B.Bitmap
  rows key m = unwrap_or B.nothing (lookup key m)

  insert-IsColumn :
      (t : ℕ) (key : ScalarValue) (b : B.Bitmap) (m : BitmapIndexBuilder B)
      → variant key ≡ t
      → IsColumn t m
      → IsColumn t (insert key b m)
  unfolding insert
  insert-IsColumn t key b [] e c = (e, tt)
  insert-IsColumn t key b ((k, w) ∷ m) e (c, cs) =
      elim (scalar_ord.cmp key k)
        as (λ r. IsColumn t (elim r as (λ _. BitmapIndexBuilder B) [
          | Ordering.lt ↦ (key, b) ∷ (k, w) ∷ m
          | Ordering.eq ↦ (key, b) ∷ m
          | Ordering.gt ↦ (k, w) ∷ insert key b m
        ])) [
          | Ordering.lt ↦ (e, (c, cs))
          | Ordering.eq ↦ (e, cs)
          | Ordering.gt ↦ (c, insert-IsColumn t key b m e cs)
        ]

  insert_values-IsSorted :
      (ps : Insertions) (m : BitmapIndexBuilder B)
      → IsSorted scalar_ord m
      → IsSorted scalar_ord (insert_values ps m)
  unfolding insert_values insert_value
  insert_values-IsSorted [] m s = s
  insert_values-IsSorted ((key, value) ∷ more) m s =
      insert_values-IsSorted more (insert_value B key value m)
        (insert-IsSorted scalar_ord scalar-IsOrder key _ m s)

  insert_values-IsColumn :
      (t : ℕ) (ps : Insertions) (m : BitmapIndexBuilder B)
      → OfVariant t ps
      → IsColumn t m
      → IsColumn t (insert_values ps m)
  unfolding insert_values insert_value
  insert_values-IsColumn t [] m o c = c
  insert_values-IsColumn t ((key, value) ∷ more) m (e, o) c =
      insert_values-IsColumn t more (insert_value B key value m) o (insert-IsColumn t key _ m e c)

  module _ (L : BitmapLaws B) where
    pub contains-insert_value :
        (key k : ScalarValue) (i j : ℕ) (m : BitmapIndexBuilder B)
        → B.contains i (rows key (insert_value B k j m))
          ≡ (key_eq key k && i == j || B.contains i (rows key m))
    unfolding insert_value lookup_or
    contains-insert_value key k i j m =
        rw (lookup-insert key k (B.add j (lookup_or k B.nothing m)) m)
          (elim (Bool-cases (key_eq key k)) [
            | inl same ↦
                let equal : key ≡ k = (scalar_ord.cmp_eq key k).0 (ground arith) in
                rw (same, L.contains-add i j (rows k m), equal)
            | inr other ↦ rw other
          ])

    pub contains-insert_values :
        (ps : Insertions) (key : ScalarValue) (i : ℕ) (m : BitmapIndexBuilder B)
        → B.contains i (rows key (insert_values ps m))
          ≡ (has_insertion key i ps || B.contains i (rows key m))
    unfolding insert_values has_insertion
    contains-insert_values [] key i m = refl
    contains-insert_values ((k, j) ∷ more) key i m =
        contains-insert_values more key i (insert_value B k j m)
        ∙ rw (contains-insert_value key k i j m) (ground arith)

-- An index that is built after values of one variant were inserted with their rows answers, for any
-- value, with exactly the rows that were inserted under it; the search finds them or finds nothing,
-- and does not panic.
pub get_bitmap-inserted :
    (B : Bitmaps) (t : ℕ) (ps : Insertions) (key : ScalarValue) {index : BitmapIndex}
    → BitmapLaws B
    → OfVariant t ps
    → build_index B (insert_values B ps []) ≡ ok index
    → (found : Option B.Bitmap) × (get_bitmap B index key ≡ ok found)
      × ((i : ℕ) → B.contains i (unwrap_or B.nothing found) ≡ has_insertion key i ps)
unfolding lookup
get_bitmap-inserted B t ps key L o h =
    let m = insert_values B ps [] in
    (
      lookup key m,
      get_bitmap-build_index B L t m key (insert_values-IsSorted B ps [] tt)
          (insert_values-IsColumn B t ps [] o tt) h,
      λ i. contains-insert_values B L ps key i [] ∙ rw (L.contains-nothing i) (ground arith),
    )
