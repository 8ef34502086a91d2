-- ===== src/Join/Find.antt =====
-- What was inserted last for a row is what a join to one gives.
use starkstream_dna.Base.{
  ℕ, suc, ◌<◌, compare, if◌then◌else◌, Option, none, some, List, [], ◌∷◌, ◌++◌, get_elem?,
  get_elem?-lt, length, ◌≡◌, refl, sym, ap, ◌∙◌, subst, ok,
}
use mathlib.Core.List.{append_assoc, append-nil}
use starkstream_dna.Base.Maps.{nat_ord, key_eq, keys, lookup, insert, lookup-insert}
use starkstream_dna.Base.Orders.{nat-IsOrder, IsSorted, insert-IsSorted}
use starkstream_dna.Base.Sorted.{values, search-lookup}
use starkstream_dna.Base.Search.{binary_search_by, binary_search_by_inside}
use starkstream_dna.Join.{
  JoinToOneIndex, JoinToOneIndexBuilder, insert_one, build_one_from, build_one, value_at, get_one,
}

build_one_from-keys :
    (index : JoinToOneIndex) (m : JoinToOneIndexBuilder)
    → ((build_one_from index m).keys ≡ index.keys ++ keys m)
      × ((build_one_from index m).values ≡ index.values ++ values m)
unfolding build_one_from
build_one_from-keys index [] = (sym (append-nil index.keys), sym (append-nil index.values))
build_one_from-keys index ((k, v) ∷ m) =
    let (ks, vs) =
      build_one_from-keys (record { keys = index.keys ++ k ∷ []; values = index.values ++ v ∷ [] })
        m in
    (
      ks ∙ append_assoc index.keys (k ∷ []) (keys m),
      vs ∙ append_assoc index.values (v ∷ []) (values m),
    )

value_at-inside :
    (values : List ℕ) (found : Option ℕ)
    → ((p : ℕ) → found ≡ some p → p < length values)
    → value_at values found ≡ ok (elim found [ none ↦ none | some p ↦ get_elem? values p ])
unfolding value_at
value_at-inside values none inside = refl
value_at-inside values (some p) inside =
    let (value, here) = get_elem?-lt values p (inside p refl) in rw here

length-values : (m : JoinToOneIndexBuilder) → length (keys m) ≡ length (values m)
length-values [] = refl
length-values ((k, v) ∷ m) = ap suc (length-values m)

pub get_one-build_one :
    (m : JoinToOneIndexBuilder) (key : ℕ)
    → IsSorted nat_ord m
    → get_one (build_one m) key ≡ ok (lookup key m)
unfolding get_one build_one
get_one-build_one m key sorted =
    let (ks, vs) = build_one_from-keys (record { keys = []; values = [] }) m in
    let found = binary_search_by (λ entry. compare entry key) (keys m) in
    rw (ks, vs)
      (value_at-inside (values m) found (λ p e.
          subst (λ n. p < n) (length-values m)
            (binary_search_by_inside (λ entry. compare entry key) (keys m) p e))
        ∙ ap ok (search-lookup nat_ord nat-IsOrder key m sorted))

-- Joins of rows to rows, in the order in which they are inserted.
unfoldable pub insert_all : List (ℕ × ℕ) → JoinToOneIndexBuilder → JoinToOneIndexBuilder
insert_all [] m = m
insert_all ((key, value) ∷ more) m = insert_all more (insert_one key value m)

-- The value that was inserted last for a row.
unfoldable pub last_of : ℕ → List (ℕ × ℕ) → Option ℕ → Option ℕ
last_of key [] before = before
last_of key ((k, v) ∷ more) before = last_of key more (if key_eq key k then some v else before)

insert_all-IsSorted :
    (ps : List (ℕ × ℕ)) (m : JoinToOneIndexBuilder)
    → IsSorted nat_ord m
    → IsSorted nat_ord (insert_all ps m)
unfolding insert_all insert_one
insert_all-IsSorted [] m s = s
insert_all-IsSorted ((k, v) ∷ more) m s =
    insert_all-IsSorted more (insert k v m) (insert-IsSorted nat_ord nat-IsOrder k v m s)

lookup-insert_all :
    (key : ℕ) (ps : List (ℕ × ℕ)) (m : JoinToOneIndexBuilder)
    → lookup key (insert_all ps m) ≡ last_of key ps (lookup key m)
unfolding insert_all insert_one last_of
lookup-insert_all key [] m = refl
lookup-insert_all key ((k, v) ∷ more) m =
    lookup-insert_all key more (insert k v m) ∙ ap (last_of key more) (lookup-insert key k v m)

-- A join to one that is built after rows were inserted with their values gives, for any row, the value
-- that was inserted last for it, or nothing; the search does not panic.
pub get_one-insert_all :
    (ps : List (ℕ × ℕ)) (key : ℕ)
    → get_one (build_one (insert_all ps [])) key ≡ ok (last_of key ps none)
unfolding lookup
get_one-insert_all ps key =
    get_one-build_one (insert_all ps []) key (insert_all-IsSorted ps [] tt)
    ∙ ap ok (lookup-insert_all key ps [])
