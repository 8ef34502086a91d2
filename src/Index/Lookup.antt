-- ===== src/Index/Lookup.antt =====
-- What an index answers for a value, when it was built from a column of one kind.
use starkstream_dna.Base.{
  false, none, some, [], ◌∷◌, ◌≡◌, refl, ap, arith, Ordering, get_elem?, ◌≢◌, ℕ, zero, suc,
  ℕ_discrete,
}
use starkstream_dna.Base.Maps.{BTreeMap, key_eq, keys, lookup}
use starkstream_dna.Base.Orders.{IsSorted}
use starkstream_dna.Base.Sorted.{values, search-lookup}
use starkstream_dna.Base.Search.{
  binary_search_by, binary_search_by_missing, binary_search_by-eq, probe,
}
use starkstream_dna.Index.Scalar.{ScalarValue, variant, cmp_derived, cmp_scalar_value}
use starkstream_dna.Index.Order.{scalar_ord, scalar-IsOrder}

module _ {V : Type 0} where
  -- The values of one column have one variant.
  abbrev pub IsColumn : ℕ → BTreeMap ScalarValue V → Type 0
  IsColumn t [] = Unit
  IsColumn t ((k, v) ∷ m) = (variant k ≡ t) × IsColumn t m

  -- Over a column the two orders agree on a value of its variant,
  column-agrees :
      (t : ℕ) (key : ScalarValue) (m : BTreeMap ScalarValue V)
      → variant key ≡ t
      → IsColumn t m
      → (i : ℕ)
      → probe (λ entry. cmp_scalar_value entry key) (keys m) i
        ≡ probe (λ entry. cmp_derived entry key) (keys m) i
  unfolding cmp_scalar_value cmp_derived
  column-agrees t key [] e c i = refl
  column-agrees t key ((k, v) ∷ m) e (c, cs) zero = ground arith
  column-agrees t key ((k, v) ∷ m) e (c, cs) (suc i) = column-agrees t key m e cs i

  -- and a value of another variant is not found.
  column-misses :
      (t : ℕ) (key : ScalarValue) (m : BTreeMap ScalarValue V)
      → variant key ≢ t
      → IsColumn t m
      → (i : ℕ) → probe (λ entry. cmp_scalar_value entry key) (keys m) i ≢ Ordering.eq
  unfolding cmp_scalar_value
  column-misses t key [] n c i = λ e. cc
  column-misses t key ((k, v) ∷ m) n (c, cs) zero = ground arith
  column-misses t key ((k, v) ∷ m) n (c, cs) (suc i) = column-misses t key m n cs i

  lookup-misses :
      (t : ℕ) (key : ScalarValue) (m : BTreeMap ScalarValue V)
      → variant key ≢ t
      → IsColumn t m
      → lookup key m ≡ none
  unfolding lookup
  lookup-misses t key [] n c = refl
  lookup-misses t key ((k, v) ∷ m) n (c, cs) =
      let other : key_eq key k ≡ false =
        ground (arith, scalar_ord.cmp_eq key k, ap variant {x = key} {y = k}) in
      rw other (lookup-misses t key m n cs)

  -- The search of the index finds what the map holds.
  pub column-lookup :
      (t : ℕ) (key : ScalarValue) (m : BTreeMap ScalarValue V)
      → IsSorted scalar_ord m
      → IsColumn t m
      → (elim (binary_search_by (λ entry. cmp_scalar_value entry key) (keys m)) [
        | none ↦ none
        | some p ↦ get_elem? (values m) p
      ])
        ≡ lookup key m
  column-lookup t key m s c = elim (ℕ_discrete (variant key) t) [
    | yes e ↦
        rw
          (binary_search_by-eq (λ entry. cmp_scalar_value entry key)
            (λ entry. cmp_derived entry key) (keys m) (column-agrees t key m e c))
          (search-lookup scalar_ord scalar-IsOrder key m s)
    | no n ↦ rw (
      binary_search_by_missing (λ entry. cmp_scalar_value entry key) (keys m)
          (column-misses t key m n c),
      lookup-misses t key m n c,
    )
  ]
