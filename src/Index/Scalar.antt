-- ===== src/Index/Scalar.antt =====
-- common/src/index.rs: scalar values, and how they are compared.
use starkstream_dna.Base.{
  ℕ, Bool, List, [], ◌∷◌, ◌==◌, if◌then◌else◌, compare, Ordering, compare_bytes,
}

-- An `Int32` is given by its value plus 2 ^ 31, which keeps the order.
pub data ScalarValue : Type 0 where
  null : ScalarValue
  bool_value : Bool → ScalarValue
  int32 : ℕ → ScalarValue
  uint8 : ℕ → ScalarValue
  uint16 : ℕ → ScalarValue
  uint32 : ℕ → ScalarValue
  uint64 : ℕ → ScalarValue
  b160 : List ℕ → ScalarValue
  b256 : List ℕ → ScalarValue
  b384 : List ℕ → ScalarValue

-- The place of the variant in the declaration.
unfoldable pub variant : ScalarValue → ℕ
variant null = 0
variant (bool_value b) = 1
variant (int32 n) = 2
variant (uint8 n) = 3
variant (uint16 n) = 4
variant (uint32 n) = 5
variant (uint64 n) = 6
variant (b160 bytes) = 7
variant (b256 bytes) = 8
variant (b384 bytes) = 9

-- What the variant holds.
unfoldable pub payload : ScalarValue → List ℕ
payload null = []
payload (bool_value b) = (if b then 1 else 0) ∷ []
payload (int32 n) = n ∷ []
payload (uint8 n) = n ∷ []
payload (uint16 n) = n ∷ []
payload (uint32 n) = n ∷ []
payload (uint64 n) = n ∷ []
payload (b160 bytes) = bytes
payload (b256 bytes) = bytes
payload (b384 bytes) = bytes

-- The derived order: by variant, then by what the variant holds.
unfoldable pub cmp_derived : ScalarValue → ScalarValue → Ordering
cmp_derived a b =
    let same_variant = compare_bytes (payload a) (payload b) in
    elim (compare (variant a) (variant b)) [
      | Ordering.lt ↦ Ordering.lt
      | Ordering.eq ↦ same_variant
      | Ordering.gt ↦ Ordering.gt
    ]

-- The order of the search: values of two variants compare as `Greater`.
unfoldable pub cmp_scalar_value : ScalarValue → ScalarValue → Ordering
cmp_scalar_value a b =
    if variant a == variant b then compare_bytes (payload a) (payload b) else Ordering.gt
