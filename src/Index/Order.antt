-- ===== src/Index/Order.antt =====
-- The derived order of scalar values is a total order.
use starkstream_dna.Base.{
  ℕ, true, false, List, [], ◌∷◌, ◌==◌, if◌then◌else◌, ◌≡◌, ◌↔◌, refl, sym, ap, ◌∙◌, arith, Ordering,
  compare_bytes_eq,
}
use starkstream_dna.Base.Maps.{Ord, compare_eq}
use starkstream_dna.Base.Orders.{IsOrder, bytes-IsOrder}
use starkstream_dna.Index.Scalar.{
  ScalarValue, null, bool_value, int32, uint8, uint16, uint32, uint64, b160, b256, b384, variant,
  payload, cmp_derived,
}

-- The value of a variant, by what it holds.
number : (ℕ → ScalarValue) → List ℕ → ScalarValue
number variant [] = null
number variant (n ∷ rest) = variant n

value_of : ℕ → List ℕ → ScalarValue
unfolding number
value_of t bytes =
    if t == 1
    then number (λ n. bool_value (n == 1)) bytes
    else if t == 2
    then number int32 bytes
    else if t == 3
    then number uint8 bytes
    else if t == 4
    then number uint16 bytes
    else if t == 5
    then number uint32 bytes
    else if t == 6
    then number uint64 bytes
    else if t == 7
    then b160 bytes
    else if t == 8
    then b256 bytes
    else if t == 9
    then b384 bytes
    else null

value_of-payload : (a : ScalarValue) → value_of (variant a) (payload a) ≡ a
unfolding value_of variant payload
value_of-payload null = refl
value_of-payload (bool_value true) = refl
value_of-payload (bool_value false) = refl
value_of-payload (int32 n) = refl
value_of-payload (uint8 n) = refl
value_of-payload (uint16 n) = refl
value_of-payload (uint32 n) = refl
value_of-payload (uint64 n) = refl
value_of-payload (b160 bytes) = refl
value_of-payload (b256 bytes) = refl
value_of-payload (b384 bytes) = refl

-- A value is determined by its variant and what it holds.
pub value_eq : (a b : ScalarValue) → variant a ≡ variant b → payload a ≡ payload b → a ≡ b
value_eq a b e f =
    sym (value_of-payload a)
    ∙ ap (λ t. value_of t (payload a)) e
    ∙ ap (value_of (variant b)) f
    ∙ value_of-payload b

pub cmp_derived_eq : (a b : ScalarValue) → (cmp_derived a b ≡ Ordering.eq) ↔ (a ≡ b)
unfolding cmp_derived
cmp_derived_eq a b = ground (
  arith,
  compare_bytes_eq (payload a) (payload b),
  compare_eq (variant a) (variant b),
  value_eq a b,
)

instance abbrev pub scalar_ord : Ord ScalarValue
scalar_ord = record { cmp = cmp_derived; cmp_eq = cmp_derived_eq }

cmp_derived_flip :
    (a b : ScalarValue) → cmp_derived a b ≡ Ordering.lt → cmp_derived b a ≡ Ordering.gt
unfolding cmp_derived
cmp_derived_flip a b h = ground (arith, bytes-IsOrder.flip (payload a) (payload b))

cmp_derived_flip_gt :
    (a b : ScalarValue) → cmp_derived a b ≡ Ordering.gt → cmp_derived b a ≡ Ordering.lt
unfolding cmp_derived
cmp_derived_flip_gt a b h = ground (arith, bytes-IsOrder.flip_gt (payload a) (payload b))

cmp_derived_trans :
    (a b c : ScalarValue)
    → cmp_derived a b ≡ Ordering.lt
    → cmp_derived b c ≡ Ordering.lt
    → cmp_derived a c ≡ Ordering.lt
unfolding cmp_derived
cmp_derived_trans a b c h k =
    ground (arith, bytes-IsOrder.trans (payload a) (payload b) (payload c))

pub scalar-IsOrder : IsOrder scalar_ord
scalar-IsOrder = record {
  flip = cmp_derived_flip;
  flip_gt = cmp_derived_flip_gt;
  trans = cmp_derived_trans;
}
