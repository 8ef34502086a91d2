-- ===== src/Base/Sorted.antt =====
-- A binary search in the keys of an ordered map finds what a lookup finds.
use Prim.Native.Nat.{ℕ, zero, suc, ◌≤◌, ◌<◌, Ordering}
use mathlib.Core.Path.{◌≡◌, refl, sym, subst}
use mathlib.Core.Logic.{◌≢◌, inl, inr}
use mathlib.Core.Bool.{true}
use mathlib.Core.Option.{Option, none, some}
use mathlib.Core.List.{List, [], ◌∷◌, map}
use native.Mathlib.Omega.{arith}
use starkstream_dna.Base.Tests.{if-cases, Option-cases}
use starkstream_dna.Base.Lists.{get_elem?}
use starkstream_dna.Base.Maps.{Ord, BTreeMap, key_eq, keys, lookup}
use starkstream_dna.Base.Orders.{IsOrder, Below, IsSorted}
use starkstream_dna.Base.Search.{
  probe, binary_search_by, binary_search_by_found, binary_search_by_missing,
}

abbrev pub values {ℓ κ} : {K : Type ℓ} {V : Type κ} → BTreeMap K V → List V
values m = map (λ e. e.1) m

key_eq-true {ℓ} : {K : Type ℓ} (o : Ord K) (k j : K) → key_eq ⦃o = o⦄ k j ≡ true → k ≡ j
key_eq-true o k j h = ground (arith, o.cmp_eq k j)

none-not-some {ℓ} : {A : Type ℓ} {a : A} → ¬ (◌≡◌ {A = Option A} none (some a))
none-not-some e = cc

lt-not-gt : {r : Ordering} → r ≡ Ordering.lt → r ≢ Ordering.gt
lt-not-gt e h = cc

eq-not-gt : {r : Ordering} → r ≡ Ordering.eq → r ≢ Ordering.gt
eq-not-gt e h = cc

-- A row of comparisons with one more in front.
module _ (f : ℕ → Ordering) where
  before_zero : f zero ≡ Ordering.eq → (i : ℕ) → i ≤ 0 → f i ≢ Ordering.gt
  before_zero e zero h = eq-not-gt e
  before_zero e (suc i) h = elim h [ ]

  after_zero : ((i : ℕ) → f (suc i) ≡ Ordering.gt) → (i : ℕ) → 0 < i → f i ≡ Ordering.gt
  after_zero all zero h = elim h [ ]
  after_zero all (suc i) h = all i

  before_suc :
      (p : ℕ)
      → f zero ≡ Ordering.lt
      → ((i : ℕ) → i ≤ p → f (suc i) ≢ Ordering.gt)
      → (i : ℕ) → i ≤ suc p
      → f i ≢ Ordering.gt
  before_suc p e all zero h = lt-not-gt e
  before_suc p e all (suc i) h = all i (omega arith)

  after_suc :
      (p : ℕ)
      → ((i : ℕ) → p < i → f (suc i) ≡ Ordering.gt)
      → (i : ℕ) → suc p < i
      → f i ≡ Ordering.gt
  after_suc p all zero h = elim h [ ]
  after_suc p all (suc i) h = all i (omega arith)

module _ {ℓ κ} {K : Type ℓ} {V : Type κ} (o : Ord K) (l : IsOrder o) where
  -- What the comparison with a key says of the `i`-th entry.
  abbrev pub at_key : K → BTreeMap K V → ℕ → Ordering
  at_key k m i = probe (λ e. o.cmp e k) (keys m) i

  Below-probe : (j : K) (m : BTreeMap K V) (i : ℕ) → Below o j m → at_key j m i ≡ Ordering.gt
  Below-probe j [] i b = refl
  Below-probe j ((k, v) ∷ m) zero (b, bs) = l.flip j k b
  Below-probe j ((k, v) ∷ m) (suc i) (b, bs) = Below-probe j m i bs

  Below-lookup :
      (j k : K) (m : BTreeMap K V) {v : V}
      → Below o j m
      → lookup ⦃o = o⦄ k m ≡ some v
      → o.cmp j k ≡ Ordering.lt
  unfolding lookup
  Below-lookup j k [] b h = cc
  Below-lookup j k ((i, w) ∷ m) (b, bs) h = elim (if-cases (key_eq ⦃o = o⦄ k i) h) [
    | inl (same, _) ↦ subst (λ i. o.cmp j i ≡ Ordering.lt) (sym (key_eq-true o k i same)) b
    | inr (_, later) ↦ Below-lookup j k m bs later
  ]

  -- The place of a key.
  pub record Located (k : K) (m : BTreeMap K V) (v : V) : Type (ℓ ⊔ κ) where
    pub place : ℕ
    pub here : at_key k m place ≡ Ordering.eq
    pub before : (i : ℕ) → i ≤ place → at_key k m i ≢ Ordering.gt
    pub after : (i : ℕ) → place < i → at_key k m i ≡ Ordering.gt
    pub value : get_elem? (values m) place ≡ some v

  lookup-Located :
      (k : K) (m : BTreeMap K V) {v : V}
      → IsSorted o m
      → lookup ⦃o = o⦄ k m ≡ some v
      → Located k m v
  unfolding lookup
  lookup-Located k [] s h = absurd (none-not-some h)
  lookup-Located k ((j, w) ∷ m) {v} (b, s) h = elim (if-cases (key_eq ⦃o = o⦄ k j) h) [
    | inl (same, found) ↦
        let equal : o.cmp j k ≡ Ordering.eq = (o.cmp_eq j k).1 (sym (key_eq-true o k j same)) in
        let above : (i : ℕ) → at_key k m i ≡ Ordering.gt =
          λ i. Below-probe k m i (subst (λ j. Below o j m) (sym (key_eq-true o k j same)) b) in
        record {
          place = 0;
          here = equal;
          before = before_zero (at_key k ((j, w) ∷ m)) equal;
          after = after_zero (at_key k ((j, w) ∷ m)) above;
          value = found;
        }
    | inr (other, later) ↦
        let r = lookup-Located k m s later in
        let lower = Below-lookup j k m b later in
        record {
          place = suc r.place;
          here = r.here;
          before = before_suc (at_key k ((j, w) ∷ m)) r.place lower r.before;
          after = after_suc (at_key k ((j, w) ∷ m)) r.place r.after;
          value = r.value;
        }
  ]

  at_key-missing :
      (k : K) (m : BTreeMap K V) (i : ℕ) → lookup ⦃o = o⦄ k m ≡ none → at_key k m i ≢ Ordering.eq
  unfolding lookup
  at_key-missing k [] i h e = cc
  at_key-missing k ((j, w) ∷ m) zero h e =
      let same : key_eq ⦃o = o⦄ k j ≡ true = ground (arith, o.cmp_eq j k, o.cmp_eq k j) in
      none-not-some (sym (rw same at h))
  at_key-missing k ((j, w) ∷ m) (suc i) h e = elim (if-cases (key_eq ⦃o = o⦄ k j) h) [
    | inl (_, found) ↦ none-not-some (sym found)
    | inr (other, later) ↦ at_key-missing k m i later e
  ]

  -- A search for a key, and the value at the place that it finds.
  pub search-lookup :
      (k : K) (m : BTreeMap K V)
      → IsSorted o m
      → (elim (binary_search_by (λ e. o.cmp e k) (keys m)) [
        | none ↦ none
        | some p ↦ get_elem? (values m) p
      ])
        ≡ lookup ⦃o = o⦄ k m
  search-lookup k m s = elim (Option-cases (lookup ⦃o = o⦄ k m)) [
    | inl missing ↦ rw (
      binary_search_by_missing (λ e. o.cmp e k) (keys m) (λ i. at_key-missing k m i missing),
      missing,
    )
    | inr (v, found) ↦
        let r = lookup-Located k m s found in
        rw (
          binary_search_by_found (λ e. o.cmp e k) (keys m) r.place r.here r.before r.after,
          r.value,
          found,
        )
  ]
