-- ===== src/Base/Maps.antt =====
-- `BTreeMap`: the entries in key order.
use Prim.Native.Nat.{ℕ, compare, Ordering}
use mathlib.Core.Path.{◌≡◌, refl, ap, ◌∙◌}
use mathlib.Core.Logic.{◌↔◌}
use mathlib.Core.Bool.{Bool, true, false}
use mathlib.Core.Option.{Option, none, some}
use mathlib.Core.List.{List, [], ◌∷◌, map}
use native.Mathlib.Omega.{arith}
use starkstream_dna.Base.Tests.{compare_bytes, compare_bytes_eq, if◌then◌else◌}

-- The order of the keys.
pub record Ord {ℓ} (K : Type ℓ) : Type ℓ where
  pub cmp : K → K → Ordering
  pub cmp_eq : (a b : K) → (cmp a b ≡ Ordering.eq) ↔ (a ≡ b)

pub compare_eq : (a b : ℕ) → (compare a b ≡ Ordering.eq) ↔ (a ≡ b)
compare_eq a b = ground arith

instance abbrev pub nat_ord : Ord ℕ
nat_ord = record { cmp = compare; cmp_eq = compare_eq }

instance abbrev pub bytes_ord : Ord (List ℕ)
bytes_ord = record { cmp = compare_bytes; cmp_eq = compare_bytes_eq }

abbrev pub key_eq {ℓ} : {K : Type ℓ} ⦃o : Ord K⦄ → K → K → Bool
key_eq ⦃o⦄ a b = elim (o.cmp a b) [ Ordering.eq ↦ true | _ ↦ false ]

abbrev pub BTreeMap {ℓ κ} : Type ℓ → Type κ → Type (ℓ ⊔ κ)
BTreeMap K V = List (K × V)

abbrev pub unwrap_or {ℓ} : {A : Type ℓ} → A → Option A → A
unwrap_or d none = d
unwrap_or d (some a) = a

module _ {ℓ κ} {K : Type ℓ} {V : Type κ} ⦃o : Ord K⦄ where
  unfoldable pub lookup : K → BTreeMap K V → Option V
  lookup k [] = none
  lookup k ((j, v) ∷ m) = if key_eq k j then some v else lookup k m

  -- The place that the order gives; the entry of an equal key is replaced.
  unfoldable pub insert : K → V → BTreeMap K V → BTreeMap K V
  insert k v [] = (k, v) ∷ []
  insert k v ((j, w) ∷ m) =
      let rest = insert k v m in
      elim (o.cmp k j) [
        | Ordering.lt ↦ (k, v) ∷ (j, w) ∷ m
        | Ordering.eq ↦ (k, v) ∷ m
        | Ordering.gt ↦ (j, w) ∷ rest
      ]

  -- A key has one entry at most.
  unfoldable pub remove : K → BTreeMap K V → BTreeMap K V
  remove k [] = []
  remove k ((j, v) ∷ m) = if key_eq k j then remove k m else (j, v) ∷ remove k m

  -- `get(k).cloned().unwrap_or_default()`
  unfoldable pub lookup_or : K → V → BTreeMap K V → V
  unfolding lookup
  lookup_or k d m = unwrap_or d (lookup k m)

  pub lookup-insert :
      (j k : K) (v : V) (m : BTreeMap K V)
      → lookup j (insert k v m) ≡ (if key_eq j k then some v else lookup j m)
  unfolding lookup insert
  lookup-insert j k v [] = refl
  lookup-insert j k v ((i, w) ∷ m) =
      ground (arith, o.cmp_eq k i, o.cmp_eq j i, o.cmp_eq j k, lookup-insert j k v m)

  pub lookup-remove :
      (j k : K) (m : BTreeMap K V)
      → lookup j (remove k m) ≡ (if key_eq j k then none else lookup j m)
  unfolding lookup remove
  lookup-remove j k [] = ground arith
  lookup-remove j k ((i, w) ∷ m) =
      ground (arith, o.cmp_eq k i, o.cmp_eq j i, o.cmp_eq j k, lookup-remove j k m)

  pub lookup_or-remove :
      (j k : K) (d : V) (m : BTreeMap K V)
      → key_eq j k ≡ false
      → lookup_or j d (remove k m) ≡ lookup_or j d m
  unfolding lookup_or
  lookup_or-remove j k d m e = ap (unwrap_or d) {y = lookup j m} (lookup-remove j k m ∙ rw e)

abbrev pub keys {ℓ κ} : {K : Type ℓ} {V : Type κ} → BTreeMap K V → List K
keys m = map (λ e. e.0) m

pub lookup_or-insert {ℓ κ} :
    {K : Type ℓ} {V : Type κ} ⦃o : Ord K⦄ (j k : K) (d v : V) (m : BTreeMap K V)
    → lookup_or j d (insert k v m) ≡ (if key_eq j k then v else lookup_or j d m)
unfolding lookup_or
lookup_or-insert j k d v m =
    ap (unwrap_or d) (lookup-insert j k v m)
    ∙ (elim (key_eq j k)
        as (λ b.
          unwrap_or d (if b then some v else lookup j m)
          ≡ (if b then v else unwrap_or d (lookup j m))) [ true ↦ refl | false ↦ refl ])
