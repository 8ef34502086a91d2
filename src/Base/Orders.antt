-- ===== src/Base/Orders.antt =====
-- Total orders on keys, and ordered maps whose keys rise.
use Prim.Native.Nat.{ℕ, compare, Ordering}
use mathlib.Core.Path.{◌≡◌, refl, sym, subst}
use mathlib.Core.List.{List, [], ◌∷◌}
use native.Mathlib.Omega.{arith}
use starkstream_dna.Base.Tests.{compare_bytes}
use starkstream_dna.Base.Maps.{Ord, nat_ord, bytes_ord, BTreeMap, insert}

-- The laws of a total order; the equality of keys is that of `Ord`.
pub record IsOrder {ℓ} {K : Type ℓ} (o : Ord K) : Type ℓ where
  pub flip : (a b : K) → o.cmp a b ≡ Ordering.lt → o.cmp b a ≡ Ordering.gt
  pub flip_gt : (a b : K) → o.cmp a b ≡ Ordering.gt → o.cmp b a ≡ Ordering.lt
  pub trans :
      (a b c : K) → o.cmp a b ≡ Ordering.lt → o.cmp b c ≡ Ordering.lt → o.cmp a c ≡ Ordering.lt

compare_flip : (a b : ℕ) → compare a b ≡ Ordering.lt → compare b a ≡ Ordering.gt
compare_flip a b h = ground arith

compare_flip_gt : (a b : ℕ) → compare a b ≡ Ordering.gt → compare b a ≡ Ordering.lt
compare_flip_gt a b h = ground arith

compare_trans :
    (a b c : ℕ) → compare a b ≡ Ordering.lt → compare b c ≡ Ordering.lt → compare a c ≡ Ordering.lt
compare_trans a b c h k = ground arith

pub nat-IsOrder : IsOrder nat_ord
nat-IsOrder = record { flip = compare_flip; flip_gt = compare_flip_gt; trans = compare_trans }

bytes_flip :
    (xs ys : List ℕ) → compare_bytes xs ys ≡ Ordering.lt → compare_bytes ys xs ≡ Ordering.gt
unfolding compare_bytes
bytes_flip [] [] h = cc
bytes_flip [] (y ∷ ys) h = refl
bytes_flip (x ∷ xs) [] h = cc
bytes_flip (x ∷ xs) (y ∷ ys) h = ground (arith, bytes_flip xs ys)

bytes_flip_gt :
    (xs ys : List ℕ) → compare_bytes xs ys ≡ Ordering.gt → compare_bytes ys xs ≡ Ordering.lt
unfolding compare_bytes
bytes_flip_gt [] [] h = cc
bytes_flip_gt [] (y ∷ ys) h = cc
bytes_flip_gt (x ∷ xs) [] h = refl
bytes_flip_gt (x ∷ xs) (y ∷ ys) h = ground (arith, bytes_flip_gt xs ys)

bytes_trans :
    (xs ys zs : List ℕ)
    → compare_bytes xs ys ≡ Ordering.lt
    → compare_bytes ys zs ≡ Ordering.lt
    → compare_bytes xs zs ≡ Ordering.lt
unfolding compare_bytes
bytes_trans [] [] zs h k = cc
bytes_trans [] (y ∷ ys) [] h k = cc
bytes_trans [] (y ∷ ys) (z ∷ zs) h k = refl
bytes_trans (x ∷ xs) [] zs h k = cc
bytes_trans (x ∷ xs) (y ∷ ys) [] h k = cc
bytes_trans (x ∷ xs) (y ∷ ys) (z ∷ zs) h k = ground (arith, bytes_trans xs ys zs)

pub bytes-IsOrder : IsOrder bytes_ord
bytes-IsOrder = record { flip = bytes_flip; flip_gt = bytes_flip_gt; trans = bytes_trans }

module _ {ℓ κ} {K : Type ℓ} {V : Type κ} (o : Ord K) where
  -- A key lies below every key of a map.
  abbrev pub Below : K → BTreeMap K V → Type ℓ
  Below k [] = Unit
  Below k ((j, v) ∷ m) = (o.cmp k j ≡ Ordering.lt) × Below k m

  abbrev pub IsSorted : BTreeMap K V → Type ℓ
  IsSorted [] = Unit
  IsSorted ((k, v) ∷ m) = Below k m × IsSorted m

  module _ (l : IsOrder o) where
    Below-trans : (j k : K) (m : BTreeMap K V) → o.cmp j k ≡ Ordering.lt → Below k m → Below j m
    Below-trans j k [] h b = tt
    Below-trans j k ((i, v) ∷ m) h (b, bs) = (l.trans j k i h b, Below-trans j k m h bs)

    Below-insert :
        (j k : K) (v : V) (m : BTreeMap K V)
        → o.cmp j k ≡ Ordering.lt
        → Below j m
        → Below j (insert ⦃o = o⦄ k v m)
    unfolding insert
    Below-insert j k v [] h b = (h, tt)
    Below-insert j k v ((i, w) ∷ m) h (b, bs) =
        let rest = Below-insert j k v m h bs in
        elim (o.cmp k i)
          as (λ r. Below j (elim r as (λ _. BTreeMap K V) [
            | Ordering.lt ↦ (k, v) ∷ (i, w) ∷ m
            | Ordering.eq ↦ (k, v) ∷ m
            | Ordering.gt ↦ (i, w) ∷ insert ⦃o = o⦄ k v m
          ])) [ Ordering.lt ↦ (h, (b, bs)) | Ordering.eq ↦ (h, bs) | Ordering.gt ↦ (b, rest) ]

    pub insert-IsSorted :
        (k : K) (v : V) (m : BTreeMap K V) → IsSorted m → IsSorted (insert ⦃o = o⦄ k v m)
    unfolding insert
    insert-IsSorted k v [] s = (tt, tt)
    insert-IsSorted k v ((j, w) ∷ m) (b, s) =
        let rest = insert-IsSorted k v m s in
        (elim (o.cmp k j)
            as (λ r.
              o.cmp k j ≡ r
              → IsSorted (elim r as (λ _. BTreeMap K V) [
                | Ordering.lt ↦ (k, v) ∷ (j, w) ∷ m
                | Ordering.eq ↦ (k, v) ∷ m
                | Ordering.gt ↦ (j, w) ∷ insert ⦃o = o⦄ k v m
              ])) [
                | Ordering.lt ↦ λ lower. ((lower, Below-trans k j m lower b), (b, s))
                | Ordering.eq ↦ λ same. (subst (λ i. Below i m) (sym ((o.cmp_eq k j).0 same)) b, s)
                | Ordering.gt ↦ λ higher. (Below-insert j k v m (l.flip_gt k j higher) b, rest)
              ])
          refl
