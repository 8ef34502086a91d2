-- ===== src/Base/Search.antt =====
-- `slice::binary_search_by` of the standard library.
use Prim.Native.Nat.{ℕ, zero, suc, ◌+◌, ◌-◌, ◌/◌, ◌≤◌, ◌<◌, Ordering}
use mathlib.Core.Path.{◌≡◌, refl, sym, ap, ◌∙◌, fun_ext}
use mathlib.Core.Logic.{◌≢◌}
use mathlib.Core.Option.{Option, none, some}
use mathlib.Core.List.{List}
use mathlib.Core.Logic.{inl, inr}
use native.Mathlib.Decide.{dec_lt}
use native.Mathlib.Omega.{arith}
use starkstream_dna.Base.Tests.{ltb, if◌then◌else◌, Bool-cases}
use starkstream_dna.Base.Lists.{length, get_elem?, get_elem?-none}

-- What the comparison says of an element; a place behind the end counts as too large.
abbrev pub probe {ℓ} : {A : Type ℓ} → (A → Ordering) → List A → ℕ → Ordering
probe cmp xs i = elim (get_elem? xs i) [ none ↦ Ordering.gt | some x ↦ cmp x ]

-- The base after a look at the middle.
abbrev pub narrowed : Ordering → ℕ → ℕ → ℕ
narrowed Ordering.gt base mid = base
narrowed Ordering.eq base mid = mid
narrowed Ordering.lt base mid = mid

narrowed_low : (r : Ordering) (base mid : ℕ) → r ≢ Ordering.gt → narrowed r base mid ≡ mid
narrowed_low Ordering.lt base mid h = refl
narrowed_low Ordering.eq base mid h = refl
narrowed_low Ordering.gt base mid h = absurd (h refl)

module _ (f : ℕ → Ordering) where
  -- The loop, on fuel: `size` elements from `base` on are left.
  unfoldable pub search_loop : ℕ → ℕ → ℕ → ℕ
  search_loop zero base size = base
  search_loop (suc fuel) base size =
      let mid = base + size / 2 in
      let rest = search_loop fuel (narrowed (f mid) base mid) (size - size / 2) in
      if ltb 1 size then rest else base

  -- With enough fuel the loop ends at the element that the comparison singles out.
  pub search_loop_finds :
      (fuel base size p : ℕ)
      → size ≤ suc fuel
      → base ≤ p
      → p < base + size
      → ((i : ℕ) → i ≤ p → f i ≢ Ordering.gt)
      → ((i : ℕ) → p < i → f i ≡ Ordering.gt)
      → search_loop fuel base size ≡ p
  unfolding search_loop
  search_loop_finds zero base size p enough low high before after = omega arith
  search_loop_finds (suc fuel) base size p enough low high before after =
      let mid = base + size / 2 in
      elim (Bool-cases (ltb 1 size)) [
        | inr single ↦ rw single (ground arith)
        | inl more ↦ rw more (elim (dec_lt p mid) [
          | yes above ↦ rw (after mid above) (
              search_loop_finds fuel base (size - size / 2) p (ground arith) low (omega arith)
                before after)
          | no within ↦ rw (narrowed_low (f mid) base mid (before mid (omega arith))) (
              search_loop_finds fuel mid (size - size / 2) p (ground arith) (omega arith)
                (omega arith) before after)
        ])
      ]

abbrev pub checked : Ordering → ℕ → Option ℕ
checked Ordering.eq base = some base
checked Ordering.lt base = none
checked Ordering.gt base = none

checked-none : (r : Ordering) (base : ℕ) → r ≢ Ordering.eq → checked r base ≡ none
checked-none Ordering.eq base h = absurd (h refl)
checked-none Ordering.lt base h = refl
checked-none Ordering.gt base h = refl

checked-some :
    (r : Ordering) (base : ℕ) {p : ℕ} → checked r base ≡ some p → (r ≡ Ordering.eq) × (base ≡ p)
checked-some Ordering.eq base e = (refl, cc)
checked-some Ordering.lt base e = cc
checked-some Ordering.gt base e = cc

-- An element that compares as equal is found by halving; `fuel` is the length.
unfoldable pub binary_search_by {ℓ} : {A : Type ℓ} → (A → Ordering) → List A → Option ℕ
unfolding search_loop
binary_search_by cmp xs =
    let base = search_loop (probe cmp xs) (length xs) 0 (length xs) in
    checked (probe cmp xs base) base

gt-not-eq : ◌≢◌ {A = Ordering} Ordering.gt Ordering.eq
gt-not-eq e = cc

module _ {ℓ} {A : Type ℓ} (cmp : A → Ordering) (xs : List A) where
  probe_outside : (i : ℕ) → length xs ≤ i → probe cmp xs i ≡ Ordering.gt
  probe_outside i h = rw (get_elem?-none xs i h, probe)

  probe_inside : (i : ℕ) → probe cmp xs i ≡ Ordering.eq → i < length xs
  probe_inside i here = elim (dec_lt i (length xs)) [
    | yes inside ↦ inside
    | no outside ↦ absurd (gt-not-eq (sym (probe_outside i (omega arith)) ∙ here))
  ]

  pub binary_search_by_found :
      (p : ℕ)
      → probe cmp xs p ≡ Ordering.eq
      → ((i : ℕ) → i ≤ p → probe cmp xs i ≢ Ordering.gt)
      → ((i : ℕ) → p < i → probe cmp xs i ≡ Ordering.gt)
      → binary_search_by cmp xs ≡ some p
  unfolding binary_search_by
  binary_search_by_found p here before after =
      let inside = probe_inside p here in
      let found =
        search_loop_finds (probe cmp xs) (length xs) 0 (length xs) p (omega arith) (omega arith)
          (omega arith) before after in
      ap (λ base. checked (probe cmp xs base) base) found ∙ ap (λ r. checked r p) here

  pub binary_search_by_missing :
      ((i : ℕ) → probe cmp xs i ≢ Ordering.eq) → binary_search_by cmp xs ≡ none
  unfolding binary_search_by
  binary_search_by_missing absent =
      let base = search_loop (probe cmp xs) (length xs) 0 (length xs) in
      checked-none (probe cmp xs base) base (absent base)

-- The search depends on what the comparison says of the elements alone.
pub binary_search_by-eq {ℓ} :
    {A : Type ℓ} (c d : A → Ordering) (xs : List A)
    → ((i : ℕ) → probe c xs i ≡ probe d xs i)
    → binary_search_by c xs ≡ binary_search_by d xs
unfolding binary_search_by
binary_search_by-eq c d xs e =
    ap
      (λ (f : ℕ → Ordering).
        checked (f (search_loop f (length xs) 0 (length xs)))
          (search_loop f (length xs) 0 (length xs)))
      (fun_ext e)

pub binary_search_by_inside {ℓ} :
    {A : Type ℓ} (cmp : A → Ordering) (xs : List A) (p : ℕ)
    → binary_search_by cmp xs ≡ some p
    → p < length xs
unfolding binary_search_by
binary_search_by_inside cmp xs p e =
    let base = search_loop (probe cmp xs) (length xs) 0 (length xs) in
    let (here, same) = checked-some (probe cmp xs base) base e in
    probe_inside cmp xs p (ap (probe cmp xs) (sym same) ∙ here)
