-- ===== src/Core/Equivalence.antt =====
-- `Cursor::is_equivalent`: hashes are compared up to leading zeros, and an empty one fits any.
use starkstream_dna.Base.{
  ℕ, zero, suc, ◌+◌, ◌-◌, min, ◌≤◌, ◌≡◌, refl, sym, ap, ◌∙◌, ◌↔◌, ◌⊎◌, inl, inr, Bool-cases, ltb,
  true, [], ◌∷◌, ◌++◌, arith, ◌==◌, if◌then◌else◌, bytes_eq, bytes_eq_iff, length, take, drop,
  replicate, replicate-append, take-append-drop,
}
use mathlib.Core.List.{append_assoc}
use mathlib.Core.Path.{ap₂, ◌≡⟨◌⟩◌, ◌∎}
use starkstream_dna.Core.{Hash, Cursor, is_equivalent, padded_eq, is_empty}

-- A hash without its leading zeros.
pub trim : Hash → Hash
trim [] = []
trim (b ∷ bs) = let rest = trim bs in if b == 0 then rest else b ∷ bs

length-trim : (xs : Hash) → length (trim xs) ≤ length xs
unfolding trim
length-trim [] = omega arith
length-trim (b ∷ bs) = ground (arith, length-trim bs)

trim-zeros : (n : ℕ) (xs : Hash) → trim (replicate n 0 ++ xs) ≡ trim xs
unfolding trim
trim-zeros zero xs = refl
trim-zeros (suc n) xs = trim-zeros n xs

-- A hash is its trimmed form behind zeros.
zeros-trim : (xs : Hash) (n : ℕ) → length xs ≡ n + length (trim xs) → replicate n 0 ++ trim xs ≡ xs
unfolding trim
zeros-trim [] zero h = refl
zeros-trim [] (suc n) h = absurd (omega arith)
zeros-trim (b ∷ bs) zero h = ground (arith, length-trim bs)
zeros-trim (b ∷ bs) (suc n) h = ground (arith, zeros-trim bs n)

take-zeros : (d : ℕ) (ys : Hash) → take d (replicate d 0 ++ ys) ≡ replicate d 0
take-zeros zero ys = refl
take-zeros (suc d) ys = ap (◌∷◌ 0) (take-zeros d ys)

drop-zeros : (d : ℕ) (ys : Hash) → drop d (replicate d 0 ++ ys) ≡ ys
drop-zeros zero ys = refl
drop-zeros (suc d) ys = drop-zeros d ys

module _ (xs ys : Hash) (d : ℕ) (longer : length xs ≡ d + length ys) where
  trim-of-padded : take d xs ≡ replicate d 0 → drop d xs ≡ ys → trim xs ≡ trim ys
  trim-of-padded p q =
      trim xs
      ≡⟨ ap trim (sym (take-append-drop d xs)) ⟩ trim (take d xs ++ drop d xs)
      ≡⟨ ap₂ (λ a b. trim (a ++ b)) p q ⟩ trim (replicate d 0 ++ ys)
      ≡⟨ trim-zeros d ys ⟩ trim ys ∎

  padded-of-trim : trim xs ≡ trim ys → xs ≡ replicate d 0 ++ ys
  padded-of-trim e =
      let n = length ys - length (trim ys) in
      let bound = length-trim ys in
      xs
      ≡⟨ sym (zeros-trim xs (d + n) (omega (arith, ap length e))) ⟩ replicate (d + n) 0 ++ trim xs
      ≡⟨ ap (λ t. replicate (d + n) 0 ++ t) e ⟩ replicate (d + n) 0 ++ trim ys
      ≡⟨ ap (λ z. z ++ trim ys) (sym (replicate-append d n (d + n) 0 refl)) ⟩
        (replicate d 0 ++ replicate n 0) ++ trim ys
      ≡⟨ append_assoc (replicate d 0) (replicate n 0) (trim ys) ⟩
        replicate d 0 ++ (replicate n 0 ++ trim ys)
      ≡⟨ ap (◌++◌ (replicate d 0)) (zeros-trim ys n (omega arith)) ⟩ replicate d 0 ++ ys ∎

  -- The longer hash is the shorter one behind zeros just when both trim to the same bytes.
  padded_iff : ((take d xs ≡ replicate d 0) × (drop d xs ≡ ys)) ↔ (trim xs ≡ trim ys)
  padded_iff = (
    λ h. trim-of-padded h.0 h.1,
    λ e.
        let p = padded-of-trim e in
        (ap (take d) p ∙ take-zeros d ys, ap (drop d) p ∙ drop-zeros d ys),
  )

padded_eq_iff : (xs ys : Hash) → (padded_eq xs ys ≡ true) ↔ (trim xs ≡ trim ys)
unfolding padded_eq
padded_eq_iff xs ys = elim (Bool-cases (ltb (length ys) (length xs))) [
  | inl longer ↦
      let d = length xs - length ys in
      let cut : length xs - min (length xs) (length ys) ≡ d = ground arith in
      let whole : length ys - min (length xs) (length ys) ≡ 0 = ground arith in
      rw (longer, cut, whole)
        (ground (
          arith,
          bytes_eq_iff ys (drop d xs),
          bytes_eq_iff (take d xs) (replicate d 0),
          padded_iff xs ys d (ground arith),
        ))
  | inr shorter ↦
      let d = length ys - length xs in
      let cut : length ys - min (length xs) (length ys) ≡ d = ground arith in
      let whole : length xs - min (length xs) (length ys) ≡ 0 = ground arith in
      rw (shorter, cut, whole)
        (ground (
          arith,
          bytes_eq_iff xs (drop d ys),
          bytes_eq_iff (take d ys) (replicate d 0),
          padded_iff ys xs d (ground arith),
        ))
]

same_length_iff :
    (xs ys : Hash) → length xs ≡ length ys → (bytes_eq xs ys ≡ true) ↔ (trim xs ≡ trim ys)
same_length_iff xs ys h = ground (arith, bytes_eq_iff xs ys, padded_iff xs ys 0 (omega (arith, h)))

is_empty_iff : (xs : Hash) → (is_empty xs ≡ true) ↔ (xs ≡ [])
unfolding is_empty
is_empty_iff [] = ground arith
is_empty_iff (x ∷ xs) = ground arith

-- Two cursors are equivalent exactly when they have the same number and either hash is empty or
-- both hashes are the same once their leading zeros are cut off.
pub is_equivalent_iff :
    (a b : Cursor)
    → (is_equivalent a b ≡ true)
      ↔ ((a.number ≡ b.number) × ((a.hash ≡ []) ⊎ ((b.hash ≡ []) ⊎ (trim a.hash ≡ trim b.hash))))
unfolding is_equivalent
is_equivalent_iff a b = ground (
  arith,
  is_empty_iff a.hash,
  is_empty_iff b.hash,
  same_length_iff a.hash b.hash,
  padded_eq_iff a.hash b.hash,
)
