-- ===== src/Core/Tests.antt =====
-- The cases of `test_cursor_is_equivalent`, and inputs for the theorems on cursors.
use starkstream_dna.Base.{
  ℕ, ◌≡◌, ◌↔◌, ◌⊎◌, refl, true, false, List, [], ◌∷◌, bytes_eq, compare_bytes,
}
use starkstream_dna.Core.{new, is_equivalent}
use starkstream_dna.Core.Equivalence.{trim, is_equivalent_iff}

short_padded : is_equivalent (new 1 (0 ∷ 0 ∷ 1 ∷ [])) (new 1 (0 ∷ 1 ∷ [])) ≡ true
unfolding is_equivalent bytes_eq compare_bytes
short_padded = refl

other_hash : is_equivalent (new 1 (0 ∷ 0 ∷ 1 ∷ [])) (new 1 (0 ∷ 0 ∷ 1 ∷ 1 ∷ [])) ≡ false
unfolding is_equivalent bytes_eq compare_bytes
other_hash = refl

any_hash : is_equivalent (new 1 []) (new 1 (0 ∷ 0 ∷ 1 ∷ [])) ≡ true
unfolding is_equivalent
any_hash = refl

other_number : is_equivalent (new 1 []) (new 2 []) ≡ false
unfolding is_equivalent
other_number = refl

is_equivalent_iff_example : (is_equivalent (new 1 (0 ∷ 0 ∷ 1 ∷ [])) (new 1 (1 ∷ [])) ≡ true) ↔ (
    (◌≡◌ {A = ℕ} 1 1)
    × ((◌≡◌ {A = List ℕ} (0 ∷ 0 ∷ 1 ∷ []) [])
        ⊎ ((◌≡◌ {A = List ℕ} (1 ∷ []) []) ⊎ (trim (0 ∷ 0 ∷ 1 ∷ []) ≡ trim (1 ∷ [])))))
is_equivalent_iff_example = is_equivalent_iff (new 1 (0 ∷ 0 ∷ 1 ∷ [])) (new 1 (1 ∷ []))
