-- ===== src/Bitmaps/Lists.antt =====
-- Bitmaps as lists of rows: the laws can hold.
use starkstream_dna.Base.{
  ℕ, zero, suc, ◌+◌, ◌-◌, Bool, true, false, ◌&&◌, ◌||◌, filter, Option, some, List, [], ◌∷◌, ◌++◌,
  ◌≡◌, refl, sym, ap, ◌∙◌, arith, ltb, leb,
}
use starkstream_dna.Bitmaps.{Bitmaps, BitmapLaws, has_row}

abbrev pub rows_from : ℕ → ℕ → List ℕ
rows_from first zero = []
rows_from first (suc n) = first ∷ rows_from (suc first) n

has_row-rows_from :
    (i first n : ℕ) → has_row i (rows_from first n) ≡ (leb first i && ltb i (first + n))
unfolding has_row
has_row-rows_from i first zero = ground arith
has_row-rows_from i first (suc n) = ground (arith, has_row-rows_from i (suc first) n)

has_row-filter :
    (i : ℕ) (p : ℕ → Bool) (rows : List ℕ) → has_row i (filter p rows) ≡ (has_row i rows && p i)
unfolding has_row filter
has_row-filter i p [] = refl
has_row-filter i p (j ∷ rows) =
    let same : i ≡ j → p i ≡ p j = ap p in ground (arith, has_row-filter i p rows, same)

some-injective : {a b : List ℕ} → ◌≡◌ {A = Option (List ℕ)} (some a) (some b) → a ≡ b
some-injective e = cc

pub has_row-append : (i : ℕ) (a b : List ℕ) → has_row i (a ++ b) ≡ (has_row i a || has_row i b)
unfolding has_row
has_row-append i [] b = refl
has_row-append i (j ∷ a) b = ground (arith, has_row-append i a b)

has_row-range :
    (i first end : ℕ) → has_row i (rows_from first (end - first)) ≡ (leb first i && ltb i end)
has_row-range i first end = has_row-rows_from i first (end - first) ∙ ground arith

abbrev pub list_bitmaps : Bitmaps
list_bitmaps = record {
  Bitmap = List ℕ;
  nothing = [];
  from_range = λ first end. rows_from first (end - first);
  add = λ i rows. i ∷ rows;
  add_range = λ first end rows. rows_from first (end - first) ++ rows;
  intersect = λ a b. filter (λ i. has_row i b) a;
  contains = has_row;
  iter = λ rows. rows;
  is_empty = λ rows. elim rows [ [] ↦ true | _ ∷ _ ↦ false ];
  serialize_into = λ rows. some rows;
  deserialize_unchecked_from = λ bytes. some bytes;
}

pub list_bitmaps-BitmapLaws : BitmapLaws list_bitmaps
unfolding has_row
list_bitmaps-BitmapLaws = record {
  contains-nothing = λ i. refl;
  contains-from_range = λ i first end. has_row-range i first end;
  contains-add = λ i j b. refl;
  contains-add_range = λ i first end b.
      has_row-append i (rows_from first (end - first)) b
      ∙ ap (λ test. test || has_row i b) (has_row-range i first end);
  contains-intersect = λ i a b. has_row-filter i (λ i. has_row i b) a;
  has_row-iter = λ i b. refl;
  deserialize-serialize = λ b bytes e. ap some (sym (some-injective e));
}
