-- ===== src/Base/Decimal.antt =====
-- Decimal text as bytes: `to_string` of a `u64`, `parse::<u64>`, and what `String::from_utf8` accepts.
use Prim.Native.Nat.{ℕ, zero, suc, ◌+◌, ◌-◌, ◌*◌, ◌/◌, ◌%◌, ◌≤◌, ◌<◌}
use mathlib.Core.Path.{◌≡◌, refl, sym, ap, ◌∙◌, subst}
use mathlib.Core.Logic.{◌≢◌}
use mathlib.Core.Bool.{Bool, true, false, ◌&&◌}
use mathlib.Core.Option.{Option, none, some}
use mathlib.Core.List.{List, [], ◌∷◌, ◌++◌}
use native.Mathlib.Omega.{arith}
use native.Mathlib.Decide.{dec_lt}
use starkstream_dna.Base.Tests.{ltb, leb, ◌==◌, if◌then◌else◌}
use starkstream_dna.Base.Words.{u64_mod}

-- The digits of a number below 10 ^ (more + 1), the first one first.
unfoldable pub digits : ℕ → ℕ → List ℕ
digits zero n = (48 + n % 10) ∷ []
digits (suc more) n = elim (ltb n 10) [
  | true ↦ (48 + n) ∷ []
  | false ↦ digits more (n / 10) ++ (48 + n % 10) ∷ []
]

-- A `u64` has 20 digits at most.
unfoldable pub to_string : ℕ → List ℕ
unfolding digits
to_string n = digits 19 n

-- One more digit, when the byte is a digit and the number stays in 64 bits.
unfoldable pub push_digit : ℕ → ℕ → Option ℕ
push_digit acc b =
    if leb 48 b && leb b 57 && ltb (10 * acc + (b - 48)) u64_mod
    then some (10 * acc + (b - 48))
    else none

unfoldable pub parse_digits : ℕ → List ℕ → Option ℕ
parse_digits acc [] = some acc
parse_digits acc (b ∷ bs) = elim (push_digit acc b) [
  | none ↦ none
  | some next ↦ parse_digits next bs
]

-- A number may start with a `+`, and has a digit.
unfoldable pub parse_u64 : List ℕ → Option ℕ
parse_u64 [] = none
parse_u64 (b ∷ []) = parse_digits 0 (b ∷ [])
parse_u64 (b ∷ c ∷ bs) = if b == 43 then parse_digits 0 (c ∷ bs) else parse_digits 0 (b ∷ c ∷ bs)

-- How many bytes of a character are missing, and the bounds of the next one.
unfoldable pub utf8_step : ℕ × ℕ × ℕ → ℕ → Option (ℕ × ℕ × ℕ)
utf8_step (suc missing, low, high) b =
    if leb low b && leb b high then some (missing, 128, 191) else none
utf8_step (zero, low, high) b =
    if ltb b 128
    then some (0, 128, 191)
    else if leb 194 b && leb b 223
    then some (1, 128, 191)
    else if b == 224
    then some (2, 160, 191)
    else if b == 237
    then some (2, 128, 159)
    else if leb 225 b && leb b 239
    then some (2, 128, 191)
    else if b == 240
    then some (3, 144, 191)
    else if leb 241 b && leb b 243
    then some (3, 128, 191)
    else if b == 244
    then some (3, 128, 143)
    else none

unfoldable pub utf8_from : ℕ × ℕ × ℕ → List ℕ → Bool
utf8_from state [] = state.0 == 0
utf8_from state (b ∷ bs) = elim (utf8_step state b) [ none ↦ false | some next ↦ utf8_from next bs ]

-- `String::from_utf8` keeps the bytes.
unfoldable pub from_utf8 : List ℕ → Option (List ℕ)
unfolding utf8_from
from_utf8 bytes = if utf8_from (0, 128, 191) bytes then some bytes else none

false-not-true : ¬ (false ≡ true)
false-not-true e = cc

-- Between two characters, the state is the first one.
abbrev Settled : ℕ × ℕ × ℕ → Type 0
Settled (missing, low, high) = missing ≡ 0 → (low ≡ 128) × (high ≡ 191)

utf8_step-Settled :
    (state : ℕ × ℕ × ℕ) (b : ℕ) {next : ℕ × ℕ × ℕ} → utf8_step state b ≡ some next → Settled next
unfolding utf8_step
utf8_step-Settled (zero, low, high) b h = ground arith
utf8_step-Settled (suc missing, low, high) b h = ground arith

-- Text that follows text is read from the start.
utf8_from-append :
    (state : ℕ × ℕ × ℕ) (xs ys : List ℕ)
    → Settled state
    → utf8_from state xs ≡ true
    → utf8_from state (xs ++ ys) ≡ utf8_from (0, 128, 191) ys
unfolding utf8_from
utf8_from-append (missing, low, high) [] ys settled h =
    let e : missing ≡ 0 = ground arith in rw (e, (settled e).0, (settled e).1)
utf8_from-append state (b ∷ xs) ys settled h =
    (elim (utf8_step state b)
        as (λ o.
          ((next : ℕ × ℕ × ℕ) → o ≡ some next → Settled next)
          → (elim o as (λ _. Bool) [ none ↦ false | some next ↦ utf8_from next xs ]) ≡ true
          → (elim o as (λ _. Bool) [ none ↦ false | some next ↦ utf8_from next (xs ++ ys) ])
            ≡ utf8_from (0, 128, 191) ys) [
              | none ↦ λ all h. absurd (false-not-true h)
              | some next ↦ λ all h. utf8_from-append next xs ys (all next refl) h
            ])
      (λ next. utf8_step-Settled state b) h

pub from_utf8-append :
    (xs ys : List ℕ)
    → from_utf8 xs ≡ some xs
    → from_utf8 ys ≡ some ys
    → from_utf8 (xs ++ ys) ≡ some (xs ++ ys)
unfolding from_utf8
from_utf8-append xs ys hx hy =
    let x : utf8_from (0, 128, 191) xs ≡ true = ground arith in
    let y : utf8_from (0, 128, 191) ys ≡ true = ground arith in
    rw (utf8_from-append (0, 128, 191) xs ys (λ e. (refl, refl)) x, y)

parse_digits-append :
    (acc b : ℕ) (bs : List ℕ) {n : ℕ}
    → parse_digits acc bs ≡ some n
    → parse_digits acc (bs ++ b ∷ []) ≡ push_digit n b
unfolding parse_digits
parse_digits-append acc b [] {n} h =
    let same : acc ≡ n = cc in
    rw same
      (elim (push_digit n b)
        as (λ o. elim o as (λ _. Option ℕ) [ none ↦ none | some next ↦ some next ] ≡ o) [
          | none ↦ refl
          | some next ↦ refl
        ])
parse_digits-append acc b (c ∷ bs) {n} h =
    elim (push_digit acc c)
        as (λ o.
          elim o as (λ _. Option ℕ) [ none ↦ none | some next ↦ parse_digits next bs ] ≡ some n
          → elim o as (λ _. Option ℕ) [ none ↦ none | some next ↦ parse_digits next (bs ++ b ∷ []) ]
            ≡ push_digit n b) [ none ↦ λ h. cc | some next ↦ λ h. parse_digits-append next b bs h ]
      h

nil-not-cons : {b : ℕ} {bs : List ℕ} → ¬ (◌≡◌ {A = List ℕ} [] (b ∷ bs))
nil-not-cons e = cc

abbrev bound : ℕ → ℕ
bound zero = 10
bound (suc more) = 10 * bound more

push_digit-last : (n : ℕ) → n < u64_mod → push_digit (n / 10) (48 + n % 10) ≡ some n
unfolding push_digit
push_digit-last n h = ground arith

digits-small : (more n : ℕ) → n < 10 → digits (suc more) n ≡ (48 + n) ∷ []
unfolding digits
digits-small more n h = ground arith

digits-large :
    (more n : ℕ) → 10 ≤ n → digits (suc more) n ≡ digits more (n / 10) ++ (48 + n % 10) ∷ []
unfolding digits
digits-large more n h = ground arith

pub parse_digits-digits :
    (more n : ℕ) → n < bound more → n < u64_mod → parse_digits 0 (digits more n) ≡ some n
unfolding digits parse_digits push_digit
parse_digits-digits zero n b h = ground arith
parse_digits-digits (suc more) n b h = elim (dec_lt n 10) [
  | yes small ↦ ap (parse_digits 0) (digits-small more n small) ∙ ground arith
  | no large ↦
      ap (parse_digits 0) (digits-large more n (omega arith))
      ∙ parse_digits-append 0 (48 + n % 10) (digits more (n / 10))
          (parse_digits-digits more (n / 10) (omega arith) (omega arith))
      ∙ push_digit-last n h
]

-- The text of a number starts with a digit and is plain ASCII.
abbrev Plain : List ℕ → Type 0
Plain [] = Unit
Plain (b ∷ bs) = (48 ≤ b) × (b < 58) × Plain bs

Plain-snoc : (bs : List ℕ) (b : ℕ) → 48 ≤ b → b < 58 → Plain bs → Plain (bs ++ b ∷ [])
Plain-snoc [] b low high p = (low, high, tt)
Plain-snoc (c ∷ bs) b low high (l, h, p) = (l, h, Plain-snoc bs b low high p)

digits-Plain : (more n : ℕ) → Plain (digits more n)
unfolding digits
digits-Plain zero n = (omega arith, omega arith, tt)
digits-Plain (suc more) n = elim (dec_lt n 10) [
  | yes small ↦ subst Plain (sym (digits-small more n small)) (omega arith, omega arith, tt)
  | no large ↦ subst Plain (sym (digits-large more n (omega arith))) (
      Plain-snoc (digits more (n / 10)) (48 + n % 10) (omega arith) (omega arith)
        (digits-Plain more (n / 10)))
]

Plain-utf8 : (bs : List ℕ) → Plain bs → utf8_from (0, 128, 191) bs ≡ true
unfolding utf8_from utf8_step
Plain-utf8 [] p = refl
Plain-utf8 (b ∷ bs) (low, high, p) = ground (arith, Plain-utf8 bs p)

Plain-parse : (bs : List ℕ) → Plain bs → bs ≢ [] → parse_u64 bs ≡ parse_digits 0 bs
unfolding parse_u64
Plain-parse [] p filled = absurd (filled refl)
Plain-parse (b ∷ []) p filled = refl
Plain-parse (b ∷ c ∷ bs) (low, high, p) filled =
    let test : (b == 43) ≡ false = ground arith in rw test

snoc-filled : (bs : List ℕ) (b : ℕ) → bs ++ b ∷ [] ≢ []
snoc-filled [] b e = cc
snoc-filled (c ∷ bs) b e = cc

digits-filled : (more n : ℕ) → digits more n ≢ []
unfolding digits
digits-filled zero n e = cc
digits-filled (suc more) n e = elim (dec_lt n 10) [
  | yes small ↦ absurd (nil-not-cons (sym e ∙ digits-small more n small))
  | no large ↦
      snoc-filled (digits more (n / 10)) (48 + n % 10) (sym (digits-large more n (omega arith)) ∙ e)
]

-- What is printed is read back.
pub parse_u64-to_string : (n : ℕ) → n < u64_mod → parse_u64 (to_string n) ≡ some n
unfolding to_string
parse_u64-to_string n h =
    Plain-parse (digits 19 n) (digits-Plain 19 n) (digits-filled 19 n)
    ∙ parse_digits-digits 19 n (omega arith) h

pub from_utf8-to_string : (n : ℕ) → from_utf8 (to_string n) ≡ some (to_string n)
unfolding from_utf8 to_string
from_utf8-to_string n = rw (Plain-utf8 (digits 19 n) (digits-Plain 19 n))

pub to_string-filled : (n : ℕ) → to_string n ≢ []
unfolding to_string
to_string-filled n = digits-filled 19 n
