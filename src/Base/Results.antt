-- ===== src/Base/Results.antt =====
-- The outcome of a Rust function that returns a `Result`: a value, an error, or a panic (an index
-- out of bounds, a failed assertion). The printable attachments of an error are left out.
use mathlib.Core.Path.{◌≡◌, refl}
use mathlib.Core.Bool.{Bool, true, false}
use mathlib.Core.Option.{Option, none, some}

pub data Result {ℓ κ} (E : Type ℓ) (A : Type κ) : Type (ℓ ⊔ κ) where
  ok : A → Result E A
  err : E → Result E A
  panic : Result E A

infixl 5 ◌>>=◌ ◌>>◌
abbrev pub ◌>>=◌ {ℓ κ μ} :
    {E : Type ℓ} {A : Type κ} {B : Type μ} → Result E A → (A → Result E B) → Result E B
ok a >>= f = f a
err e >>= f = err e
panic >>= f = panic

abbrev pub ◌>>◌ {ℓ κ} : {E : Type ℓ} {B : Type κ} → Result E (Unit {0}) → Result E B → Result E B
m >> k = m >>= λ _. k

-- `if !test { return Err(e) }`
abbrev pub ensure {ℓ} : {E : Type ℓ} → Bool → E → Result E (Unit {0})
ensure true e = ok tt
ensure false e = err e

-- `assert!`
abbrev pub assert {ℓ} : {E : Type ℓ} → Bool → Result E (Unit {0})
assert true = ok tt
assert false = panic

-- `change_context`
abbrev pub change_context {ℓ κ μ} :
    {E : Type ℓ} {F : Type κ} {A : Type μ} → F → Result E A → Result F A
change_context f (ok a) = ok a
change_context f (err e) = err f
change_context f panic = panic

-- `ok_or`
abbrev pub ok_or {ℓ κ} : {E : Type ℓ} {A : Type κ} → E → Option A → Result E A
ok_or e none = err e
ok_or e (some a) = ok a

-- `v[i]` on the result of a checked access
abbrev pub or_panic {ℓ κ} : {E : Type ℓ} {A : Type κ} → Option A → Result E A
or_panic none = panic
or_panic (some a) = ok a

pub change_context-eq-ok {ℓ κ μ} :
    {E : Type ℓ} {F : Type κ} {A : Type μ} (f : F) (m : Result E A) {a : A}
    → change_context f m ≡ ok a
    → m ≡ ok a
change_context-eq-ok f (ok a) h = cc
change_context-eq-ok f (err e) h = cc
change_context-eq-ok f panic h = cc

pub ok-injective {ℓ κ} :
    {E : Type ℓ} {A : Type κ} {a b : A} → ◌≡◌ {A = Result E A} (ok a) (ok b) → a ≡ b
ok-injective e = cc

pub err-not-ok {ℓ κ} :
    {E : Type ℓ} {A : Type κ} {e : E} {a : A} → ¬ (◌≡◌ {A = Result E A} (err e) (ok a))
err-not-ok h = cc

pub panic-not-ok {ℓ κ} : {E : Type ℓ} {A : Type κ} {a : A} → ¬ (◌≡◌ {A = Result E A} panic (ok a))
panic-not-ok h = cc

-- A chain of calls that succeeds went through a first success.
pub >>=-eq-ok {ℓ κ μ} :
    {E : Type ℓ} {A : Type κ} {B : Type μ} (first : Result E A) (onward : A → Result E B) {last : B}
    → (first >>= onward) ≡ ok last
    → (value : A) × (first ≡ ok value) × (onward value ≡ ok last)
>>=-eq-ok (ok value) onward done = (value, refl, done)
>>=-eq-ok (err e) onward done = absurd (err-not-ok done)
>>=-eq-ok panic onward done = absurd (panic-not-ok done)

pub ok_or-eq-ok {ℓ κ} :
    {E : Type ℓ} {A : Type κ} (e : E) (o : Option A) {a : A} → ok_or e o ≡ ok a → o ≡ some a
ok_or-eq-ok e none h = cc
ok_or-eq-ok e (some a) h = cc
