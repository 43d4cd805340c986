-- ===== src/Prelude/Outcome.antt =====
-- How a piece of kernel code ends: with a value, or in `assertHandler` (kernel/assert.c), which
-- prints a message and loops for ever.
use burrit_osprivate.Prelude.Result.{Result, ok, err}
use mathlib.Core.Path.{◌≡◌, refl}
use mathlib.Core.Bool.{Bool, true, false}

pub data Outcome {ℓ} (A : Type ℓ) : Type ℓ where
  done : A → Outcome A
  halt : Outcome A

infixl 5 ◌>>=◌
abbrev pub ◌>>=◌ {ℓ κ} : {A : Type ℓ} {B : Type κ} → Outcome A → (A → Outcome B) → Outcome B
done a >>= f = f a
halt >>= f = halt

infixl 5 ◌>>◌
abbrev pub ◌>>◌ {ℓ κ} : {A : Type ℓ} {B : Type κ} → Outcome A → Outcome B → Outcome B
m >> k = m >>= λ _. k

-- `assertOk` of kernel/assert.h.
abbrev pub assert_ok {ℓ} : {A : Type ℓ} → Result A → Outcome A
assert_ok (ok a) = done a
assert_ok (err e) = halt

-- `assert`.
abbrev pub assert : Bool → Outcome (Unit {0})
assert true = done tt
assert false = halt

pub >>=-eq_done {ℓ κ} :
    {A : Type ℓ} {B : Type κ} (m : Outcome A) (f : A → Outcome B) {b : B}
    → (m >>= f) ≡ done b
    → (a : A) × (m ≡ done a) × (f a ≡ done b)
>>=-eq_done (done a) f h = (a, refl, h)
>>=-eq_done halt f h = cc

pub assert_ok-eq_done {ℓ} : {A : Type ℓ} (r : Result A) {a : A} → assert_ok r ≡ done a → r ≡ ok a
assert_ok-eq_done (ok x) h = cc
assert_ok-eq_done (err e) h = cc

pub assert-eq_done : (b : Bool) {u : Unit {0}} → assert b ≡ done u → b ≡ true
assert-eq_done true h = refl
assert-eq_done false h = cc

pub assert->> {ℓ} :
    {A : Type ℓ} (b : Bool) (m : Outcome A) {a : A}
    → (assert b >> m) ≡ done a
    → (b ≡ true) × (m ≡ done a)
assert->> true m h = (refl, h)
assert->> false m h = cc

pub done-injective {ℓ} : {A : Type ℓ} {a b : A} → done a ≡ done b → a ≡ b
done-injective h = cc
