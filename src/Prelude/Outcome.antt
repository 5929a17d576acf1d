-- ===== src/Prelude/Outcome.antt =====
-- Results of operations that can fail with an error of type `E`.
use mathlib.Core.Path.{◌≡◌, refl}
use mathlib.Core.Logic.{◌⊎◌, inl, inr}
use mathlib.Core.Bool.{Bool, true, false}

pub data Result (E A : Type 0) : Type 0 where
  err : E → Result E A
  ok : A → Result E A

infixl 5 ◌>>◌ ◌>>=◌
-- A step and what follows it; an error ends the function.
abbrev pub ◌>>=◌ : {E A B : Type 0} → Result E A → (A → Result E B) → Result E B
ok value >>= following = following value
err failure >>= following = err failure

abbrev pub ◌>>◌ : {E B : Type 0} → Result E (Unit {0}) → Result E B → Result E B
check >> following = elim check [ err failure ↦ err failure | ok _ ↦ following ]

-- `if test { return err }`
abbrev pub reject : {E : Type 0} → Bool → E → Result E (Unit {0})
reject true e = err e
reject false e = ok tt

-- `err == nil`
abbrev pub is_ok : {E A : Type 0} → Result E A → Bool
is_ok (err e) = false
is_ok (ok a) = true

-- What a function has done when it succeeds.
pub >>=-eq-ok :
    {E A B : Type 0} (step : Result E A) (following : A → Result E B) {result : B}
    → (step >>= following) ≡ ok result
    → (value : A) × (step ≡ ok value) × (following value ≡ ok result)
>>=-eq-ok (err failure) following h = cc
>>=-eq-ok (ok value) following h = (value, refl, h)

pub Result-cases :
    {E A : Type 0} (r : Result E A) → ((e : E) × (r ≡ err e)) ⊎ ((a : A) × (r ≡ ok a))
Result-cases (err e) = inl (e, refl)
Result-cases (ok a) = inr (a, refl)

pub ok-injective : {E A : Type 0} {a b : A} → ◌≡◌ {A = Result E A} (ok a) (ok b) → a ≡ b
ok-injective h = cc

-- Inversion of a check that lets the code go on.
pub reject-ok :
    {E A : Type 0} (b : Bool) (e : E) (m : Result E A) {a : A}
    → (reject b e >> m) ≡ ok a
    → (b ≡ false) × (m ≡ ok a)
reject-ok true e m h = cc
reject-ok false e m h = (refl, h)
