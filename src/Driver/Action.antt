-- ===== src/Driver/Action.antt =====
-- The operations of the driver: a state `W` that the driver's surroundings keep, and an answer or
-- an error. A postcondition says what holds of the answer and the state it leaves.
use aws_efs_csi_driver.Prelude.{Bool, true, false, ◌≡◌, refl, Result, ok, err}
use aws_efs_csi_driver.Driver.Status.{DriverError}

abbrev pub Action : Type 0 → Type 0 → Type 0
Action W A = W → Result DriverError A × W

unfoldable pub continue :
    {W A B : Type 0} → Result DriverError A × W → (A → Action W B) → Result DriverError B × W
continue (err e, w) next = (err e, w)
continue (ok a, w) next = next a w

infixl 5 ◌>>=◌ ◌>>◌
-- One action and what follows it; an error ends the function, and the state stays.
abbrev pub ◌>>=◌ : {W A B : Type 0} → Action W A → (A → Action W B) → Action W B
(m >>= next) w = continue (m w) next

abbrev pub ◌>>◌ : {W A B : Type 0} → Action W A → Action W B → Action W B
(m >> next) w = continue (m w) (λ _. next)

-- `return`
abbrev pub give : {W A : Type 0} → A → Action W A
give a w = (ok a, w)

-- A step that does not touch the state.
abbrev pub pure_step : {W A : Type 0} → Result DriverError A → Action W A
pure_step r w = (r, w)

-- `if test { return nil, err }`
abbrev pub refuse_if : {W : Type 0} → Bool → DriverError → Action W (Unit {0})
refuse_if true e w = (err e, w)
refuse_if false e w = (ok tt, w)

-- `defer`: what is done after the function, whether it fails or not.
abbrev pub deferred : {W A : Type 0} → Result DriverError A × W → (W → W) → Result DriverError A × W
deferred (r, w) cleanup = (r, cleanup w)

-- What an action leaves: `Q` of an answer, `R` of the state after an error.
unfoldable pub Ends :
    {W A : Type 0} → (A → W → Type 0) → (W → Type 0) → Result DriverError A × W → Type 0
Ends Q R (ok a, w) = Q a w
Ends Q R (err e, w) = R w

pub continue-Ends :
    {W A B : Type 0} (Q : A → W → Type 0) (T : B → W → Type 0) (R : W → Type 0)
    → (r : Result DriverError A × W) → (next : A → Action W B) → Ends Q R r
    → ((a : A) (w : W) → Q a w → Ends T R (next a w))
    → Ends T R (continue r next)
unfolding Ends continue
continue-Ends Q T R (ok a, w) next h k = k a w h
continue-Ends Q T R (err e, w) next h k = h

pub Ends-weaken :
    {W A : Type 0} (Q T : A → W → Type 0) (R S : W → Type 0)
    → (r : Result DriverError A × W) → Ends Q R r
    → ((a : A) (w : W) → Q a w → T a w)
    → ((w : W) → R w → S w)
    → Ends T S r
unfolding Ends
Ends-weaken Q T R S (ok a, w) h k l = k a w h
Ends-weaken Q T R S (err e, w) h k l = l w h

pub deferred-Ends :
    {W A : Type 0} (Q T : A → W → Type 0) (R S : W → Type 0) (cleanup : W → W)
    → (r : Result DriverError A × W) → Ends Q R r
    → ((a : A) (w : W) → Q a w → T a (cleanup w))
    → ((w : W) → R w → S (cleanup w))
    → Ends T S (deferred r cleanup)
unfolding Ends
deferred-Ends Q T R S cleanup (ok a, w) h k l = k a w h
deferred-Ends Q T R S cleanup (err e, w) h k l = l w h

-- The equation that an answer satisfies, next to what is known of it.
pub Ends-equation :
    {W A : Type 0} (Q : A → W → Type 0) (R : W → Type 0) (r : Result DriverError A × W)
    → Ends Q R r
    → Ends (λ a w. (r ≡ (ok a, w)) × Q a w) R r
unfolding Ends
Ends-equation Q R (ok a, w) h = (refl, h)
Ends-equation Q R (err e, w) h = h

pub pure_step-Ends :
    {W A : Type 0} (P : W → Type 0) (r : Result DriverError A) (w : W)
    → P w
    → Ends (λ a v. (r ≡ ok a) × P v) P (pure_step r w)
unfolding Ends
pure_step-Ends P (ok a) w h = (refl, h)
pure_step-Ends P (err e) w h = h

-- What an action has done when it answers.
pub continue-eq-ok :
    {W A B : Type 0} (r : Result DriverError A × W) (next : A → Action W B) {b : B} {v : W}
    → continue r next ≡ (ok b, v)
    → (a : A) × (w : W) × (r ≡ (ok a, w)) × (next a w ≡ (ok b, v))
unfolding continue
continue-eq-ok (ok a, w) next e = (a, w, refl, e)
continue-eq-ok (err x, w) next e = absurd (cc)

-- What is known of an answer.
pub answer_of-Ends :
    {W A : Type 0} (Q : A → W → Type 0) (R : W → Type 0) (r : Result DriverError A × W) {a : A}
    {w : W}
    → Ends Q R r
    → r ≡ (ok a, w)
    → Q a w
unfolding Ends
answer_of-Ends Q R r h e = rw e at h

pub Ends-any :
    {W A : Type 0} (r : Result DriverError A × W) → Ends (λ _ _. Unit {0}) (λ _. Unit {0}) r
unfolding Ends
Ends-any (ok a, w) = tt
Ends-any (err e, w) = tt

pub refuse_if-Ends :
    {W : Type 0} (P R : W → Type 0) (b : Bool) (e : DriverError) (w : W)
    → P w
    → R w
    → Ends (λ _. P) R (refuse_if b e w)
unfolding Ends
refuse_if-Ends P R true e w p r = r
refuse_if-Ends P R false e w p r = p

-- What follows an action of which nothing needs to be known.
pub continue-any :
    {W A B : Type 0} (Q : B → W → Type 0) (r : Result DriverError A × W) (next : A → Action W B)
    → ((a : A) (w : W) → Ends Q (λ _. Unit {0}) (next a w))
    → Ends Q (λ _. Unit {0}) (continue r next)
continue-any Q r next k =
    continue-Ends (λ _ _. Unit {0}) Q (λ _. Unit {0}) r next (Ends-any r) (λ a w _. k a w)
