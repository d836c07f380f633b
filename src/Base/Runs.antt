-- ===== src/Base/Runs.antt =====
-- The outcome of a run of firmware code: a value, a panic, undefined
-- behaviour, or a loop that used up its fuel; and the
-- `?` operator of the source on `Option`.
use mathlib.Core.Path.{◌≡◌, refl}
use mathlib.Core.Logic.{◌≢◌}
use mathlib.Core.Bool.{Bool, true, false}
use mathlib.Core.Option.{Option, none, some}

pub data Outcome {ℓ} (A : Type ℓ) : Type ℓ where
  done : A → Outcome A
  panic : Outcome A
  undefined : Outcome A
  out_of_fuel : Outcome A

infixl 5 ◌>>=◌ ◌>>◌
abbrev pub ◌>>=◌ {ℓ κ} : {A : Type ℓ} {B : Type κ} → Option A → (A → Option B) → Option B
none >>= f = none
some a >>= f = f a

abbrev pub ◌>>◌ {ℓ} : {B : Type ℓ} → Option (Unit {0}) → Option B → Option B
m >> k = m >>= λ _. k

-- `Ok(())` where the test passes, and an early `Err(())` where it does not.
abbrev pub guard : Bool → Option (Unit {0})
guard true = some tt
guard false = none

-- The next part of a run, made only where the part before it returned.
abbrev pub and_then {ℓ κ} : {A : Type ℓ} {B : Type κ} → Outcome A → (A → Outcome B) → Outcome B
and_then (done a) f = f a
and_then panic f = panic
and_then undefined f = undefined
and_then out_of_fuel f = out_of_fuel

-- Total correctness: the run returns, and its value has the property.
abbrev pub Returns {ℓ} : {A : Type ℓ} → (A → Type 0) → Outcome A → Type 0
Returns P (done a) = P a
Returns P panic = ⊥
Returns P undefined = ⊥
Returns P out_of_fuel = ⊥

pub and_then-ne-out_of_fuel {ℓ κ} :
    {A : Type ℓ} {B : Type κ} (o : Outcome A) (f : A → Outcome B)
    → o ≢ out_of_fuel
    → ((a : A) → o ≡ done a → f a ≢ out_of_fuel)
    → and_then o f ≢ out_of_fuel
and_then-ne-out_of_fuel (done a) f h k = k a refl
and_then-ne-out_of_fuel panic f h k = λ e. cc
and_then-ne-out_of_fuel undefined f h k = λ e. cc
and_then-ne-out_of_fuel out_of_fuel f h k = absurd (h refl)

pub done-inj {ℓ} : {A : Type ℓ} {a b : A} → done a ≡ done b → a ≡ b
done-inj h = cc

pub panic≢done {ℓ} : {A : Type ℓ} {a : A} → panic ≡ done a → ⊥
panic≢done h = cc

-- Partial correctness: if the run returns, its value has the property.
abbrev pub IfDone {ℓ} : {A : Type ℓ} → (A → Type 0) → Outcome A → Type 0
IfDone P (done a) = P a
IfDone P panic = Unit {0}
IfDone P undefined = Unit {0}
IfDone P out_of_fuel = Unit {0}

pub IfDone-and_then {ℓ κ} :
    {A : Type ℓ} {B : Type κ} (Q : A → Type 0) (P : B → Type 0) (o : Outcome A) (f : A → Outcome B)
    → IfDone Q o
    → ((a : A) → Q a → IfDone P (f a))
    → IfDone P (and_then o f)
IfDone-and_then Q P (done a) f q k = k a q
IfDone-and_then Q P panic f q k = tt
IfDone-and_then Q P undefined f q k = tt
IfDone-and_then Q P out_of_fuel f q k = tt

pub IfDone-any {ℓ κ} :
    {A : Type ℓ} {B : Type κ} (P : B → Type 0) (o : Outcome A) (f : A → Outcome B)
    → ((a : A) → IfDone P (f a))
    → IfDone P (and_then o f)
IfDone-any P (done a) f k = k a
IfDone-any P panic f k = tt
IfDone-any P undefined f k = tt
IfDone-any P out_of_fuel f k = tt

pub Returns-map {ℓ} :
    {A : Type ℓ} (Q P : A → Type 0) (o : Outcome A)
    → Returns Q o
    → ((a : A) → Q a → P a)
    → Returns P o
Returns-map Q P (done a) q k = k a q
Returns-map Q P panic q k = absurd q
Returns-map Q P undefined q k = absurd q
Returns-map Q P out_of_fuel q k = absurd q

pub IfDone-map {ℓ} :
    {A : Type ℓ} (Q P : A → Type 0) (o : Outcome A)
    → IfDone Q o
    → ((a : A) → Q a → P a)
    → IfDone P o
IfDone-map Q P (done a) q k = k a q
IfDone-map Q P panic q k = tt
IfDone-map Q P undefined q k = tt
IfDone-map Q P out_of_fuel q k = tt

pub Returns-and_then {ℓ κ} :
    {A : Type ℓ} {B : Type κ} (Q : A → Type 0) (P : B → Type 0) (o : Outcome A) (f : A → Outcome B)
    → Returns Q o
    → ((a : A) → Q a → Returns P (f a))
    → Returns P (and_then o f)
Returns-and_then Q P (done a) f q k = k a q
Returns-and_then Q P panic f q k = absurd q
Returns-and_then Q P undefined f q k = absurd q
Returns-and_then Q P out_of_fuel f q k = absurd q

-- What a run that returns has returned.
pub Returns-done {ℓ} :
    {A : Type ℓ} (P : A → Type 0) (o : Outcome A) → Returns P o → (a : A) × (o ≡ done a) × P a
Returns-done P (done a) h = (a, refl, h)
Returns-done P panic h = absurd h
Returns-done P undefined h = absurd h
Returns-done P out_of_fuel h = absurd h

-- The run returns, with the property, or panics: it is defined, and its fuel is enough.
abbrev pub Ends {ℓ} : {A : Type ℓ} → (A → Type 0) → Outcome A → Type 0
Ends P (done a) = P a
Ends P panic = Unit {0}
Ends P undefined = ⊥
Ends P out_of_fuel = ⊥

pub Ends-and_then {ℓ κ} :
    {A : Type ℓ} {B : Type κ} (Q : A → Type 0) (P : B → Type 0) (o : Outcome A) (f : A → Outcome B)
    → Ends Q o
    → ((a : A) → Q a → Ends P (f a))
    → Ends P (and_then o f)
Ends-and_then Q P (done a) f q k = k a q
Ends-and_then Q P panic f q k = tt
Ends-and_then Q P undefined f q k = absurd q
Ends-and_then Q P out_of_fuel f q k = absurd q

pub Ends-intro {ℓ} :
    {A : Type ℓ} (P : A → Type 0) (o : Outcome A)
    → o ≢ out_of_fuel
    → o ≢ undefined
    → ((a : A) → o ≡ done a → P a)
    → Ends P o
Ends-intro P (done a) h k p = p a refl
Ends-intro P panic h k p = tt
Ends-intro P undefined h k p = k refl
Ends-intro P out_of_fuel h k p = h refl

pub Ends-Returns {ℓ} : {A : Type ℓ} (P : A → Type 0) (o : Outcome A) → Returns P o → Ends P o
Ends-Returns P (done a) h = h
Ends-Returns P panic h = absurd h
Ends-Returns P undefined h = h
Ends-Returns P out_of_fuel h = h

-- What holds of the value if the run returns may be added.
pub Ends-IfDone {ℓ} :
    {A : Type ℓ} (P Q : A → Type 0) (o : Outcome A)
    → Ends P o
    → IfDone Q o
    → Ends (λ a. P a × Q a) o
Ends-IfDone P Q (done a) h k = (h, k)
Ends-IfDone P Q panic h k = tt
Ends-IfDone P Q undefined h k = h
Ends-IfDone P Q out_of_fuel h k = h

pub Ends-to_IfDone {ℓ} : {A : Type ℓ} (P : A → Type 0) (o : Outcome A) → Ends P o → IfDone P o
Ends-to_IfDone P (done a) h = h
Ends-to_IfDone P panic h = tt
Ends-to_IfDone P undefined h = absurd h
Ends-to_IfDone P out_of_fuel h = absurd h
