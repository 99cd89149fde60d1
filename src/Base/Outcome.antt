-- ===== src/Base/Outcome.antt =====
-- How a call ends. `Call` is for user code: it returns or panics, and either way leaves a state.
-- `Exec` is for the code of the crates.
use mathlib.Core.Path.{◌≡◌, refl}
use mathlib.Core.Option.{Option, none, some}
use mathlib.Core.Logic.{◌⊎◌, inl, inr}

pub data Result {ℓ κ} (A : Type ℓ) (E : Type κ) : Type (ℓ ⊔ κ) where
  ok : A → Result A E
  err : E → Result A E

pub data Call {ℓ κ} (S : Type ℓ) (A : Type κ) : Type (ℓ ⊔ κ) where
  gives : S → A → Call S A
  panics : S → Call S A

-- Undefined behaviour, a process abort (a panic while unwinding), a loop that used up its fuel.
pub data Fault : Type 0 where
  undefined abort no_fuel : Fault

pub data Exec {ℓ κ} (S : Type ℓ) (A : Type κ) : Type (ℓ ⊔ κ) where
  returns : S → A → Exec S A
  unwinds : S → Exec S A
  faults : Fault → Exec S A

pub Result-cases {ℓ κ} :
    {A : Type ℓ} {E : Type κ} (r : Result A E) → ((a : A) × (r ≡ ok a)) ⊎ ((e : E) × (r ≡ err e))
Result-cases (ok a) = inl (a, refl)
Result-cases (err e) = inr (e, refl)

-- A property of a match, from one of each case.
pub Result-intro {ℓ κ μ ν} :
    {A : Type ℓ} {E : Type κ} {B : Type μ} (P : B → Type ν) (r : Result A E) {f : A → B} {h : E → B}
    → ((a : A) → r ≡ ok a → P (f a))
    → ((e : E) → r ≡ err e → P (h e))
    → P (elim r [ ok a ↦ f a | err e ↦ h e ])
Result-intro P (ok a) u v = u a refl
Result-intro P (err e) u v = v e refl

pub Option-intro {ℓ μ ν} :
    {A : Type ℓ} {B : Type μ} (P : B → Type ν) (o : Option A) {x : B} {f : A → B}
    → (o ≡ none → P x)
    → ((a : A) → o ≡ some a → P (f a))
    → P (elim o [ none ↦ x | some a ↦ f a ])
Option-intro P none u v = u refl
Option-intro P (some a) u v = v a refl

pub gives_state {ℓ κ} :
    {S : Type ℓ} {A : Type κ} {s s' : S} {a a' : A} → gives s a ≡ gives s' a' → s ≡ s'
gives_state e = cc
