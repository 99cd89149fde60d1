-- ===== src/Closeable.antt =====
-- flag-bearer-queue/src/closeable.rs, and the errors of flag-bearer-queue/src/acquire.rs.
use flag_bearer.Base.{Bool, true, false, Option, none, some}

-- The types `Closeable` and `Uncloseable`, at which the queue is instantiated.
pub data Kind : Type 0 where
  closeable uncloseable : Kind

-- `Sealed::CLOSE`
abbrev pub can_close : Kind → Bool
can_close closeable = true
can_close uncloseable = false

-- `Sealed::Closed<P>`; `Uncloseable` is an enum with no variant.
abbrev pub Closed : Kind → Type 0 → Type 0
Closed closeable P = P
Closed uncloseable P = ⊥

pub record AcquireError (P : Type 0) : Type 0 where
  pub params : P

-- `IsCloseable::AcquireError<P>`
abbrev pub ErrorOf : Kind → Type 0 → Type 0
ErrorOf closeable P = AcquireError P
ErrorOf uncloseable P = AcquireError ⊥

-- `new_err` and `map_err`; `none` is a panic, of `unreachable!` or of the function `f`.
abbrev pub new_err : (c : Kind) {P : Type 0} → P → Option (ErrorOf c P)
new_err closeable params = some (record { params = params })
new_err uncloseable params = none

abbrev as_error : {R : Type 0} → Option R → Option (AcquireError R)
as_error none = none
as_error (some r) = some (record { params = r })

abbrev pub map_err : (c : Kind) {P R : Type 0} → Closed c P → (P → Option R) → Option (ErrorOf c R)
map_err closeable p f = as_error (f p)
map_err uncloseable p f = absurd p

-- `AcquireError<Uncloseable>::never`
abbrev pub never : {A : Type 0} → AcquireError ⊥ → A
never e = absurd e.params

pub data TryAcquireError (c : Kind) (P : Type 0) : Type 0 where
  no_permits : P → TryAcquireError c P
  closed : ErrorOf c P → TryAcquireError c P
  poisoned : P → TryAcquireError c P
