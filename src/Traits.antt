-- ===== src/Traits.antt =====
-- flag-bearer-core/src/lib.rs
use flag_bearer.Base.{Call, Result}

pub record SemaphoreState : Type 1 where
  pub State : Type 0
  pub Params : Type 0
  pub Permit : Type 0
  pub acquire : State → Params → Call State (Result Permit Params)
  pub release : State → Permit → Call State (Unit {0})
