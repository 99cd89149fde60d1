-- ===== src/Examples/Aimd.antt =====
-- flag-bearer-examples/examples/aimd.rs: `Aimd`.
pub mod Bounds
use flag_bearer.Base.{
  ℕ, ◌+◌, ◌-◌, ◌<◌, ◌≤◌, ◌≡◌, ◌∙◌, Bool-cases, inl, inr, sym, ap, refl, Bool, true, false, Option,
  none, some, Result, ok, err, Call, gives, panics, if◌then◌else◌, arith,
}
use flag_bearer.Closeable.{Kind}
use flag_bearer.Traits.{SemaphoreState}
use flag_bearer.External.{Setting}
use flag_bearer.Queue.State.{settled}
use flag_bearer.Queue.Ledger.{Account, stored, total, one}
use flag_bearer.Queue.Ledger.World.{World, RunsWith}
use flag_bearer.Queue.Ledger.Outstanding.{RunsWith-Knows}
use flag_bearer.Examples.{with_sem}
use flag_bearer.Examples.Words.{plus, plus-fits, minus, minus-fits, u32_mod}
use flag_bearer.Examples.Floats.{Float, IsFloat, Le}

module _ (f : Float) where
  pub record Aimd : Type 0 where
    pub in_flight : ℕ
    pub limit : f.F
    pub min : f.F
    pub max : f.F

  -- `acquire`, with the sum in `in_flight`
  abbrev entered : Aimd → Option ℕ → Call Aimd (Result (Unit {0}) (Unit {0}))
  entered self none = panics self
  entered self (some n) = gives (record self { in_flight = n }) (ok tt)

  abbrev acquire : Bool → Aimd → Unit {0} → Call Aimd (Result (Unit {0}) (Unit {0}))
  acquire checks self _ =
      if f.lt (f.from_u32 self.in_flight) self.limit
      then entered self (plus checks u32_mod self.in_flight 1)
      else gives self (err tt)

  -- `release`, with the difference in `in_flight`
  abbrev exited : Aimd → Option ℕ → Call Aimd (Unit {0})
  exited self none = panics self
  exited self (some n) = gives (record self { in_flight = n }) tt

  abbrev release : Bool → Aimd → Unit {0} → Call Aimd (Unit {0})
  release checks self _ = exited self (minus checks u32_mod self.in_flight 1)

  -- `checks` tells whether the build has overflow checks.
  abbrev pub aimd : Bool → SemaphoreState
  aimd checks = record {
    State = Aimd;
    Params = Unit {0};
    Permit = Unit {0};
    acquire = acquire checks;
    release = release checks;
  }

  abbrev pub on_success : Aimd → Aimd
  on_success self = record self { limit = f.min (f.add self.limit f.one) self.max }

  abbrev pub on_failure : Aimd → Aimd
  on_failure self = record self { limit = f.max (f.mul self.limit f.half) self.min }

  abbrev pub limit : Aimd → ℕ
  limit self = f.as_u32 self.limit

  -- The callback of `main`
  abbrev pub feedback : {A E : Type 0} → Result A E → Aimd → Call Aimd (Unit {0})
  feedback (ok _) s = gives (on_success s) tt
  feedback (err _) s = gives (on_failure s) tt

  abbrev pub IsFeedback : (Aimd → Call Aimd (Unit {0})) → Type 0
  IsFeedback k = (r : Result (Unit {0}) (Unit {0})) × (k ≡ feedback r)

  -- Any setting with this user's state.
  abbrev pub aimd_setting : Bool → Setting → Setting
  aimd_setting checks g = with_sem (aimd checks) g
