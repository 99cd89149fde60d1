-- ===== src/Queue/Serve.antt =====
-- flag-bearer-queue/src/lib.rs: a reference for `QueueState::check`, as a walk along a list.
pub mod After
pub mod Push
pub mod Leave
pub mod Loop
pub mod Parts
pub mod Fair
pub mod Order
pub mod All
pub mod Check
use flag_bearer.Base.{
  ℕ, zero, suc, Bool, true, false, none, some, List, [], ◌∷◌, Result, ok, err, Call, gives, panics,
}
use flag_bearer.External.{Setting}
use flag_bearer.Queue.State.{Protected}

-- The tasks that stay, those that got a permit in the order of service, and their wakers.
pub record Served (g : Setting) : Type 0 where
  pub state : g.State
  pub kept : List (ℕ × Protected g)
  pub granted : List (ℕ × g.Permit)
  pub woken : List g.Waker
  pub panicked : Bool

module _ {g : Setting} where
  abbrev pub stop : Bool → g.State → List (ℕ × Protected g) → Served g
  stop b s xs = record { state = s; kept = xs; granted = []; woken = []; panicked = b }

  abbrev pub skip : ℕ × Protected g → Served g → Served g
  skip x v = record v { kept = x ∷ v.kept }

  abbrev pub grant : ℕ → g.Permit → g.Waker → Served g → Served g
  grant k permit w v = record v { granted = (k, permit) ∷ v.granted; woken = w ∷ v.woken }

  -- The answer to the task `k` with waker `w`; `rest` waits behind it.
  abbrev pub reply :
      (g.State → Served g)
      → ℕ
      → g.Waker
      → List (ℕ × Protected g)
      → Call g.State (Result g.Permit g.Params)
      → Served g
  reply again k w rest (panics s) = stop true s ((k, (none, w)) ∷ rest)
  reply again k w rest (gives s (ok permit)) = grant k permit w (again s)
  reply again k w rest (gives s (err p)) = stop false s ((k, (some p, w)) ∷ rest)

  -- `room` permits, and one more, may be handed out.
  unfoldable pub serve : ℕ → g.State → List (ℕ × Protected g) → Served g
  serve room s [] = stop false s []
  serve room s ((k, (none, w)) ∷ rest) = skip (k, (none, w)) (serve room s rest)
  serve zero s ((k, (some p, w)) ∷ rest) = reply (λ t. stop false t rest) k w rest (g.acquire s p)
  serve (suc room) s ((k, (some p, w)) ∷ rest) =
      reply (λ t. serve room t rest) k w rest (g.acquire s p)
