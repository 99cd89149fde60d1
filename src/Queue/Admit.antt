-- ===== src/Queue/Admit.antt =====
-- flag-bearer-queue/src/acquire.rs: `QueueState::acquire_or_enqueue` and `try_acquire`.
use flag_bearer.Base.{
  Bool, true, ◌&&◌, ◌||◌, Option, none, some, Result, ok, err, Call, gives, panics, Exec, returns,
  unwinds, faults, if◌then◌else◌,
}
use flag_bearer.Closeable.{Kind, can_close, ErrorOf, new_err, TryAcquireError, no_permits}
use flag_bearer.External.{Setting}
use flag_bearer.Queue.State.{pin_queue, QueueState}

pub data Outcome (g : Setting) (c : Kind) : Type 0 where
  acquired : g.Permit → Outcome g c
  closed : ErrorOf c g.Params → Outcome g c
  poisoned : g.Params → Outcome g c
  enqueue : (front : Bool) → g.Params → Outcome g c

module _ {g : Setting} {c : Kind} where
  -- `Outcome::Closed(C::new_err(params))`
  unfoldable pub turn_away :
      QueueState g c → Option (ErrorOf c g.Params) → Exec (QueueState g c) (Outcome g c)
  turn_away q none = unwinds q
  turn_away q (some e) = returns q (closed e)

  -- The answer of `self.state.acquire(params)`, under its `PoisonOnUnwind`.
  unfoldable pub attempted :
      Bool
      → QueueState g c
      → Call g.State (Result g.Permit g.Params)
      → Exec (QueueState g c) (Outcome g c)
  attempted front q (panics s) = unwinds (record q { state = s; poisoned = true })
  attempted front q (gives s (ok permit)) = returns (record q { state = s }) (acquired permit)
  attempted front q (gives s (err params)) = returns (record q { state = s }) (enqueue front params)

  unfoldable pub lead :
      Bool → Bool → QueueState g c → g.Params → Exec (QueueState g c) (Outcome g c)
  unfolding attempted
  lead front empty q params =
      if front || empty
      then attempted front q (g.acquire q.state params)
      else returns q (enqueue front params)

  -- The answer of `self.order.enqueue_front(self.len)`. Its panic poisons nothing.
  unfoldable pub ordered :
      Bool → QueueState g c → g.Params → Call g.Policy Bool → Exec (QueueState g c) (Outcome g c)
  unfolding lead
  ordered empty q params (panics o) = unwinds (record q { order = o })
  ordered empty q params (gives o front) = lead front empty (record q { order = o }) params

  unfoldable pub acquire_or_enqueue :
      QueueState g c → g.Params → Bool → Exec (QueueState g c) (Outcome g c)
  unfolding turn_away ordered
  acquire_or_enqueue q params fair =
      if q.poisoned
      then returns q (poisoned params)
      else if can_close c && q.closed
      then turn_away q (new_err c params)
      else elim q.queue [
        | err _ ↦ turn_away q (new_err c params)
        | ok _ ↦
            if fair
            then ordered ((pin_queue g c).is_empty q.nodes) q params (g.enqueue_front q.order q.len)
            else lead true ((pin_queue g c).is_empty q.nodes) q params
      ]

  abbrev pub report : Outcome g c → Result g.Permit (TryAcquireError c g.Params)
  report (acquired permit) = ok permit
  report (closed e) = err (TryAcquireError.closed e)
  report (poisoned params) = err (TryAcquireError.poisoned params)
  report (enqueue front params) = err (no_permits params)

  abbrev pub reported :
      Exec (QueueState g c) (Outcome g c)
      → Exec (QueueState g c) (Result g.Permit (TryAcquireError c g.Params))
  reported (returns q outcome) = returns q (report outcome)
  reported (unwinds q) = unwinds q
  reported (faults f) = faults f

  unfoldable pub try_acquire :
      QueueState g c
      → g.Params
      → Bool
      → Exec (QueueState g c) (Result g.Permit (TryAcquireError c g.Params))
  unfolding acquire_or_enqueue
  try_acquire q params fair = reported (acquire_or_enqueue q params fair)
