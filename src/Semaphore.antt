-- ===== src/Semaphore.antt =====
-- flag-bearer/src: `Builder`, `Semaphore` and `Permit`. A `Semaphore` is its queue.
pub mod Tried
pub mod Policies
pub mod Fairness
pub mod Handoff
use flag_bearer.Base.{
  ℕ, Bool, true, false, Option, none, some, List, [], Result, ok, err, Call, Exec, returns, unwinds,
  faults,
}
use flag_bearer.Closeable.{
  Kind, closeable, uncloseable, ErrorOf, AcquireError, never, TryAcquireError,
}
use flag_bearer.Order.{Order, FairOrder, fair_order, Hybrid, hybrid_order}
use flag_bearer.External.{Setting}
use flag_bearer.Guard
use flag_bearer.Guard.{DropWrapper, Drop2}
use flag_bearer.Queue.State
use flag_bearer.Queue.State.{QueueState, SemaphoreQueue}
use flag_bearer.Queue.Admit
use flag_bearer.Queue.Acquire
use flag_bearer.Queue.Acquire.{Acquire, Poll, ready, pending, Abandoned}
use flag_bearer.Queue.Close
use flag_bearer.Queue.Close.{Others}
use flag_bearer.Queue.Run
use flag_bearer.Queue.Run.{Logged}

-- `Builder<O, C>`
pub record Builder (O : Order) (c : Kind) : Type 0 where
  pub order : O.Policy

abbrev pub fifo : Builder fair_order uncloseable
fifo = record { order = FairOrder.fifo }

abbrev pub lifo : Builder fair_order uncloseable
lifo = record { order = FairOrder.lifo }

abbrev pub hybrid : ℕ → Builder hybrid_order uncloseable
hybrid lifo_above = record { order = record { lifo_above = lifo_above } }

abbrev pub with_order : {O : Order} → O.Policy → Builder O uncloseable
with_order order = record { order = order }

abbrev pub with_close : {O : Order} {c : Kind} → Builder O c → Builder O closeable
with_close b = record { order = b.order }

-- `Semaphore<S, C, O>`
abbrev pub Semaphore : Setting → Kind → Type 0
Semaphore g c = SemaphoreQueue g c

-- `Permit`: what its drop gives back. The semaphore is an argument of what follows.
pub record Permit (g : Setting) : Type 0 where
  pub inner : DropWrapper g.Permit

abbrev pub Tried : Setting → Kind → Type 0
Tried g c = Exec (QueueState g c) (Result (Permit g) (TryAcquireError c g.Params))

-- The state machine of `async fn acquire`: not started, waiting at its only `await`, or over.
pub data Acquiring (g : Setting) : Type 0 where
  unresumed : g.Params → Acquiring g
  suspended : Acquire g → Acquiring g
  finished : Acquiring g

module _ {g : Setting} where
  abbrev pub out_of_thin_air : g.Permit → Permit g
  out_of_thin_air permit = record { inner = Guard.new permit }

  -- `Deref::deref`
  abbrev pub deref : Permit g → g.Permit
  deref this = this.inner.t

  -- A write through what `DerefMut::deref_mut` gives
  abbrev pub deref_mut : Permit g → (g.Permit → g.Permit) → Permit g
  deref_mut this write = record this { inner = record this.inner { t = write this.inner.t } }

  abbrev pub take : Permit g → g.Permit
  take this = Guard.take this.inner

  -- `Ok(Permit::out_of_thin_air(self, permit?))`
  abbrev pub wrapped : {E : Type 0} → Result g.Permit E → Result (Permit g) E
  wrapped (ok permit) = ok (out_of_thin_air permit)
  wrapped (err e) = err e

module _ {g : Setting} {c : Kind} where
  -- `Builder::with_state` and `Semaphore::new_inner`
  abbrev pub build : Builder g.ord c → g.State → Semaphore g c
  build b state = State.new g c state b.order

  abbrev pub tried :
      Exec (QueueState g c) (Result g.Permit (TryAcquireError c g.Params)) → Tried g c
  tried (returns q r) = returns q (wrapped r)
  tried (unwinds q) = unwinds q
  tried (faults f) = faults f

  abbrev pub try_acquire : QueueState g c → g.Params → Tried g c
  try_acquire q params = tried (Admit.try_acquire q params true)

  abbrev pub try_acquire_unfair : QueueState g c → g.Params → Tried g c
  try_acquire_unfair q params = tried (Admit.try_acquire q params false)

  -- After a poll of the inner future. It is dropped when it is ready; its node is initial then.
  abbrev pub resumed :
      Acquire.Polled g c
      → Exec (QueueState g c × Acquiring g) (Poll (Result (Permit g) (ErrorOf c g.Params)))
  resumed (returns (q, fut) pending) = returns (q, suspended fut) pending
  resumed (returns (q, fut) (ready r)) = returns (q, finished) (ready (wrapped r))
  resumed (unwinds (q, fut)) = unwinds (q, finished)
  resumed (faults f) = faults f

  -- A poll of the future of `acquire`, whose node has the address `k`. A poll after the end panics.
  abbrev pub resume :
      ℕ
      → QueueState g c
      → Acquiring g
      → g.Waker
      → Exec (QueueState g c × Acquiring g) (Poll (Result (Permit g) (ErrorOf c g.Params)))
  resume k q (unresumed params) w = resumed (Acquire.poll q (Acquire.acquire k params) w)
  resume k q (suspended fut) w = resumed (Acquire.poll q fut w)
  resume k q finished w = unwinds (q, finished)

  -- The drop of the future of `acquire`
  abbrev pub cancel : ℕ → Others g c → QueueState g c → Acquiring g → Logged g c (Abandoned g c)
  cancel fuel others q (unresumed params) = returns (q, []) none
  cancel fuel others q (suspended fut) = Run.drop_acquire fuel others q fut
  cancel fuel others q finished = returns (q, []) none

  abbrev pub with_state :
      {T : Type 0} → ℕ → Others g c → QueueState g c → (g.State → Call g.State T) → Logged g c T
  with_state fuel others q f = Run.with_state fuel others q f

  -- `<SemWrapper as Drop2>::drop`
  abbrev pub release_into : ℕ → Others g c → QueueState g c → Drop2 g.Permit (Logged g c (Unit {0}))
  release_into fuel others q permit = with_state fuel others q (λ s. g.release s permit)

  -- The drop of a `Permit`
  abbrev pub drop_permit : ℕ → Others g c → QueueState g c → Permit g → Logged g c (Unit {0})
  drop_permit fuel others q permit = Guard.drop (release_into fuel others q) permit.inner

  abbrev pub is_closed : QueueState g c → Bool
  is_closed q = State.is_closed q

  abbrev pub is_poisoned : QueueState g c → Bool
  is_poisoned q = State.is_poisoned q

  abbrev pub clear_poison : QueueState g c → QueueState g c
  clear_poison q = State.clear_poison q

-- `must_acquire`: `unwrap_or_else(|e| e.never())`
abbrev pub must : {A : Type 0} → Result A (AcquireError ⊥) → A
must (ok a) = a
must (err e) = never e

abbrev pub close :
    {g : Setting}
    → ℕ
    → Others g closeable
    → QueueState g closeable
    → Exec (QueueState g closeable × List g.Waker) (Unit {0})
close fuel others q = Close.close fuel others q
