-- ===== src/Queue/System.antt =====
-- flag-bearer-queue/src under any interleaving: the mutex makes each locked section one step, and the tasks,
-- the wakers and the user's callbacks take such steps in any order. `poll`, `try_acquire` and
-- `clear_poison` are one section each; `with_queue` is its closure, then sections of `check`;
-- `close` is sections that gather wakers.
use flag_bearer.Base.{
  ℕ, suc, ◌+◌, ◌<◌, ◌≡◌, Bool, true, Call, Exec, returns, unwinds, faults, length, usize_mod,
}
use flag_bearer.Closeable.{Kind, closeable, uncloseable}
use flag_bearer.External.{Setting}
use flag_bearer.Queue.State.{pin_queue, QueueState, waiting, update_state, clear_poison, new}
use flag_bearer.Queue.Wake.{wakers, capacity}
use flag_bearer.Queue.Check.{check}
use flag_bearer.Queue.Admit.{try_acquire}
use flag_bearer.Queue.Acquire.{Acquire, poll, leave}
use flag_bearer.Queue.Close.{gather}

-- The call ends in a state of which `P` holds; a faulty call has no end.
abbrev pub Ends : {S A : Type 0} → (S → Type 0) → Exec S A → Type 0
Ends P (returns s _) = P s
Ends P (unwinds s) = P s
Ends P (faults _) = ⊥

module _ {g : Setting} where
  abbrev pub Closes : (c : Kind) → QueueState g c → QueueState g c → Type 0
  Closes closeable q q' = Ends (λ s. s.0 ≡ q') (gather (suc capacity) q (wakers g).new)
  Closes uncloseable q q' = ⊥

-- One locked section. A poll that joins the queue needs memory for its node.
pub data Step {g : Setting} {c : Kind} (q q' : QueueState g c) : Type 0 where
  polls :
      (fut : Acquire g) (w : g.Waker)
      → length (waiting q) + 1 < usize_mod
      → Ends (λ s. s.0 ≡ q') (poll q fut w)
      → Step q q'
  tries :
      (params : g.Params) (fair : Bool) → Ends (λ s. s ≡ q') (try_acquire q params fair) → Step q q'
  updates :
      (f : g.State → Call g.State (Unit {0})) → Ends (λ s. s ≡ q') (update_state q f) → Step q q'
  leaves :
      (k : ℕ)
      → (pin_queue g c).initialized k q.nodes ≡ true
      → Ends (λ s. s ≡ q') (leave k q)
      → Step q q'
  checks : Ends (λ s. s.0 ≡ q') (check q (wakers g).new) → Step q q'
  clears : q' ≡ clear_poison q → Step q q'
  closes : Closes c q q' → Step q q'

pub data Reach {g : Setting} {c : Kind} (s : g.State) (o : g.Policy) : QueueState g c → Type 0 where
  here : Reach s o (new g c s o)
  next : {q q' : QueueState g c} → Reach s o q → Step q q' → Reach s o q'
