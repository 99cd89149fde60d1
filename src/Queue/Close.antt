-- ===== src/Queue/Close.antt =====
-- flag-bearer-queue/src/lib.rs: `QueueState::close_one` and `SemaphoreQueue::close`.
use flag_bearer.Base.{
  ℕ, zero, suc, Bool, true, false, Option, none, some, List, [], Result, ok, err, Exec, returns,
  unwinds, faults, no_fuel, if◌then◌else◌, decr,
}
use flag_bearer.Closeable.{Kind, closeable}
use flag_bearer.External.{Setting}
use flag_bearer.Queue.State.{Protected, pin_queue, Nodes, QueueState}
use flag_bearer.Queue.Wake.{WakeBatch, wakers, capacity, wake_all, drop_batch}

-- What the other tasks do to the queue between two locked sections, given the wakers called so far.
abbrev pub Others : Setting → Kind → Type 0
Others g c = List g.Waker → QueueState g c → QueueState g c

abbrev pub Gathered : Setting → Type 0
Gathered g = Exec (QueueState g closeable × WakeBatch g) (Unit {0})

abbrev pub Gather : Setting → Type 0
Gather g = QueueState g closeable → WakeBatch g → Gathered g

abbrev pub Round : Setting → Type 0
Round g =
    QueueState g closeable
    → WakeBatch g
    → List g.Waker
    → Exec (QueueState g closeable × List g.Waker) (Unit {0})

-- `Result::is_ok`
abbrev pub is_ok : {A E : Type 0} → Result A E → Bool
is_ok (ok _) = true
is_ok (err _) = false

module _ {g : Setting} where
  -- After `cursor.remove_current_with_or(…)`.
  unfoldable pub detached :
      QueueState g closeable
      → Option (Protected g × Nodes g closeable)
      → QueueState g closeable × Option g.Waker
  detached q none = (q, none)
  detached q (some (p, nodes)) = (record q { nodes = nodes; len = decr q.len }, some p.1)

  unfoldable pub detach :
      QueueState g closeable → Option ℕ → QueueState g closeable × Option g.Waker
  unfolding detached
  detach q none = (q, none)
  detach q (some k) =
      detached q ((pin_queue g closeable).remove_current_with k (λ p. err p.0) q.nodes)

  -- `if queue.is_empty() { self.queue = Err(()) }`
  unfoldable pub discard :
      QueueState g closeable × Option g.Waker → QueueState g closeable × Option g.Waker
  discard (q, w) =
      if (pin_queue g closeable).is_empty q.nodes then (record q { queue = err tt }, w) else (q, w)

  unfoldable pub close_one : QueueState g closeable → QueueState g closeable × Option g.Waker
  unfolding detach discard
  close_one q = elim q.queue [
    | ok _ ↦
        discard (detach (record q { closed = true }) ((pin_queue g closeable).cursor_front q.nodes))
    | err _ ↦ (record q { closed = true }, none)
  ]

  -- `wakes.push(waker)`, and the next round of `while !wakes.is_full()`.
  unfoldable pub joined :
      Gather g → QueueState g closeable → WakeBatch g → Option (WakeBatch g) → Gathered g
  joined again q ws none = unwinds (q, ws)
  joined again q ws (some ws') = again q ws'

  unfoldable pub collected :
      Gather g → WakeBatch g → QueueState g closeable × Option g.Waker → Gathered g
  unfolding joined
  collected again ws (q, none) = returns (q, ws) tt
  collected again ws (q, some w) = joined again q ws ((wakers g).push w ws)

  unfoldable pub gather : ℕ → Gather g
  unfolding collected close_one
  gather zero q ws = faults no_fuel
  gather (suc fuel) q ws = elim ((wakers g).is_full ws) [
    | true ↦ returns (q, ws) tt
    | false ↦ collected (gather fuel) ws (close_one q)
  ]

  abbrev pub still_open : QueueState g closeable → Bool
  still_open q = is_ok q.queue

  -- After `wakes.wake_all()`: the next round starts when the other tasks let go of the mutex.
  unfoldable pub woke :
      Round g
      → Others g closeable
      → QueueState g closeable
      → WakeBatch g
      → Exec (List g.Waker) (Unit {0})
      → Exec (QueueState g closeable × List g.Waker) (Unit {0})
  woke again others q ws (returns log _) = elim (still_open q) [
    | true ↦ again (others log q) ws log
    | false ↦ returns (q, log) tt
  ]
  woke again others q ws (unwinds log) = unwinds (q, log)
  woke again others q ws (faults f) = faults f

  -- A panic under the lock: the mutex is released first, then the batch is dropped.
  unfoldable pub unwound :
      QueueState g closeable
      → Exec (List g.Waker) (Unit {0})
      → Exec (QueueState g closeable × List g.Waker) (Unit {0})
  unwound q (returns log _) = unwinds (q, log)
  unwound q (unwinds log) = unwinds (q, log)
  unwound q (faults f) = faults f

  -- After the locked section: `drop(state)`, `wakes.wake_all()`.
  unfoldable pub closed_batch :
      Round g
      → Others g closeable
      → List g.Waker
      → Gathered g
      → Exec (QueueState g closeable × List g.Waker) (Unit {0})
  unfolding woke unwound
  closed_batch again others log (returns (q, ws) _) =
      let (called, drained) = (wakers g).drain ws in
      woke again others q drained (wake_all g log called)
  closed_batch again others log (unwinds (q, ws)) =
      unwound q (drop_batch g log ((wakers g).drain ws).0)
  closed_batch again others log (faults f) = faults f

  unfoldable pub close_rounds : ℕ → Others g closeable → Round g
  unfolding closed_batch gather
  close_rounds zero others q ws log = faults no_fuel
  close_rounds (suc fuel) others q ws log =
      closed_batch (close_rounds fuel others) others log (gather (suc capacity) q ws)

  -- `SemaphoreQueue::close`, with the log of the wakers called.
  unfoldable pub close :
      ℕ
      → Others g closeable
      → QueueState g closeable
      → Exec (QueueState g closeable × List g.Waker) (Unit {0})
  unfolding close_rounds
  close fuel others q = close_rounds fuel others q (wakers g).new []
