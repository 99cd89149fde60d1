-- ===== src/Queue/Run.antt =====
-- flag-bearer-queue/src/lib.rs: `with_queue`, and what `SemaphoreQueue` does through it.
use flag_bearer.Base.{
  ℕ, zero, suc, Bool, true, false, ◌&&◌, not, none, List, [], Call, Exec, returns, unwinds, faults,
  no_fuel, ◌==◌, if◌then◌else◌,
}
use flag_bearer.Closeable.{Kind}
use flag_bearer.External.{Setting}
use flag_bearer.Queue.State.{pin_queue, QueueState, update_state}
use flag_bearer.Queue.Wake.{WakeBatch, wakers, wake_all, drop_batch}
use flag_bearer.Queue.Check.{Checked, check}
use flag_bearer.Queue.Close.{Others}
use flag_bearer.Queue.Acquire.{Acquire, Abandoned, leave}

abbrev pub Logged : Setting → Kind → Type 0 → Type 0
Logged g c T = Exec (QueueState g c × List g.Waker) T

module _ {g : Setting} {c : Kind} {T : Type 0} where
  -- After `wakes.wake_all()`; `more` was read under the lock.
  unfoldable pub notified :
      (WakeBatch g → QueueState g c → List g.Waker → Logged g c T)
      → Others g c
      → T
      → Bool
      → WakeBatch g
      → QueueState g c
      → Exec (List g.Waker) (Unit {0})
      → Logged g c T
  notified again others t more ws q (returns log _) = elim more [
    | true ↦ again ws (others log q) log
    | false ↦ returns (q, log) t
  ]
  notified again others t more ws q (unwinds log) = unwinds (q, log)
  notified again others t more ws q (faults f) = faults f

  -- A panic under the lock: the mutex is released first, then the batch is dropped.
  unfoldable pub dropped_batch : QueueState g c → Exec (List g.Waker) (Unit {0}) → Logged g c T
  dropped_batch q (returns log _) = unwinds (q, log)
  dropped_batch q (unwinds log) = unwinds (q, log)
  dropped_batch q (faults f) = faults f

  -- One round of the loop, after `state.check(&mut wakes)`.
  unfoldable pub checked :
      (WakeBatch g → QueueState g c → List g.Waker → Logged g c T)
      → Others g c
      → T
      → List g.Waker
      → Checked g c
      → Logged g c T
  unfolding notified dropped_batch
  checked again others t log (returns (q, ws) _) =
      notified again others t ((wakers g).is_full ws && not (q.len == 0)) ((wakers g).drain ws).1 q
        (wake_all g log ((wakers g).drain ws).0)
  checked again others t log (unwinds (q, ws)) =
      dropped_batch q (drop_batch g log ((wakers g).drain ws).0)
  checked again others t log (faults f) = faults f

  unfoldable pub check_rounds :
      ℕ → Others g c → T → WakeBatch g → QueueState g c → List g.Waker → Logged g c T
  unfolding checked
  check_rounds zero others t ws q log = faults no_fuel
  check_rounds (suc fuel) others t ws q log =
      checked (λ ws' q' log'. check_rounds fuel others t ws' q' log') others t log (check q ws)

  -- After `f(&mut state)`.
  unfoldable pub applied : ℕ → Others g c → Exec (QueueState g c) T → Logged g c T
  unfolding check_rounds
  applied fuel others (returns q t) =
      if q.len == 0 then returns (q, []) t else check_rounds fuel others t (wakers g).new q []
  applied fuel others (unwinds q) = unwinds (q, [])
  applied fuel others (faults f) = faults f

  unfoldable pub with_queue :
      ℕ → Others g c → QueueState g c → (QueueState g c → Exec (QueueState g c) T) → Logged g c T
  unfolding applied
  with_queue fuel others q f = applied fuel others (f q)

  -- `SemaphoreQueue::with_state`
  unfoldable pub with_state :
      ℕ → Others g c → QueueState g c → (g.State → Call g.State T) → Logged g c T
  unfolding with_queue update_state
  with_state fuel others q f = with_queue fuel others q (λ q'. update_state q' f)

module _ {g : Setting} {c : Kind} where
  -- `PinnedDrop::drop` of `Acquire`
  unfoldable pub drop_acquire :
      ℕ → Others g c → QueueState g c → Acquire g → Logged g c (Abandoned g c)
  unfolding with_queue leave
  drop_acquire fuel others q fut =
      if (pin_queue g c).initialized fut.node q.nodes
      then with_queue fuel others q (leave fut.node)
      else returns (q, []) none
