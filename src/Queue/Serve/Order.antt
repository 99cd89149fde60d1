-- ===== src/Queue/Serve/Order.antt =====
-- flag-bearer-queue/src/lib.rs: the order in which `QueueState::check` serves.
use flag_bearer.Base.{ℕ, ◌≡◌, true, ◌⊎◌, List, [], ◌++◌, returns, unwinds, faults, length}
use flag_bearer.Closeable.{Kind}
use flag_bearer.External.{Setting}
use flag_bearer.Queue.State.{QueueState, waiting, settled}
use flag_bearer.Queue.Wake.{WakeBatch, wakers, capacity}
use flag_bearer.Queue.Check.{Checked, check}
use flag_bearer.Queue.Serve.{Served, serve}
use flag_bearer.Queue.Serve.After.{IsServed, settle}
use flag_bearer.Queue.Serve.Check.{IsServing, check-serve}
use flag_bearer.Queue.Serve.Fair.{
  live, live_wakers, keys, IsRefused, IsInOrder, Stops, serve-IsInOrder, serve-Stops,
}
use flag_bearer.Queue.Sound.{Inv}

module _ {g : Setting} {c : Kind} where
  -- From `q` to `q'` the permits of `granted` were handed out, to the tasks at the front that are
  -- not dead, in their order, and the batch `ws` has their wakers in that order; the rest stays.
  pub record IsFair (q q' : QueueState g c) (ws : List g.Waker) (granted : List (ℕ × g.Permit))
      : Type 0 where
    pub tasks : keys granted ++ live (waiting q') ≡ live (waiting q)
    pub called : ws ++ live_wakers (waiting q') ≡ live_wakers (waiting q)
    pub stored : settled q' ≡ settle granted (settled q)

  -- Why no more permits were handed out: the batch is full, every task that is left is dead, or the
  -- user's `acquire` refused the first one that is not.
  abbrev pub IsStopped : QueueState g c → List (ℕ × g.Permit) → Type 0
  IsStopped q granted =
      (length granted ≡ capacity) ⊎ ((live (waiting q) ≡ []) ⊎ IsRefused g q.state (waiting q))

  abbrev pub EndsFair : QueueState g c → Checked g c → Type 0
  EndsFair q (returns (q', ws) _) =
      (granted : List (ℕ × g.Permit)) × IsFair q q' ((wakers g).to_list ws) granted
      × IsStopped q' granted
  EndsFair q (unwinds (q', ws)) = q'.poisoned ≡ true
  EndsFair q (faults f) = ⊥

  served-EndsFair :
      (v : Served g) (q : QueueState g c) (ws : WakeBatch g) (r : Checked g c)
      → (wakers g).to_list ws ≡ []
      → IsInOrder g (waiting q) v
      → Stops g capacity v
      → IsServed [] v q ws r
      → EndsFair q r
  served-EndsFair v q ws (returns (q', ws') _) n o s (a, e, _) = (
    v.granted,
    record {
      tasks = rw a.waits (o e).0;
      called = rw (a.waits, a.batches, n) (o e).1;
      stored = a.settles;
    },
    rw (a.waits, a.states) (s e),
  )
  served-EndsFair v q ws (unwinds (q', ws')) n o s (a, e, p) = p
  served-EndsFair v q ws (faults f) n o s h = h

  -- On an open, healthy, well-formed queue with an empty batch, `check` hands out permits strictly
  -- in the order of the queue, skipping only dead tasks, stores each permit in its node, and stops
  -- only at a full batch, when every task left is dead, or when the user's `acquire` refuses the
  -- first other one. If the user's `acquire` panics instead, the queue is poisoned.
  pub check-EndsFair :
      (q : QueueState g c) (ws : WakeBatch g)
      → Inv q
      → IsServing q
      → (wakers g).to_list ws ≡ []
      → EndsFair q (check q ws)
  check-EndsFair q ws h o e =
      served-EndsFair (serve 31 q.state (waiting q)) q ws (check q ws) e
        (serve-IsInOrder g 31 q.state (waiting q)) (serve-Stops g 31 q.state (waiting q))
        (check-serve q ws h o e)
