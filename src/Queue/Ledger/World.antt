-- ===== src/Queue/Ledger/World.antt =====
-- flag-bearer-queue/src and the tasks that use it: the queue together with the permits that tasks
-- hold, under any interleaving of locked sections.
use flag_bearer.Base.{
  Call, ℕ, ◌+◌, ◌<◌, ◌≡◌, Bool, true, List, [], ◌∷◌, ◌++◌, Result, ok, err, Exec, returns, unwinds,
  faults, length, usize_mod,
}
use flag_bearer.Closeable.{Kind, TryAcquireError}
use flag_bearer.External.{Setting}
use flag_bearer.Queue.State.{pin_queue, QueueState, waiting, update_state, clear_poison, new}
use flag_bearer.Queue.Wake.{wakers}
use flag_bearer.Queue.Check.{check}
use flag_bearer.Queue.Admit.{try_acquire}
use flag_bearer.Queue.Acquire.{Acquire, Polled, ready, pending, poll, leave}
use flag_bearer.Queue.System.{Ends, Closes}

pub record World (g : Setting) (c : Kind) : Type 0 where
  pub queue : QueueState g c
  pub held : List g.Permit

module _ {g : Setting} {c : Kind} where
  abbrev pub Is : World g c → QueueState g c → List g.Permit → Type 0
  Is v q held = (v.queue ≡ q) × (v.held ≡ held)

  -- The future gave its task a permit, or none.
  abbrev pub Polls : List g.Permit → World g c → Polled g c → Type 0
  Polls held v (returns (q, _) (ready (ok permit))) = Is v q (permit ∷ held)
  Polls held v (returns (q, _) (ready (err _))) = Is v q held
  Polls held v (returns (q, _) pending) = Is v q held
  Polls held v (unwinds (q, _)) = Is v q held
  Polls held v (faults _) = ⊥

  abbrev pub Tries :
      List g.Permit
      → World g c
      → Exec (QueueState g c) (Result g.Permit (TryAcquireError c g.Params))
      → Type 0
  Tries held v (returns q (ok permit)) = Is v q (permit ∷ held)
  Tries held v (returns q (err _)) = Is v q held
  Tries held v (unwinds q) = Is v q held
  Tries held v (faults _) = ⊥

  -- One locked section of the queue, with the permits that it hands to tasks and takes back. A task
  -- gives a permit back by its drop, and changes the user's state otherwise by callbacks in `Tunes`
  -- only.
  pub data Deal (Tunes : (g.State → Call g.State (Unit {0})) → Type 0) (u v : World g c)
      : Type 0 where
    polled :
        (fut : Acquire g) (w : g.Waker)
        → length (waiting u.queue) + 1 < usize_mod
        → Polls u.held v (poll u.queue fut w)
        → Deal Tunes u v
    tried :
        (params : g.Params) (fair : Bool)
        → Tries u.held v (try_acquire u.queue params fair)
        → Deal Tunes u v
    dropped :
        (xs ys : List g.Permit) (permit : g.Permit)
        → u.held ≡ xs ++ permit ∷ ys
        → v.held ≡ xs ++ ys
        → Ends (λ q. q ≡ v.queue) (update_state u.queue (λ s. g.release s permit))
        → Deal Tunes u v
    tuned :
        (f : g.State → Call g.State (Unit {0}))
        → Tunes f
        → v.held ≡ u.held
        → Ends (λ q. q ≡ v.queue) (update_state u.queue f)
        → Deal Tunes u v
    cancelled :
        (k : ℕ)
        → (pin_queue g c).initialized k u.queue.nodes ≡ true
        → v.held ≡ u.held
        → Ends (λ q. q ≡ v.queue) (leave k u.queue)
        → Deal Tunes u v
    checked :
        v.held ≡ u.held → Ends (λ s. s.0 ≡ v.queue) (check u.queue (wakers g).new) → Deal Tunes u v
    cleared : v.held ≡ u.held → v.queue ≡ clear_poison u.queue → Deal Tunes u v
    closed : v.held ≡ u.held → Closes c u.queue v.queue → Deal Tunes u v

  pub data RunsWith (Tunes : (g.State → Call g.State (Unit {0})) → Type 0) (s : g.State)
      (o : g.Policy) : World g c → Type 0 where
    start : RunsWith Tunes s o (record { queue = new g c s o; held = [] })
    later : {u v : World g c} → RunsWith Tunes s o u → Deal Tunes u v → RunsWith Tunes s o v

  -- No callback changes the user's state.
  abbrev pub Runs : g.State → g.Policy → World g c → Type 0
  Runs s o v = RunsWith (λ f. ⊥) s o v
