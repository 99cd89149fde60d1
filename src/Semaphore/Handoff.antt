-- ===== src/Semaphore/Handoff.antt =====
-- flag-bearer/src: from the drop of a permit to the task that gets it.
use flag_bearer.Base.{
  ℕ, ◌*◌, ◌<◌, ◌≡◌, sym, ap, subst, Option, some, List, [], ok, err, gives, returns, unwinds,
  faults, arith, length, find,
}
use flag_bearer.Closeable.{closeable}
use flag_bearer.External.{Setting, removed}
use flag_bearer.Queue.State.{QueueState, waiting}
use flag_bearer.Queue.Wake.{AllWake}
use flag_bearer.Queue.Run.{Logged}
use flag_bearer.Queue.Acquire.{Acquire, Polled, ready, pending}
use flag_bearer.Queue.Claim.{Claims, poll-Claims}
use flag_bearer.Queue.Serve.All.{serve_all}
use flag_bearer.Queue.Serve.Check.{IsServing}
use flag_bearer.Queue.Sound.{Inv}
use flag_bearer.Queue.Rounds.{quiet, IsDone, IsEnd}
use flag_bearer.Queue.Rounds.Serve.{with_state-serves}
use flag_bearer.Queue.Rounds.Handoff.{Among, Finds, IsEnd-Finds, serve_all-Wakes}
use flag_bearer.Semaphore.{
  Permit, out_of_thin_air, drop_permit, resume, resumed, suspended, finished,
}

module _ (g : Setting) where
  -- The next poll of the future, with the waker `next`, gives the permit.
  abbrev pub Collects : Acquire g → g.Permit → g.Waker → QueueState g closeable → Type 0
  Collects fut permit next q =
      (q' : QueueState g closeable) × (resume fut.node q (suspended fut) next
        ≡ returns (q', finished) (ready (ok (out_of_thin_air {g = g} permit))))

  -- However the call ended, the waker `w` was called, and the future finds its permit.
  abbrev pub HandsOver :
      Acquire g → g.Permit → g.Waker → g.Waker → Logged g closeable (Unit {0}) → Type 0
  HandsOver fut permit w next (returns (q, log) _) = Among w log × Collects fut permit next q
  HandsOver fut permit w next (unwinds (q, log)) = Among w log × Collects fut permit next q
  HandsOver fut permit w next (faults _) = ⊥

  resumed-ready :
      (fut : Acquire g) (permit : g.Permit) (w : g.Waker) (q : QueueState g closeable)
      (r : Polled g closeable)
      → Claims q.closed (removed (ok permit)) w fut.node q r
      → (q' : QueueState g closeable) × (resumed r
          ≡ returns (q', finished) (ready (ok (out_of_thin_air {g = g} permit))))
  resumed-ready fut permit w q (returns (q', _) (ready (ok permit'))) h =
      (q', ap (λ p. returns (q', finished) (ready (ok (out_of_thin_air {g = g} p)))) h.0)
  resumed-ready fut permit w q (returns (q', _) (ready (err e))) h = absurd h
  resumed-ready fut permit w q (returns (q', _) pending) h = absurd h
  resumed-ready fut permit w q (unwinds _) h = absurd h
  resumed-ready fut permit w q (faults _) h = absurd h

  Finds-Collects :
      (fut : Acquire g) (permit : g.Permit) (w : g.Waker) (q : QueueState g closeable)
      → Finds g fut.node permit q
      → Collects fut permit w q
  Finds-Collects fut permit w q (h, n, f) =
      resumed-ready fut permit w q _ (poll-Claims q fut w (removed (ok permit)) h (n, f))

  module _ (q : QueueState g closeable) (s : g.State) (fut : Acquire g) (mine : g.Permit)
      (o : Option g.Params) (w next : g.Waker) (h : Inv q) (i : IsServing q)
      (f : find fut.node (waiting q) ≡ some (o, w))
      (e : find fut.node (serve_all {g = g} s (waiting q)).granted ≡ some mine) where
    ended :
        (q' : QueueState g closeable) (log : List g.Waker)
        → IsEnd (serve_all s (waiting q)) (record q { state = s }) q'
        → log ≡ (serve_all {g = g} s (waiting q)).woken
        → Among w log × Collects fut mine next q'
    ended q' log d l = (
      subst (Among w) (sym l) (
          serve_all-Wakes g fut.node mine w s (waiting q) o f e (omega (arith, h.single fut.node))),
      Finds-Collects fut mine next q'
          (IsEnd-Finds g s (record q { state = s }) q' fut.node mine h i.opened e d),
    )

    done-HandsOver :
        (r : Logged g closeable (Unit {0}))
        → IsDone (serve_all s (waiting q)) (record q { state = s }) [] tt r
        → HandsOver fut mine w next r
    done-HandsOver (returns (q', log) _) d = ended q' log d.0 d.1
    done-HandsOver (unwinds (q', log)) d = ended q' log d.0 d.1
    done-HandsOver (faults _) d = absurd d

  -- From one task to the next. On an open, healthy, well-formed, closeable semaphore, if nobody
  -- else takes the mutex, no waker panics, and 32 times the fuel is more than the number of waiting
  -- tasks: when a permit is dropped and the user's `release` returns, then every task that the walk
  -- along the waiting tasks grants a permit from the new state, wherever it waits, has its waker
  -- called, and the next poll of its future, with any waker, returns exactly that permit; also if
  -- the drop unwinds since the user's `acquire` panics for a task behind it.
  pub drop_permit-HandsOver :
      AllWake g
      → (fuel : ℕ) (q : QueueState g closeable) (permit : Permit g) (s : g.State) (fut : Acquire g)
        (mine : g.Permit) (o : Option g.Params) (w next : g.Waker)
      → g.release q.state permit.inner.t ≡ gives s tt
      → length (waiting q) < 32 * fuel
      → Inv q
      → IsServing q
      → find fut.node (waiting q) ≡ some (o, w)
      → find fut.node (serve_all {g = g} s (waiting q)).granted ≡ some mine
      → HandsOver fut mine w next (drop_permit fuel quiet q permit)
  drop_permit-HandsOver wake fuel q permit s fut mine o w next r l h i f e =
      done-HandsOver q s fut mine o w next h i f e _
        (with_state-serves wake fuel q (λ t. g.release t permit.inner.t) s tt r l h i)
