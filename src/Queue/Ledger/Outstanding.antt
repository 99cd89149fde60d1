-- ===== src/Queue/Ledger/Outstanding.antt =====
-- flag-bearer-queue: what the user's state says of the permits that are out, over the steps of the
-- queue and of the tasks that use it.
use flag_bearer.Base.{
  Call, ℕ, ◌+◌, ◌≡◌, refl, sym, ap, List, [], ◌∷◌, ◌++◌, Result, ok, err, Exec, returns, unwinds,
  faults, arith,
}
use flag_bearer.Closeable.{Kind, closeable, uncloseable, TryAcquireError}
use flag_bearer.External.{Setting}
use flag_bearer.Queue.State.{pin_queue, QueueState, clear_poison, new}
use flag_bearer.Queue.Wake.{wakers}
use flag_bearer.Queue.Check.{Checked}
use flag_bearer.Queue.Acquire.{Polled, ready, pending}
use flag_bearer.Queue.System.{
  Ends, Closes, Step, polls, tries, updates, leaves, checks, clears, closes,
}
use flag_bearer.Queue.Sound.{Inv}
use flag_bearer.Queue.Sound.Reach.{Step-Inv, new-Inv}
use flag_bearer.Queue.Ledger.{Account, stored, total, one, Kept, Kept-moved, Holds-at}
use flag_bearer.Queue.Ledger.Poll.{PaysPoll, poll-PaysPoll, PaysTry, try_acquire-PaysTry}
use flag_bearer.Queue.Ledger.Leave.{Balanced, release-Balanced, tune-Balanced, leave-Balanced}
use flag_bearer.Queue.Ledger.Check.{BalancedCheck, check-BalancedCheck, gather-BalancedCheck}
use flag_bearer.Queue.Ledger.World.{
  World, Polls, Tries, Deal, polled, tried, dropped, tuned, cancelled, checked, cleared, closed,
  RunsWith, start, later,
}

module _ {P : Type 0} (w : P → ℕ) where
  pub total-append : (xs ys : List P) → total w (xs ++ ys) ≡ total w xs + total w ys
  total-append [] ys = omega arith
  total-append (x ∷ xs) ys = omega (arith, total-append xs ys)

  total-remove :
      (xs ys us vs : List P) (x : P)
      → us ≡ xs ++ x ∷ ys
      → vs ≡ xs ++ ys
      → total w us ≡ total w vs + w x
  total-remove xs ys us vs x a b =
      omega (arith, ap (total w) a, ap (total w) b, total-append xs (x ∷ ys), total-append xs ys)

module _ {g : Setting} {c : Kind} where
  polled-Ends :
      (held : List g.Permit) (v : World g c) (r : Polled g c)
      → Polls held v r
      → Ends (λ s. s.0 ≡ v.queue) r
  polled-Ends held v (returns (q, _) (ready (ok permit))) e = sym e.0
  polled-Ends held v (returns (q, _) (ready (err _))) e = sym e.0
  polled-Ends held v (returns (q, _) pending) e = sym e.0
  polled-Ends held v (unwinds (q, _)) e = sym e.0
  polled-Ends held v (faults _) e = e

  tried-Ends :
      (held : List g.Permit) (v : World g c)
      (r : Exec (QueueState g c) (Result g.Permit (TryAcquireError c g.Params)))
      → Tries held v r
      → Ends (λ q. q ≡ v.queue) r
  tried-Ends held v (returns q (ok permit)) e = sym e.0
  tried-Ends held v (returns q (err _)) e = sym e.0
  tried-Ends held v (unwinds q) e = sym e.0
  tried-Ends held v (faults _) e = e

  -- Each step is a step of the queue.
  Deal-Step :
      {Tunes : (g.State → Call g.State (Unit {0})) → Type 0} {u v : World g c}
      → Deal Tunes u v
      → Step u.queue v.queue
  Deal-Step {u = u} {v = v} (polled fut w h e) = polls fut w h (polled-Ends u.held v _ e)
  Deal-Step {u = u} {v = v} (tried params fair e) = tries params fair (tried-Ends u.held v _ e)
  Deal-Step (dropped xs ys permit _ _ e) = updates (λ s. g.release s permit) e
  Deal-Step (tuned f _ _ e) = updates f e
  Deal-Step (cancelled k i _ e) = leaves k i e
  Deal-Step (checked _ e) = checks e
  Deal-Step (cleared _ e) = clears e
  Deal-Step (closed _ e) = closes e

module _ {g : Setting} {c : Kind} (m : Account g) where
  open m use {worth, Tunes, Holds}

  -- The queue is healthy, and the user's state knows of all permits, in nodes and with tasks.
  abbrev pub Knows : World g c → Type 0
  Knows v = Kept m v.queue (total one v.held) (total worth v.held)

  known :
      (q : QueueState g c) (v : World g c) (held : List g.Permit)
      → v.queue ≡ q
      → v.held ≡ held
      → Kept m q (total one held) (total worth held)
      → Knows v
  known q v held a b h = rw (a, b) h

  polled-Knows :
      (u v : World g c) (r : Polled g c)
      → PaysPoll m (total one u.held) (total worth u.held) r
      → Polls u.held v r
      → Knows v
  polled-Knows u v (returns (q, _) (ready (ok permit))) h e =
      known q v (permit ∷ u.held) e.0 e.1
        (Kept-moved m q q _ _ _ _ refl refl (omega arith) (omega arith) h)
  polled-Knows u v (returns (q, _) (ready (err _))) h e = known q v u.held e.0 e.1 h
  polled-Knows u v (returns (q, _) pending) h e = known q v u.held e.0 e.1 h
  polled-Knows u v (unwinds (q, _)) h e = known q v u.held e.0 e.1 h
  polled-Knows u v (faults _) h e = elim e [ ]

  tried-Knows :
      (u v : World g c) (r : Exec (QueueState g c) (Result g.Permit (TryAcquireError c g.Params)))
      → PaysTry m (total one u.held) (total worth u.held) r
      → Tries u.held v r
      → Knows v
  tried-Knows u v (returns q (ok permit)) h e =
      known q v (permit ∷ u.held) e.0 e.1
        (Kept-moved m q q _ _ _ _ refl refl (omega arith) (omega arith) h)
  tried-Knows u v (returns q (err _)) h e = known q v u.held e.0 e.1 h
  tried-Knows u v (unwinds q) h e = known q v u.held e.0 e.1 h
  tried-Knows u v (faults _) h e = elim e [ ]

  -- A call ended with `v.queue`.
  ended :
      (v : World g c) {A : Type 0} (r : Exec (QueueState g c) A)
      → Balanced m (total one v.held) (total worth v.held) r
      → Ends (λ q. q ≡ v.queue) r
      → Knows v
  ended v (returns q _) h e = known q v v.held (sym e) refl h
  ended v (unwinds q) h e = known q v v.held (sym e) refl h
  ended v (faults _) h e = elim e [ ]

  checked-Knows :
      (v : World g c) (r : Checked g c)
      → BalancedCheck m (total one v.held) (total worth v.held) r
      → Ends (λ s. s.0 ≡ v.queue) r
      → Knows v
  checked-Knows v (returns (q, _) _) h e = known q v v.held (sym e) refl h
  checked-Knows v (unwinds (q, _)) h e = known q v v.held (sym e) refl h
  checked-Knows v (faults _) h e = elim e [ ]

  -- The same permits are held.
  Kept-held :
      (u v : World g c)
      → v.held ≡ u.held
      → Knows u
      → Kept m u.queue (total one v.held) (total worth v.held)
  Kept-held u v e h =
      Kept-moved m u.queue u.queue _ _ _ _ refl refl (omega (arith, ap (total one) e))
        (omega (arith, ap (total worth) e)) h

module _ {g : Setting} (m : Account g) where
  open m use {worth}

  closed-Knows :
      (c : Kind) (q : QueueState g c) (v : World g c)
      → Inv q
      → Kept m q (total one v.held) (total worth v.held)
      → Closes c q v.queue
      → Knows m v
  closed-Knows closeable q v i h e = checked-Knows m v _ (gather-BalancedCheck m q _ _ i h) e
  closed-Knows uncloseable q v i h e = elim e [ ]

module _ {g : Setting} {c : Kind} (m : Account g) where
  open m use {worth, Tunes, Holds}

  Deal-Knows : {u v : World g c} → Deal Tunes u v → Inv u.queue → Knows m u → Knows m v
  unfolding clear_poison
  Deal-Knows {u} {v} (polled fut w h e) i k =
      polled-Knows m u v _ (poll-PaysPoll m u.queue fut w _ _ i k) e
  Deal-Knows {u} {v} (tried params fair e) i k =
      tried-Knows m u v _ (try_acquire-PaysTry m u.queue params fair _ _ k) e
  Deal-Knows {u} {v} (dropped xs ys permit a b e) i k =
      ended m v _
        (release-Balanced m u.queue _ _ permit (
          Kept-moved m u.queue u.queue _ _ _ _ refl refl
            (omega (arith, total-remove one xs ys u.held v.held permit a b))
            (omega (arith, total-remove worth xs ys u.held v.held permit a b)) k))
        e
  Deal-Knows {u} {v} (tuned f t b e) i k =
      ended m v _ (tune-Balanced m u.queue _ _ f t (Kept-held m u v b k)) e
  Deal-Knows {u} {v} (cancelled k n b e) i h =
      ended m v _ (leave-Balanced m k u.queue _ _ (Kept-held m u v b h) n i) e
  Deal-Knows {u} {v} (checked b e) i k =
      checked-Knows m v _
        (check-BalancedCheck m u.queue (wakers g).new _ _ (Kept-held m u v b k)
          (wakers g).to_list-new i)
        e
  Deal-Knows {u} {v} (cleared b e) i k =
      known m (clear_poison u.queue) v v.held e refl (refl, (Kept-held m u v b k).1)
  Deal-Knows {u} {v} (closed b e) i k = closed-Knows m c u.queue v i (Kept-held m u v b k) e

  Runs-Inv : {s : g.State} {o : g.Policy} {v : World g c} → RunsWith Tunes s o v → Inv v.queue
  Runs-Inv {s} {o} start = new-Inv g c s o
  Runs-Inv (later r d) = Step-Inv (Deal-Step d) (Runs-Inv r)

  -- The user's state knows of all permits. If the user's `acquire` and `release` keep an account of
  -- the permits that are out, and the callbacks of `with_state` in `Tunes` keep to it as well, none of
  -- them panicking as long as it holds, and it holds with no permit out, then in every state that
  -- tasks reach by polls with memory for a node, cancelled futures, tries, drops of permits, such
  -- callbacks, sections of `check`, clearing of poison and closing, in any interleaving of these
  -- locked sections, the semaphore is not poisoned and the account holds of the number and the worth
  -- of the permits that lie in nodes or are held by tasks.
  pub RunsWith-Knows :
      {s : g.State} {o : g.Policy} {v : World g c} → Holds s 0 0 → RunsWith Tunes s o v → Knows m v
  unfolding new
  RunsWith-Knows {s} {o} h start = (
    refl,
    Holds-at m s _ _ _ _ (omega (arith, ap (stored one) (pin_queue g c).removed-new))
        (omega (arith, ap (stored worth) (pin_queue g c).removed-new)) h,
  )
  RunsWith-Knows h (later r d) = Deal-Knows d (Runs-Inv r) (RunsWith-Knows h r)
