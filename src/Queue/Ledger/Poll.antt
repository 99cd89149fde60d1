-- ===== src/Queue/Ledger/Poll.antt =====
-- flag-bearer-queue/src/acquire.rs: the account over `Acquire::poll` and `try_acquire`.
use flag_bearer.Base.{
  ℕ, ◌+◌, ◌≡◌, refl, sym, ◌∙◌, ap, Bool, true, false, ◌||◌, ◌&&◌, none, some, Option, Result, ok,
  err, Exec, returns, unwinds, faults, arith, if-intro, Bool-cases, inl, inr, Result-intro, has,
  find-has, find-none, decr,
}
use flag_bearer.Closeable.{Kind, can_close, map_err, ErrorOf, TryAcquireError}
use flag_bearer.External.{Setting}
use flag_bearer.Queue.State.{Protected, Removed, Nodes, pin_queue, QueueState, waiting, settled}
use flag_bearer.Queue.Admit.{
  Outcome, acquired, closed, poisoned, enqueue, acquire_or_enqueue, try_acquire, reported,
}
use flag_bearer.Queue.Acquire.{
  ready, pending, Acquire, Polled, join, enqueued, started, failed, claimed, looked, look, unlinked,
  poll_again, start, poll, expect,
}
use flag_bearer.Queue.Sound.{Inv, discarded-waiting}
use flag_bearer.Queue.Sound.Admit.{Admits, acquire_or_enqueue-Admits}
use flag_bearer.Queue.Ledger.{
  Account, value, stored, stored-erase, one, Kept, Kept-moved, Free, Holds-at, Pays,
  acquire_or_enqueue-Pays,
}

module _ {g : Setting} {c : Kind} (m : Account g) where
  open m use {worth}

  -- `n` permits worth `w` were outside of the queue, and one more if the poll gives one.
  abbrev pub PaysPoll : ℕ → ℕ → Polled g c → Type 0
  PaysPoll n w (returns (q', _) (ready (ok permit))) = Kept m q' (n + 1) (w + worth permit)
  PaysPoll n w (returns (q', _) (ready (err _))) = Kept m q' n w
  PaysPoll n w (returns (q', _) pending) = Kept m q' n w
  PaysPoll n w (unwinds (q', _)) = Kept m q' n w
  PaysPoll n w (faults _) = Unit {0}

  failed-PaysPoll :
      (n w : ℕ) (q : QueueState g c) (fut : Acquire g) (e : Option (ErrorOf c g.Params))
      → Kept m q n w
      → PaysPoll n w (failed q fut e)
  unfolding failed
  failed-PaysPoll n w q fut none h = h
  failed-PaysPoll n w q fut (some e) h = h

  claimed-PaysPoll :
      (n w : ℕ) (q : QueueState g c) (fut : Acquire g) (r : Removed g c) (nodes : Nodes g c)
      → Kept m (record q { nodes = nodes }) (n + value one r) (w + value worth r)
      → PaysPoll n w (claimed q fut (some (r, nodes)))
  unfolding claimed
  claimed-PaysPoll n w q fut (ok permit) nodes h = h
  claimed-PaysPoll n w q fut (err params) nodes h =
      failed-PaysPoll n w (record q { nodes = nodes }) fut (map_err c params (λ p. p))
        (Kept-moved m (record q { nodes = nodes }) (record q { nodes = nodes }) (n + 0) n (w + 0) w
          refl refl (omega arith) (omega arith) h)

  module _ (q : QueueState g c) (fut : Acquire g) (waker : g.Waker) (n w : ℕ) (h : Kept m q n w)
      (known : (has fut.node (waiting q) || has fut.node (settled q)) ≡ true) (inv : Inv q) where
    -- Other nodes, with the same settled ones.
    settled-Kept :
        (nodes : Nodes g c) (l : ℕ)
        → (pin_queue g c).removed nodes ≡ settled q
        → Kept m (record q { nodes = nodes; len = l }) n w
    settled-Kept nodes l e = (h.0, rw e h.1)

    looked-linked : (p : Protected g) → PaysPoll n w (looked q fut waker (some p))
    unfolding looked
    looked-linked (params, _) =
        settled-Kept ((pin_queue g c).write fut.node (params, waker) q.nodes) q.len
          ((pin_queue g c).removed-write fut.node (params, waker) q.nodes)

    looked-removed : has fut.node (waiting q) ≡ false → PaysPoll n w (looked q fut waker none)
    unfolding looked
    looked-removed e =
        let (r, f) = find-has fut.node (settled q) (ground arith) in
        let (nodes, t, links, removes) = (pin_queue g c).take_removed_some fut.node r q.nodes f in
        rw t (
          claimed-PaysPoll n w q fut r nodes (
            Kept-moved m q (record q { nodes = nodes }) n (n + value one r) w (w + value worth r)
              refl refl
              (omega (arith, ap (stored one) removes, stored-erase one fut.node r (settled q) f))
              (omega
                (arith, ap (stored worth) removes, stored-erase worth fut.node r (settled q) f))
              h))

    look-PaysPoll : PaysPoll n w (look q fut waker)
    unfolding look
    look-PaysPoll =
        Result-intro (PaysPoll n w) q.queue
          (λ u e. elim (Bool-cases (has fut.node (waiting q))) [
            | inl l ↦
                let (p, f) = find-has fut.node (waiting q) l in
                rw ((pin_queue g c).protected_lem fut.node q.nodes ∙ f) (looked-linked p)
            | inr l ↦
                rw
                  ((pin_queue g c).protected_lem fut.node q.nodes
                    ∙ find-none fut.node (waiting q) l)
                  (looked-removed l)
          ])
          (λ v e. looked-removed (ap (has fut.node) (discarded-waiting q v e inv).0))

    unlinked-PaysPoll :
        (p : Protected g) (nodes : Nodes g c)
        → (pin_queue g c).removed nodes ≡ settled q
        → PaysPoll n w (unlinked q fut waker (some (p, nodes)))
    unfolding unlinked
    unlinked-PaysPoll (params, _) nodes e =
        failed-PaysPoll n w (record q { nodes = nodes; len = decr q.len }) fut (expect c params)
          (settled-Kept nodes (decr q.len) e)

    unlinked-none : PaysPoll n w (unlinked q fut waker none)
    unfolding unlinked
    unlinked-none = look-PaysPoll

    poll_again-PaysPoll : PaysPoll n w (poll_again q fut waker)
    unfolding poll_again
    poll_again-PaysPoll =
        if-intro (PaysPoll n w) (can_close c && q.closed)
          (Result-intro (PaysPoll n w) q.queue
            (λ u e. elim (Bool-cases (has fut.node (waiting q))) [
              | inl l ↦
                  let (p, f) = find-has fut.node (waiting q) l in
                  let (nodes, t, links, removes) =
                    (pin_queue g c).unlink_some fut.node p q.nodes f in
                  rw t (unlinked-PaysPoll p nodes removes)
              | inr l ↦
                  rw
                    ((pin_queue g c).unlink_none fut.node q.nodes
                      (find-none fut.node (waiting q) l))
                    unlinked-none
            ])
            (λ v e. look-PaysPoll))
          look-PaysPoll

  -- What `acquire_or_enqueue` leaves, told of the permits outside of the queue.
  paid-Kept :
      (q q' : QueueState g c) (n n' w w' : ℕ)
      → q'.nodes ≡ q.nodes
      → Free m q' (stored one (settled q) + n + n') (stored worth (settled q) + w + w')
      → Kept m q' (n + n') (w + w')
  paid-Kept q q' n n' w w' e h =
      (h.0, Holds-at m q'.state _ _ _ _ (omega (arith, stays one)) (omega (arith, stays worth)) h.1)
    where
      stays : (f : g.Permit → ℕ) → stored f (settled q') ≡ stored f (settled q)
      stays f = ap (λ ns. stored f ((pin_queue g c).removed ns)) e

  join-Kept :
      (front : Bool) (params : g.Params) (waker : g.Waker) (k n w : ℕ) (q : QueueState g c)
      → (pin_queue g c).initialized k q.nodes ≡ false
      → Kept m q n w
      → Kept m (join front params waker k q) n w
  unfolding join
  join-Kept true params waker k n w q e h =
      (h.0, rw ((pin_queue g c).removed-push_front k (some params, waker) q.nodes e) h.1)
  join-Kept false params waker k n w q e h =
      (h.0, rw ((pin_queue g c).removed-push_back k (some params, waker) q.nodes e) h.1)

  -- The same for an end that gives no permit.
  unpaid-Kept :
      (q q' : QueueState g c) (n w : ℕ)
      → q'.nodes ≡ q.nodes
      → Free m q' (stored one (settled q) + n) (stored worth (settled q) + w)
      → Kept m q' n w
  unpaid-Kept q q' n w e h = (h.0, rw e h.1)

  started-PaysPoll :
      (q : QueueState g c) (fut : Acquire g) (waker : g.Waker) (n w : ℕ)
      (r : Exec (QueueState g c) (Outcome g c))
      → (pin_queue g c).initialized fut.node q.nodes ≡ false
      → Admits q r
      → Pays m (stored one (settled q) + n) (stored worth (settled q) + w) r
      → PaysPoll n w (started fut waker r)
  unfolding started enqueued
  started-PaysPoll q fut waker n w (returns q' (acquired permit)) i a h =
      paid-Kept q q' n 1 w (worth permit) a.0.3 h
  started-PaysPoll q fut waker n w (returns q' (closed e)) i a h = unpaid-Kept q q' n w a.0.3 h
  started-PaysPoll q fut waker n w (returns q' (poisoned params)) i a h =
      unpaid-Kept q q' n w a.0.3 h
  started-PaysPoll q fut waker n w (returns q' (enqueue front params)) i a h =
      Result-intro (PaysPoll n w) q'.queue
        (λ u e.
          join-Kept front params waker fut.node n w q'
            (ap ((pin_queue g c).initialized fut.node) a.0.3 ∙ i) (unpaid-Kept q q' n w a.0.3 h))
        (λ v e. tt)
  started-PaysPoll q fut waker n w (unwinds q') i a h = unpaid-Kept q q' n w a.3 h
  started-PaysPoll q fut waker n w (faults f) i a h = tt

  start-PaysPoll :
      (q : QueueState g c) (fut : Acquire g) (waker : g.Waker) (n w : ℕ) (params : Option g.Params)
      → (pin_queue g c).initialized fut.node q.nodes ≡ false
      → Kept m q n w
      → PaysPoll n w (start q fut waker params)
  unfolding start
  start-PaysPoll q fut waker n w none i h = h
  start-PaysPoll q fut waker n w (some params) i h =
      started-PaysPoll q (record fut { params = none }) waker n w _ i
        (acquire_or_enqueue-Admits q params true) (acquire_or_enqueue-Pays m q params _ _ h true)

  pub poll-PaysPoll :
      (q : QueueState g c) (fut : Acquire g) (waker : g.Waker) (n w : ℕ)
      → Inv q
      → Kept m q n w
      → PaysPoll n w (poll q fut waker)
  unfolding poll
  poll-PaysPoll q fut waker n w inv h =
      elim (Bool-cases ((pin_queue g c).initialized fut.node q.nodes)) [
        | inl i ↦ rw i (
            poll_again-PaysPoll q fut waker n w h
              (sym ((pin_queue g c).initialized_lem fut.node q.nodes) ∙ i) inv)
        | inr i ↦ rw i (start-PaysPoll q fut waker n w fut.params i h)
      ]

  abbrev pub PaysTry :
      ℕ → ℕ → Exec (QueueState g c) (Result g.Permit (TryAcquireError c g.Params)) → Type 0
  PaysTry n w (returns q' (ok permit)) = Kept m q' (n + 1) (w + worth permit)
  PaysTry n w (returns q' (err _)) = Kept m q' n w
  PaysTry n w (unwinds q') = Kept m q' n w
  PaysTry n w (faults _) = Unit {0}

  pub try_acquire-PaysTry :
      (q : QueueState g c) (params : g.Params) (fair : Bool) (n w : ℕ)
      → Kept m q n w
      → PaysTry n w (try_acquire q params fair)
  unfolding try_acquire
  try_acquire-PaysTry q params fair n w k =
      go (acquire_or_enqueue q params fair) (acquire_or_enqueue-Admits q params fair)
        (acquire_or_enqueue-Pays m q params _ _ k fair)
    where
      go :
          (r : Exec (QueueState g c) (Outcome g c))
          → Admits q r
          → Pays m (stored one (settled q) + n) (stored worth (settled q) + w) r
          → PaysTry n w (reported r)
      go (returns q' (acquired permit)) a h = paid-Kept q q' n 1 w (worth permit) a.0.3 h
      go (returns q' (closed e)) a h = unpaid-Kept q q' n w a.0.3 h
      go (returns q' (poisoned params)) a h = unpaid-Kept q q' n w a.0.3 h
      go (returns q' (enqueue front params)) a h = unpaid-Kept q q' n w a.0.3 h
      go (unwinds q') a h = unpaid-Kept q q' n w a.3 h
      go (faults f) a h = tt
