-- ===== src/Queue/Sound/Poll.antt =====
-- flag-bearer-queue/src/acquire.rs: `Acquire::poll`, its unchecked calls, and the well-formedness
-- of the queue.
use flag_bearer.Base.{
  ℕ, ◌+◌, ◌<◌, ◌≡◌, ◌∙◌, ap, Bool, true, false, ◌||◌, ◌&&◌, none, some, Option, ok, err, Exec,
  returns, unwinds, faults, arith, if-intro, Bool-cases, inl, inr, Result-intro, length, has,
  usize_mod, decr, find-has, find-none,
}
use flag_bearer.Closeable.{Kind, can_close, map_err, ErrorOf}
use flag_bearer.External.{Setting}
use flag_bearer.Queue.State.{Protected, Removed, Nodes, pin_queue, QueueState, waiting, settled}
use flag_bearer.Queue.Admit.{Outcome, acquired, closed, poisoned, enqueue}
use flag_bearer.Queue.Acquire.{
  Acquire, Polled, join, enqueued, started, failed, claimed, looked, look, unlinked, poll_again,
  start, poll, expect,
}
use flag_bearer.Queue.Sound.{
  Inv, Keeps, discarded-waiting, IsSound-push_front, IsSound-push_back, IsSound-take, IsSound-put,
  IsSound-unlink,
}
use flag_bearer.Queue.Sound.Admit.{Admits, Inv-same, acquire_or_enqueue-Admits}

module _ {g : Setting} {c : Kind} where
  abbrev pub KeepsInv : Polled g c → Type 0
  KeepsInv = Keeps (λ s. Inv s.0)

  -- A node that is neither linked nor removed.
  abbrev IsFresh : ℕ → QueueState g c → Type 0
  IsFresh k q = (has k (waiting q) || has k (settled q)) ≡ false

  module _ (k : ℕ) (q : QueueState g c) (fresh : IsFresh k q)
      (memory : length (waiting q) + 1 < usize_mod) (inv : Inv q) where
    initial : (pin_queue g c).initialized k q.nodes ≡ false
    initial = (pin_queue g c).initialized_lem k q.nodes ∙ fresh

    join-Inv :
        (front : Bool) (params : g.Params) (w : g.Waker) (u : Unit {0})
        → q.queue ≡ ok u
        → Inv (join front params w k q)
    unfolding join
    join-Inv true params w u e =
        rw
          (
            e,
            (pin_queue g c).linked-push_front k (some params, w) q.nodes initial,
            (pin_queue g c).removed-push_front k (some params, w) q.nodes initial,
          )
          (IsSound-push_front k (some params, w) u fresh memory (rw e at inv))
    join-Inv false params w u e =
        rw
          (
            e,
            (pin_queue g c).linked-push_back k (some params, w) q.nodes initial,
            (pin_queue g c).removed-push_back k (some params, w) q.nodes initial,
          )
          (IsSound-push_back k (some params, w) u fresh memory (rw e at inv))

  failed-Keeps :
      (q : QueueState g c) (fut : Acquire g) (e : Option (ErrorOf c g.Params))
      → Inv q
      → KeepsInv (failed q fut e)
  unfolding failed
  failed-Keeps q fut none h = h
  failed-Keeps q fut (some e) h = h

  claimed-Keeps :
      (q : QueueState g c) (fut : Acquire g) (r : Removed g c) (nodes : Nodes g c)
      → Inv (record q { nodes = nodes })
      → KeepsInv (claimed q fut (some (r, nodes)))
  unfolding claimed
  claimed-Keeps q fut (ok permit) nodes h = h
  claimed-Keeps q fut (err params) nodes h = failed-Keeps _ fut (map_err c params (λ p. p)) h

  -- A node that is initialized and not linked has been removed.
  taken-Keeps :
      (q : QueueState g c) (fut : Acquire g)
      → has fut.node (settled q) ≡ true
      → Inv q
      → KeepsInv (claimed q fut ((pin_queue g c).take_removed fut.node q.nodes))
  taken-Keeps q fut e h =
      let (r, f) = find-has fut.node (settled q) e in
      let (nodes, t, links, removes) = (pin_queue g c).take_removed_some fut.node r q.nodes f in
      rw t (claimed-Keeps q fut r nodes (rw (links, removes) (IsSound-take fut.node r f h)))

  written-Keeps :
      (q : QueueState g c) (k : ℕ) (p : Protected g)
      → Inv q
      → Inv (record q { nodes = (pin_queue g c).write k p q.nodes })
  written-Keeps q k p h =
      rw ((pin_queue g c).linked-write k p q.nodes, (pin_queue g c).removed-write k p q.nodes)
        (IsSound-put k p h)

  module _ (q : QueueState g c) (fut : Acquire g) (w : g.Waker)
      (known : (has fut.node (waiting q) || has fut.node (settled q)) ≡ true) (inv : Inv q) where
    looked-linked : (p : Protected g) → KeepsInv (looked q fut w (some p))
    unfolding looked
    looked-linked (params, _) = written-Keeps q fut.node (params, w) inv

    looked-removed : has fut.node (waiting q) ≡ false → KeepsInv (looked q fut w none)
    unfolding looked
    looked-removed e = taken-Keeps q fut (ground arith) inv

    look-Keeps : KeepsInv (look q fut w)
    unfolding look
    look-Keeps =
        Result-intro KeepsInv q.queue
          (λ u e. elim (Bool-cases (has fut.node (waiting q))) [
            | inl l ↦
                let (p, f) = find-has fut.node (waiting q) l in
                rw ((pin_queue g c).protected_lem fut.node q.nodes ∙ f) (looked-linked p)
            | inr l ↦
                rw
                  ((pin_queue g c).protected_lem fut.node q.nodes
                    ∙ find-none fut.node (waiting q) l)
                  (looked-removed l)
          ])
          (λ v e. looked-removed (ap (has fut.node) (discarded-waiting q v e inv).0))

    unlinked-Keeps :
        (p : Protected g) (nodes : Nodes g c)
        → Inv (record q { nodes = nodes; len = decr q.len })
        → KeepsInv (unlinked q fut w (some (p, nodes)))
    unfolding unlinked
    unlinked-Keeps (params, _) nodes h = failed-Keeps _ fut (expect c params) h

    unlinked-none : KeepsInv (unlinked q fut w none)
    unfolding unlinked
    unlinked-none = look-Keeps

    poll_again-Keeps : KeepsInv (poll_again q fut w)
    unfolding poll_again
    poll_again-Keeps =
        if-intro KeepsInv (can_close c && q.closed)
          (Result-intro KeepsInv q.queue
            (λ u e. elim (Bool-cases (has fut.node (waiting q))) [
              | inl l ↦
                  let (p, f) = find-has fut.node (waiting q) l in
                  let (nodes, t, links, removes) =
                    (pin_queue g c).unlink_some fut.node p q.nodes f in
                  rw t
                    (unlinked-Keeps p nodes (rw (links, removes) (IsSound-unlink fut.node p f inv)))
              | inr l ↦
                  rw
                    ((pin_queue g c).unlink_none fut.node q.nodes
                      (find-none fut.node (waiting q) l))
                    unlinked-none
            ])
            (λ v e. look-Keeps))
          look-Keeps

  started-Keeps :
      (q q' : QueueState g c) (fut : Acquire g) (w : g.Waker) (o : Outcome g c)
      → IsFresh fut.node q
      → length (waiting q) + 1 < usize_mod
      → Inv q
      → Admits q (returns q' o)
      → KeepsInv (started fut w (returns q' o))
  unfolding started enqueued
  started-Keeps q q' fut w (acquired permit) fresh memory inv h = Inv-same q q' h.0 inv
  started-Keeps q q' fut w (closed e) fresh memory inv h = Inv-same q q' h.0 inv
  started-Keeps q q' fut w (poisoned params) fresh memory inv h = Inv-same q q' h.0 inv
  started-Keeps q q' fut w (enqueue front params) fresh memory inv h =
      Result-intro KeepsInv q'.queue
        (λ u e.
          join-Inv fut.node q' (rw h.0.3 fresh) (rw h.0.3 memory) (Inv-same q q' h.0 inv) front
            params w u e)
        (λ v e. cc (h.1.1, e))

  starts-Keeps :
      (q : QueueState g c) (fut : Acquire g) (w : g.Waker) (r : Exec (QueueState g c) (Outcome g c))
      → IsFresh fut.node q
      → length (waiting q) + 1 < usize_mod
      → Inv q
      → Admits q r
      → KeepsInv (started fut w r)
  unfolding started
  starts-Keeps q fut w (returns q' o) fresh memory inv h =
      started-Keeps q q' fut w o fresh memory inv h
  starts-Keeps q fut w (unwinds q') fresh memory inv h = Inv-same q q' h inv
  starts-Keeps q fut w (faults f) fresh memory inv h = elim h [ ]

  start-Keeps :
      (q : QueueState g c) (fut : Acquire g) (w : g.Waker) (params : Option g.Params)
      → IsFresh fut.node q
      → length (waiting q) + 1 < usize_mod
      → Inv q
      → KeepsInv (start q fut w params)
  unfolding start
  start-Keeps q fut w none fresh memory inv = inv
  start-Keeps q fut w (some params) fresh memory inv =
      starts-Keeps q (record fut { params = none }) w _ fresh memory inv
        (acquire_or_enqueue-Admits q params true)

  -- A poll of any future, at any time, keeps the queue well-formed, whether it returns or panics,
  -- and reaches no undefined behaviour, if there is memory for one more node.
  pub poll-Inv :
      (q : QueueState g c) (fut : Acquire g) (w : g.Waker)
      → length (waiting q) + 1 < usize_mod
      → Inv q
      → Keeps (λ s. Inv s.0) (poll q fut w)
  unfolding poll
  poll-Inv q fut w memory inv =
      elim (Bool-cases (has fut.node (waiting q) || has fut.node (settled q))) [
        | inl known ↦
            rw ((pin_queue g c).initialized_lem fut.node q.nodes ∙ known)
              (poll_again-Keeps q fut w known inv)
        | inr fresh ↦
            rw ((pin_queue g c).initialized_lem fut.node q.nodes ∙ fresh)
              (start-Keeps q fut w fut.params fresh memory inv)
      ]
