-- ===== src/Queue/Acquire.antt =====
-- flag-bearer-queue/src/acquire.rs: the future `Acquire`, its `poll`, and the locked section of
-- its drop.
use flag_bearer.Base.{
  ℕ, Bool, true, ◌&&◌, Option, none, some, Result, ok, err, Exec, returns, unwinds, faults,
  undefined, if◌then◌else◌, incr, decr,
}
use flag_bearer.Closeable.{Kind, can_close, ErrorOf, new_err, map_err}
use flag_bearer.External.{Setting, NodeData, linked, removed}
use flag_bearer.Queue.State.{Protected, Removed, pin_queue, Nodes, QueueState, update_state}
use flag_bearer.Queue.Admit.{Outcome, acquired, closed, poisoned, enqueue, acquire_or_enqueue}

pub data Poll (A : Type 0) : Type 0 where
  ready : A → Poll A
  pending : Poll A

-- The node is named by its address; `state`, the queue, is an argument of what follows.
pub record Acquire (g : Setting) : Type 0 where
  pub node : ℕ
  pub params : Option g.Params

-- `SemaphoreQueue::acquire`
abbrev pub acquire : {g : Setting} → ℕ → g.Params → Acquire g
acquire node params = record { node = node; params = some params }

abbrev pub Output : Setting → Kind → Type 0
Output g c = Result g.Permit (ErrorOf c g.Params)

abbrev pub Polled : Setting → Kind → Type 0
Polled g c = Exec (QueueState g c × Acquire g) (Poll (Output g c))

-- `C::new_err(params.expect(…))`
abbrev pub expect : (c : Kind) {P : Type 0} → Option P → Option (ErrorOf c P)
expect c none = none
expect c (some params) = new_err c params

module _ {g : Setting} {c : Kind} where
  -- `queue.push_front` or `queue.push_back`, and `state.len += 1`
  unfoldable pub join : Bool → g.Params → g.Waker → ℕ → QueueState g c → QueueState g c
  join front params w k q = record q {
    nodes =
        if front
        then (pin_queue g c).push_front k (some params, w) q.nodes
        else (pin_queue g c).push_back k (some params, w) q.nodes;
    len = incr q.len;
  }

  unfoldable pub enqueued : Bool → g.Params → g.Waker → Acquire g → QueueState g c → Polled g c
  unfolding join
  enqueued front params w fut q = elim q.queue [
    | ok _ ↦ returns (join front params w fut.node q, fut) pending
    | err _ ↦ faults undefined
  ]

  -- The first poll, after `acquire_or_enqueue`.
  unfoldable pub started : Acquire g → g.Waker → Exec (QueueState g c) (Outcome g c) → Polled g c
  unfolding enqueued
  started fut w (returns q (acquired permit)) = returns (q, fut) (ready (ok permit))
  started fut w (returns q (closed e)) = returns (q, fut) (ready (err e))
  started fut w (returns q (poisoned params)) = unwinds (q, fut)
  started fut w (returns q (enqueue front params)) = enqueued front params w fut q
  started fut w (unwinds q) = unwinds (q, fut)
  started fut w (faults f) = faults f

  -- An error, or the panic that its making is.
  unfoldable pub failed : QueueState g c → Acquire g → Option (ErrorOf c g.Params) → Polled g c
  failed q fut none = unwinds (q, fut)
  failed q fut (some e) = returns (q, fut) (ready (err e))

  -- After `init.take_removed_unchecked()`, which is undefined on a node that is not removed.
  unfoldable pub claimed :
      QueueState g c → Acquire g → Option (Removed g c × Nodes g c) → Polled g c
  unfolding failed
  claimed q fut none = faults undefined
  claimed q fut (some (ok permit, nodes)) =
      returns (record q { nodes = nodes }, fut) (ready (ok permit))
  claimed q fut (some (err params, nodes)) =
      failed (record q { nodes = nodes }) fut (map_err c params (λ p. p))

  -- After `init.protected_mut(queue)`: still linked, or removed.
  unfoldable pub looked : QueueState g c → Acquire g → g.Waker → Option (Protected g) → Polled g c
  unfolding claimed
  looked q fut w none = claimed q fut ((pin_queue g c).take_removed fut.node q.nodes)
  looked q fut w (some (params, _)) =
      returns (record q { nodes = (pin_queue g c).write fut.node (params, w) q.nodes }, fut) pending

  unfoldable pub look : QueueState g c → Acquire g → g.Waker → Polled g c
  unfolding looked
  look q fut w = elim q.queue [
    | ok _ ↦ looked q fut w ((pin_queue g c).protected fut.node q.nodes)
    | err _ ↦ looked q fut w none
  ]

  -- After `init.unlink(queue)` in a closed queue.
  unfoldable pub unlinked :
      QueueState g c → Acquire g → g.Waker → Option (Protected g × Nodes g c) → Polled g c
  unfolding look failed
  unlinked q fut w none = look q fut w
  unlinked q fut w (some ((params, _), nodes)) =
      failed (record q { nodes = nodes; len = decr q.len }) fut (expect c params)

  unfoldable pub poll_again : QueueState g c → Acquire g → g.Waker → Polled g c
  unfolding unlinked
  poll_again q fut w =
      if can_close c && q.closed
      then elim q.queue [
        | ok _ ↦ unlinked q fut w ((pin_queue g c).unlink fut.node q.nodes)
        | err _ ↦ look q fut w
      ]
      else look q fut w

  -- `this.params.take().unwrap()`
  unfoldable pub start : QueueState g c → Acquire g → g.Waker → Option g.Params → Polled g c
  unfolding started acquire_or_enqueue
  start q fut w none = unwinds (q, fut)
  start q fut w (some params) =
      started (record fut { params = none }) w (acquire_or_enqueue q params true)

  unfoldable pub poll : QueueState g c → Acquire g → g.Waker → Polled g c
  unfolding poll_again start
  poll q fut w =
      if (pin_queue g c).initialized fut.node q.nodes
      then poll_again q fut w
      else start q fut w fut.params

-- What the drop of a future keeps until the mutex is released: parameters and wakers.
abbrev pub Abandoned : Setting → Kind → Type 0
Abandoned g c = Option (NodeData (Protected g) (Removed g c))

abbrev pub Dropped : Setting → Kind → Type 0
Dropped g c = Exec (QueueState g c) (Abandoned g c)

module _ {g : Setting} {c : Kind} where
  abbrev pub nothing : Exec (QueueState g c) (Unit {0}) → Dropped g c
  nothing (returns q _) = returns q none
  nothing (unwinds q) = unwinds q
  nothing (faults f) = faults f

  -- `state.update_state(|state| state.release(permit))`
  unfoldable pub give_back : QueueState g c → g.Permit → Dropped g c
  unfolding update_state
  give_back q permit = nothing (update_state q (λ s. g.release s permit))

  -- After `node.reset(queue)`.
  unfoldable pub left :
      QueueState g c → Option (NodeData (Protected g) (Removed g c) × Nodes g c) → Dropped g c
  unfolding give_back
  left q none = faults undefined
  left q (some (removed (ok permit), nodes)) = give_back (record q { nodes = nodes }) permit
  left q (some (linked p, nodes)) =
      returns (record q { nodes = nodes; len = decr q.len }) (some (linked p))
  left q (some (removed (err params), nodes)) =
      returns (record q { nodes = nodes }) (some (removed (err params)))

  -- After `node.take_removed_unchecked()`, the list being discarded.
  unfoldable pub left_closed : QueueState g c → Option (Removed g c × Nodes g c) → Dropped g c
  unfolding give_back
  left_closed q none = faults undefined
  left_closed q (some (ok permit, nodes)) = give_back (record q { nodes = nodes }) permit
  left_closed q (some (err params, nodes)) =
      returns (record q { nodes = nodes }) (some (removed (err params)))

  -- The closure that `PinnedDrop::drop` hands to `with_queue`, for an initialized node.
  unfoldable pub leave : ℕ → QueueState g c → Dropped g c
  unfolding left left_closed
  leave k q = elim q.queue [
    | ok _ ↦ left q ((pin_queue g c).reset k q.nodes)
    | err _ ↦ left_closed q ((pin_queue g c).take_removed k q.nodes)
  ]
