-- ===== src/Queue/Flags/Poll.antt =====
-- flag-bearer-queue/src/acquire.rs: the flags over `Acquire::poll` and the drop of an `Acquire`.
use flag_bearer.Base.{
  ℕ, ◌≡◌, refl, ◌∙◌, true, ◌&&◌, Option, none, some, ok, err, Exec, returns, unwinds, faults,
  if-intro, Result-intro,
}
use flag_bearer.Closeable.{Kind, can_close, map_err, ErrorOf}
use flag_bearer.External.{Setting, NodeData, linked, removed}
use flag_bearer.Queue.State.{Protected, Removed, Nodes, pin_queue, QueueState, update_state}
use flag_bearer.Queue.Admit.{Outcome, acquired, closed, poisoned, enqueue, acquire_or_enqueue}
use flag_bearer.Queue.Acquire.{
  Acquire, Polled, join, enqueued, started, failed, claimed, looked, look, unlinked, poll_again,
  start, poll, expect, nothing, give_back, left, left_closed, leave,
}
use flag_bearer.Queue.Flags.{Where, Lasts, same, acquire_or_enqueue-Lasts, update_state-Lasts}

module _ {g : Setting} {c : Kind} (q : QueueState g c) where
  abbrev pub LastsPoll : Polled g c → Type 0
  LastsPoll r = Where (λ s. Lasts q s.0) r

  module _ (fut : Acquire g) where
    failed-Lasts :
        (q' : QueueState g c) (e : Option (ErrorOf c g.Params))
        → Lasts q q'
        → LastsPoll (failed q' fut e)
    unfolding failed
    failed-Lasts q' none h = h
    failed-Lasts q' (some e) h = h

    claimed-Lasts : (r : Option (Removed g c × Nodes g c)) → LastsPoll (claimed q fut r)
    unfolding claimed
    claimed-Lasts none = tt
    claimed-Lasts (some (ok permit, nodes)) = same q _ refl refl
    claimed-Lasts (some (err params, nodes)) =
        failed-Lasts _ (map_err c params (λ p. p)) (same q _ refl refl)

    looked-Lasts : (w : g.Waker) (r : Option (Protected g)) → LastsPoll (looked q fut w r)
    unfolding looked
    looked-Lasts w none = claimed-Lasts ((pin_queue g c).take_removed fut.node q.nodes)
    looked-Lasts w (some (params, v)) = same q _ refl refl

    look-Lasts : (w : g.Waker) → LastsPoll (look q fut w)
    unfolding look
    look-Lasts w =
        Result-intro LastsPoll q.queue
          (λ u e. looked-Lasts w ((pin_queue g c).protected fut.node q.nodes))
          (λ v e. looked-Lasts w none)

    unlinked-Lasts :
        (w : g.Waker) (r : Option (Protected g × Nodes g c)) → LastsPoll (unlinked q fut w r)
    unfolding unlinked
    unlinked-Lasts w none = look-Lasts w
    unlinked-Lasts w (some ((params, v), nodes)) =
        failed-Lasts _ (expect c params) (same q _ refl refl)

    poll_again-Lasts : (w : g.Waker) → LastsPoll (poll_again q fut w)
    unfolding poll_again
    poll_again-Lasts w =
        if-intro LastsPoll (can_close c && q.closed)
          (Result-intro LastsPoll q.queue
            (λ u e. unlinked-Lasts w ((pin_queue g c).unlink fut.node q.nodes))
            (λ v e. look-Lasts w))
          (look-Lasts w)

    started-Lasts :
        (w : g.Waker) (r : Exec (QueueState g c) (Outcome g c))
        → Where (Lasts q) r
        → LastsPoll (started fut w r)
    unfolding started enqueued join
    started-Lasts w (returns q' (acquired permit)) h = h
    started-Lasts w (returns q' (closed e)) h = h
    started-Lasts w (returns q' (poisoned params)) h = h
    started-Lasts w (returns q' (enqueue front params)) h =
        Result-intro LastsPoll q'.queue (λ u e. record { closes = h.closes; poisons = h.poisons })
          (λ v e. tt)
    started-Lasts w (unwinds q') h = h
    started-Lasts w (faults f) h = h

  start-Lasts :
      (fut : Acquire g) (w : g.Waker) (params : Option g.Params) → LastsPoll (start q fut w params)
  unfolding start
  start-Lasts fut w none = same q q refl refl
  start-Lasts fut w (some params) =
      started-Lasts (record fut { params = none }) w (acquire_or_enqueue q params true)
        (acquire_or_enqueue-Lasts q params true)

  pub poll-Lasts : (fut : Acquire g) (w : g.Waker) → LastsPoll (poll q fut w)
  unfolding poll
  poll-Lasts fut w =
      if-intro LastsPoll ((pin_queue g c).initialized fut.node q.nodes) (poll_again-Lasts fut w)
        (start-Lasts fut w fut.params)

module _ {g : Setting} {c : Kind} (q : QueueState g c) where
  give_back-Lasts :
      (q' : QueueState g c) (permit : g.Permit)
      → q'.closed ≡ q.closed
      → q'.poisoned ≡ q.poisoned
      → Where (Lasts q) (give_back q' permit)
  unfolding give_back
  give_back-Lasts q' permit a b =
      go (update_state q' (λ s. g.release s permit))
        (update_state-Lasts q' (λ s. g.release s permit))
    where
      back : (q₁ : QueueState g c) → Lasts q' q₁ → Lasts q q₁
      back q₁ h = record { closes = λ k. h.closes (a ∙ k); poisons = λ k. h.poisons (b ∙ k) }

      go : (r : Exec (QueueState g c) (Unit {0})) → Where (Lasts q') r → Where (Lasts q) (nothing r)
      go (returns q₁ u) h = back q₁ h
      go (unwinds q₁) h = back q₁ h
      go (faults f) h = h

  left-Lasts :
      (r : Option (NodeData (Protected g) (Removed g c) × Nodes g c)) → Where (Lasts q) (left q r)
  unfolding left
  left-Lasts none = tt
  left-Lasts (some (removed (ok permit), nodes)) = give_back-Lasts _ permit refl refl
  left-Lasts (some (linked p, nodes)) = same q _ refl refl
  left-Lasts (some (removed (err params), nodes)) = same q _ refl refl

  left_closed-Lasts : (r : Option (Removed g c × Nodes g c)) → Where (Lasts q) (left_closed q r)
  unfolding left_closed
  left_closed-Lasts none = tt
  left_closed-Lasts (some (ok permit, nodes)) = give_back-Lasts _ permit refl refl
  left_closed-Lasts (some (err params, nodes)) = same q _ refl refl

  pub leave-Lasts : (k : ℕ) → Where (Lasts q) (leave k q)
  unfolding leave
  leave-Lasts k =
      Result-intro (Where (Lasts q)) q.queue (λ u e. left-Lasts ((pin_queue g c).reset k q.nodes))
        (λ v e. left_closed-Lasts ((pin_queue g c).take_removed k q.nodes))
