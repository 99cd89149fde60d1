-- ===== src/Queue/Sound/Leave.antt =====
-- flag-bearer-queue/src/acquire.rs: the locked section of the drop of an `Acquire`, its unchecked
-- call, and the well-formedness of the queue.
use flag_bearer.Base.{
  ◌≡◌, sym, ◌∙◌, ap, ℕ, true, false, ◌||◌, some, ok, err, Call, gives, panics, Exec, returns,
  unwinds, faults, arith, Bool-cases, inl, inr, Result-intro, has, find-has, find-none,
}
use flag_bearer.Closeable.{Kind}
use flag_bearer.External.{Setting, removed}
use flag_bearer.Queue.State.{
  Removed, Nodes, pin_queue, QueueState, waiting, settled, update_state, guarded,
}
use flag_bearer.Queue.Acquire.{leave, left, left_closed, give_back, nothing}
use flag_bearer.Queue.Sound.{Inv, Keeps, discarded-waiting, IsSound-take, IsSound-unlink}

module _ {g : Setting} {c : Kind} where
  -- A user call under `PoisonOnUnwind` touches neither the list nor its counters.
  pub update_state-Inv :
      {A : Type 0} (q : QueueState g c) (f : g.State → Call g.State A)
      → Inv q
      → Keeps Inv (update_state q f)
  unfolding update_state
  update_state-Inv q f h = go (f q.state)
    where
      go : {A : Type 0} (r : Call g.State A) → Keeps Inv (guarded q r)
      go (gives s a) = h
      go (panics s) = h

  give_back-Keeps :
      (q : QueueState g c) (permit : g.Permit) → Inv q → Keeps Inv (give_back q permit)
  unfolding give_back
  give_back-Keeps q permit h =
      go (update_state q (λ s. g.release s permit)) (update_state-Inv q (λ s. g.release s permit) h)
    where
      go : (r : Exec (QueueState g c) (Unit {0})) → Keeps Inv r → Keeps Inv (nothing r)
      go (returns q' _) k = k
      go (unwinds q') k = k
      go (faults f) k = k

  module _ (k : ℕ) (q : QueueState g c) (inv : Inv q) where
    left-Keeps :
        (r : Removed g c) (nodes : Nodes g c)
        → Inv (record q { nodes = nodes })
        → Keeps Inv (left q (some (removed r, nodes)))
    unfolding left
    left-Keeps (ok permit) nodes h = give_back-Keeps _ permit h
    left-Keeps (err params) nodes h = h

    left_closed-Keeps :
        (r : Removed g c) (nodes : Nodes g c)
        → Inv (record q { nodes = nodes })
        → Keeps Inv (left_closed q (some (r, nodes)))
    unfolding left_closed
    left_closed-Keeps (ok permit) nodes h = give_back-Keeps _ permit h
    left_closed-Keeps (err params) nodes h = h

    left_removed :
        has k (waiting q) ≡ false
        → has k (settled q) ≡ true
        → Keeps Inv (left q ((pin_queue g c).reset k q.nodes))
    left_removed l e =
        let (r, f) = find-has k (settled q) e in
        let (nodes, t, links, removes) =
          (pin_queue g c).reset_removed k r q.nodes (find-none k (waiting q) l) f in
        rw t (left-Keeps r nodes (rw (links, removes) (IsSound-take k r f inv)))

    left_linked : has k (waiting q) ≡ true → Keeps Inv (left q ((pin_queue g c).reset k q.nodes))
    unfolding left
    left_linked l =
        let (p, f) = find-has k (waiting q) l in
        let (nodes, t, links, removes) = (pin_queue g c).reset_linked k p q.nodes f in
        rw (t, left) (rw (links, removes) (IsSound-unlink k p f inv))

    left_discarded :
        has k (settled q) ≡ true
        → Keeps Inv (left_closed q ((pin_queue g c).take_removed k q.nodes))
    left_discarded e =
        let (r, f) = find-has k (settled q) e in
        let (nodes, t, links, removes) = (pin_queue g c).take_removed_some k r q.nodes f in
        rw t (left_closed-Keeps r nodes (rw (links, removes) (IsSound-take k r f inv)))

  -- The locked section of the drop of a future whose node is initialized keeps the queue well-formed,
  -- also if the user's `release` panics, and reaches no undefined behaviour.
  pub leave-Inv :
      (k : ℕ) (q : QueueState g c)
      → (pin_queue g c).initialized k q.nodes ≡ true
      → Inv q
      → Keeps Inv (leave k q)
  unfolding leave
  leave-Inv k q i inv =
      Result-intro (Keeps Inv) q.queue
        (λ u e. elim (Bool-cases (has k (waiting q))) [
          | inl l ↦ left_linked k q inv l
          | inr l ↦ left_removed k q inv l (ground (arith, known))
        ])
        (λ v e.
          left_discarded k q inv
            (ground (arith, known, ap (has k) (discarded-waiting q v e inv).0)))
    where
      known : (has k (waiting q) || has k (settled q)) ≡ true
      known = sym ((pin_queue g c).initialized_lem k q.nodes) ∙ i
