-- ===== src/Queue/Claim.antt =====
-- flag-bearer-queue/src/acquire.rs: the later polls of an `Acquire` of a closeable queue.
use flag_bearer.Base.{
  ℕ, ◌≡◌, refl, ap, ◌∙◌, Bool, true, false, ◌||◌, none, some, List, ok, err, returns, unwinds,
  arith, decr, find, has, has-find, erase, put, Result-cases, Result-intro, if◌then◌else◌, inl, inr,
}
use flag_bearer.Closeable.{closeable}
use flag_bearer.External.{Setting, NodeData, linked, removed}
use flag_bearer.Queue.State.{Protected, Removed, pin_queue, Nodes, QueueState, waiting, settled}
use flag_bearer.Queue.Acquire.{
  ready, pending, Acquire, Polled, poll, poll_again, look, looked, unlinked, claimed, failed,
}
use flag_bearer.Queue.Sound.{Inv, discarded-waiting}

module _ {g : Setting} where
  -- The node `k` is linked or removed, with this data.
  abbrev pub At : ℕ → QueueState g closeable → NodeData (Protected g) (Removed g closeable) → Type 0
  At k q (linked p) = find k (waiting q) ≡ some p
  At k q (removed r) = (find k (waiting q) ≡ none) × (find k (settled q) ≡ some r)

  -- `n` tasks are counted, `xs` wait, `ys` are settled, and the rest is as in `q`.
  pub record IsClaimed (n : ℕ) (xs : List (ℕ × Protected g)) (ys : List (ℕ × Removed g closeable))
      (q q' : QueueState g closeable) : Type 0 where
    pub counts : q'.len ≡ n
    pub waits : waiting q' ≡ xs
    pub settles : settled q' ≡ ys
    pub states : q'.state ≡ q.state
    pub orders : q'.order ≡ q.order
    pub poisons : q'.poisoned ≡ q.poisoned
    pub opens : q'.queue ≡ q.queue
    pub closes : q'.closed ≡ q.closed

  -- What a later poll gives, if the queue is `closing`.
  abbrev pub Claims :
      Bool
      → NodeData (Protected g) (Removed g closeable)
      → g.Waker
      → ℕ
      → QueueState g closeable
      → Polled g closeable
      → Type 0
  Claims closing (removed (ok permit)) w k q (returns (q', _) (ready (ok permit'))) =
      (permit' ≡ permit) × IsClaimed q.len (waiting q) (erase k (settled q)) q q'
  Claims closing (removed (err (some p))) w k q (returns (q', _) (ready (err e))) =
      (e.params ≡ p) × IsClaimed q.len (waiting q) (erase k (settled q)) q q'
  Claims closing (removed (err none)) w k q (unwinds (q', _)) =
      IsClaimed q.len (waiting q) (erase k (settled q)) q q'
  Claims false (linked (p, _)) w k q (returns (q', _) pending) =
      IsClaimed q.len (put k (p, w) (waiting q)) (settled q) q q'
  Claims true (linked (some p, _)) w k q (returns (q', _) (ready (err e))) =
      (e.params ≡ p) × IsClaimed (decr q.len) (erase k (waiting q)) (settled q) q q'
  Claims true (linked (none, _)) w k q (unwinds (q', _)) =
      IsClaimed (decr q.len) (erase k (waiting q)) (settled q) q q'
  Claims _ _ _ _ _ _ = ⊥

  module _ (q : QueueState g closeable) (fut : Acquire g) (w : g.Waker) where
    -- The queue with other nodes and another count.
    changed :
        (n : ℕ) (nodes : Nodes g closeable) (xs : List (ℕ × Protected g))
        (ys : List (ℕ × Removed g closeable))
        → (pin_queue g closeable).linked nodes ≡ xs
        → (pin_queue g closeable).removed nodes ≡ ys
        → IsClaimed n xs ys q (record q { nodes = nodes; len = n })
    changed n nodes xs ys a b = record {
      counts = refl;
      waits = a;
      settles = b;
      states = refl;
      orders = refl;
      poisons = refl;
      opens = refl;
      closes = refl;
    }

    given :
        (closing : Bool) (r : Removed g closeable) (nodes : Nodes g closeable)
        → IsClaimed q.len (waiting q) (erase fut.node (settled q)) q (record q { nodes = nodes })
        → Claims closing (removed r) w fut.node q (claimed q fut (some (r, nodes)))
    unfolding claimed failed
    given closing (ok permit) nodes h = (refl, h)
    given closing (err (some p)) nodes h = (refl, h)
    given closing (err none) nodes h = h

    claimed-Claims :
        (closing : Bool) (r : Removed g closeable)
        → find fut.node (settled q) ≡ some r
        → Claims closing
            (removed r)
            w
            fut.node
            q
            (claimed q fut ((pin_queue g closeable).take_removed fut.node q.nodes))
    claimed-Claims closing r f =
        let (nodes, t, links, removes) =
          (pin_queue g closeable).take_removed_some fut.node r q.nodes f in
        rw t (given closing r nodes (changed q.len nodes _ _ links removes))

    look-Claims :
        (closing : Bool) (r : Removed g closeable)
        → At fut.node q (removed r)
        → Claims closing (removed r) w fut.node q (look q fut w)
    unfolding look looked
    look-Claims closing r (n, f) =
        Result-intro (Claims closing (removed r) w fut.node q) q.queue
          (λ u e.
            rw ((pin_queue g closeable).protected_lem fut.node q.nodes ∙ n)
              (claimed-Claims closing r f))
          (λ v e. claimed-Claims closing r f)

    look-linked :
        (p : Protected g)
        → q.queue ≡ ok tt
        → find fut.node (waiting q) ≡ some p
        → Claims false (linked p) w fut.node q (look q fut w)
    unfolding look looked
    look-linked (params, v) o f =
        Result-intro (Claims false (linked (params, v)) w fut.node q) q.queue
          (λ u e. rw ((pin_queue g closeable).protected_lem fut.node q.nodes ∙ f) (
            changed q.len _ _ _ ((pin_queue g closeable).linked-write fut.node (params, w) q.nodes)
              ((pin_queue g closeable).removed-write fut.node (params, w) q.nodes)))
          (λ v e. cc (o, e))

    unlinked-Claims :
        (p : Protected g) (nodes : Nodes g closeable)
        → IsClaimed
            (decr q.len)
            (erase fut.node (waiting q))
            (settled q)
            q
            (record q { nodes = nodes; len = decr q.len })
        → Claims true (linked p) w fut.node q (unlinked q fut w (some (p, nodes)))
    unfolding unlinked failed
    unlinked-Claims (some params, v) nodes h = (refl, h)
    unlinked-Claims (none, v) nodes h = h

  -- A waiting node has its list.
  waiting-open :
      (q : QueueState g closeable) (k : ℕ) (p : Protected g)
      → Inv q
      → find k (waiting q) ≡ some p
      → q.queue ≡ ok tt
  waiting-open q k p h f = elim (Result-cases q.queue) [
    | inl (u, e) ↦ e
    | inr (v, e) ↦ cc (ap (find k) (discarded-waiting q v e h).0, f)
  ]

  -- `poll_again`, with what it reads of `closed`.
  abbrev again : Bool → QueueState g closeable → Acquire g → g.Waker → Polled g closeable
  again true q fut w = elim q.queue [
    | ok _ ↦ unlinked q fut w ((pin_queue g closeable).unlink fut.node q.nodes)
    | err _ ↦ look q fut w
  ]
  again false q fut w = look q fut w

  again-Claims :
      (q : QueueState g closeable) (fut : Acquire g) (w : g.Waker)
      (node : NodeData (Protected g) (Removed g closeable)) (closing : Bool)
      → Inv q
      → At fut.node q node
      → Claims closing node w fut.node q (again closing q fut w)
  unfolding unlinked
  again-Claims q fut w (linked p) true h a =
      Result-intro (Claims true (linked p) w fut.node q) q.queue
        (λ u e.
          let (nodes, t, links, removes) =
            (pin_queue g closeable).unlink_some fut.node p q.nodes a in
          rw t (
            unlinked-Claims q fut w p nodes (changed q fut w (decr q.len) nodes _ _ links removes)))
        (λ v e. cc (waiting-open q fut.node p h a, e))
  again-Claims q fut w (linked p) false h a =
      look-linked q fut w p (waiting-open q fut.node p h a) a
  again-Claims q fut w (removed r) true h (n, f) =
      Result-intro (Claims true (removed r) w fut.node q) q.queue
        (λ u e.
          rw ((pin_queue g closeable).unlink_none fut.node q.nodes n)
            (look-Claims q fut w true r (n, f)))
        (λ v e. look-Claims q fut w true r (n, f))
  again-Claims q fut w (removed r) false h (n, f) = look-Claims q fut w false r (n, f)

  poll_again-again :
      (q : QueueState g closeable) (fut : Acquire g) (w : g.Waker)
      → poll_again q fut w ≡ again q.closed q fut w
  unfolding poll_again
  poll_again-again q fut w = go q.closed
    where
      go : (b : Bool) → (if b then again true q fut w else look q fut w) ≡ again b q fut w
      go true = refl
      go false = refl

  known :
      (k : ℕ) (q : QueueState g closeable) (node : NodeData (Protected g) (Removed g closeable))
      → At k q node
      → (has k (waiting q) || has k (settled q)) ≡ true
  known k q (linked p) a = rw (has-find k p (waiting q) a) refl
  known k q (removed r) (n, f) = ground (arith, has-find k r (settled q) f)

  -- The end of a wait. A later poll of a future of a well-formed closeable queue, open or closed,
  -- healthy or poisoned, calls no user code and changes only the future's node and `len`: a stored
  -- permit leaves its node and is handed out; a task that `close` turned away gets its parameters back; a task
  -- that waits goes on waiting with the new waker, with its place and its parameters, unless the
  -- queue is closing: then it leaves and gets its parameters back. If the parameters were lost to a
  -- panic of the user's `acquire`, a task that would get them back panics and is out of the queue.
  pub poll-Claims :
      (q : QueueState g closeable) (fut : Acquire g) (w : g.Waker)
      (node : NodeData (Protected g) (Removed g closeable))
      → Inv q
      → At fut.node q node
      → Claims q.closed node w fut.node q (poll q fut w)
  unfolding poll
  poll-Claims q fut w node h a =
      rw ((pin_queue g closeable).initialized_lem fut.node q.nodes ∙ known fut.node q node a)
        (rw (poll_again-again q fut w) (again-Claims q fut w node q.closed h a))
