-- ===== src/Queue/Arrive.antt =====
-- flag-bearer-queue/src/acquire.rs: the first poll of an `Acquire`, in terms of the list of
-- waiting tasks.
pub mod Line
pub mod Fifo
pub mod Stack
use flag_bearer.Base.{
  ℕ, ◌+◌, ◌<◌, ◌≡◌, refl, ◌∙◌, Bool, true, false, ◌||◌, Option, none, some, List, [], ◌∷◌, ◌++◌,
  Result, ok, err, Call, gives, panics, returns, unwinds, arith, length, has, usize_mod, is_nil,
  Result-intro, Bool-cases, inl, inr, if◌then◌else◌,
}
use flag_bearer.Closeable.{Kind}
use flag_bearer.External.{Setting}
use flag_bearer.Queue.State.{Protected, pin_queue, QueueState, waiting, settled}
use flag_bearer.Queue.Admit.{acquire_or_enqueue, lead, attempted}
use flag_bearer.Queue.Acquire.{
  ready, pending, Acquire, Polled, poll, start, started, enqueued, join,
}
use flag_bearer.Queue.Serve.Check.{IsServing}
use flag_bearer.Queue.Sound.{Inv}

abbrev pub placed {ℓ} : {A : Type ℓ} → Bool → A → List A → List A
placed true x xs = x ∷ xs
placed false x xs = xs ++ x ∷ []

module _ {g : Setting} {c : Kind} where
  -- Only the user's state and order changed.
  pub record IsUntouched (s : g.State) (o : g.Policy) (q q' : QueueState g c) : Type 0 where
    pub waits : waiting q' ≡ waiting q
    pub settles : settled q' ≡ settled q
    pub counts : q'.len ≡ q.len
    pub opens : q'.queue ≡ q.queue
    pub closes : q'.closed ≡ q.closed
    pub states : q'.state ≡ s
    pub orders : q'.order ≡ o

  -- The task `x` joined the waiting ones, at the front or at the back.
  pub record IsJoined (front : Bool) (x : ℕ × Protected g) (s : g.State) (o : g.Policy)
      (q q' : QueueState g c) : Type 0 where
    pub waits : waiting q' ≡ placed front x (waiting q)
    pub settles : settled q' ≡ settled q
    pub counts : q'.len ≡ q.len + 1
    pub opens : q'.queue ≡ q.queue
    pub closes : q'.closed ≡ q.closed
    pub poisons : q'.poisoned ≡ q.poisoned
    pub states : q'.state ≡ s
    pub orders : q'.order ≡ o

  -- The call of the user's `acquire`, if the task is tried at once.
  abbrev pub attempt :
      Bool → QueueState g c → g.Params → Option (Call g.State (Result g.Permit g.Params))
  attempt front q p = if front || is_nil (waiting q) then some (g.acquire q.state p) else none

  -- What a first poll gives: a task that is not tried waits; a panic poisons; a permit is given
  -- out with the queue as it is; a task that is refused waits with the parameters given back.
  abbrev pub Arrives :
      Option (Call g.State (Result g.Permit g.Params))
      → Bool
      → g.Policy
      → g.Params
      → g.Waker
      → ℕ
      → QueueState g c
      → Polled g c
      → Type 0
  Arrives none front o p w k q (returns (q', _) pending) =
      IsJoined front (k, (some p, w)) q.state o q q'
  Arrives (some (gives s (err p'))) front o p w k q (returns (q', _) pending) =
      IsJoined front (k, (some p', w)) s o q q'
  Arrives (some (gives s (ok permit))) front o p w k q (returns (q', _) (ready (ok permit'))) =
      IsUntouched s o q q' × (permit' ≡ permit) × (q'.poisoned ≡ q.poisoned)
  Arrives (some (panics s)) front o p w k q (unwinds (q', _)) =
      IsUntouched s o q q' × (q'.poisoned ≡ true)
  Arrives _ _ _ _ _ _ _ _ = ⊥

  module _ (q : QueueState g c) (fut : Acquire g) (p : g.Params) (w : g.Waker)
      (fresh : (has fut.node (waiting q) || has fut.node (settled q)) ≡ false)
      (memory : length (waiting q) + 1 < usize_mod) (inv : Inv q) (o : IsServing q) where
    initial : (pin_queue g c).initialized fut.node q.nodes ≡ false
    initial = (pin_queue g c).initialized_lem fut.node q.nodes ∙ fresh

    joins :
        (front : Bool) (p' : g.Params) (s : g.State) (r : g.Policy)
        → IsJoined front
            (fut.node, (some p', w))
            s
            r
            q
            (join front p' w fut.node (record q { state = s; order = r }))
    unfolding join
    joins true p' s r = record {
      waits = (pin_queue g c).linked-push_front fut.node (some p', w) q.nodes initial;
      settles = (pin_queue g c).removed-push_front fut.node (some p', w) q.nodes initial;
      counts = omega (arith, inv.counted);
      opens = refl;
      closes = refl;
      poisons = refl;
      states = refl;
      orders = refl;
    }
    joins false p' s r = record {
      waits = (pin_queue g c).linked-push_back fut.node (some p', w) q.nodes initial;
      settles = (pin_queue g c).removed-push_back fut.node (some p', w) q.nodes initial;
      counts = omega (arith, inv.counted);
      opens = refl;
      closes = refl;
      poisons = refl;
      states = refl;
      orders = refl;
    }

    untouched :
        (s : g.State) (r : g.Policy) (b : Bool)
        → IsUntouched s r q (record q { state = s; order = r; poisoned = b })
    untouched s r b = record {
      waits = refl;
      settles = refl;
      counts = refl;
      opens = refl;
      closes = refl;
      states = refl;
      orders = refl;
    }

    enqueued-Arrives :
        (front : Bool) (p' : g.Params) (s : g.State) (r : g.Policy) (P : Polled g c → Type 0)
        → ((q' : QueueState g c)
            → IsJoined front (fut.node, (some p', w)) s r q q'
            → P (returns (q', record fut { params = none }) pending))
        → P (enqueued front p' w (record fut { params = none }) (record q { state = s; order = r }))
    unfolding enqueued
    enqueued-Arrives front p' s r P h =
        Result-intro P q.queue (λ _ _. h _ (joins front p' s r)) (λ v d. cc (d, o.opened))

    attempted-Arrives :
        (front : Bool) (r : g.Policy) (call : Call g.State (Result g.Permit g.Params))
        → Arrives (some call) front r p w fut.node q (
            started
              (record fut { params = none })
              w
              (attempted front (record q { order = r }) call))
    unfolding attempted started
    attempted-Arrives front r (panics s) = (untouched s r true, refl)
    attempted-Arrives front r (gives s (ok permit)) = (untouched s r q.poisoned, refl, refl)
    attempted-Arrives front r (gives s (err p')) =
        enqueued-Arrives front p' s r (Arrives (some (gives s (err p'))) front r p w fut.node q)
          (λ q' j. j)

    lead-Arrives :
        (front : Bool) (r : g.Policy)
        → Arrives (attempt front q p) front r p w fut.node q (
            started
              (record fut { params = none })
              w
              (lead front ((pin_queue g c).is_empty q.nodes) (record q { order = r }) p))
    unfolding lead started
    lead-Arrives front r = elim (Bool-cases (front || is_nil (waiting q))) [
      | inl e ↦
          rw ((pin_queue g c).is_empty_lem q.nodes, e)
            (attempted-Arrives front r (g.acquire q.state p))
      | inr e ↦
          rw ((pin_queue g c).is_empty_lem q.nodes, e)
            (enqueued-Arrives front p q.state r (Arrives none front r p w fut.node q) (λ q' j. j))
    ]

    -- The first poll of a new future on an open, healthy, well-formed queue, with memory for one more
    -- node, asks the order, which returns, for the end to join, given how many tasks wait. The task
    -- is tried at once exactly if it would be the first: then the user's `acquire` decides on permit,
    -- panic or waiting. Otherwise it waits at the back and the user's `acquire` is not called.
    pub poll-Arrives :
        (front : Bool) (r : g.Policy)
        → g.enqueue_front q.order q.len ≡ gives r front
        → fut.params ≡ some p
        → Arrives (attempt front q p) front r p w fut.node q (poll q fut w)
    unfolding poll start
    poll-Arrives front r e f = rw (initial, f, admitted) (lead-Arrives front r)
      where
        admitted :
            acquire_or_enqueue q p true
            ≡ lead front ((pin_queue g c).is_empty q.nodes) (record q { order = r }) p
        admitted = simp (o.healthy, o.admitting, o.opened, e)
