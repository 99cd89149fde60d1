-- ===== src/Semaphore/Tried.antt =====
-- flag-bearer/src/lib.rs: `try_acquire`, `try_acquire_unfair`, and the drop of their permit.
use flag_bearer.Base.{
  ℕ, ◌≡◌, refl, ap, Bool, true, false, ◌||◌, Option, none, some, [], Result, ok, err, Call, gives,
  panics, returns, unwinds, arith, is_nil, Bool-cases, ◌==◌, inl, inr, if◌then◌else◌, length,
}
use flag_bearer.Closeable.{Kind, closeable, TryAcquireError, no_permits}
use flag_bearer.External.{Setting}
use flag_bearer.Queue.State.{QueueState, waiting, pin_queue}
use flag_bearer.Queue.Admit.{lead, attempted, acquire_or_enqueue, reported}
use flag_bearer.Queue.Admit as Admit
use flag_bearer.Queue.Acquire.{ready}
use flag_bearer.Queue.Acquire as Acquire
use flag_bearer.Queue.Run as Run
use flag_bearer.Queue.Rounds.{quiet}
use flag_bearer.Queue.Arrive.{attempt}
use flag_bearer.Queue.Sound.{Inv}
use flag_bearer.Queue.Serve.Check.{IsServing}
use flag_bearer.Semaphore.{
  Tried, out_of_thin_air, tried, try_acquire, try_acquire_unfair, drop_permit, is_closed,
  is_poisoned, resume, unresumed, finished,
}

module _ {g : Setting} {c : Kind} where
  -- What a try gives, from the call of the user's `acquire`, if there is one: nothing but the
  -- user's state and order changes, except that a panic poisons.
  abbrev pub Answers :
      Option (Call g.State (Result g.Permit g.Params))
      → g.Policy
      → g.Params
      → QueueState g c
      → Tried g c
      → Type 0
  Answers none o p q (returns q' (err (no_permits p'))) = (p' ≡ p) × (q' ≡ record q { order = o })
  Answers (some (gives s (err p'))) o p q (returns q' (err (no_permits p''))) =
      (p'' ≡ p') × (q' ≡ record q { order = o; state = s })
  Answers (some (gives s (ok permit))) o p q (returns q' (ok permit')) =
      (permit'.inner.t ≡ permit) × (q' ≡ record q { order = o; state = s })
  Answers (some (panics s)) o p q (unwinds q') =
      q' ≡ record q { order = o; state = s; poisoned = true }
  Answers _ _ _ _ _ = ⊥

  attempted-Answers :
      (q : QueueState g c) (p : g.Params) (front : Bool) (o : g.Policy)
      (call : Call g.State (Result g.Permit g.Params))
      → Answers (some call) o p q (tried (reported (attempted front (record q { order = o }) call)))
  unfolding attempted
  attempted-Answers q p front o (panics s) = refl
  attempted-Answers q p front o (gives s (ok permit)) = (refl, refl)
  attempted-Answers q p front o (gives s (err p')) = (refl, refl)

  lead-Answers :
      (q : QueueState g c) (p : g.Params) (front : Bool) (o : g.Policy)
      → Answers (attempt front q p) o p q (
          tried
            (reported (lead front ((pin_queue g c).is_empty q.nodes) (record q { order = o }) p)))
  unfolding lead
  lead-Answers q p front o = elim (Bool-cases (front || is_nil (waiting q))) [
    | inl e ↦
        rw ((pin_queue g c).is_empty_lem q.nodes, e)
          (attempted-Answers q p front o (g.acquire q.state p))
    | inr e ↦ rw ((pin_queue g c).is_empty_lem q.nodes, e) (refl, refl)
  ]

  -- Trying. On an open, healthy semaphore `try_acquire` asks the order, which returns, and calls the
  -- user's `acquire` exactly if the order puts the caller to the front or nobody waits;
  -- `try_acquire_unfair` always calls it and does not ask the order. A permit is handed out, a
  -- refusal gives back the parameters that the user's `acquire` gave back, a panic poisons, and no
  -- task that waits is touched. Without the call `try_acquire` gives its parameters back.
  pub try_acquire-Answers :
      (q : QueueState g c) (p : g.Params) (front : Bool) (o : g.Policy)
      → IsServing q
      → g.enqueue_front q.order q.len ≡ gives o front
      → Answers (attempt front q p) o p q (try_acquire q p)
        × Answers (some (g.acquire q.state p)) q.order p q (try_acquire_unfair q p)
  unfolding Admit.try_acquire
  try_acquire-Answers q p front o s e =
      (rw fair (lead-Answers q p front o), rw unfair (lead-Answers q p true q.order))
    where
      fair :
          acquire_or_enqueue q p true
          ≡ lead front ((pin_queue g c).is_empty q.nodes) (record q { order = o }) p
      fair = simp (s.healthy, s.admitting, s.opened, e)

      unfair : acquire_or_enqueue q p false ≡ lead true ((pin_queue g c).is_empty q.nodes) q p
      unfair = simp (s.healthy, s.admitting, s.opened)

  -- A round trip. On an open, healthy, well-formed semaphore where nobody waits, if the user's
  -- `acquire` gives a permit and its `release` puts the state back, then a permit that a try got and
  -- that is dropped leaves the semaphore exactly as it was, and wakes nobody. The drop needs no fuel.
  pub try_acquire-drop_permit :
      (q : QueueState g c) (p : g.Params) (permit : g.Permit) (s : g.State)
      → Inv q
      → IsServing q
      → waiting q ≡ []
      → g.acquire q.state p ≡ gives s (ok permit)
      → g.release s permit ≡ gives q.state tt
      → (q₁ : QueueState g c) × (try_acquire_unfair q p ≡ returns q₁ (ok (out_of_thin_air permit)))
        × (drop_permit 0 quiet q₁ (out_of_thin_air permit) ≡ returns (q, []) tt)
  unfolding Admit.try_acquire lead attempted Run.with_state
  try_acquire-drop_permit q p permit s h i n a r =
      (record q { state = s }, rw unfair refl, rw (r, empty) refl)
    where
      empty : (q.len == 0) ≡ true
      empty = ground (arith, h.counted, ap length n)

      unfair :
          acquire_or_enqueue q p false ≡ returns (record q { state = s }) (Admit.acquired permit)
      unfair = simp (i.healthy, i.admitting, i.opened, a)

module _ {g : Setting} where
  -- The reason that a poisoned or closed semaphore gives.
  abbrev pub reason : QueueState g closeable → g.Params → TryAcquireError closeable g.Params
  reason q p =
      if is_poisoned q
      then TryAcquireError.poisoned p
      else TryAcquireError.closed (record { params = p })

  -- A poisoned or closed semaphore changes by no request, whether its list is discarded or not: both
  -- tries give the parameters back with the reason, poison before closing; the first poll of a new
  -- future panics if it is poisoned, and else gives the parameters back as well.
  pub try_acquire-Refused :
      (q : QueueState g closeable) (p : g.Params) (k : ℕ) (w : g.Waker)
      → (pin_queue g closeable).initialized k q.nodes ≡ false
      → (is_poisoned q || is_closed q) ≡ true
      → (try_acquire q p ≡ returns q (err (reason q p)))
        × (try_acquire_unfair q p ≡ returns q (err (reason q p)))
        × (resume k q (unresumed p) w ≡ (
            if is_poisoned q
            then unwinds (q, finished)
            else returns (q, finished) (ready (err (record { params = p })))))
  unfolding Admit.try_acquire lead attempted Acquire.poll
  try_acquire-Refused q p k w f h = elim (Bool-cases q.poisoned) [
    | inl e ↦ (rw e refl, rw e refl, rw (f, e) refl)
    | inr e ↦ elim (Bool-cases q.closed) [
      | inl d ↦ (rw (e, d) refl, rw (e, d) refl, rw (f, e, d) refl)
      | inr d ↦ cc (e, d, h)
    ]
  ]
