-- ===== src/Queue/Rounds/Serve.antt =====
-- flag-bearer-queue/src: `with_state` and the drop of an `Acquire` as a whole.
use flag_bearer.Base.{
  nil_of, ℕ, ◌*◌, ◌<◌, ◌≡◌, refl, ap, ◌∙◌, true, ◌||◌, some, [], Exec, returns, arith, length,
  Bool-cases, inl, inr, ◌==◌, Call, gives, erase, find, has, has-find, length-erase, decr, subst,
  none, ok,
}
use flag_bearer.Closeable.{Kind}
use flag_bearer.External.{Setting, linked}
use flag_bearer.Queue.State.{QueueState, waiting, settled, update_state, pin_queue, Protected}
use flag_bearer.Queue.Wake.{wakers, AllWake}
use flag_bearer.Queue.Run.{with_queue, with_state, drop_acquire, applied}
use flag_bearer.Queue.Acquire.{Acquire, leave}
use flag_bearer.Queue.Serve.Check.{IsServing}
use flag_bearer.Queue.Serve.All.{serve_all}
use flag_bearer.Queue.Sound.{Inv, Keeps}
use flag_bearer.Queue.Sound.Leave.{leave-Inv}
use flag_bearer.Queue.Rounds.{quiet, IsDone, empty-IsDone}
use flag_bearer.Queue.Rounds.Batch.{check_rounds-IsDone}

module _ {g : Setting} {c : Kind} {T : Type 0} (wake : AllWake g) where
  with_queue-IsDone :
      (fuel : ℕ) (q q₁ : QueueState g c) (f : QueueState g c → Exec (QueueState g c) T) (t : T)
      → f q ≡ returns q₁ t
      → length (waiting q₁) < 32 * fuel
      → Inv q₁
      → IsServing q₁
      → IsDone (serve_all q₁.state (waiting q₁)) q₁ [] t (with_queue fuel quiet q f)
  unfolding with_queue applied
  with_queue-IsDone fuel q q₁ f t e l inv o = rw e (elim (Bool-cases (q₁.len == 0)) [
    | inl z ↦ rw z (empty-IsDone q₁ [] t (nil_of (waiting q₁) (ground (arith, inv.counted))))
    | inr n ↦
        rw n (check_rounds-IsDone wake t fuel q₁ (wakers g).new [] l (wakers g).to_list-new inv o)
  ])

  -- If nobody else takes the mutex, no waker panics, the callback returns, and 32 times the fuel is
  -- more than the number of waiting tasks, `with_state` on an open, healthy, well-formed queue
  -- applies the callback and then hands out permits as one unbounded walk along the waiting tasks
  -- does: that permits go out in batches of 32 makes no difference. The wakers of the tasks served
  -- are called once each, in the order of service, also if the user's `acquire` panics.
  pub with_state-serves :
      (fuel : ℕ) (q : QueueState g c) (f : g.State → Call g.State T) (s : g.State) (t : T)
      → f q.state ≡ gives s t
      → length (waiting q) < 32 * fuel
      → Inv q
      → IsServing q
      → IsDone (serve_all s (waiting q)) (record q { state = s }) [] t (with_state fuel quiet q f)
  unfolding with_state update_state
  with_state-serves fuel q f s t e l inv o =
      with_queue-IsDone fuel q (record q { state = s }) (λ q'. update_state q' f) t (rw e) l inv
        (record { healthy = o.healthy; admitting = o.admitting; opened = o.opened })

module _ {g : Setting} {c : Kind} where
  -- All but the nodes, `len` and the user's state.
  pub record IsLeft (q q₁ : QueueState g c) : Type 0 where
    pub opens : q₁.queue ≡ q.queue
    pub closes : q₁.closed ≡ q.closed
    pub orders : q₁.order ≡ q.order
    pub poisons : q₁.poisoned ≡ q.poisoned

  IsLeft-IsServing : (q q₁ : QueueState g c) → IsLeft q q₁ → IsServing q → IsServing q₁
  IsLeft-IsServing q q₁ l o = record {
    healthy = l.poisons ∙ o.healthy;
    admitting = rw l.closes o.admitting;
    opened = l.opens ∙ o.opened;
  }

  known :
      (k : ℕ) (q : QueueState g c)
      → has k (waiting q) || has k (settled q) ≡ true
      → (pin_queue g c).initialized k q.nodes ≡ true
  known k q e = (pin_queue g c).initialized_lem k q.nodes ∙ e

  -- The node of a waiting task is unlinked.
  leave-waiting :
      (k : ℕ) (q : QueueState g c) (p : Protected g)
      → q.queue ≡ ok tt
      → find k (waiting q) ≡ some p
      → (q₁ : QueueState g c) × (leave k q ≡ returns q₁ (some (linked p)))
        × IsLeft q q₁
        × (waiting q₁ ≡ erase k (waiting q))
        × (settled q₁ ≡ settled q)
        × (q₁.state ≡ q.state)
  unfolding leave
  leave-waiting k q p o f =
      let (nodes, t, links, removes) = (pin_queue g c).reset_linked k p q.nodes f in
      (
        record q { nodes = nodes; len = decr q.len },
        rw (o, t) refl,
        record { opens = refl; closes = refl; orders = refl; poisons = refl },
        links,
        removes,
        refl,
      )

  -- The permit of a task that was served and never claimed it goes back to the user's state.
  leave_granted :
      (k : ℕ) (q : QueueState g c) (permit : g.Permit) (s : g.State)
      → q.queue ≡ ok tt
      → find k (waiting q) ≡ none
      → find k (settled q) ≡ some (ok permit)
      → g.release q.state permit ≡ gives s tt
      → (q₁ : QueueState g c) × (leave k q ≡ returns q₁ none)
        × IsLeft q q₁
        × (waiting q₁ ≡ waiting q)
        × (settled q₁ ≡ erase k (settled q))
        × (q₁.state ≡ s)
  unfolding leave
  leave_granted k q permit s o n f r =
      let (nodes, t, links, removes) = (pin_queue g c).reset_removed k (ok permit) q.nodes n f in
      (
        record q { nodes = nodes; state = s },
        rw (o, t, r) refl,
        record { opens = refl; closes = refl; orders = refl; poisons = refl },
        links,
        removes,
        refl,
      )

module _ {g : Setting} {c : Kind} (wake : AllWake g) where
  -- On an open, healthy, well-formed queue, if nobody else takes the mutex, no waker panics, and 32
  -- times the fuel is more than the number of waiting tasks, the drop of the future of a waiting
  -- task takes it out of the queue, gives its parameters back to be dropped, and serves the tasks
  -- that it held up.
  pub drop_acquire-serves :
      (fuel : ℕ) (q : QueueState g c) (fut : Acquire g) (p : Protected g)
      → find fut.node (waiting q) ≡ some p
      → length (waiting q) < 32 * fuel
      → Inv q
      → IsServing q
      → (q₁ : QueueState g c) × IsLeft q q₁
        × (waiting q₁ ≡ erase fut.node (waiting q))
        × (settled q₁ ≡ settled q)
        × (q₁.state ≡ q.state)
        × IsDone
            (serve_all q₁.state (waiting q₁))
            q₁
            []
            (some (linked p))
            (drop_acquire fuel quiet q fut)
  unfolding drop_acquire
  drop_acquire-serves fuel q fut p f l inv o =
      let (q₁, e, left, w, s, t) = leave-waiting fut.node q p o.opened f in
      let i = known fut.node q (ground (arith, has-find fut.node p (waiting q) f)) in
      (
        q₁,
        left,
        w,
        s,
        t,
        rw i (
            with_queue-IsDone wake fuel q q₁ (leave fut.node) (some (linked p)) e
              (omega (arith, ap length w, length-erase fut.node p (waiting q) f))
              (subst (Keeps Inv) e (leave-Inv fut.node q i inv)) (IsLeft-IsServing q q₁ left o)),
      )

  -- On an open, healthy, well-formed queue, if nobody else takes the mutex, no waker panics, and 32
  -- times the fuel is more than the number of waiting tasks, the drop of the future of a task that
  -- was served and never claimed its permit gives the permit to the user's `release`, and, when
  -- that returns, serves the waiting tasks.
  pub drop_acquire-releases :
      (fuel : ℕ) (q : QueueState g c) (fut : Acquire g) (permit : g.Permit) (s : g.State)
      → find fut.node (waiting q) ≡ none
      → find fut.node (settled q) ≡ some (ok permit)
      → g.release q.state permit ≡ gives s tt
      → length (waiting q) < 32 * fuel
      → Inv q
      → IsServing q
      → (q₁ : QueueState g c) × IsLeft q q₁
        × (waiting q₁ ≡ waiting q)
        × (settled q₁ ≡ erase fut.node (settled q))
        × (q₁.state ≡ s)
        × IsDone (serve_all q₁.state (waiting q₁)) q₁ [] none (drop_acquire fuel quiet q fut)
  unfolding drop_acquire
  drop_acquire-releases fuel q fut permit s n f r l inv o =
      let (q₁, e, left, w, d, t) = leave_granted fut.node q permit s o.opened n f r in
      let i = known fut.node q (ground (arith, has-find fut.node (ok permit) (settled q) f)) in
      (
        q₁,
        left,
        w,
        d,
        t,
        rw i (
            with_queue-IsDone wake fuel q q₁ (leave fut.node) none e (omega (arith, ap length w))
              (subst (Keeps Inv) e (leave-Inv fut.node q i inv)) (IsLeft-IsServing q q₁ left o)),
      )
