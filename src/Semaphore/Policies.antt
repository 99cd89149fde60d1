-- ===== src/Semaphore/Policies.antt =====
-- flag-bearer/src/lib.rs: what the policies that a `Builder` offers mean for a new task.
use flag_bearer.Base.{
  ℕ, ◌+◌, ◌<◌, ◌≡◌, refl, ap, Bool, false, ◌||◌, ◌&&◌, [], ltb, gives, some, length, has, usize_mod,
  arith, subst, Bool-cases, inl, inr,
}
use flag_bearer.Closeable.{Kind, can_close, closeable, uncloseable}
use flag_bearer.Order.{hybrid_order}
use flag_bearer.External.{Setting}
use flag_bearer.Queue.State.{QueueState, waiting, settled, pin_queue}
use flag_bearer.Queue.State as State
use flag_bearer.Queue.Acquire.{acquire, poll}
use flag_bearer.Queue.Arrive.{Arrives, attempt, poll-Arrives}
use flag_bearer.Queue.Sound.{Inv}
use flag_bearer.Queue.Sound.Reach.{new-Inv}
use flag_bearer.Queue.Serve.Check.{IsServing}
use flag_bearer.Semaphore.{Builder, build}

-- Any setting, with the order `Hybrid`.
abbrev pub hybrid_setting : Setting → Setting
hybrid_setting g = record g { ord = hybrid_order }

module _ (g : Setting) {c : Kind} where
  -- The first poll of a new future on an open, healthy, well-formed semaphore with the order
  -- `Hybrid`, with memory for one more node: if more tasks wait than `lifo_above`, or none, the
  -- user's `acquire` is called at once. A task that must wait joins the front in the first case, and
  -- the back in the others.
  pub poll-Hybrid :
      (q : QueueState (hybrid_setting g) c) (k : ℕ) (p : g.Params) (w : g.Waker)
      → (has k (waiting q) || has k (settled q)) ≡ false
      → length (waiting q) + 1 < usize_mod
      → Inv q
      → IsServing q
      → Arrives {g = hybrid_setting g}
          (attempt {g = hybrid_setting g} (ltb q.order.lifo_above (length (waiting q))) q p)
          (ltb q.order.lifo_above (length (waiting q)))
          q.order
          p
          w
          k
          q
          (poll q (acquire k p) w)
  poll-Hybrid q k p w fresh memory h s =
      poll-Arrives q (acquire k p) p w fresh memory h s
        (ltb q.order.lifo_above (length (waiting q))) q.order (rw h.counted refl) refl

module _ (g : Setting) (c : Kind) where
  new-IsServing : (b : Builder g.ord c) (s : g.State) → IsServing (build {g = g} {c = c} b s)
  unfolding State.new
  new-IsServing b s = record { healthy = refl; admitting = closed c; opened = refl }
    where
      closed : (c : Kind) → (can_close c && false) ≡ false
      closed closeable = refl
      closed uncloseable = refl

  new-waiting : (b : Builder g.ord c) (s : g.State) → waiting (build {g = g} {c = c} b s) ≡ []
  unfolding State.new
  new-waiting b s = (pin_queue g c).linked-new

  new-settled : (b : Builder g.ord c) (s : g.State) → settled (build {g = g} {c = c} b s) ≡ []
  unfolding State.new
  new-settled b s = (pin_queue g c).removed-new

  -- The first request of a semaphore that a `Builder` made, closeable or not, whatever its order,
  -- which returns, is a call of the user's `acquire` on the state that it was built with: the future
  -- gets its permit, waits as the only task, or panics and poisons, as that call decides.
  pub build-Arrives :
      (b : Builder g.ord c) (s : g.State) (k : ℕ) (p : g.Params) (w : g.Waker) (front : Bool)
      (o : g.Policy)
      → g.enqueue_front b.order 0 ≡ gives o front
      → Arrives {g = g} {c = c}
          (some (g.acquire s p))
          front
          o
          p
          w
          k
          (build b s)
          (poll (build b s) (acquire k p) w)
  unfolding State.new
  build-Arrives b s k p w front o e =
      subst
        (λ a.
          Arrives {g = g} {c = c} a front o p w k (build b s) (poll (build b s) (acquire k p) w))
        asked
        (poll-Arrives (build {g = g} {c = c} b s) (acquire k p) p w
          (rw (new-waiting b s, new-settled b s) refl) (omega (arith, ap length (new-waiting b s)))
          (new-Inv g c s b.order) (new-IsServing b s) front o e refl)
    where
      asked : attempt {g = g} {c = c} front (build b s) p ≡ some (g.acquire s p)
      asked = elim (Bool-cases front) [ inl f ↦ rw f refl | inr f ↦ rw (f, new-waiting b s) refl ]
