-- ===== src/Semaphore/Fairness.antt =====
-- flag-bearer/src/lib.rs: when `try_acquire` and `try_acquire_unfair` are the same.
use flag_bearer.Base.{
  ◌≡◌, refl, ap, ◌∙◌, Bool, true, ◌||◌, ◌&&◌, Result, ok, err, Call, gives, panics, Bool-cases, inl,
  inr, Result-cases, is_nil,
}
use flag_bearer.Closeable.{Kind, can_close}
use flag_bearer.Order.{fair_order, is_lifo}
use flag_bearer.External.{Setting}
use flag_bearer.Queue.State.{QueueState, waiting, pin_queue}
use flag_bearer.Queue.Admit.{lead, attempted, acquire_or_enqueue, reported, turn_away}
use flag_bearer.Queue.Admit as Admit
use flag_bearer.Semaphore.{tried, try_acquire, try_acquire_unfair}

-- Any setting, with the order `FairOrder`.
abbrev pub fair_setting : Setting → Setting
fair_setting g = record g { ord = fair_order }

module _ {g : Setting} {c : Kind} where
  attempted-reported :
      (front : Bool) (q : QueueState g c) (call : Call g.State (Result g.Permit g.Params))
      → reported (attempted front q call) ≡ reported (attempted true q call)
  unfolding attempted
  attempted-reported front q (panics s) = refl
  attempted-reported front q (gives s (ok permit)) = refl
  attempted-reported front q (gives s (err p)) = refl

  lead-reported :
      (front empty : Bool) (q : QueueState g c) (p : g.Params)
      → (front || empty) ≡ true
      → reported (lead front empty q p) ≡ reported (lead true empty q p)
  unfolding lead
  lead-reported front empty q p e = rw e (attempted-reported front q (g.acquire q.state p))

module _ (g : Setting) {c : Kind} where
  -- The documentation of `try_acquire` for LIFO. In any state of a semaphore with the order
  -- `FairOrder`, closed or poisoned ones included, if the order is `lifo` or nobody waits, then
  -- `try_acquire` and `try_acquire_unfair` are the same: the same result, and the same semaphore after.
  pub try_acquire-try_acquire_unfair :
      (q : QueueState (fair_setting g) c) (p : g.Params)
      → (is_lifo q.order || is_nil (waiting q)) ≡ true
      → try_acquire q p ≡ try_acquire_unfair q p
  unfolding Admit.try_acquire acquire_or_enqueue Admit.ordered
  try_acquire-try_acquire_unfair q p e = ap tried (elim (Bool-cases q.poisoned) [
    | inl h ↦ rw h refl
    | inr h ↦ elim (Bool-cases (can_close c && q.closed)) [
      | inl d ↦ rw (h, d) refl
      | inr d ↦ elim (Result-cases q.queue) [
        | inl (u, o) ↦
            rw (h, d, o)
              (lead-reported (is_lifo q.order) ((pin_queue (fair_setting g) c).is_empty q.nodes) q p
                (ap (λ b. is_lifo q.order || b)
                    ((pin_queue (fair_setting g) c).is_empty_lem q.nodes)
                  ∙ e))
        | inr (v, o) ↦ rw (h, d, o) refl
      ]
    ]
  ])
