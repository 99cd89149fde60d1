-- ===== src/Queue/Serve/Check.antt =====
-- flag-bearer-queue/src/lib.rs: `QueueState::check` itself.
use flag_bearer.Base.{
  suc, ◌≡◌, refl, ap, true, false, ◌||◌, ◌&&◌, [], ok, err, returns, arith, if-intro, Result-intro,
  length, Distinct, Distinct-count,
}
use flag_bearer.Closeable.{Kind, can_close, Closed}
use flag_bearer.External.{Setting}
use flag_bearer.Queue.State.{pin_queue, QueueState, waiting}
use flag_bearer.Queue.Wake.{WakeBatch, wakers}
use flag_bearer.Queue.Check.{check, check_loop}
use flag_bearer.Queue.Serve.{serve}
use flag_bearer.Queue.Serve.After.{IsServed}
use flag_bearer.Queue.Serve.Loop.{check_loop-serve}
use flag_bearer.Queue.Sound.{Inv}

module _ {g : Setting} {c : Kind} where
  -- Permits may be handed out.
  pub record IsServing (q : QueueState g c) : Type 0 where
    pub healthy : q.poisoned ≡ false
    pub admitting : (can_close c && q.closed) ≡ false
    pub opened : q.queue ≡ ok tt

  distinct : (q : QueueState g c) → Inv q → Distinct (waiting q)
  distinct q h = Distinct-count (waiting q) (λ k. omega (arith, h.single k))

  check_runs :
      (q : QueueState g c) (ws : WakeBatch g)
      → IsServing q
      → check q ws
        ≡ check_loop (suc (length (waiting q))) ((pin_queue g c).cursor_front q.nodes) q ws
  unfolding check
  check_runs q ws o = simp (o.healthy, o.admitting, o.opened)

  -- On an open, healthy, well-formed queue and an empty batch, `check` ends, and does to the
  -- waiting tasks what `serve` says with 32 slots: the nodes, the permits in them, `len`, the user's
  -- state and the wakers in the batch agree with it, it panics when `serve` does, and then poisons.
  pub check-serve :
      (q : QueueState g c) (ws : WakeBatch g)
      → Inv q
      → IsServing q
      → (wakers g).to_list ws ≡ []
      → IsServed [] (serve 31 q.state (waiting q)) q ws (check q ws)
  check-serve q ws h o e =
      rw (check_runs q ws o, (pin_queue g c).cursor_front_lem q.nodes)
        (check_loop-serve (suc (length (waiting q))) 31 [] (waiting q) q ws (omega arith) (record {
          place = refl;
          distinct = distinct q h;
          space = omega (arith, ap length e);
          count = omega (arith, h.counted);
          fits = omega (arith, h.counted, h.fits);
        }))

  -- Otherwise it does nothing.
  pub check_idle :
      (q : QueueState g c) (ws : WakeBatch g)
      → (q.poisoned || (can_close c && q.closed)) ≡ true
      → check q ws ≡ returns (q, ws) tt
  unfolding check
  check_idle q ws e = rw e

  pub check_discarded :
      (q : QueueState g c) (ws : WakeBatch g) (v : Closed c (Unit {0}))
      → q.queue ≡ err v
      → check q ws ≡ returns (q, ws) tt
  unfolding check
  check_discarded q ws v e =
      if-intro (λ r. r ≡ returns (q, ws) tt) (q.poisoned || (can_close c && q.closed)) refl
        (Result-intro (λ r. r ≡ returns (q, ws) tt) q.queue (λ u o. cc (o, e)) (λ _ _. refl))
