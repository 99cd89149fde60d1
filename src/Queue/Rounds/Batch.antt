-- ===== src/Queue/Rounds/Batch.antt =====
-- flag-bearer-queue/src/lib.rs: one batch of the loop of `with_queue`, and the loop.
use flag_bearer.Base.{
  nil_of, ℕ, zero, suc, ◌+◌, ◌*◌, ◌≤◌, ◌<◌, ◌≡◌, refl, ap, ◌∙◌, subst, true, false, ◌&&◌, not, inl,
  inr, List, [], ◌++◌, returns, unwinds, faults, arith, length, ◌==◌, Bool-cases, Bool-intro,
}
use flag_bearer.Closeable.{Kind}
use flag_bearer.External.{Setting}
use flag_bearer.Queue.State.{QueueState, waiting}
use flag_bearer.Queue.Wake.{
  WakeBatch, wakers, AllWake, wake_all-AllWake, drop_batch-AllWake, filled, room_left,
}
use flag_bearer.Queue.Check.{Checked, check}
use flag_bearer.Queue.Run.{Logged, checked, check_rounds}
use flag_bearer.Queue.Serve.{Served, serve}
use flag_bearer.Queue.Serve.After.{IsAfter, IsServed}
use flag_bearer.Queue.Serve.Check.{IsServing, check-serve}
use flag_bearer.Queue.Serve.Parts.{serve-IsSplit}
use flag_bearer.Queue.Serve.All.{serve_all, Part, serve-Part}
use flag_bearer.Queue.Sound.{Inv}
use flag_bearer.Queue.Sound.Check.{after-Inv}
use flag_bearer.Queue.Rounds.{quiet, IsDone, IsAfter-IsEnd, empty-IsDone, rest-IsDone}

module _ {g : Setting} {c : Kind} {T : Type 0} (wake : AllWake g) (t : T) (q : QueueState g c)
    (ws : WakeBatch g) (empty : (wakers g).to_list ws ≡ []) (inv : Inv q) (o : IsServing q)
    (log : List g.Waker) (again : WakeBatch g → QueueState g c → List g.Waker → Logged g c T)
    (next : (q₁ : QueueState g c) (ws₁ : WakeBatch g) (log₁ : List g.Waker)
      → length (waiting q₁) + 32 ≡ length (waiting q)
      → (wakers g).to_list ws₁ ≡ []
      → Inv q₁
      → IsServing q₁
      → IsDone (serve_all q₁.state (waiting q₁)) q₁ log₁ t (again ws₁ q₁ log₁)) where
  abbrev batch : Served g
  batch = serve 31 q.state (waiting q)

  part : Part 31 batch (serve_all q.state (waiting q))
  part = serve-Part 31 q.state (waiting q)

  module _ (q₁ : QueueState g c) (ws₁ : WakeBatch g) (a : IsAfter [] batch q ws q₁ ws₁) where
    sizes : length ((wakers g).to_list ws₁) ≡ length batch.granted
    sizes = ap length (a.batches ∙ ap (λ xs. xs ++ batch.woken) empty) ∙ part.3

    called : (wakers g).to_list ws₁ ≡ batch.woken
    called = a.batches ∙ ap (λ xs. xs ++ batch.woken) empty

    inv₁ : Inv q₁
    inv₁ = after-Inv batch q q₁ ws ws₁ inv o.opened (serve-IsSplit g 31 q.state (waiting q)) a

    module _ (n : batch.panicked ≡ false) (p : q₁.poisoned ≡ q.poisoned) (log₁ : List g.Waker)
        (e : log₁ ≡ log ++ batch.woken) where
      serving₁ : IsServing q₁
      serving₁ = record {
        healthy = p ∙ o.healthy;
        admitting = rw a.closes o.admitting;
        opened = a.opens ∙ o.opened;
      }

      more :
          (wakers g).is_full ws₁ ≡ true
          → IsDone (serve_all q.state (waiting q)) q log t (again ((wakers g).drain ws₁).1 q₁ log₁)
      more full =
          rest-IsDone batch q q₁ ws ws₁ log t (again ((wakers g).drain ws₁).1 q₁ log₁)
            (part.1 (omega (arith, sizes, part.2, filled g ws₁ full))) a p
            (subst
              (λ l.
                IsDone (serve_all q₁.state (waiting q₁)) q₁ l t
                  (again ((wakers g).drain ws₁).1 q₁ log₁))
              e
              (next q₁ ((wakers g).drain ws₁).1 log₁
                (omega
                  (arith, inv₁.counted, inv.counted, a.counts, sizes, part.2, filled g ws₁ full))
                ((wakers g).drain_lem ws₁).1 inv₁ serving₁))

      -- The batch is full and nobody is left.
      emptied :
          (wakers g).is_full ws₁ ≡ true
          → (q₁.len == 0) ≡ true
          → IsDone (serve_all q.state (waiting q)) q log t (returns (q₁, log₁) t)
      emptied full z =
          rest-IsDone batch q q₁ ws ws₁ log t (returns (q₁, log₁) t)
            (part.1 (omega (arith, sizes, part.2, filled g ws₁ full))) a p
            (subst (λ l. IsDone (serve_all q₁.state (waiting q₁)) q₁ l t (returns (q₁, log₁) t)) e
              (empty-IsDone q₁ log₁ t (nil_of (waiting q₁) (ground (arith, inv₁.counted)))))

      stopped :
          (wakers g).is_full ws₁ ≡ false
          → IsDone (serve_all q.state (waiting q)) q log t (returns (q₁, log₁) t)
      stopped room =
          rw (part.0 (omega (arith, sizes, room_left g ws₁ room)))
            (IsAfter-IsEnd batch q q₁ ws ws₁ a, e, n, p, refl)

      ended :
          ((wakers g).is_full ws₁ && not (q₁.len == 0)) ≡ false
          → IsDone (serve_all q.state (waiting q)) q log t (returns (q₁, log₁) t)
      ended m = elim (Bool-cases ((wakers g).is_full ws₁)) [
        | inl full ↦ emptied full (ground arith)
        | inr room ↦ stopped room
      ]

    -- One batch, after `check` returned.
    returned-IsDone :
        batch.panicked ≡ false
        → q₁.poisoned ≡ q.poisoned
        → IsDone
            (serve_all q.state (waiting q))
            q
            log
            t
            (checked again quiet t log (returns (q₁, ws₁) tt))
    unfolding checked
    returned-IsDone n p =
        rw (wake_all-AllWake g wake log ((wakers g).drain ws₁).0, ((wakers g).drain_lem ws₁).0)
          (Bool-intro (IsDone (serve_all q.state (waiting q)) q log t)
            ((wakers g).is_full ws₁ && not (q₁.len == 0))
            (λ m. more n p _ (ap (◌++◌ log) called) (ground arith))
            (λ m. ended n p _ (ap (◌++◌ log) called) m))

    -- The user's `acquire` panicked: the wakers of the batch are called all the same.
    unwound-IsDone :
        batch.panicked ≡ true
        → q₁.poisoned ≡ true
        → IsDone
            (serve_all q.state (waiting q))
            q
            log
            t
            (checked again quiet t log (unwinds (q₁, ws₁)))
    unfolding checked
    unwound-IsDone n p =
        rw
          (
            drop_batch-AllWake g wake log ((wakers g).drain ws₁).0,
            ((wakers g).drain_lem ws₁).0,
            part.0 few,
          )
          (IsAfter-IsEnd batch q q₁ ws ws₁ a, ap (◌++◌ log) called, n, p)
      where
        few : length batch.granted ≤ 31
        few = ground (arith, part.2, part.4)

  checked-IsDone :
      (r : Checked g c)
      → IsServed [] batch q ws r
      → IsDone (serve_all q.state (waiting q)) q log t (checked again quiet t log r)
  checked-IsDone (returns (q₁, ws₁) _) (a, n, p) = returned-IsDone q₁ ws₁ a n p
  checked-IsDone (unwinds (q₁, ws₁)) (a, n, p) = unwound-IsDone q₁ ws₁ a n p
  checked-IsDone (faults f) h = elim h [ ]

module _ {g : Setting} {c : Kind} {T : Type 0} (wake : AllWake g) (t : T) where
  pub check_rounds-IsDone :
      (fuel : ℕ) (q : QueueState g c) (ws : WakeBatch g) (log : List g.Waker)
      → length (waiting q) < 32 * fuel
      → (wakers g).to_list ws ≡ []
      → Inv q
      → IsServing q
      → IsDone (serve_all q.state (waiting q)) q log t (check_rounds fuel quiet t ws q log)
  unfolding check_rounds
  check_rounds-IsDone zero q ws log f e inv o = absurd (omega arith)
  check_rounds-IsDone (suc fuel) q ws log f e inv o =
      checked-IsDone wake t q ws e inv o log (λ ws' q' log'. check_rounds fuel quiet t ws' q' log')
        (λ q₁ ws₁ log₁ l e₁ inv₁ o₁.
          check_rounds-IsDone fuel q₁ ws₁ log₁ (omega (arith, l)) e₁ inv₁ o₁)
        (check q ws) (check-serve q ws inv o e)
