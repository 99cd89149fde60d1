-- ===== src/Queue/Serve/Push.antt =====
-- flag-bearer-queue/src/lib.rs: a round of `QueueState::check` that grants, at the last slot of
-- the batch or before it.
use flag_bearer.Base.{
  ℕ, suc, ◌+◌, ◌≤◌, ◌<◌, ◌≡◌, refl, sym, false, Option, some, List, ◌++◌, append-nil, returns,
  arith, length, first_key, Distinct, usize_mod,
}
use flag_bearer.Closeable.{Kind}
use flag_bearer.External.{Setting}
use flag_bearer.Queue.State.{Protected, QueueState, waiting}
use flag_bearer.Queue.Wake.{WakeBatch, wakers, capacity, batch_length, full, not-full}
use flag_bearer.Queue.Check.{Rest, pushed, pushed-full, pushed-not-full}
use flag_bearer.Queue.Serve.{Served, grant, stop}
use flag_bearer.Queue.Serve.After.{IsServed, IsServing, IsGrant, IsServed-grant}

module _ {g : Setting} {c : Kind} where
  -- The state and the batch after a grant to `k`, the first behind `done`.
  pub record IsGranted (done rest : List (ℕ × Protected g)) (k : ℕ) (permit : g.Permit)
      (w : g.Waker) (s : g.State) (q : QueueState g c) (ws : WakeBatch g) (q₁ : QueueState g c)
      (ws₁ : WakeBatch g) : Type 0 where
    pub by : IsGrant k permit w q ws q₁ ws₁
    pub place : waiting q₁ ≡ done ++ rest
    pub states : q₁.state ≡ s

  -- With one slot the batch is full and the loop returns; with more it goes on.
  pub pushed-last :
      (again : Rest g c) (next : Option ℕ) (done rest : List (ℕ × Protected g)) (k : ℕ)
      (permit : g.Permit) (w : g.Waker) (s : g.State) (q q₁ : QueueState g c) (ws ws₁ : WakeBatch g)
      → IsGranted done rest k permit w s q ws q₁ ws₁
      → length ((wakers g).to_list ws) + 1 ≡ capacity
      → IsServed done
          (grant k permit w (stop false s rest))
          q
          ws
          (pushed again next q₁ ws (some ws₁))
  pushed-last again next done rest k permit w s q q₁ ws ws₁ e h =
      rw
        (pushed-full again next q₁ ws ws₁
          (full g ws₁ (omega (arith, batch_length g ws ws₁ w e.by.batches))))
        (IsServed-grant done k permit w (stop false s rest) q q₁ ws ws₁ (returns (q₁, ws₁) tt) e.by
          (
            record {
              waits = e.place;
              settles = refl;
              counts = omega arith;
              states = e.states;
              batches = sym (append-nil _);
              opens = refl;
              closes = refl;
              orders = refl;
            },
            refl,
            refl,
          ))

  pub pushed-more :
      (fuel room : ℕ) (walk : g.State → List (ℕ × Protected g) → Served g) (again : Rest g c)
      (next : Option ℕ) (done rest : List (ℕ × Protected g)) (k : ℕ) (permit : g.Permit)
      (w : g.Waker) (s : g.State) (q q₁ : QueueState g c) (ws ws₁ : WakeBatch g)
      → IsServing fuel room walk again
      → length rest < fuel
      → IsGranted done rest k permit w s q ws q₁ ws₁
      → Distinct (done ++ rest)
      → length ((wakers g).to_list ws) + suc (suc room) ≡ capacity
      → suc (length rest) ≤ q.len
      → q.len < usize_mod
      → next ≡ first_key rest
      → IsServed done (grant k permit w (walk s rest)) q ws (pushed again next q₁ ws (some ws₁))
  pushed-more fuel room walk again next done rest k permit w s q q₁ ws ws₁ ih b e d h l f n =
      rw
        (
          pushed-not-full again next q₁ ws ws₁ (not-full g ws₁ (omega (arith, length₁))),
          n,
          ← e.states,
        )
        (IsServed-grant done k permit w (walk q₁.state rest) q q₁ ws ws₁ _ e.by (
          ih done rest q₁ ws₁ b (record {
            place = e.place;
            distinct = d;
            space = omega (arith, length₁);
            count = omega (arith, e.by.counts);
            fits = omega (arith, e.by.counts);
          })))
    where
      length₁ : length ((wakers g).to_list ws₁) ≡ length ((wakers g).to_list ws) + 1
      length₁ = batch_length g ws ws₁ w e.by.batches
