-- ===== src/Queue/Drain/Close.antt =====
-- flag-bearer-queue/src/lib.rs: `SemaphoreQueue::close` as a whole.
use flag_bearer.Base.{
  Option, Result, err, ◌-◌, ℕ, zero, suc, ◌*◌, ◌<◌, ◌≡◌, refl, sym, ◌∙◌, ap, subst, true, false,
  not, List, [], ◌∷◌, ◌++◌, append_assoc, append-nil, Exec, returns, unwinds, faults, arith, length,
  take, drop, take-append-drop, length-drop, is_nil, Bool-intro,
}
use flag_bearer.Closeable.{closeable}
use flag_bearer.External.{Setting}
use flag_bearer.Queue.State.{Protected, QueueState, waiting, settled}
use flag_bearer.Queue.Wake.{WakeBatch, wakers, AllWake, wake_all-AllWake}
use flag_bearer.Queue.Close.{
  Gathered, gather, close, close_rounds, closed_batch, woke, still_open, Round,
}
use flag_bearer.Queue.Rounds.{quiet}
use flag_bearer.Queue.Sound.{Inv}
use flag_bearer.Queue.Drain.{cancel, wakers_of, IsKept}
use flag_bearer.Queue.Drain.Gather.{Gathers, gather-Gathers, IsKept-trans}

cancel-append :
    {P W R : Type 0} (xs zs : List (ℕ × (Option P × W))) (ys : List (ℕ × Result R (Option P)))
    → cancel (xs ++ zs) ys ≡ cancel zs (cancel xs ys)
cancel-append [] zs ys = refl
cancel-append ((k, p) ∷ xs) zs ys = cancel-append xs zs ((k, err p.0) ∷ ys)

wakers_of-append :
    {P W : Type 0} (xs zs : List (ℕ × (P × W)))
    → wakers_of (xs ++ zs) ≡ wakers_of xs ++ wakers_of zs
wakers_of-append [] zs = refl
wakers_of-append (x ∷ xs) zs = ap (◌∷◌ x.1.1) (wakers_of-append xs zs)

is_nil-eq : {A : Type 0} (xs : List A) → not (is_nil xs) ≡ false → xs ≡ []
is_nil-eq [] e = refl
is_nil-eq (x ∷ xs) e = cc

module _ {g : Setting} where
  -- Every task of `xs` was turned away, and its waker called behind those of `log`.
  pub record IsClosed (xs : List (ℕ × Protected g)) (q : QueueState g closeable)
      (log : List g.Waker) (q' : QueueState g closeable) (log' : List g.Waker) : Type 0 where
    pub waits : waiting q' ≡ []
    pub settles : settled q' ≡ cancel xs (settled q)
    pub called : log' ≡ log ++ wakers_of xs
    pub discarded : still_open q' ≡ false
    pub closes : q'.closed ≡ true
    pub keeps : IsKept q q'

  abbrev pub Closes :
      List (ℕ × Protected g)
      → QueueState g closeable
      → List g.Waker
      → Exec (QueueState g closeable × List g.Waker) (Unit {0})
      → Type 0
  Closes xs q log (returns (q', log') _) = IsClosed xs q log q' log'
  Closes xs q log (unwinds _) = ⊥
  Closes xs q log (faults _) = ⊥

  -- The first 32 tasks, then the rest.
  Closes-append :
      (xs zs : List (ℕ × Protected g)) (q q₁ : QueueState g closeable) (log log₁ : List g.Waker)
      (r : Exec (QueueState g closeable × List g.Waker) (Unit {0}))
      → settled q₁ ≡ cancel xs (settled q)
      → log₁ ≡ log ++ wakers_of xs
      → IsKept q q₁
      → Closes zs q₁ log₁ r
      → Closes (xs ++ zs) q log r
  Closes-append xs zs q q₁ log log₁ (returns (q₂, log₂) _) s l k h = record {
    waits = h.waits;
    settles = h.settles ∙ ap (cancel zs) s ∙ sym (cancel-append xs zs (settled q));
    called =
        h.called
        ∙ ap (λ t. t ++ wakers_of zs) l
        ∙ append_assoc log (wakers_of xs) (wakers_of zs)
        ∙ ap (◌++◌ log) (sym (wakers_of-append xs zs));
    discarded = h.discarded;
    closes = h.closes;
    keeps = IsKept-trans q q₁ q₂ k h.keeps;
  }
  Closes-append xs zs q q₁ log log₁ (unwinds _) s l k h = h
  Closes-append xs zs q q₁ log log₁ (faults _) s l k h = h

  module _ (wake : AllWake g) (again : Round g) (xs : List (ℕ × Protected g))
      (q : QueueState g closeable) (ws : WakeBatch g) (log : List g.Waker)
      (empty : (wakers g).to_list ws ≡ [])
      (next : (q₁ : QueueState g closeable) (ws₁ : WakeBatch g) (log₁ : List g.Waker)
        → waiting q₁ ≡ drop 32 xs
        → is_nil (drop 32 xs) ≡ false
        → (wakers g).to_list ws₁ ≡ []
        → Inv q₁
        → Closes (drop 32 xs) q₁ log₁ (again q₁ ws₁ log₁)) where
    batch-Closes :
        (r : Gathered g) → Gathers 32 xs q ws r → Closes xs q log (closed_batch again quiet log r)
    unfolding closed_batch woke
    batch-Closes (returns (q₁, ws₁) _) h =
        subst (λ ys. Closes ys q log (closed_batch again quiet log (returns (q₁, ws₁) tt)))
          (take-append-drop 32 xs)
          (rw (wake_all-AllWake g wake log ((wakers g).drain ws₁).0) (
            Closes-append (take 32 xs) (drop 32 xs) q q₁ log _ _ h.settles called h.keeps (
              Bool-intro (Closes (drop 32 xs) q₁ _) (still_open q₁)
                (λ more.
                  next q₁ ((wakers g).drain ws₁).1 _ h.waits
                    (ground (arith, ap is_nil h.waits, h.closing.opens))
                    ((wakers g).drain_lem ws₁).1 h.inv)
                (λ done. over (is_nil-eq (waiting q₁) (sym h.closing.opens ∙ done)) done))))
      where
        called : log ++ ((wakers g).drain ws₁).0 ≡ log ++ wakers_of (take 32 xs)
        called =
            ap (◌++◌ log) (
              ((wakers g).drain_lem ws₁).0
              ∙ h.batches
              ∙ ap (λ t. t ++ wakers_of (take 32 xs)) empty)

        over :
            {log₁ : List g.Waker}
            → waiting q₁ ≡ []
            → still_open q₁ ≡ false
            → IsClosed (drop 32 xs) q₁ log₁ q₁ log₁
        over {log₁} n d = record {
          waits = n;
          settles = rw (sym h.waits ∙ n) refl;
          called = rw (sym h.waits ∙ n) (sym (append-nil log₁));
          discarded = d;
          closes = h.closing.closes;
          keeps = record { states = refl; orders = refl; poisons = refl };
        }
    batch-Closes (unwinds _) h = absurd h
    batch-Closes (faults _) h = absurd h

module _ {g : Setting} (wake : AllWake g) where
  close_rounds-Closes :
      (fuel : ℕ) (xs : List (ℕ × Protected g)) (q : QueueState g closeable) (ws : WakeBatch g)
      (log : List g.Waker)
      → length xs < 32 * fuel
      → waiting q ≡ xs
      → (wakers g).to_list ws ≡ []
      → Inv q
      → Closes xs q log (close_rounds fuel quiet q ws log)
  unfolding close_rounds
  close_rounds-Closes zero xs q ws log f w e h = absurd (omega arith)
  close_rounds-Closes (suc fuel) xs q ws log f w e h =
      batch-Closes wake (close_rounds fuel quiet) xs q ws log e
        (λ q₁ ws₁ log₁ w₁ n e₁ h₁.
          close_rounds-Closes fuel (drop 32 xs) q₁ ws₁ log₁
            (smaller (drop 32 xs) n (length-drop 32 xs)) w₁ e₁ h₁)
        (gather 33 q ws)
        (gather-Gathers 33 32 xs q ws (omega arith) (omega (arith, ap length e))
          (λ z. absurd (omega arith)) w h)
    where
      smaller :
          (zs : List (ℕ × Protected g))
          → is_nil zs ≡ false
          → length zs ≡ length xs - 32
          → length zs < 32 * fuel
      smaller [] n l = cc
      smaller (z ∷ zs) n l = omega arith

  -- `close` of a well-formed queue, if nobody else takes the mutex, no waker panics, and 32 times
  -- the fuel is more than the number of waiting tasks, ends and turns every waiting task away: each
  -- node holds its task's parameters, every waker was called once, in the order of the queue,
  -- nobody waits, the list is discarded, and the user's state, the order and the poison are as
  -- before.
  pub close-Closes :
      (fuel : ℕ) (q : QueueState g closeable)
      → length (waiting q) < 32 * fuel
      → Inv q
      → Closes (waiting q) q [] (close fuel quiet q)
  unfolding close
  close-Closes fuel q f h =
      close_rounds-Closes fuel (waiting q) q (wakers g).new [] f refl (wakers g).to_list-new h
