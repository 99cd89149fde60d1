-- ===== src/Queue/Drain/Busy.antt =====
-- flag-bearer-queue/src/lib.rs: `SemaphoreQueue::close` while other tasks use the queue.
use flag_bearer.Base.{
  ℕ, zero, suc, ◌+◌, ◌*◌, ◌<◌, ◌≤◌, ◌≡◌, refl, sym, ◌∙◌, ap, true, false, not, List, [], ◌∷◌, Exec,
  returns, unwinds, faults, arith, length, length-drop, is_nil, Bool-intro,
}
use flag_bearer.Closeable.{closeable}
use flag_bearer.External.{Setting}
use flag_bearer.Queue.State.{QueueState, waiting}
use flag_bearer.Queue.Wake.{WakeBatch, wakers, AllWake, wake_all-AllWake}
use flag_bearer.Queue.Close.{
  Gathered, gather, close, close_rounds, closed_batch, woke, still_open, Round, Others,
}
use flag_bearer.Queue.System.{Step}
use flag_bearer.Queue.Sound.{Inv}
use flag_bearer.Queue.Sound.Reach.{Step-Inv}
use flag_bearer.Queue.Flags.Step.{Step-closed}
use flag_bearer.Queue.Drain.Fewer.{Fewer}
use flag_bearer.Queue.Drain.Fewer.Sections.{Step-Fewer}
use flag_bearer.Queue.Drain.Gather.{Gathers, gather-Gathers}

positive : {A : Type 0} (xs : List A) → is_nil xs ≡ false → 1 ≤ length xs
positive [] e = cc
positive (x ∷ xs) e = omega arith

empty : {A : Type 0} (xs : List A) → not (is_nil xs) ≡ false → xs ≡ []
empty [] e = refl
empty (x ∷ xs) e = cc

-- Any number of locked sections.
pub data Steps {g : Setting} (q : QueueState g closeable) : QueueState g closeable → Type 0 where
  rest : Steps q q
  more : {q₁ q₂ : QueueState g closeable} → Steps q q₁ → Step q₁ q₂ → Steps q q₂

module _ {g : Setting} where
  -- A well-formed closed queue where at most as many tasks wait as in `q`.
  abbrev IsLess : QueueState g closeable → QueueState g closeable → Type 0
  IsLess q q' = Inv q' × (q'.closed ≡ true) × Fewer q q'

  Steps-IsLess :
      {q q' : QueueState g closeable} → Steps q q' → Inv q → q.closed ≡ true → IsLess q q'
  Steps-IsLess rest h e = (h, e, omega arith)
  Steps-IsLess (more {q₁} {q₂} s t) h e =
      let (i, c, l) = Steps-IsLess s h e in
      (Step-Inv t i, ground (arith, c, Step-closed t), omega (arith, l, Step-Fewer t i c))

  -- What other tasks do are locked sections.
  abbrev pub IsBusy : Others g closeable → Type 0
  IsBusy others = (log : List g.Waker) (q : QueueState g closeable) → Steps q (others log q)

  -- The call returned, and left nobody in a closed, discarded queue.
  abbrev pub ShutsDown : Exec (QueueState g closeable × List g.Waker) (Unit {0}) → Type 0
  ShutsDown (returns (q, _) _) =
      (waiting q ≡ []) × (q.closed ≡ true) × (still_open q ≡ false) × Inv q
  ShutsDown (unwinds _) = ⊥
  ShutsDown (faults _) = ⊥

  module _ (wake : AllWake g) (others : Others g closeable) (busy : IsBusy others) where
    batch-ShutsDown :
        (again : Round g) (n : ℕ) (q : QueueState g closeable) (ws : WakeBatch g)
        (log : List g.Waker)
        → length (waiting q) < 32 + n
        → ((q₁ : QueueState g closeable) (ws₁ : WakeBatch g) (log₁ : List g.Waker)
            → length (waiting q₁) < n
            → (wakers g).to_list ws₁ ≡ []
            → Inv q₁
            → ShutsDown (again q₁ ws₁ log₁))
        → (r : Gathered g) → Gathers 32 (waiting q) q ws r
        → ShutsDown (closed_batch again others log r)
    unfolding closed_batch woke
    batch-ShutsDown again n q ws log l next (returns (q₁, ws₁) _) h =
        rw (wake_all-AllWake g wake log ((wakers g).drain ws₁).0) (
          Bool-intro ShutsDown (still_open q₁)
            (λ open_still.
              let (i, c, f) = Steps-IsLess (busy _ q₁) h.inv h.closing.closes in
              next _ _ _
                (omega (
                  arith,
                  l,
                  f,
                  ap length h.waits,
                  length-drop 32 (waiting q),
                  positive (waiting q₁) (ground (arith, h.closing.opens, open_still)),
                ))
                ((wakers g).drain_lem ws₁).1 i)
            (λ done.
              (empty (waiting q₁) (sym h.closing.opens ∙ done), h.closing.closes, done, h.inv)))
    batch-ShutsDown again n q ws log l next (unwinds _) h = absurd h
    batch-ShutsDown again n q ws log l next (faults _) h = absurd h

    close_rounds-ShutsDown :
        (fuel : ℕ) (q : QueueState g closeable) (ws : WakeBatch g) (log : List g.Waker)
        → length (waiting q) < 32 * fuel
        → (wakers g).to_list ws ≡ []
        → Inv q
        → ShutsDown (close_rounds fuel others q ws log)
    unfolding close_rounds
    close_rounds-ShutsDown zero q ws log f e h = absurd (omega arith)
    close_rounds-ShutsDown (suc fuel) q ws log f e h =
        batch-ShutsDown (close_rounds fuel others) (32 * fuel) q ws log (omega arith)
          (λ q₁ ws₁ log₁ l e₁ h₁. close_rounds-ShutsDown fuel q₁ ws₁ log₁ l e₁ h₁) (gather 33 q ws)
          (gather-Gathers 33 32 (waiting q) q ws (omega arith) (omega (arith, ap length e))
            (λ z. absurd (omega arith)) refl h)

    -- `close` ends while other tasks use the queue. If no waker panics, the queue is well-formed,
    -- and 32 times the fuel is more than the number of tasks that wait at the start: whatever
    -- locked sections of any operations the other tasks fit in between its own, returning or
    -- panicking, `close` returns, and leaves the queue well-formed, closed and discarded, with
    -- nobody waiting.
    pub close-ShutsDown :
        (fuel : ℕ) (q : QueueState g closeable)
        → length (waiting q) < 32 * fuel
        → Inv q
        → ShutsDown (close fuel others q)
    unfolding close
    close-ShutsDown fuel q f h =
        close_rounds-ShutsDown fuel q (wakers g).new [] f (wakers g).to_list-new h
