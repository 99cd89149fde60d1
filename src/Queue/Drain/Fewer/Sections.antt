-- ===== src/Queue/Drain/Fewer/Sections.antt =====
-- flag-bearer-queue/src: who waits in a closed queue, over the locked sections of all
-- operations.
use flag_bearer.Base.{
  ◌≡◌, refl, ap, Bool, true, returns, unwinds, faults, arith, Bool-cases, inl, inr, length,
  length-drop,
}
use flag_bearer.Closeable.{closeable}
use flag_bearer.External.{Setting}
use flag_bearer.Queue.State.{QueueState, waiting, update_state, clear_poison}
use flag_bearer.Queue.Wake.{WakeBatch, wakers, length-new}
use flag_bearer.Queue.Check.{check}
use flag_bearer.Queue.Admit.{try_acquire}
use flag_bearer.Queue.Acquire.{poll, leave}
use flag_bearer.Queue.Close.{gather, Gathered}
use flag_bearer.Queue.System.{Step, polls, tries, updates, leaves, checks, clears, closes}
use flag_bearer.Queue.Sound.{Inv}
use flag_bearer.Queue.Serve.Check.{check_idle}
use flag_bearer.Queue.Flags.{Where}
use flag_bearer.Queue.Flags.Step.{Ends-Where}
use flag_bearer.Queue.Drain.Fewer.{Fewer, refused, poll-Fewer}
use flag_bearer.Queue.Drain.Gather.{Gathers, gather-Gathers}
use flag_bearer.Queue.Drain.Fewer.Leave.{update_state-Untouched, Untouched-Fewer, leave-Fewer}

module _ {g : Setting} where
  try_acquire-Fewer :
      (q : QueueState g closeable) (p : g.Params) (fair : Bool)
      → q.closed ≡ true
      → Where (Fewer q) (try_acquire q p fair)
  unfolding try_acquire
  try_acquire-Fewer q p fair e =
      rw (refused q p fair e)
        (elim (Bool-cases q.poisoned) [ inl h ↦ rw h (omega arith) | inr h ↦ rw h (omega arith) ])

  check-Fewer :
      (q : QueueState g closeable) (ws : WakeBatch g)
      → q.closed ≡ true
      → Where (λ s. Fewer q s.0) (check q ws)
  check-Fewer q ws e = rw (check_idle q ws (ground (arith, e))) (omega arith)

  gathered-Fewer :
      (q : QueueState g closeable) (ws : WakeBatch g) (r : Gathered g)
      → Gathers 32 (waiting q) q ws r
      → Where (λ s. Fewer q s.0) r
  gathered-Fewer q ws (returns (q', _) _) h =
      omega (arith, ap length h.waits, length-drop 32 (waiting q))
  gathered-Fewer q ws (unwinds _) h = absurd h
  gathered-Fewer q ws (faults _) h = absurd h

  gather-Fewer :
      (q : QueueState g closeable) → Inv q → Where (λ s. Fewer q s.0) (gather 33 q (wakers g).new)
  gather-Fewer q inv = gathered-Fewer q (wakers g).new _ (
      gather-Gathers 33 32 (waiting q) q (wakers g).new (omega arith) (omega (arith, length-new g))
        (λ z. absurd (omega arith)) refl inv)

  -- In a well-formed closed queue, no locked section of any operation makes the number of waiting
  -- tasks larger, whether it returns or panics.
  pub Step-Fewer :
      {q q' : QueueState g closeable} → Step q q' → Inv q → q.closed ≡ true → Fewer q q'
  unfolding clear_poison
  Step-Fewer {q} {q'} (polls fut w m e) inv h =
      Ends-Where (Fewer q) (λ s. s.0) q' (poll q fut w) (poll-Fewer q fut w inv h) e
  Step-Fewer {q} {q'} (tries params fair e) inv h =
      Ends-Where (Fewer q) (λ s. s) q' (try_acquire q params fair)
        (try_acquire-Fewer q params fair h) e
  Step-Fewer {q} {q'} (updates f e) inv h =
      Ends-Where (Fewer q) (λ s. s) q' (update_state q f)
        (Untouched-Fewer q q _ (omega arith) (update_state-Untouched q f)) e
  Step-Fewer {q} {q'} (leaves k i e) inv h =
      Ends-Where (Fewer q) (λ s. s) q' (leave k q) (leave-Fewer k q i inv) e
  Step-Fewer {q} {q'} (checks e) inv h =
      Ends-Where (Fewer q) (λ s. s.0) q' (check q (wakers g).new) (check-Fewer q (wakers g).new h) e
  Step-Fewer {q} {q'} (clears e) inv h = omega (arith, ap (λ t. length (waiting t)) e)
  Step-Fewer {q} {q'} (closes e) inv h =
      Ends-Where (Fewer q) (λ s. s.0) q' (gather 33 q (wakers g).new) (gather-Fewer q inv) e
