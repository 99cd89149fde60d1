-- ===== src/Queue/Sound/Reach.antt =====
-- flag-bearer-queue/src: the states that a queue reaches, and its well-formedness.
use flag_bearer.Base.{suc, ◌≡◌, sym, subst, Bool, true, Exec, returns, unwinds, faults, arith}
use flag_bearer.Closeable.{Kind, closeable, uncloseable}
use flag_bearer.External.{Setting}
use flag_bearer.Queue.State.{pin_queue, QueueState, new, clear_poison}
use flag_bearer.Queue.Wake.{wakers, capacity, not-full, length-new}
use flag_bearer.Queue.Admit.{Outcome, try_acquire, acquire_or_enqueue, reported}
use flag_bearer.Queue.Acquire.{poll, leave}
use flag_bearer.Queue.Check.{check}
use flag_bearer.Queue.Close.{gather}
use flag_bearer.Queue.System.{
  Ends, Closes, Step, polls, tries, updates, leaves, checks, clears, closes, Reach, here, next,
}
use flag_bearer.Queue.Sound.{Inv, Keeps}
use flag_bearer.Queue.Sound.Admit.{Admits, Inv-same, acquire_or_enqueue-Admits}
use flag_bearer.Queue.Sound.Poll.{poll-Inv}
use flag_bearer.Queue.Sound.Leave.{leave-Inv, update_state-Inv}
use flag_bearer.Queue.Sound.Check.{check-Inv}
use flag_bearer.Queue.Sound.Close.{gather-Inv}

-- What a call keeps holds where it ends.
Ends-Keeps :
    {S A : Type 0} (P Q : S → Type 0) (T : Type 0) (r : Exec S A)
    → ((s : S) → P s → Q s → T)
    → Keeps P r
    → Ends Q r
    → T
Ends-Keeps P Q T (returns s _) f k e = f s k e
Ends-Keeps P Q T (unwinds s) f k e = f s k e
Ends-Keeps P Q T (faults _) f k e = absurd e

pub new-Inv : (g : Setting) (c : Kind) (s : g.State) (o : g.Policy) → Inv (new g c s o)
unfolding new
new-Inv g c s o =
    rw ((pin_queue g c).linked-new, (pin_queue g c).removed-new)
      (record {
        counted = omega arith;
        fits = omega arith;
        single = λ k. omega arith;
        discarded = tt;
        allowed = λ e. cc;
      })

module _ {g : Setting} {c : Kind} where
  pub clear_poison-Inv : (q : QueueState g c) → Inv q → Inv (clear_poison q)
  unfolding clear_poison
  clear_poison-Inv q h = h

  pub try_acquire-Inv :
      (q : QueueState g c) (params : g.Params) (fair : Bool)
      → Inv q
      → Keeps Inv (try_acquire q params fair)
  unfolding try_acquire
  try_acquire-Inv q params fair h =
      go (acquire_or_enqueue q params fair) (acquire_or_enqueue-Admits q params fair)
    where
      go : (r : Exec (QueueState g c) (Outcome g c)) → Admits q r → Keeps Inv (reported r)
      go (returns q' o) a = Inv-same q q' a.0 h
      go (unwinds q') a = Inv-same q q' a h
      go (faults f) a = a

Closes-Inv : {g : Setting} (c : Kind) (q q' : QueueState g c) → Inv q → Closes c q q' → Inv q'
Closes-Inv {g} closeable q q' h e =
    Ends-Keeps (λ s. Inv s.0 × (s.0.closed ≡ true)) (λ s. s.0 ≡ q') (Inv q')
      (gather (suc capacity) q (wakers g).new) (λ s k f. subst Inv f k.0)
      (gather-Inv (suc capacity) q (wakers g).new (omega (arith, length-new g))
        (omega (arith, length-new g))
        (λ full. cc (full, not-full g (wakers g).new (omega (arith, length-new g)))) h)
      e
Closes-Inv uncloseable q q' h e = absurd e

module _ {g : Setting} {c : Kind} where
  -- Every locked section, of any operation, keeps the queue well-formed: `len` counts the linked
  -- nodes, no node is in two places, a discarded list has no linked nodes and is closed.
  pub Step-Inv : {q q' : QueueState g c} → Step q q' → Inv q → Inv q'
  Step-Inv {q} {q'} (polls fut w m e) h =
      Ends-Keeps (λ s. Inv s.0) (λ s. s.0 ≡ q') (Inv q') (poll q fut w) (λ s k f. subst Inv f k)
        (poll-Inv q fut w m h) e
  Step-Inv {q} {q'} (tries params fair e) h =
      Ends-Keeps Inv (λ s. s ≡ q') (Inv q') (try_acquire q params fair) (λ s k f. subst Inv f k)
        (try_acquire-Inv q params fair h) e
  Step-Inv {q} {q'} (updates f e) h =
      Ends-Keeps Inv (λ s. s ≡ q') (Inv q') _ (λ s k i. subst Inv i k) (update_state-Inv q f h) e
  Step-Inv {q} {q'} (leaves k i e) h =
      Ends-Keeps Inv (λ s. s ≡ q') (Inv q') (leave k q) (λ s k f. subst Inv f k) (leave-Inv k q i h)
        e
  Step-Inv {q} {q'} (checks e) h =
      Ends-Keeps (λ s. Inv s.0) (λ s. s.0 ≡ q') (Inv q') (check q (wakers g).new)
        (λ s k f. subst Inv f k) (check-Inv q (wakers g).new ((wakers g).to_list-new) h) e
  Step-Inv {q} {q'} (clears e) h = subst Inv (sym e) (clear_poison-Inv q h)
  Step-Inv {q} {q'} (closes e) h = Closes-Inv c q q' h e

  -- In every state that any interleaving of locked sections reaches from a new queue, where each poll
  -- that joins has memory for its node, the queue is well-formed: `len` counts the waiting tasks and
  -- fits a machine word, no node is in two places, a discarded list has no waiting tasks and belongs
  -- to a closed queue, and only a closeable queue is closed.
  pub Reach-Inv : {s : g.State} {o : g.Policy} {q : QueueState g c} → Reach s o q → Inv q
  Reach-Inv {s} {o} here = new-Inv g c s o
  Reach-Inv (next r st) = Step-Inv st (Reach-Inv r)
