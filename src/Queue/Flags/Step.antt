-- ===== src/Queue/Flags/Step.antt =====
-- flag-bearer-queue/src: the flags over one locked section of any operation.
use flag_bearer.Base.{
  suc, ◌≡◌, refl, sym, subst, Bool, true, false, ◌||◌, Exec, returns, unwinds, faults,
}
use flag_bearer.Closeable.{Kind, closeable, uncloseable}
use flag_bearer.External.{Setting}
use flag_bearer.Queue.State.{QueueState, update_state, clear_poison}
use flag_bearer.Queue.Wake.{wakers, capacity}
use flag_bearer.Queue.Check.{check}
use flag_bearer.Queue.Admit.{try_acquire}
use flag_bearer.Queue.Acquire.{poll, leave}
use flag_bearer.Queue.Close.{gather}
use flag_bearer.Queue.System.{
  Ends, Closes, Step, polls, tries, updates, leaves, checks, clears, closes,
}
use flag_bearer.Queue.Flags.{Where, Lasts, same, update_state-Lasts, try_acquire-Lasts}
use flag_bearer.Queue.Flags.Poll.{poll-Lasts, leave-Lasts}
use flag_bearer.Queue.Flags.Check.{check-Lasts, gather-Lasts}

implied : (a b : Bool) → (a ≡ true → b ≡ true) → (a || b) ≡ b
implied true b h = sym (h refl)
implied false b h = refl

pub Ends-Where :
    {S A Q : Type 0} (P : Q → Type 0) (f : S → Q) (q : Q) (r : Exec S A)
    → Where (λ s. P (f s)) r
    → Ends (λ s. f s ≡ q) r
    → P q
Ends-Where P f q (returns s a) h e = subst P e h
Ends-Where P f q (unwinds s) h e = subst P e h
Ends-Where P f q (faults x) h e = absurd e

Closes-Lasts : {g : Setting} (c : Kind) (q q' : QueueState g c) → Closes c q q' → Lasts q q'
Closes-Lasts {g} closeable q q' e =
    Ends-Where (Lasts q) (λ s. s.0) q' (gather (suc capacity) q (wakers g).new)
      (gather-Lasts q (suc capacity) q (wakers g).new (same q q refl refl)) e
Closes-Lasts uncloseable q q' e = absurd e

module _ {g : Setting} {c : Kind} where
  -- A flag that is set before is set afterwards.
  pub record AreKept (q q' : QueueState g c) : Type 0 where
    pub closes : (q.closed || q'.closed) ≡ q'.closed
    pub poisons : (q.poisoned || q'.poisoned) ≡ q'.poisoned

  -- What a section does to the flags: `clear_poison` resets the poison, and nothing else of the state;
  -- a section of any other operation keeps both flags.
  abbrev pub Flags : {q q' : QueueState g c} → Step q q' → Type 0
  Flags {q} {q'} (clears e) = q' ≡ record q { poisoned = false }
  Flags {q} {q'} (polls fut w m e) = AreKept q q'
  Flags {q} {q'} (tries params fair e) = AreKept q q'
  Flags {q} {q'} (updates f e) = AreKept q q'
  Flags {q} {q'} (leaves k i e) = AreKept q q'
  Flags {q} {q'} (checks e) = AreKept q q'
  Flags {q} {q'} (closes e) = AreKept q q'

  lasting : (q q' : QueueState g c) → Lasts q q' → AreKept q q'
  lasting q q' h = record {
    closes = implied q.closed q'.closed h.closes;
    poisons = implied q.poisoned q'.poisoned h.poisons;
  }

  -- Closing is for good, and poison stays until it is cleared. After a locked section of a poll, a try,
  -- a callback, a cancelled future, `check` or `close`, in any state, whether it returns or panics, a
  -- closed queue is closed and a poisoned queue is poisoned. A section of `clear_poison` resets the
  -- poison and changes nothing else.
  pub Step-Flags : {q q' : QueueState g c} (s : Step q q') → Flags s
  unfolding clear_poison
  Step-Flags {q} {q'} (polls fut w m e) =
      lasting q q' (Ends-Where (Lasts q) (λ s. s.0) q' (poll q fut w) (poll-Lasts q fut w) e)
  Step-Flags {q} {q'} (tries params fair e) = lasting q q' (
      Ends-Where (Lasts q) (λ s. s) q' (try_acquire q params fair) (try_acquire-Lasts q params fair)
        e)
  Step-Flags {q} {q'} (updates f e) =
      lasting q q' (Ends-Where (Lasts q) (λ s. s) q' (update_state q f) (update_state-Lasts q f) e)
  Step-Flags {q} {q'} (leaves k i e) =
      lasting q q' (Ends-Where (Lasts q) (λ s. s) q' (leave k q) (leave-Lasts q k) e)
  Step-Flags {q} {q'} (checks e) =
      lasting q q' (
        Ends-Where (Lasts q) (λ s. s.0) q' (check q (wakers g).new) (check-Lasts q (wakers g).new)
          e)
  Step-Flags {q} {q'} (clears e) = e
  Step-Flags {q} {q'} (closes e) = lasting q q' (Closes-Lasts c q q' e)

  pub Step-closed : {q q' : QueueState g c} → Step q q' → (q.closed || q'.closed) ≡ q'.closed
  Step-closed {q} {q'} s = go s (Step-Flags s)
    where
      go : (s : Step q q') → Flags s → (q.closed || q'.closed) ≡ q'.closed
      go (clears e) h = implied q.closed q'.closed (λ k. rw h k)
      go (polls fut w m e) h = h.closes
      go (tries params fair e) h = h.closes
      go (updates f e) h = h.closes
      go (leaves k i e) h = h.closes
      go (checks e) h = h.closes
      go (closes e) h = h.closes
