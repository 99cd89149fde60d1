-- ===== src/Queue/Ledger.antt =====
-- flag-bearer-queue/src/acquire.rs: `acquire_or_enqueue`, and permits as an account: what the user's
-- state says of the permits that are out, and what lies in the nodes of tasks that were served and
-- have not claimed their permit.
pub mod Poll
pub mod Leave
pub mod Check
pub mod World
pub mod Outstanding
pub mod Conserve
use flag_bearer.Base.{
  ℕ, ◌+◌, ◌≡◌, ◌∙◌, refl, ap, List, [], ◌∷◌, Option, some, Result, ok, err, Call, gives, panics,
  Bool, true, false, ◌||◌, ◌&&◌, if-intro, Result-intro, Exec, returns, unwinds, faults, arith,
  find, erase, none,
}
use flag_bearer.Closeable.{Kind, can_close, new_err, ErrorOf}
use flag_bearer.External.{Setting}
use flag_bearer.Queue.State.{Removed, pin_queue, QueueState, settled}
use flag_bearer.Queue.Admit.{
  Outcome, acquired, closed, poisoned, enqueue, acquire_or_enqueue, attempted, lead, ordered,
  turn_away, try_acquire, reported, report,
}

-- What a user's state says of the permits that are out: of their number and of what they are worth.
-- `acquire` and `release` keep to it and do not panic, as long as it holds. So do the callbacks of
-- `with_state` in `Tunes`.
pub record Account (g : Setting) : Type 1 where
  pub worth : g.Permit → ℕ
  pub Holds : g.State → ℕ → ℕ → Type 0
  pub Tunes : (g.State → Call g.State (Unit {0})) → Type 0
  pub acquires :
      (s s' : g.State) (n w : ℕ) (p : g.Params) (permit : g.Permit)
      → Holds s n w
      → g.acquire s p ≡ gives s' (ok permit)
      → Holds s' (n + 1) (w + worth permit)
  pub refuses :
      (s s' : g.State) (n w : ℕ) (p p' : g.Params)
      → Holds s n w
      → g.acquire s p ≡ gives s' (err p')
      → Holds s' n w
  pub steady :
      (s s' : g.State) (n w : ℕ) (p : g.Params) → Holds s n w → ¬ (g.acquire s p ≡ panics s')
  pub releases :
      (s s' : g.State) (n w : ℕ) (permit : g.Permit)
      → Holds s (n + 1) (w + worth permit)
      → g.release s permit ≡ gives s' tt
      → Holds s' n w
  pub returned :
      (s s' : g.State) (n w : ℕ) (permit : g.Permit)
      → Holds s (n + 1) (w + worth permit)
      → ¬ (g.release s permit ≡ panics s')
  pub tunes :
      (s s' : g.State) (n w : ℕ) (f : g.State → Call g.State (Unit {0}))
      → Tunes f
      → Holds s n w
      → f s ≡ gives s' tt
      → Holds s' n w
  pub tuned :
      (s s' : g.State) (n w : ℕ) (f : g.State → Call g.State (Unit {0}))
      → Tunes f
      → Holds s n w
      → ¬ (f s ≡ panics s')

module _ {P : Type 0} (worth : P → ℕ) where
  abbrev pub value : {E : Type 0} → Result P E → ℕ
  value (ok permit) = worth permit
  value (err _) = 0

  -- The permits in the nodes.
  abbrev pub stored : {E : Type 0} → List (ℕ × Result P E) → ℕ
  stored [] = 0
  stored ((k, r) ∷ ys) = value r + stored ys

  -- Permits that somebody holds.
  abbrev pub total : List P → ℕ
  total [] = 0
  total (permit ∷ xs) = worth permit + total xs

  pub stored-erase :
      {E : Type 0} (k : ℕ) (r : Result P E) (ys : List (ℕ × Result P E))
      → find k ys ≡ some r
      → stored (erase k ys) + value r ≡ stored ys
  stored-erase k r [] e = cc
  stored-erase k r ((j, a) ∷ ys) e = ground (arith, stored-erase k r ys)

-- Every permit counts as one.
abbrev pub one : {P : Type 0} → P → ℕ
one permit = 1

module _ {g : Setting} (m : Account g) where
  open m use {Holds}

  pub Holds-at : (s : g.State) (n n' w w' : ℕ) → n' ≡ n → w' ≡ w → Holds s n w → Holds s n' w'
  Holds-at s n n' w w' a b h = rw (a, b) h

  pub Holds-moved :
      (s s' : g.State) (n n' w w' : ℕ) → s' ≡ s → n' ≡ n → w' ≡ w → Holds s n w → Holds s' n' w'
  Holds-moved s s' n n' w w' e a b h = rw (e, a, b) h

module _ {g : Setting} {c : Kind} (m : Account g) where
  open m use {worth, Holds}

  -- The queue is healthy, and `n` permits worth `w` are out, in its nodes or with tasks.
  abbrev pub Free : QueueState g c → ℕ → ℕ → Type 0
  Free q n w = (q.poisoned ≡ false) × Holds q.state n w

  -- The same, where only the permits outside of the queue are told.
  abbrev pub Kept : QueueState g c → ℕ → ℕ → Type 0
  Kept q n w = Free q (stored one (settled q) + n) (stored worth (settled q) + w)

  pub Kept-moved :
      (q q' : QueueState g c) (n n' w w' : ℕ)
      → q'.poisoned ≡ q.poisoned
      → q'.state ≡ q.state
      → stored one (settled q') + n' ≡ stored one (settled q) + n
      → stored worth (settled q') + w' ≡ stored worth (settled q) + w
      → Kept q n w
      → Kept q' n' w'
  Kept-moved q q' n n' w w' a b d e h = (a ∙ h.0, rw (b, d, e) h.1)

  -- What an attempt takes from the user's state.
  abbrev pub Pays : ℕ → ℕ → Exec (QueueState g c) (Outcome g c) → Type 0
  Pays n w (returns q' (acquired permit)) = Free q' (n + 1) (w + worth permit)
  Pays n w (returns q' (closed _)) = Free q' n w
  Pays n w (returns q' (poisoned _)) = Free q' n w
  Pays n w (returns q' (enqueue _ _)) = Free q' n w
  Pays n w (unwinds q') = Free q' n w
  Pays n w (faults _) = Unit {0}

  module _ (q : QueueState g c) (params : g.Params) (n w : ℕ) (h : Free q n w) where
    turn_away-Pays : (e : Option (ErrorOf c g.Params)) → Pays n w (turn_away q e)
    unfolding turn_away
    turn_away-Pays none = h
    turn_away-Pays (some e) = h

    attempted-Pays :
        (front : Bool) (o : g.Policy) (call : Call g.State (Result g.Permit g.Params))
        → g.acquire q.state params ≡ call
        → Pays n w (attempted front (record q { order = o }) call)
    unfolding attempted
    attempted-Pays front o (panics s) e = absurd (m.steady q.state s n w params h.1 e)
    attempted-Pays front o (gives s (ok permit)) e =
        (h.0, m.acquires q.state s n w params permit h.1 e)
    attempted-Pays front o (gives s (err p)) e = (h.0, m.refuses q.state s n w params p h.1 e)

    lead-Pays :
        (front empty : Bool) (o : g.Policy)
        → Pays n w (lead front empty (record q { order = o }) params)
    unfolding lead
    lead-Pays front empty o =
        if-intro (Pays n w) (front || empty)
          (attempted-Pays front o (g.acquire q.state params) refl) h

    ordered-Pays :
        (empty : Bool) (call : Call g.Policy Bool) → Pays n w (ordered empty q params call)
    unfolding ordered
    ordered-Pays empty (panics o) = h
    ordered-Pays empty (gives o front) = lead-Pays front empty o

    pub acquire_or_enqueue-Pays : (fair : Bool) → Pays n w (acquire_or_enqueue q params fair)
    unfolding acquire_or_enqueue
    acquire_or_enqueue-Pays fair = if-intro (Pays n w) q.poisoned h (
        if-intro (Pays n w) (can_close c && q.closed) (turn_away-Pays (new_err c params)) (
          Result-intro (Pays n w) q.queue
            (λ u e.
              if-intro (Pays n w) fair
                (ordered-Pays ((pin_queue g c).is_empty q.nodes) (g.enqueue_front q.order q.len))
                (lead-Pays true ((pin_queue g c).is_empty q.nodes) q.order))
            (λ v e. turn_away-Pays (new_err c params))))
