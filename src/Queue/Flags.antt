-- ===== src/Queue/Flags.antt =====
-- flag-bearer-queue/src: the flags `closed` and `poisoned` over the locked sections.
pub mod Poll
pub mod Check
pub mod Step
use flag_bearer.Base.{
  ℕ, zero, suc, ◌≡◌, refl, sym, subst, Bool, true, false, ◌||◌, ◌&&◌, ◌⊎◌, inl, inr, Option, none,
  some, Result, ok, err, Call, gives, panics, Exec, returns, unwinds, faults, if-intro, Bool-intro,
  Result-intro, if◌then◌else◌, length,
}
use flag_bearer.Closeable.{
  Kind, closeable, uncloseable, can_close, map_err, new_err, ErrorOf, TryAcquireError,
}
use flag_bearer.External.{Setting, NodeData, linked, removed}
use flag_bearer.Queue.State.{
  Protected, Removed, Nodes, pin_queue, QueueState, waiting, guarded, update_state, clear_poison,
}
use flag_bearer.Queue.Wake.{WakeBatch, wakers, capacity}
use flag_bearer.Queue.Admit.{
  Outcome, acquired, closed, poisoned, enqueue, turn_away, attempted, lead, ordered,
  acquire_or_enqueue, reported, try_acquire,
}
use flag_bearer.Queue.Acquire.{
  Acquire, Polled, join, enqueued, started, failed, claimed, looked, look, unlinked, poll_again,
  start, poll, expect, Dropped, nothing, give_back, left, left_closed, leave,
}

-- `P` holds of the state in which the call ends, if it ends.
abbrev pub Where : {S A : Type 0} → (S → Type 0) → Exec S A → Type 0
Where P (returns s _) = P s
Where P (unwinds s) = P s
Where P (faults _) = Unit {0}

module _ {g : Setting} {c : Kind} where
  -- A flag that is set in `q` is set in `q'`.
  pub record Lasts (q q' : QueueState g c) : Type 0 where
    pub closes : q.closed ≡ true → q'.closed ≡ true
    pub poisons : q.poisoned ≡ true → q'.poisoned ≡ true

  pub same : (q q' : QueueState g c) → q'.closed ≡ q.closed → q'.poisoned ≡ q.poisoned → Lasts q q'
  same q q' a b = record { closes = λ h. rw a h; poisons = λ h. rw b h }

  guarded-Lasts :
      {A : Type 0} (q : QueueState g c) (call : Call g.State A) → Where (Lasts q) (guarded q call)
  unfolding guarded
  guarded-Lasts q (gives s a) = same q _ refl refl
  guarded-Lasts q (panics s) = record { closes = λ h. h; poisons = λ h. refl }

  pub update_state-Lasts :
      {A : Type 0} (q : QueueState g c) (f : g.State → Call g.State A)
      → Where (Lasts q) (update_state q f)
  unfolding update_state
  update_state-Lasts q f = guarded-Lasts q (f q.state)

  -- acquire_or_enqueue
  module _ (q : QueueState g c) where
    turn_away-Lasts : (e : Option (ErrorOf c g.Params)) → Where (Lasts q) (turn_away q e)
    unfolding turn_away
    turn_away-Lasts none = same q q refl refl
    turn_away-Lasts (some e) = same q q refl refl

    attempted-Lasts :
        (front : Bool) (o : g.Policy) (call : Call g.State (Result g.Permit g.Params))
        → Where (Lasts q) (attempted front (record q { order = o }) call)
    unfolding attempted
    attempted-Lasts front o (panics s) = record { closes = λ h. h; poisons = λ h. refl }
    attempted-Lasts front o (gives s (ok permit)) = same q _ refl refl
    attempted-Lasts front o (gives s (err p)) = same q _ refl refl

    lead-Lasts :
        (front empty : Bool) (o : g.Policy) (params : g.Params)
        → Where (Lasts q) (lead front empty (record q { order = o }) params)
    unfolding lead
    lead-Lasts front empty o params =
        if-intro (Where (Lasts q)) (front || empty)
          (attempted-Lasts front o (g.acquire q.state params)) (same q _ refl refl)

    ordered-Lasts :
        (empty : Bool) (params : g.Params) (call : Call g.Policy Bool)
        → Where (Lasts q) (ordered empty q params call)
    unfolding ordered
    ordered-Lasts empty params (panics o) = same q _ refl refl
    ordered-Lasts empty params (gives o front) = lead-Lasts front empty o params

    pub acquire_or_enqueue-Lasts :
        (params : g.Params) (fair : Bool) → Where (Lasts q) (acquire_or_enqueue q params fair)
    unfolding acquire_or_enqueue
    acquire_or_enqueue-Lasts params fair =
        if-intro (Where (Lasts q)) q.poisoned (same q q refl refl) (
          if-intro (Where (Lasts q)) (can_close c && q.closed) (turn_away-Lasts (new_err c params))
            (Result-intro (Where (Lasts q)) q.queue
              (λ u e.
                if-intro (Where (Lasts q)) fair
                  (ordered-Lasts ((pin_queue g c).is_empty q.nodes) params
                    (g.enqueue_front q.order q.len))
                  (lead-Lasts true ((pin_queue g c).is_empty q.nodes) q.order params))
              (λ v e. turn_away-Lasts (new_err c params))))

    pub try_acquire-Lasts :
        (params : g.Params) (fair : Bool) → Where (Lasts q) (try_acquire q params fair)
    unfolding try_acquire
    try_acquire-Lasts params fair =
        go (acquire_or_enqueue q params fair) (acquire_or_enqueue-Lasts params fair)
      where
        go :
            (r : Exec (QueueState g c) (Outcome g c))
            → Where (Lasts q) r
            → Where (Lasts q) (reported r)
        go (returns q' o) h = h
        go (unwinds q') h = h
        go (faults f) h = h
