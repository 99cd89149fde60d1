-- ===== src/Queue/Drain/Fewer.antt =====
-- flag-bearer-queue/src: who waits in a closed queue, over polls.
pub mod Leave
pub mod Sections
use flag_bearer.Base.{
  ℕ, suc, ◌+◌, ◌≤◌, ◌≡◌, refl, sym, subst, ap, ◌∙◌, Bool, true, false, ◌||◌, Option, none, some,
  List, [], ◌∷◌, Result, ok, err, Call, gives, panics, Exec, returns, unwinds, faults, arith,
  if-intro, Result-intro, Bool-cases, inl, inr, has, find, find-has, find-none, erase, length, drop,
  length-drop, if◌then◌else◌, is_nil,
}
use flag_bearer.Closeable.{Kind, closeable}
use flag_bearer.External.{Setting, NodeData, linked, removed}
use flag_bearer.Queue.State.{
  Protected, Removed, Nodes, pin_queue, QueueState, waiting, settled, guarded, update_state,
  clear_poison,
}
use flag_bearer.Queue.Wake.{WakeBatch, wakers, length-new}
use flag_bearer.Queue.Check.{check}
use flag_bearer.Queue.Admit.{
  Outcome, acquired, closed, poisoned, enqueue, acquire_or_enqueue, reported, try_acquire,
  turn_away,
}
use flag_bearer.Queue.Acquire.{
  ready, pending, Acquire, Polled, poll, start, started, leave, left, left_closed, give_back,
  nothing,
}
use flag_bearer.Queue.Close.{gather, Gathered}
use flag_bearer.Queue.System.{
  Ends, Closes, Step, polls, tries, updates, leaves, checks, clears, closes,
}
use flag_bearer.Queue.Sound.{Inv, discarded-waiting}
use flag_bearer.Queue.Claim.{At, Claims, poll-Claims, IsClaimed}
use flag_bearer.Queue.Serve.Check.{check_idle}
use flag_bearer.Queue.Flags.{Where}
use flag_bearer.Queue.Flags.Step.{Ends-Where}
use flag_bearer.Queue.Drain.Gather.{Gathers, gather-Gathers}

pub erase-le : {A : Type 0} (k : ℕ) (xs : List (ℕ × A)) → length (erase k xs) ≤ length xs
erase-le k [] = omega arith
erase-le k ((j, a) ∷ xs) = ground (arith, erase-le k xs)

-- No more tasks wait in `q'` than in `q`.
abbrev pub Fewer : {g : Setting} {c : Kind} → QueueState g c → QueueState g c → Type 0
Fewer q q' = length (waiting q') ≤ length (waiting q)

module _ {g : Setting} where
  abbrev pub FewerPoll : QueueState g closeable → Polled g closeable → Type 0
  FewerPoll q r = Where (λ s. Fewer q s.0) r

  IsClaimed-Fewer :
      {n : ℕ} {xs : List (ℕ × Protected g)} {ys : List (ℕ × Removed g closeable)}
      (q q' : QueueState g closeable)
      → IsClaimed n xs ys q q'
      → length xs ≤ length (waiting q)
      → Fewer q q'
  IsClaimed-Fewer q q' h l = omega (arith, ap length h.waits, l)

  Claims-Fewer :
      (node : NodeData (Protected g) (Removed g closeable)) (w : g.Waker) (k : ℕ)
      (q : QueueState g closeable) (r : Polled g closeable)
      → Claims true node w k q r
      → FewerPoll q r
  Claims-Fewer node w k q (faults _) h = tt
  Claims-Fewer (removed (ok permit)) w k q (returns (q', _) (ready (ok _))) h =
      IsClaimed-Fewer q q' h.1 (omega arith)
  Claims-Fewer (removed (ok permit)) w k q (returns (q', _) (ready (err _))) h = absurd h
  Claims-Fewer (removed (ok permit)) w k q (returns (q', _) pending) h = absurd h
  Claims-Fewer (removed (ok permit)) w k q (unwinds (q', _)) h = absurd h
  Claims-Fewer (removed (err (some p))) w k q (returns (q', _) (ready (ok _))) h = absurd h
  Claims-Fewer (removed (err (some p))) w k q (returns (q', _) (ready (err _))) h =
      IsClaimed-Fewer q q' h.1 (omega arith)
  Claims-Fewer (removed (err (some p))) w k q (returns (q', _) pending) h = absurd h
  Claims-Fewer (removed (err (some p))) w k q (unwinds (q', _)) h = absurd h
  Claims-Fewer (removed (err none)) w k q (returns (q', _) (ready (ok _))) h = absurd h
  Claims-Fewer (removed (err none)) w k q (returns (q', _) (ready (err _))) h = absurd h
  Claims-Fewer (removed (err none)) w k q (returns (q', _) pending) h = absurd h
  Claims-Fewer (removed (err none)) w k q (unwinds (q', _)) h = IsClaimed-Fewer q q' h (omega arith)
  Claims-Fewer (linked (some p, v)) w k q (returns (q', _) (ready (ok _))) h = absurd h
  Claims-Fewer (linked (some p, v)) w k q (returns (q', _) (ready (err _))) h =
      IsClaimed-Fewer q q' h.1 (erase-le k (waiting q))
  Claims-Fewer (linked (some p, v)) w k q (returns (q', _) pending) h = absurd h
  Claims-Fewer (linked (some p, v)) w k q (unwinds (q', _)) h = absurd h
  Claims-Fewer (linked (none, v)) w k q (returns (q', _) (ready (ok _))) h = absurd h
  Claims-Fewer (linked (none, v)) w k q (returns (q', _) (ready (err _))) h = absurd h
  Claims-Fewer (linked (none, v)) w k q (returns (q', _) pending) h = absurd h
  Claims-Fewer (linked (none, v)) w k q (unwinds (q', _)) h =
      IsClaimed-Fewer q q' h (erase-le k (waiting q))

  pub refused :
      (q : QueueState g closeable) (p : g.Params) (fair : Bool)
      → q.closed ≡ true
      → acquire_or_enqueue q p fair ≡ (
          if q.poisoned then returns q (poisoned p) else returns q (closed (record { params = p })))
  unfolding acquire_or_enqueue turn_away
  refused q p fair e = elim (Bool-cases q.poisoned) [ inl h ↦ rw h refl | inr h ↦ rw (h, e) refl ]

  started-Fewer :
      (q : QueueState g closeable) (fut : Acquire g) (p : g.Params) (w : g.Waker)
      → q.closed ≡ true
      → FewerPoll q (started fut w (acquire_or_enqueue q p true))
  unfolding started
  started-Fewer q fut p w e =
      rw (refused q p true e)
        (elim (Bool-cases q.poisoned) [ inl h ↦ rw h (omega arith) | inr h ↦ rw h (omega arith) ])

  start-Fewer :
      (q : QueueState g closeable) (fut : Acquire g) (w : g.Waker) (params : Option g.Params)
      → q.closed ≡ true
      → FewerPoll q (start q fut w params)
  unfolding start
  start-Fewer q fut w none e = omega arith
  start-Fewer q fut w (some p) e = started-Fewer q (record fut { params = none }) p w e

  again-Fewer :
      (q : QueueState g closeable) (fut : Acquire g) (w : g.Waker)
      → Inv q
      → q.closed ≡ true
      → (has fut.node (waiting q) || has fut.node (settled q)) ≡ true
      → FewerPoll q (poll q fut w)
  again-Fewer q fut w inv e i = elim (Bool-cases (has fut.node (waiting q))) [
    | inl l ↦
        let (p, f) = find-has fut.node (waiting q) l in
        Claims-Fewer (linked p) w fut.node q _ (
          subst (λ b. Claims b (linked p) w fut.node q (poll q fut w)) e
            (poll-Claims q fut w (linked p) inv f))
    | inr l ↦
        let (r, f) = find-has fut.node (settled q) (ground (arith, l, i)) in
        Claims-Fewer (removed r) w fut.node q _ (
          subst (λ b. Claims b (removed r) w fut.node q (poll q fut w)) e
            (poll-Claims q fut w (removed r) inv (find-none fut.node (waiting q) l, f)))
  ]

  pub poll-Fewer :
      (q : QueueState g closeable) (fut : Acquire g) (w : g.Waker)
      → Inv q
      → q.closed ≡ true
      → FewerPoll q (poll q fut w)
  unfolding poll
  poll-Fewer q fut w inv e =
      elim (Bool-cases ((pin_queue g closeable).initialized fut.node q.nodes)) [
        | inl i ↦
            again-Fewer q fut w inv e
              (sym ((pin_queue g closeable).initialized_lem fut.node q.nodes) ∙ i)
        | inr i ↦ rw i (start-Fewer q fut w fut.params e)
      ]
