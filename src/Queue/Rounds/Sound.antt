-- ===== src/Queue/Rounds/Sound.antt =====
-- flag-bearer-queue/src: the well-formedness of the queue over the whole of `with_queue`, whatever
-- state the queue is in, with wakers and user calls that may panic.
use flag_bearer.Base.{
  ℕ, zero, suc, ◌+◌, ◌*◌, ◌≤◌, ◌<◌, ◌≡◌, ap, ◌∙◌, Bool, true, false, ◌&&◌, ◌||◌, List, [], ◌∷◌,
  ◌++◌, Exec, returns, unwinds, faults, abort, arith, length, ◌==◌, Bool-cases, Bool-intro, inl,
  inr, Result-cases,
}
use flag_bearer.Closeable.{Kind, can_close}
use flag_bearer.External.{Setting}
use flag_bearer.Queue.State.{QueueState, waiting, pin_queue}
use flag_bearer.Queue.Wake.{
  WakeBatch, wakers, wake_each, drop_remaining, wake_all, drop_batch, filled,
}
use flag_bearer.Queue.Check.{Checked, check}
use flag_bearer.Queue.Close.{Others}
use flag_bearer.Queue.Acquire.{Acquire, Dropped, leave}
use flag_bearer.Queue.Run.{
  Logged, notified, dropped_batch, checked, check_rounds, applied, with_queue, drop_acquire,
}
use flag_bearer.Queue.Serve.{Served, serve}
use flag_bearer.Queue.Serve.After.{IsAfter, IsServed}
use flag_bearer.Queue.Serve.Check.{IsServing, check-serve, check_idle, check_discarded}
use flag_bearer.Queue.Serve.Parts.{serve-IsSplit}
use flag_bearer.Queue.Serve.All.{serve-Part}
use flag_bearer.Queue.Sound.{Inv, Keeps}
use flag_bearer.Queue.Sound.Check.{after-Inv}
use flag_bearer.Queue.Sound.Leave.{leave-Inv}
use flag_bearer.Queue.Flags.{Where}
use flag_bearer.Queue.Drain.Fewer.{Fewer}
use flag_bearer.Queue.Drain.Fewer.Leave.{leave-Fewer}

-- Some waker panics.
abbrev SomePanics : Setting → Type 0
SomePanics g = (w : g.Waker) × (g.wakes w ≡ false)

module _ (g : Setting) where
  wake_each-panics : (ws : List g.Waker) → (wake_each g ws).2 ≡ false → SomePanics g
  unfolding wake_each
  wake_each-panics [] e = cc
  wake_each-panics (w ∷ ws) e = elim (Bool-cases (g.wakes w)) [
    | inl h ↦ wake_each-panics ws (ground (arith, e, h))
    | inr h ↦ (w, h)
  ]

module _ {g : Setting} {c : Kind} {T : Type 0} where
  -- A call ends in a well-formed queue, returning or panicking, without undefined behaviour and with
  -- enough fuel, or aborts; it aborts only if a waker panics.
  abbrev pub EndsWell : Logged g c T → Type 0
  EndsWell (returns (q, _) _) = Inv q
  EndsWell (unwinds (q, _)) = Inv q
  EndsWell (faults abort) = SomePanics g
  EndsWell (faults _) = ⊥

module _ {g : Setting} {c : Kind} where
  -- The queue is well-formed, and a full batch took 32 tasks off it.
  abbrev Shrinks : QueueState g c → QueueState g c × WakeBatch g → Type 0
  Shrinks q (q', ws') =
      Inv q' × ((wakers g).is_full ws' ≡ true → length (waiting q') + 32 ≤ length (waiting q))

  module _ (q : QueueState g c) (ws : WakeBatch g) (empty : (wakers g).to_list ws ≡ [])
      (inv : Inv q) where
    unfilled : (wakers g).is_full ws ≡ true → length (waiting q) + 32 ≤ length (waiting q)
    unfilled e = absurd (omega (arith, filled g ws e, ap length empty))

    abbrev walked : Served g
    walked = serve 31 q.state (waiting q)

    after-Shrinks :
        (o : IsServing q) (q' : QueueState g c) (ws' : WakeBatch g)
        → IsAfter [] walked q ws q' ws'
        → Shrinks q (q', ws')
    after-Shrinks o q' ws' a =
        (i, λ e. omega (arith, i.counted, inv.counted, a.counts, sizes, filled g ws' e))
      where
        i : Inv q'
        i = after-Inv walked q q' ws ws' inv o.opened (serve-IsSplit g 31 q.state (waiting q)) a

        sizes : length ((wakers g).to_list ws') ≡ length walked.granted
        sizes =
            ap length (a.batches ∙ ap (λ xs. xs ++ walked.woken) empty)
            ∙ (serve-Part 31 q.state (waiting q)).3

    served-Shrinks :
        (o : IsServing q) (r : Checked g c) → IsServed [] walked q ws r → Keeps (Shrinks q) r
    served-Shrinks o (returns (q', ws') _) h = after-Shrinks o q' ws' h.0
    served-Shrinks o (unwinds (q', ws')) h = after-Shrinks o q' ws' h.0
    served-Shrinks o (faults _) h = h

    check-Shrinks : Keeps (Shrinks q) (check q ws)
    check-Shrinks = elim (Bool-cases (q.poisoned || (can_close c && q.closed))) [
      | inl idle ↦ rw (check_idle q ws idle) (inv, unfilled)
      | inr busy ↦ elim (Result-cases q.queue) [
        | inl (u, o) ↦
            let s : IsServing q = record {
              healthy = ground arith;
              admitting = ground arith;
              opened = o;
            } in
            served-Shrinks s (check q ws) (check-serve q ws inv s empty)
        | inr (v, o) ↦ rw (check_discarded q ws v o) (inv, unfilled)
      ]
    ]

-- Other tasks keep the queue well-formed, and no more tasks wait than before.
abbrev pub AreCalm : {g : Setting} {c : Kind} → Others g c → Type 0
AreCalm {g} {c} others =
    (log : List g.Waker) (q : QueueState g c)
    → Inv q
    → Inv (others log q) × (length (waiting (others log q)) ≤ length (waiting q))

module _ {g : Setting} {c : Kind} (q : QueueState g c) (inv : Inv q) (log ws : List g.Waker) where
  -- A panic under the lock, with wakers left in the batch.
  drop_batch-EndsWell : (T : Type 0) → EndsWell {T = T} (dropped_batch q (drop_batch g log ws))
  unfolding dropped_batch drop_batch drop_remaining
  drop_batch-EndsWell T = elim (Bool-cases (wake_each g ws).2) [
    | inl e ↦ rw e inv
    | inr e ↦ rw e (wake_each-panics g ws e)
  ]

  -- The wakers are called, and the loop goes on if there is `more`.
  wake_all-EndsWell :
      {T : Type 0} (others : Others g c)
      (again : WakeBatch g → QueueState g c → List g.Waker → Logged g c T) (t : T) (more : Bool)
      (ws₁ : WakeBatch g)
      → (more ≡ true → (log₁ : List g.Waker) → EndsWell (again ws₁ (others log₁ q) log₁))
      → EndsWell (notified again others t more ws₁ q (wake_all g log ws))
  unfolding notified wake_all drop_remaining
  wake_all-EndsWell others again t more ws₁ next = elim (Bool-cases (wake_each g ws).2) [
    | inl e ↦ rw e (Bool-intro EndsWell more (λ m. next m _) (λ m. inv))
    | inr e ↦ rw e (elim (Bool-cases (wake_each g (wake_each g ws).1).2) [
      | inl m ↦ rw m inv
      | inr m ↦ rw m (wake_each-panics g ws e)
    ])
  ]

module _ {g : Setting} {c : Kind} {T : Type 0} (others : Others g c) (calm : AreCalm others)
    (t : T) where
  checked-EndsWell :
      (n : ℕ) (again : WakeBatch g → QueueState g c → List g.Waker → Logged g c T)
      (q : QueueState g c) (log : List g.Waker)
      → length (waiting q) < 32 + n
      → ((ws₁ : WakeBatch g) (q₁ : QueueState g c) (log₁ : List g.Waker)
          → length (waiting q₁) < n
          → (wakers g).to_list ws₁ ≡ []
          → Inv q₁
          → EndsWell (again ws₁ q₁ log₁))
      → (r : Checked g c) → Keeps (Shrinks q) r
      → EndsWell (checked again others t log r)
  unfolding checked
  checked-EndsWell n again q log l next (returns (q₁, ws₁) _) (i, f) =
      wake_all-EndsWell q₁ i log ((wakers g).drain ws₁).0 others again t _ ((wakers g).drain ws₁).1
        (λ m log₁.
          let (i', k) = calm log₁ q₁ i in
          next _ _ log₁ (omega (arith, l, k, f (ground (arith, m)))) ((wakers g).drain_lem ws₁).1
            i')
  checked-EndsWell n again q log l next (unwinds (q₁, ws₁)) (i, f) =
      drop_batch-EndsWell q₁ i log ((wakers g).drain ws₁).0 T
  checked-EndsWell n again q log l next (faults x) h = absurd h

  check_rounds-EndsWell :
      (fuel : ℕ) (q : QueueState g c) (ws : WakeBatch g) (log : List g.Waker)
      → length (waiting q) < 32 * fuel
      → (wakers g).to_list ws ≡ []
      → Inv q
      → EndsWell (check_rounds fuel others t ws q log)
  unfolding check_rounds
  check_rounds-EndsWell zero q ws log l e inv = absurd (omega arith)
  check_rounds-EndsWell (suc fuel) q ws log l e inv =
      checked-EndsWell (32 * fuel) (λ ws' q' log'. check_rounds fuel others t ws' q' log') q log
        (omega arith) (λ ws₁ q₁ log₁ l₁ e₁ i₁. check_rounds-EndsWell fuel q₁ ws₁ log₁ l₁ e₁ i₁)
        (check q ws) (check-Shrinks q ws e inv)

-- The queue is well-formed, and the fuel is enough for the tasks that wait.
abbrev Affords : {g : Setting} {c : Kind} → ℕ → QueueState g c → Type 0
Affords fuel q = Inv q × (length (waiting q) < 32 * fuel)

leave-Affords :
    {g : Setting} {c : Kind} (fuel : ℕ) (q : QueueState g c) (k : ℕ)
    → length (waiting q) < 32 * fuel
    → (pin_queue g c).initialized k q.nodes ≡ true
    → Inv q
    → Keeps (Affords fuel) (leave k q)
leave-Affords {g} {c} fuel q k l i inv =
    go (leave k q) (leave-Inv k q i inv) (leave-Fewer k q i inv)
  where
    go : (r : Dropped g c) → Keeps Inv r → Where (Fewer q) r → Keeps (Affords fuel) r
    go (returns q' x) h f = (h, omega (arith, f, l))
    go (unwinds q') h f = (h, omega (arith, f, l))
    go (faults x) h f = h

module _ {g : Setting} {c : Kind} {T : Type 0} (others : Others g c) (calm : AreCalm others) where
  applied-EndsWell :
      (fuel : ℕ) (r : Exec (QueueState g c) T)
      → Keeps (Affords fuel) r
      → EndsWell (applied fuel others r)
  unfolding applied
  applied-EndsWell fuel (returns q t) (i, l) = elim (Bool-cases (q.len == 0)) [
    | inl z ↦ rw z i
    | inr z ↦
        rw z
          (check_rounds-EndsWell others calm t fuel q (wakers g).new [] l (wakers g).to_list-new i)
  ]
  applied-EndsWell fuel (unwinds q) h = h.0
  applied-EndsWell fuel (faults f) h = absurd h

module _ {g : Setting} {c : Kind} (others : Others g c) (calm : AreCalm others) where
  -- The drop of a future as a whole. On any well-formed queue, healthy or poisoned, open, closed or
  -- discarded, whatever user calls and wakers panic, where other tasks that take the mutex between
  -- the batches keep the queue well-formed and let no more tasks wait, and the fuel times 32 is more
  -- than the number of waiting tasks: the drop of any future, with its locked section, the
  -- rounds of `check` and the calls of wakers, ends, returning or unwinding, and leaves the queue
  -- well-formed, without undefined behaviour; or it aborts, which it does only if some waker panics.
  pub drop_acquire-EndsWell :
      (fuel : ℕ) (q : QueueState g c) (fut : Acquire g)
      → length (waiting q) < 32 * fuel
      → Inv q
      → EndsWell (drop_acquire fuel others q fut)
  unfolding drop_acquire with_queue
  drop_acquire-EndsWell fuel q fut l inv =
      elim (Bool-cases ((pin_queue g c).initialized fut.node q.nodes)) [
        | inl i ↦ rw i (
            applied-EndsWell others calm fuel (leave fut.node q)
              (leave-Affords fuel q fut.node l i inv))
        | inr i ↦ rw i inv
      ]
