-- ===== src/Examples/Wrapper.antt =====
-- flag-bearer-tests/src/lib.rs: `Semaphore` and `Permit` over `SemaphoreCounter`.
use flag_bearer.Base.{
  ℕ, ◌-◌, ◌≡◌, refl, false, Option, none, some, Result, ok, err, Call, gives, Exec, returns,
  unwinds, faults, leb, if◌then◌else◌, is_nil, ◌&&◌, ap, Bool-cases, inl, inr, subst,
}
use flag_bearer.Closeable.{uncloseable, TryAcquireError, no_permits, AcquireError}
use flag_bearer.Order.{fair_order, fifo}
use flag_bearer.External.{Setting}
use flag_bearer.Queue.State.{QueueState, waiting}
use flag_bearer.Queue.Acquire.{Poll, ready, pending}
use flag_bearer.Queue.Arrive.{attempt}
use flag_bearer.Queue.Serve.Check.{IsServing}
use flag_bearer.Semaphore as Sem
use flag_bearer.Semaphore.{Permit, Tried, Acquiring, build, must, resume}
use flag_bearer.Semaphore.Tried.{Answers, try_acquire-Answers}
use flag_bearer.Examples.Counter.{SemaphoreCounter, counter_setting}

-- A counter with the order of `Builder::fifo`.
abbrev pub fifo_counter : Setting → Setting
fifo_counter g = record (counter_setting g) { ord = fair_order }

module _ (g : Setting) where
  -- `Semaphore(flag_bearer::Semaphore<SemaphoreCounter>)`
  abbrev pub Semaphore : Type 0
  Semaphore = QueueState (fifo_counter g) uncloseable

  abbrev pub new : ℕ → Semaphore
  new count = build {g = fifo_counter g} {c = uncloseable} Sem.fifo (record { count = count })

  -- What a poll of the future of `acquire` gives, by `unwrap_or_else(|x| x.never())`
  abbrev unwrapped :
      Exec
        (Semaphore × Acquiring (fifo_counter g))
        (Poll (Result (Permit (fifo_counter g)) (AcquireError ⊥)))
      → Exec (Semaphore × Acquiring (fifo_counter g)) (Poll (Permit (fifo_counter g)))
  unwrapped (returns s (ready r)) = returns s (ready (must r))
  unwrapped (returns s pending) = returns s pending
  unwrapped (unwinds s) = unwinds s
  unwrapped (faults f) = faults f

  -- A poll of the future of `acquire`, which begins as `unresumed 1`.
  abbrev pub acquire :
      ℕ
      → Semaphore
      → Acquiring (fifo_counter g)
      → g.Waker
      → Exec (Semaphore × Acquiring (fifo_counter g)) (Poll (Permit (fifo_counter g)))
  acquire k s fut w = unwrapped (resume k s fut w)

  -- `Some(Permit(….ok()?))`
  abbrev taken :
      Tried (fifo_counter g) uncloseable → Exec Semaphore (Option (Permit (fifo_counter g)))
  taken (returns s (ok permit)) = returns s (some permit)
  taken (returns s (err _)) = returns s none
  taken (unwinds s) = unwinds s
  taken (faults f) = faults f

  abbrev pub try_acquire : Semaphore → Exec Semaphore (Option (Permit (fifo_counter g)))
  try_acquire s = taken (Sem.try_acquire s 1)

  taken-ok :
      (s : Semaphore) (n : SemaphoreCounter) (permit : ℕ) (r : Tried (fifo_counter g) uncloseable)
      → Answers {g = fifo_counter g} (some (gives n (ok permit))) s.order 1 s r
      → taken r ≡ returns (record s { state = n }) (some (record { inner = record { t = permit } }))
  taken-ok s n permit (returns q (ok permit')) (a, b) =
      rw b
        (ap (λ p. returns (record s { state = n }) (some (record { inner = record { t = p } }))) a)
  taken-ok s n permit (returns q (err _)) h = elim h [ ]
  taken-ok s n permit (unwinds _) h = elim h [ ]
  taken-ok s n permit (faults _) h = elim h [ ]

  taken-err :
      (s : Semaphore) (n : SemaphoreCounter) (p : ℕ) (r : Tried (fifo_counter g) uncloseable)
      → Answers {g = fifo_counter g} (some (gives n (err p))) s.order 1 s r
      → taken r ≡ returns (record s { state = n }) none
  taken-err s n p (returns q (err (no_permits _))) (a, b) = rw b refl
  taken-err s n p (returns q (err (TryAcquireError.closed _))) h = elim h [ ]
  taken-err s n p (returns q (err (TryAcquireError.poisoned _))) h = elim h [ ]
  taken-err s n p (returns q (ok _)) h = elim h [ ]
  taken-err s n p (unwinds _) h = elim h [ ]
  taken-err s n p (faults _) h = elim h [ ]

  taken-none :
      (s : Semaphore) (r : Tried (fifo_counter g) uncloseable)
      → Answers {g = fifo_counter g} none s.order 1 s r
      → taken r ≡ returns s none
  taken-none s (returns q (err (no_permits _))) (a, b) = rw b refl
  taken-none s (returns q (err (TryAcquireError.closed _))) h = elim h [ ]
  taken-none s (returns q (err (TryAcquireError.poisoned _))) h = elim h [ ]
  taken-none s (returns q (ok _)) h = elim h [ ]
  taken-none s (unwinds _) h = elim h [ ]
  taken-none s (faults _) h = elim h [ ]

  answers :
      (s : Semaphore) (call : Option (Call SemaphoreCounter (Result ℕ ℕ)))
      → IsServing s
      → s.order ≡ fifo
      → attempt {g = fifo_counter g} false s 1 ≡ call
      → Answers {g = fifo_counter g} call s.order 1 s (Sem.try_acquire s 1)
  answers s call h f e =
      subst (λ a. Answers {g = fifo_counter g} a s.order 1 s (Sem.try_acquire s 1)) e
        (try_acquire-Answers {g = fifo_counter g} s 1 false s.order h (rw f refl)).0

  -- A try on an open, healthy counter in `fifo` order gives one permit exactly if nobody waits and
  -- one is left, and takes it from the count. Otherwise it gives none and changes nothing.
  pub try_acquire_lem :
      (s : Semaphore)
      → IsServing s
      → s.order ≡ fifo
      → try_acquire s ≡ (
          if is_nil (waiting s) && leb 1 s.state.count
          then returns
              (record s { state = record { count = s.state.count - 1 } })
              (some (record { inner = record { t = 1 } }))
          else returns s none)
  try_acquire_lem s h f = elim (Bool-cases (is_nil (waiting s))) [
    | inl e ↦ elim (Bool-cases (leb 1 s.state.count)) [
      | inl l ↦
          rw (e, l)
            (taken-ok s (record { count = s.state.count - 1 }) 1 _
              (answers s (some (gives (record { count = s.state.count - 1 }) (ok 1))) h f
                (rw (e, l) refl)))
      | inr l ↦
          rw (e, l)
            (taken-err s s.state 1 _
              (answers s (some (gives s.state (err 1))) h f (rw (e, l) refl)))
    ]
    | inr e ↦ rw e (taken-none s _ (answers s none h f (rw e refl)))
  ]
