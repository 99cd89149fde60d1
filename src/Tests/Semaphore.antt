-- ===== src/Tests/Semaphore.antt =====
-- Runs of flag-bearer/src.
use flag_bearer.Base.{
  ◌≡◌, refl, true, false, ok, err, some, none, [], ◌∷◌, gives, returns, unwinds, arith,
  if◌then◌else◌,
}
use flag_bearer.Closeable.{closeable}
use flag_bearer.Order.{fifo, lifo}
use flag_bearer.Queue.Serve.All.{serve_all}
use flag_bearer.Semaphore.Fairness.{fair_setting, try_acquire-try_acquire_unfair}
use flag_bearer.Semaphore.Handoff.{HandsOver, drop_permit-HandsOver}
use flag_bearer.Queue.State.{QueueState}
use flag_bearer.Queue.Acquire.{acquire, poll, ready}
use flag_bearer.Queue.Rounds.{quiet}
use flag_bearer.Queue.Arrive.{Arrives}
use flag_bearer.Queue.Sound.{Inv}
use flag_bearer.Semaphore as Sem
use flag_bearer.Semaphore.Tried.{
  Answers, try_acquire-Answers, try_acquire-drop_permit, reason, try_acquire-Refused,
}
use flag_bearer.Semaphore.Policies.{hybrid_setting, poll-Hybrid, build-Arrives}
use flag_bearer.Sample.{fair_counter}
use flag_bearer.Tests.Inputs.{queue_of, held_up, held_up-Inv, blocked, queue_of-IsServing}

-- Two permits are left, and a task that wants five waits.
try_acquire-Answers_example :
    Answers {g = fair_counter} none fifo 1 blocked (Sem.try_acquire blocked 1)
    × Answers (some (gives 1 (ok 1))) fifo 1 blocked (Sem.try_acquire_unfair blocked 1)
try_acquire-Answers_example =
    try_acquire-Answers blocked 1 false fifo (queue_of-IsServing _ _ _ _) refl

-- Three permits, and nobody waits.
abbrev idle : QueueState fair_counter closeable
idle = queue_of 3 0 [] []

idle-Inv : Inv idle
idle-Inv = record {
  counted = refl;
  fits = omega arith;
  single = λ k. ground arith;
  discarded = tt;
  allowed = λ e. cc;
}

try_acquire-drop_permit_example :
    (q₁ : QueueState fair_counter closeable) × (Sem.try_acquire_unfair idle 2
      ≡ returns q₁ (ok (Sem.out_of_thin_air 2)))
    × (Sem.drop_permit 0 quiet q₁ (Sem.out_of_thin_air 2) ≡ returns (idle, []) tt)
try_acquire-drop_permit_example =
    try_acquire-drop_permit idle 2 2 1 idle-Inv (queue_of-IsServing _ _ _ _) refl refl refl

abbrev over : QueueState fair_counter closeable
over = record idle { closed = true; queue = err tt }

try_acquire-Refused_example :
    (Sem.try_acquire over 1 ≡ returns over (err (reason {g = fair_counter} over 1)))
    × (Sem.try_acquire_unfair over 1 ≡ returns over (err (reason {g = fair_counter} over 1)))
    × (Sem.resume 5 over (Sem.unresumed 1) 7 ≡ (
        if Sem.is_poisoned over
        then unwinds (over, Sem.finished)
        else returns (over, Sem.finished) (ready (err (record { params = 1 })))))
try_acquire-Refused_example = try_acquire-Refused over 1 5 7 refl refl

-- Two tasks wait, and a third one is the first that goes to the front.
abbrev crowded : QueueState (hybrid_setting fair_counter) closeable
crowded = record {
  queue = ok tt;
  poisoned = false;
  closed = false;
  len = 2;
  order = record { lifo_above = 1 };
  state = 0;
  nodes = record { front = (1, (some 1, 7)) ∷ (2, (some 1, 8)) ∷ []; rest = [] };
}

crowded-Inv : Inv crowded
crowded-Inv = record {
  counted = refl;
  fits = omega arith;
  single = λ k. ground arith;
  discarded = tt;
  allowed = λ e. cc;
}

poll-Hybrid_example :
    Arrives {g = hybrid_setting fair_counter}
      (some (gives 0 (err 1)))
      true
      (record { lifo_above = 1 })
      1
      9
      3
      crowded
      (poll crowded (acquire 3 1) 9)
poll-Hybrid_example =
    poll-Hybrid fair_counter crowded 3 1 9 refl (omega arith) crowded-Inv
      (record { healthy = refl; admitting = refl; opened = refl })

build-Arrives_example :
    Arrives {g = fair_counter} {c = closeable}
      (some (gives 1 (ok 2)))
      false
      fifo
      2
      9
      1
      (Sem.build (Sem.with_close Sem.fifo) 3)
      (poll (Sem.build (Sem.with_close Sem.fifo) 3) (acquire 1 2) 9)
build-Arrives_example =
    build-Arrives fair_counter closeable (Sem.with_close Sem.fifo) 3 1 2 9 false fifo refl

-- The order is `lifo`, and task 1 waits.
abbrev lifo_blocked : QueueState (fair_setting fair_counter) closeable
lifo_blocked = record blocked { order = lifo }

try_acquire-try_acquire_unfair_example :
    Sem.try_acquire {g = fair_setting fair_counter} lifo_blocked 1
    ≡ Sem.try_acquire_unfair {g = fair_setting fair_counter} lifo_blocked 1
try_acquire-try_acquire_unfair_example =
    try_acquire-try_acquire_unfair fair_counter lifo_blocked 1 refl

-- Tasks 1 and 2 wait for one permit each, and one is dropped: task 1 gets it.
drop_permit-HandsOver_example :
    HandsOver fair_counter
      (record { node = 1; params = none })
      1
      7
      9
      (Sem.drop_permit 1 quiet held_up (record { inner = record { t = 1 } }))
unfolding serve_all
drop_permit-HandsOver_example =
    drop_permit-HandsOver fair_counter (λ w. refl) 1 held_up (record { inner = record { t = 1 } }) 1
      (record { node = 1; params = none }) 1 (some 1) 7 9 refl (omega arith) held_up-Inv
      (queue_of-IsServing _ _ _ _) refl refl
