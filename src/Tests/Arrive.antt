-- ===== src/Tests/Arrive.antt =====
-- Runs of flag-bearer-queue/src/acquire.rs: how tasks line up.
use flag_bearer.Base.{◌≡◌, refl, false, some, [], ◌∷◌, gives, arith, List}
use flag_bearer.Closeable.{closeable}
use flag_bearer.Order.{fifo, lifo}
use flag_bearer.Queue.Arrive.Stack.{ServedInReverse, arrive-ServedInReverse}
use flag_bearer.Queue.State.{QueueState}
use flag_bearer.Queue.Acquire.{acquire, poll}
use flag_bearer.Queue.Run.{with_state}
use flag_bearer.Queue.Rounds.{quiet}
use flag_bearer.Queue.Arrive.{Arrives, attempt, poll-Arrives}
use flag_bearer.Queue.Arrive.Line.{Arrival, arrive, AreNew}
use flag_bearer.Queue.Arrive.Fifo.{ServedInOrder, arrive-ServedInOrder}
use flag_bearer.Sample.{fair_counter}
use flag_bearer.Tests.Inputs.{held_up, blocked, held_up-Inv, blocked-Inv, queue_of-IsServing}

poll-Arrives_example :
    Arrives
      (attempt {g = fair_counter} false blocked 1)
      false
      fifo
      1
      9
      3
      blocked
      (poll blocked (acquire 3 1) 9)
poll-Arrives_example =
    poll-Arrives blocked (acquire 3 1) 1 9 refl (omega arith) blocked-Inv
      (queue_of-IsServing _ _ _ _) false fifo refl refl

-- Tasks 3 and 4, which want one permit each.
abbrev newcomers : List (Arrival fair_counter)
newcomers = (3, (1, 9)) ∷ (4, (1, 10)) ∷ []

newcomers-AreNew : AreNew newcomers held_up
newcomers-AreNew = record {
  apart = (refl, (refl, tt));
  fresh = λ k e. ground arith;
  memory = omega arith;
}

arrive-ServedInOrder_example :
    (q₁ : QueueState fair_counter closeable) × (arrive newcomers held_up ≡ some q₁)
    × ServedInOrder newcomers held_up (with_state 1 quiet q₁ (λ s. gives 3 tt))
arrive-ServedInOrder_example =
    arrive-ServedInOrder (λ w. refl) newcomers held_up 1 (λ s. gives 3 tt) 3 tt refl (λ n. refl)
      newcomers-AreNew held_up-Inv (queue_of-IsServing _ _ _ _) refl (omega arith)

-- The order is `lifo`, and two tasks wait for the one permit that is needed.
abbrev stack : QueueState fair_counter closeable
stack = record held_up { order = lifo }

arrive-ServedInReverse_example :
    (q₁ : QueueState fair_counter closeable) × (arrive newcomers stack ≡ some q₁)
    × ServedInReverse newcomers stack (with_state 1 quiet q₁ (λ s. gives 3 tt))
arrive-ServedInReverse_example =
    arrive-ServedInReverse (λ w. refl) newcomers stack 1 (λ s. gives 3 tt) 3 tt (λ n. refl)
      (refl, (refl, tt))
      (record {
        apart = newcomers-AreNew.apart;
        fresh = newcomers-AreNew.fresh;
        memory = newcomers-AreNew.memory;
      })
      (record {
        counted = refl;
        fits = held_up-Inv.fits;
        single = held_up-Inv.single;
        discarded = tt;
        allowed = held_up-Inv.allowed;
      })
      (record { healthy = refl; admitting = refl; opened = refl }) refl (omega arith)
