-- ===== src/Tests/Sound.antt =====
-- Runs of flag-bearer-queue/src: states that a queue reaches.
use flag_bearer.Base.{refl, arith, []}
use flag_bearer.Closeable.{closeable}
use flag_bearer.Order.{fifo}
use flag_bearer.Queue.State.{new}
use flag_bearer.Queue.Acquire.{acquire, poll}
use flag_bearer.Queue.Check.{check}
use flag_bearer.Queue.System.{here, next, polls}
use flag_bearer.Queue.Sound.{Inv, Keeps}
use flag_bearer.Queue.Sound.Reach.{Reach-Inv}
use flag_bearer.Queue.Sound.Poll.{poll-Inv}
use flag_bearer.Queue.Rounds.{quiet}
use flag_bearer.Queue.Rounds.Sound.{EndsWell, drop_acquire-EndsWell}
use flag_bearer.Queue.Run.{drop_acquire}
use flag_bearer.Queue.Sound.Check.{check-Inv}
use flag_bearer.Sample.{fair_counter}
use flag_bearer.Tests.Inputs.{held_up, granted, held_up-Inv, granted-Inv}

Reach-Inv_example : Inv held_up
unfolding new poll
Reach-Inv_example = Reach-Inv {g = fair_counter} {c = closeable} {s = 0} {o = fifo} {q = held_up} (
    next (next here (polls (acquire 1 1) 7 (omega arith) refl))
      (polls (acquire 2 1) 8 (omega arith) refl))

poll-Inv_example : Keeps (λ s. Inv s.0) (poll held_up (acquire 3 1) 9)
poll-Inv_example = poll-Inv held_up (acquire 3 1) 9 (omega arith) held_up-Inv

check-Inv_example : Keeps (λ s. Inv s.0) (check held_up [])
check-Inv_example = check-Inv held_up [] refl held_up-Inv

drop_acquire-EndsWell_example : EndsWell (drop_acquire 1 quiet granted (acquire 3 1))
drop_acquire-EndsWell_example =
    drop_acquire-EndsWell quiet (λ log q i. (i, omega arith)) 1 granted (acquire 3 1) (omega arith)
      granted-Inv
