-- ===== src/Tests/Pool.antt =====
-- Runs of flag-bearer-examples/examples/connection_pool.rs.
use flag_bearer.Base.{◌+◌, ◌≡◌, refl, false, some, List, [], ◌∷◌, returns, arith}
use flag_bearer.Closeable.{closeable}
use flag_bearer.Order.{lifo}
use flag_bearer.Queue.State.{QueueState, new}
use flag_bearer.Queue.Acquire.{acquire, poll}
use flag_bearer.Queue.Rounds.{quiet}
use flag_bearer.Queue.Sound.Reach.{new-Inv}
use flag_bearer.Queue.Ledger.World.{Runs, start, later, polled}
use flag_bearer.Semaphore.{drop_permit}
use flag_bearer.Sample.{fair_counter}
use flag_bearer.Examples.Pool.{Connection, pool_setting, checkout}
use flag_bearer.Examples.Pool.Checkout.{ChecksOut, checkout-ChecksOut, drop_permit-checkout}
use flag_bearer.Examples.Pool.Unshared.{Runs-unshared}

abbrev pool_of : List Connection → QueueState (pool_setting fair_counter) closeable
pool_of xs = new (pool_setting fair_counter) closeable (record { idle = xs }) lifo

abbrev two_idle : List Connection
two_idle = record { id = 0 } ∷ record { id = 1 } ∷ []

checkout-ChecksOut_example :
    ChecksOut fair_counter
      (some (record { id = 1 }, record { id = 0 } ∷ []))
      (pool_of two_idle)
      5
      (checkout fair_counter (pool_of two_idle) 5)
unfolding new
checkout-ChecksOut_example =
    checkout-ChecksOut fair_counter (pool_of two_idle) 5
      (record { healthy = refl; admitting = refl; opened = refl }) refl

drop_permit-checkout_example :
    (q₁ : QueueState (pool_setting fair_counter) closeable) × (drop_permit 0 quiet
        (pool_of two_idle)
        (record { inner = record { t = record { id = 2 } } })
      ≡ returns (q₁, []) tt)
    × (checkout fair_counter q₁ 5
        ≡ returns (pool_of two_idle, 5) (record { inner = record { t = record { id = 2 } } }))
unfolding new
drop_permit-checkout_example =
    drop_permit-checkout fair_counter (pool_of two_idle) 5
      (record { inner = record { t = record { id = 2 } } })
      (new-Inv (pool_setting fair_counter) closeable (record { idle = two_idle }) lifo)
      (record { healthy = refl; admitting = refl; opened = refl }) refl

borrowed :
    Runs {g = pool_setting fair_counter} {c = closeable}
      (record { idle = two_idle })
      lifo
      (record { queue = pool_of (record { id = 0 } ∷ []); held = record { id = 1 } ∷ [] })
unfolding new poll
borrowed = later start (polled (acquire 1 tt) 7 (omega arith) (refl, refl))

Runs-unshared_example : (false ≡ false) × (0 + 0 + 1 ≡ 1)
unfolding new
Runs-unshared_example = Runs-unshared fair_counter 1 (record { idle = two_idle }) borrowed
