-- ===== src/Tests/Serve.antt =====
-- Runs of flag-bearer-queue/src/lib.rs: serving.
use flag_bearer.Base.{◌≡◌, refl, some, none, ok, [], ◌∷◌, returns, gives, arith}
use flag_bearer.External.{linked}
use flag_bearer.Queue.State.{waiting, settled, QueueState}
use flag_bearer.Queue.Check.{check}
use flag_bearer.Queue.Wake.{wake_all}
use flag_bearer.Queue.Run.{with_state, drop_acquire}
use flag_bearer.Queue.Acquire.{acquire}
use flag_bearer.Queue.Serve.{serve}
use flag_bearer.Queue.Serve.After.{IsServed}
use flag_bearer.Queue.Serve.Check.{check-serve}
use flag_bearer.Queue.Serve.Order.{EndsFair, check-EndsFair}
use flag_bearer.Queue.Serve.All.{serve_all}
use flag_bearer.Queue.Rounds.{quiet, IsDone}
use flag_bearer.Queue.Rounds.Serve.{
  with_state-serves, drop_acquire-serves, drop_acquire-releases, IsLeft,
}
use flag_bearer.Sample.{fair_counter}
use flag_bearer.Closeable.{closeable}
use flag_bearer.Tests.Inputs.{
  held_up, blocked, granted, held_up-Inv, blocked-Inv, granted-Inv, queue_of-IsServing,
}

check-serve_example : IsServed [] (serve 31 0 (waiting held_up)) held_up [] (check held_up [])
check-serve_example = check-serve held_up [] held_up-Inv (queue_of-IsServing _ _ _ _) refl

check-EndsFair_example : EndsFair blocked (check blocked [])
check-EndsFair_example = check-EndsFair blocked [] blocked-Inv (queue_of-IsServing _ _ _ _) refl

with_state-serves_example :
    IsDone
      (serve_all 1 (waiting held_up))
      (record held_up { state = 1 })
      []
      tt
      (with_state 1 quiet held_up (λ s. gives 1 tt))
with_state-serves_example =
    with_state-serves (λ w. refl) 1 held_up (λ s. gives 1 tt) 1 tt refl (omega arith) held_up-Inv
      (queue_of-IsServing _ _ _ _)

drop_acquire-serves_example :
    (q₁ : QueueState fair_counter closeable) × IsLeft blocked q₁
    × (waiting q₁ ≡ (2, (some 1, 8)) ∷ [])
    × (settled q₁ ≡ [])
    × (q₁.state ≡ 2)
    × IsDone
        (serve_all q₁.state (waiting q₁))
        q₁
        []
        (some (linked (some 5, 7)))
        (drop_acquire 1 quiet blocked (acquire 1 5))
drop_acquire-serves_example =
    drop_acquire-serves (λ w. refl) 1 blocked (acquire 1 5) (some 5, 7) refl (omega arith)
      blocked-Inv (queue_of-IsServing _ _ _ _)

drop_acquire-releases_example :
    (q₁ : QueueState fair_counter closeable) × IsLeft granted q₁
    × (waiting q₁ ≡ (1, (some 1, 7)) ∷ [])
    × (settled q₁ ≡ [])
    × (q₁.state ≡ 1)
    × IsDone
        (serve_all q₁.state (waiting q₁))
        q₁
        []
        none
        (drop_acquire 1 quiet granted (acquire 3 1))
drop_acquire-releases_example =
    drop_acquire-releases (λ w. refl) 1 granted (acquire 3 1) 1 1 refl refl refl (omega arith)
      granted-Inv (queue_of-IsServing _ _ _ _)

-- Runs.
held_up_served :
    with_state 1 quiet held_up (λ s. gives 2 tt)
    ≡ returns
        (
          record held_up {
            len = 0;
            nodes = record { front = []; rest = (2, ok 1) ∷ (1, ok 1) ∷ [] };
          },
          7 ∷ 8 ∷ [],
        )
        tt
unfolding with_state check wake_all
held_up_served = refl
