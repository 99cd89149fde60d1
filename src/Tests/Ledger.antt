-- ===== src/Tests/Ledger.antt =====
-- Runs of flag-bearer-queue/src with an account of permits.
use flag_bearer.Base.{◌+◌, ◌≡◌, refl, ok, some, ap, gives, [], ◌∷◌, arith}
use flag_bearer.Closeable.{closeable}
use flag_bearer.Order.{fifo}
use flag_bearer.Queue.State.{settled, new, update_state}
use flag_bearer.Queue.Check.{check}
use flag_bearer.Queue.Acquire.{acquire, poll}
use flag_bearer.Queue.Ledger.{Account, stored, total}
use flag_bearer.Queue.Ledger.Outstanding.{Knows, RunsWith-Knows}
use flag_bearer.Queue.Ledger.Conserve.{Counting}
use flag_bearer.Queue.Ledger.World.{RunsWith, tuned, Runs, start, later, polled, dropped, checked}
use flag_bearer.Queue.Ledger.Conserve.{Runs-conserve}
use flag_bearer.Sample.{fair_counter}
use flag_bearer.Tests.Inputs.{queue_of}

counts : Counting fair_counter
counts = record {
  funds = λ s. s;
  worth = λ p. p;
  acquires = λ s s' p permit e. ground arith;
  refuses = λ s s' p p' e. ground arith;
  steady = λ s s' p e. ground arith;
  releases = λ s s' permit e. ground arith;
  returned = λ s s' permit e. ground arith;
}

-- One permit. A task takes it and a second one waits; the first drops it, and the second is served.
rotated :
    Runs {g = fair_counter} {c = closeable} 1 fifo
      (record { queue = queue_of 0 0 [] ((2, ok 1) ∷ []); held = [] })
unfolding new poll update_state check
rotated =
    later {u = record { queue = queue_of 1 1 ((2, (some 1, 8)) ∷ []) []; held = [] }}
      (later {u = record { queue = queue_of 0 1 ((2, (some 1, 8)) ∷ []) []; held = 1 ∷ [] }}
        (later {u = record { queue = queue_of 0 0 [] []; held = 1 ∷ [] }}
          (later start (polled (acquire 1 1) 7 (omega arith) (refl, refl)))
          (polled (acquire 2 1) 8 (omega arith) (refl, refl)))
        (dropped [] [] 1 refl refl refl))
      (checked refl refl)

Runs-conserve_example :
    0 + stored (λ p. p) (settled (queue_of 0 0 [] ((2, ok 1) ∷ []))) + total (λ p. p) [] ≡ 1
unfolding counts
Runs-conserve_example = Runs-conserve counts rotated

-- The count, and that no permit is worth more than was there.
known : Account fair_counter
known = record {
  worth = λ p. p;
  Holds = λ s n w. s + w ≡ 1;
  Tunes = λ f. f ≡ (λ s. gives s tt);
  acquires = λ s s' n w p permit h e. ground arith;
  refuses = λ s s' n w p p' h e. ground arith;
  steady = λ s s' n w p h e. ground arith;
  releases = λ s s' n w permit h e. ground arith;
  returned = λ s s' n w permit h e. ground arith;
  tunes = λ s s' n w f t h e. ground (arith, h, ap (λ k. k s) t, e);
  tuned = λ s s' n w f t h e. ground (arith, ap (λ k. k s) t, e);
}

looked_at :
    RunsWith {g = fair_counter} {c = closeable}
      (λ f. f ≡ (λ s. gives s tt))
      1
      fifo
      (record { queue = queue_of 0 0 [] []; held = 1 ∷ [] })
unfolding new poll update_state
looked_at =
    later {u = record { queue = queue_of 0 0 [] []; held = 1 ∷ [] }}
      (later start (polled (acquire 1 1) 7 (omega arith) (refl, refl)))
      (tuned (λ s. gives s tt) refl refl refl)

RunsWith-Knows_example : Knows known (record { queue = queue_of 0 0 [] []; held = 1 ∷ [] })
unfolding known
RunsWith-Knows_example = RunsWith-Knows known refl looked_at
