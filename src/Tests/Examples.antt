-- ===== src/Tests/Examples.antt =====
-- Runs of the examples in flag-bearer-examples/examples and flag-bearer-tests/src.
use flag_bearer.Examples.Floats.{Float, IsFloat}
use flag_bearer.Examples.Aimd.{Aimd, aimd_setting, IsFeedback, feedback}
use flag_bearer.Examples.Aimd.Bounds.{RunsWith-limit}
use flag_bearer.Base.{
  err, ◌+◌, ◌*◌, ℕ, ◌+◌, ◌*◌, ◌/◌, ◌≤◌, ◌≡◌, refl, true, false, [], ◌∷◌, arith, ltb, leb,
  if◌then◌else◌,
}
use flag_bearer.Closeable.{closeable}
use flag_bearer.Order.{fifo}
use flag_bearer.External.{Setting}
use flag_bearer.Queue.State.{QueueState, new, update_state}
use flag_bearer.Queue.Acquire.{acquire, poll}
use flag_bearer.Queue.Ledger.World.{Runs, RunsWith, start, later, polled, dropped, tuned}
use flag_bearer.Sample.{fair_counter}
use flag_bearer.Examples.Counter.{counter_setting, Runs-counted}
use flag_bearer.Examples.Limits.{limits_setting, Runs-budget}
use flag_bearer.Examples.Dynamic.{dynamic_setting, IsRetune, set_limit, RunsWith-in_flight}

-- The queue of a setting over the sample, open and healthy, with nothing in its list.
abbrev idle : (g : Setting) → (s : g.State) → g.Policy → QueueState g closeable
idle g s o = new g closeable s o

counted_once :
    Runs {g = counter_setting fair_counter} {c = closeable}
      (record { count = 3 })
      fifo
      (record {
        queue = idle (counter_setting fair_counter) (record { count = 2 }) fifo;
        held = 1 ∷ [];
      })
unfolding new poll
counted_once = later start (polled (acquire 1 1) 7 (omega arith) (refl, refl))

Runs-counted_example : (false ≡ false) × (2 + 0 + 1 ≡ 3)
unfolding new
Runs-counted_example = Runs-counted fair_counter 3 (omega arith) counted_once

-- A task takes one of four requests and 512 of 1024 bytes, and gives them back.
request_served :
    Runs {g = limits_setting true fair_counter} {c = closeable}
      (record { requests = 4; bytes = 1024 })
      fifo
      (record {
        queue =
            idle (limits_setting true fair_counter) (record { requests = 4; bytes = 1024 }) fifo;
        held = [];
      })
unfolding new poll update_state
request_served =
    later
      {u = record {
        queue = idle (limits_setting true fair_counter) (record { requests = 3; bytes = 512 }) fifo;
        held = record { bytes = 512 } ∷ [];
      }}
      (later start (polled (acquire 1 (record { bytes = 512 })) 7 (omega arith) (refl, refl)))
      (dropped [] [] (record { bytes = 512 }) refl refl refl)

Runs-budget_example : (false ≡ false) × (4 + 0 + 0 ≡ 4) × (1024 + 0 + 0 ≡ 1024)
unfolding new
Runs-budget_example =
    Runs-budget true fair_counter (record { requests = 4; bytes = 1024 }) (omega arith)
      (omega arith) request_served

-- A task enters under a limit of 4, which is then set to 1.
limit_lowered :
    RunsWith {g = dynamic_setting false fair_counter} {c = closeable}
      (IsRetune 4)
      (record { in_flight = 0; limit = 4 })
      fifo
      (record {
        queue =
            idle (dynamic_setting false fair_counter) (record { in_flight = 1; limit = 1 }) fifo;
        held = tt ∷ [];
      })
unfolding new poll update_state
limit_lowered =
    later
      {u = record {
        queue =
            idle (dynamic_setting false fair_counter) (record { in_flight = 1; limit = 4 }) fifo;
        held = tt ∷ [];
      }}
      (later start (polled (acquire 1 tt) 7 (omega arith) (refl, refl)))
      (tuned (set_limit 1) (1, omega arith, refl) refl refl)

RunsWith-in_flight_example : (false ≡ false) × (1 ≡ 0 + 1) × (1 ≤ 4)
unfolding new
RunsWith-in_flight_example =
    RunsWith-in_flight false fair_counter 4 4 (omega arith) (omega arith) limit_lowered

-- Halves, as a stand-in for `f64`: `n` is the number n / 2.
abbrev halves : Float
halves = record {
  F = ℕ;
  lt = ltb;
  le = leb;
  add = λ x y. x + y;
  mul = λ x y. x * y / 2;
  min = λ x y. if leb x y then x else y;
  max = λ x y. if leb x y then y else x;
  from_u32 = λ n. 2 * n;
  as_u32 = λ x. if ltb (x / 2) 4294967296 then x / 2 else 4294967295;
  zero = 0;
  half = 1;
  one = 2;
}

halves-IsFloat : IsFloat halves
halves-IsFloat = record {
  le_trans = λ x y z h k. ground arith;
  lt-le_trans = λ x y z h k. ground arith;
  lt-from_u32 = λ m n h k e. ground arith;
  le-add-one = λ x h. ground arith;
  mul-half-le = λ x h. ground arith;
  min_le = λ x y h k. ground arith;
  le-min = λ x y z h k. ground arith;
  le_max = λ x y h k. ground arith;
  max-le = λ x y z h k. ground arith;
  refl_of_le = λ x y h. ground arith;
  as_u32-le = λ x y h. ground arith;
}

-- A limiter with bounds 1.0 and 50.0.
abbrev limiter : ℕ → ℕ → Aimd halves
limiter n l = record { in_flight = n; limit = l; min = 2; max = 100 }

-- A task enters at the limit 4.0 and fails, which leaves 2.0.
adapted :
    RunsWith {g = aimd_setting halves true fair_counter} {c = closeable}
      (IsFeedback halves)
      (limiter 0 8)
      fifo
      (record {
        queue = idle (aimd_setting halves true fair_counter) (limiter 1 4) fifo;
        held = tt ∷ [];
      })
unfolding new poll update_state
adapted =
    later
      {u = record {
        queue = idle (aimd_setting halves true fair_counter) (limiter 1 8) fifo;
        held = tt ∷ [];
      }}
      (later start (polled (acquire 1 tt) 7 (omega arith) (refl, refl)))
      (tuned (feedback halves {A = Unit {0}} (err tt)) (err tt, refl) refl refl)

RunsWith-limit_example : (false ≡ false) × (1 ≡ 0 + 1) × (1 ≤ 2) × (2 ≤ 50)
unfolding new
RunsWith-limit_example =
    RunsWith-limit halves halves-IsFloat true fair_counter 2 100 8 refl refl refl refl adapted
