-- ===== src/Tests/Thirdparty.antt =====
-- Runs of flag-bearer-tests/src/lib.rs.
use flag_bearer.Base.{
  ℕ, ◌+◌, ◌≡◌, refl, some, gives, returns, arith, ltb, leb, if◌then◌else◌, true, Bool,
}
use flag_bearer.Closeable.{closeable}
use flag_bearer.External.{Setting}
use flag_bearer.Queue.State.{QueueState}
use flag_bearer.Queue.State as State
use flag_bearer.Queue.Acquire.{acquire, poll}
use flag_bearer.Queue.Arrive.{Arrives, attempt}
use flag_bearer.Queue.Sound.Reach.{new-Inv}
use flag_bearer.Sample.{fair_counter}
use flag_bearer.Examples.Random.{Chance, Random, IsFrom, random_setting, poll-Random}
use flag_bearer.Examples.Random as Random
use flag_bearer.Examples.Wrapper as Wrapper
use flag_bearer.Examples.Wrapper.{try_acquire_lem}

-- Numbers and a generator that meet the laws: whole numbers, and coins that show the front first.
abbrev coins : Chance
coins = record {
  F = ℕ;
  le = leb;
  gt = λ x y. ltb y x;
  add = λ x y. x + y;
  sub = λ x y. x;
  mul = λ x y. x;
  div = λ x y. if leb 2 y then 0 else x;
  neg = λ x. x;
  exp = λ x. x;
  as_f64 = λ n. n;
  zero = 0;
  one = 1;
  four = 4;
  Rng = ℕ;
  seed_from_u64 = λ n. n;
  random_bool = λ r p. gives (r + 1) true;
  Known = λ x. Unit {0};
  Finite = λ x. Unit {0};
  as_f64-Finite = λ n h. tt;
  sub-Finite = λ m n h k. tt;
  one-le-as_f64 = λ n h e. ground arith;
  one-Finite = tt;
  four-Finite = tt;
  div-Finite = λ x y h k e. tt;
  mul-Known = λ x y h k. tt;
  neg-Known = λ x h. tt;
  zero-le-exp = λ x h. ground arith;
  one-le-add = λ x h. ground arith;
  zero-le-div = λ x h. ground arith;
  div-le-one = λ x h. ground arith;
  random_bool_gives = λ r p h k. (r + 1, true, refl);
}

abbrev at_random : Setting
at_random = random_setting coins fair_counter

abbrev empty : QueueState at_random closeable
empty = State.new at_random closeable 3 (Random.new coins 10)

poll-Random_example :
    (o : Random coins) × (front : Bool) × (Random.enqueue_front coins (Random.new coins 10) 0
      ≡ gives o front)
    × IsFrom coins 10 o
    × Arrives {g = at_random}
        (attempt {g = at_random} front empty 1)
        front
        o
        1
        7
        4
        empty
        (poll empty (acquire 4 1) 7)
unfolding State.new
poll-Random_example =
    poll-Random coins fair_counter 10 empty 4 1 7 (omega arith) (refl, refl) refl (omega arith)
      (new-Inv at_random closeable 3 (Random.new coins 10))
      (record { healthy = refl; admitting = refl; opened = refl })

try_acquire_lem_example :
    Wrapper.try_acquire fair_counter (Wrapper.new fair_counter 2)
    ≡ returns (Wrapper.new fair_counter 1) (some (record { inner = record { t = 1 } }))
unfolding State.new
try_acquire_lem_example =
    try_acquire_lem fair_counter (Wrapper.new fair_counter 2)
      (record { healthy = refl; admitting = refl; opened = refl }) refl
