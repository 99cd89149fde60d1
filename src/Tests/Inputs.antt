-- ===== src/Tests/Inputs.antt =====
-- Queues over the instances of Sample, of which the theorems are applied.
use flag_bearer.Base.{ℕ, false, ok, some, List, [], ◌∷◌, arith, refl}
use flag_bearer.Closeable.{closeable}
use flag_bearer.Order.{fifo}
use flag_bearer.Queue.State.{Protected, Removed, QueueState}
use flag_bearer.Queue.Sound.{Inv}
use flag_bearer.Queue.Serve.Check.{IsServing}
use flag_bearer.Sample.{fair_counter}

-- An open queue with `s` permits left.
abbrev pub queue_of :
    ℕ
    → ℕ
    → List (ℕ × Protected fair_counter)
    → List (ℕ × Removed fair_counter closeable)
    → QueueState fair_counter closeable
queue_of s n xs ys = record {
  queue = ok tt;
  poisoned = false;
  closed = false;
  len = n;
  order = fifo;
  state = s;
  nodes = record { front = xs; rest = ys };
}

-- Tasks 1 and 2 wait for one permit each.
abbrev pub held_up : QueueState fair_counter closeable
held_up = queue_of 0 2 ((1, (some 1, 7)) ∷ (2, (some 1, 8)) ∷ []) []

-- Task 1 waits for five permits, and holds up task 2, which wants one of the two there are.
abbrev pub blocked : QueueState fair_counter closeable
blocked = queue_of 2 2 ((1, (some 5, 7)) ∷ (2, (some 1, 8)) ∷ []) []

-- Task 3 was served and has not claimed its permit; task 1 waits.
abbrev pub granted : QueueState fair_counter closeable
granted = queue_of 0 1 ((1, (some 1, 7)) ∷ []) ((3, ok 1) ∷ [])

pub held_up-Inv : Inv held_up
held_up-Inv = record {
  counted = refl;
  fits = omega arith;
  single = λ k. ground arith;
  discarded = tt;
  allowed = λ e. cc;
}

pub blocked-Inv : Inv blocked
blocked-Inv = record {
  counted = refl;
  fits = omega arith;
  single = λ k. ground arith;
  discarded = tt;
  allowed = λ e. cc;
}

pub granted-Inv : Inv granted
granted-Inv = record {
  counted = refl;
  fits = omega arith;
  single = λ k. ground arith;
  discarded = tt;
  allowed = λ e. cc;
}

pub queue_of-IsServing :
    (s n : ℕ) (xs : List (ℕ × Protected fair_counter))
    (ys : List (ℕ × Removed fair_counter closeable))
    → IsServing (queue_of s n xs ys)
queue_of-IsServing s n xs ys = record { healthy = refl; admitting = refl; opened = refl }
