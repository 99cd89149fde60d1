-- ===== src/Tests/Drain.antt =====
-- Runs of flag-bearer-queue/src/lib.rs: closing.
use flag_bearer.Base.{
  ℕ, zero, suc, ◌≤◌, ◌≡◌, sym, some, List, ◌∷◌, length, count, Bool-cases, inl, inr, ◌==◌, refl,
  true, [], arith,
}
use flag_bearer.Closeable.{closeable}
use flag_bearer.Queue.State.{Protected, QueueState, clear_poison}
use flag_bearer.Queue.Admit.{try_acquire}
use flag_bearer.Queue.System.{clears, tries}
use flag_bearer.Queue.Close.{Others}
use flag_bearer.Queue.Sound.{Inv}
use flag_bearer.Queue.Drain.Busy.{IsBusy, ShutsDown, close-ShutsDown, rest, more}
use flag_bearer.Queue.Drain.Fewer.{Fewer}
use flag_bearer.Queue.Drain.Fewer.Sections.{Step-Fewer}
use flag_bearer.Sample.{fair_counter}
use flag_bearer.Queue.State.{waiting}
use flag_bearer.Queue.Close.{close}
use flag_bearer.Queue.Rounds.{quiet}
use flag_bearer.Queue.Drain.Close.{Closes, close-Closes}
use flag_bearer.Tests.Inputs.{queue_of, held_up, held_up-Inv}

close-Closes_example : Closes (waiting held_up) held_up [] (close 1 quiet held_up)
close-Closes_example = close-Closes (λ w. refl) 1 held_up (omega arith) held_up-Inv

-- Other tasks clear the poison between the sections.
cleared : Others fair_counter closeable
cleared log q = clear_poison q

cleared-IsBusy : IsBusy {g = fair_counter} cleared
unfolding cleared
cleared-IsBusy log q = more rest (clears refl)

-- `n` tasks, which want one permit each.
abbrev line : ℕ → List (ℕ × Protected fair_counter)
line zero = []
line (suc n) = (n, (some 1, n)) ∷ line n

length-line : (n : ℕ) → length (line n) ≡ n
length-line zero = refl
length-line (suc n) = omega (arith, length-line n)

count-line_above : (k n : ℕ) → n ≤ k → count k (line n) ≡ 0
count-line_above k zero h = refl
count-line_above k (suc n) h = ground (arith, h, count-line_above k n (omega arith))

count-line : (k n : ℕ) → count k (line n) ≤ 1
count-line k zero = omega arith
count-line k (suc n) = elim (Bool-cases (n == k)) [
  | inl e ↦ ground (arith, e, count-line_above k n (ground (arith, e)))
  | inr e ↦ ground (arith, e, count-line k n)
]

-- Forty tasks wait, more than a batch has room for.
abbrev crowd : QueueState fair_counter closeable
crowd = queue_of 0 40 (line 40) []

crowd-Inv : Inv crowd
crowd-Inv = record {
  counted = sym (length-line 40);
  fits = omega (arith, length-line 40);
  single = λ k. omega (arith, count-line k 40);
  discarded = tt;
  allowed = λ e. cc;
}

close-ShutsDown_example : ShutsDown (close 2 cleared crowd)
close-ShutsDown_example =
    close-ShutsDown (λ w. refl) cleared cleared-IsBusy 2 crowd (omega (arith, length-line 40))
      crowd-Inv

-- Tasks 1 and 2 wait in a queue that is being closed.
abbrev closing : QueueState fair_counter closeable
closing = record held_up { closed = true }

closing-Inv : Inv closing
closing-Inv = record {
  counted = refl;
  fits = omega arith;
  single = λ k. ground arith;
  discarded = tt;
  allowed = λ e. refl;
}

Step-Fewer_example : Fewer closing closing
unfolding try_acquire
Step-Fewer_example =
    Step-Fewer {g = fair_counter} {q = closing} {q' = closing} (tries 1 true refl) closing-Inv refl
