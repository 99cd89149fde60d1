-- ===== src/Tests/Mutex.antt =====
-- Runs of flag-bearer-mutex/src/futex.rs, over a kernel that keeps the set of sleeping threads.
use flag_bearer.Base.{
  ℕ, ◌+◌, List, [], ◌∷◌, ◌≡◌, ◌≢◌, refl, ap, ◌∙◌, ◌⊎◌, inl, inr, Bool, true, false, ◌==◌, ==_iff,
  Bool-cases, arith,
}
use flag_bearer.Mutex.Futex.{Futex}
use flag_bearer.Mutex.Raw.{
  outside, in_wait, holds, wakes, contended, Entry, by_lock, act, unlock, is_locked,
}
use flag_bearer.Mutex.System.{set, Mutex, init, acts, begins, Reach, here, next}
use flag_bearer.Mutex.Effect.{moves}
use flag_bearer.Mutex.Shared.{
  locks, accesses, unlocks, Shared, Executes, starts, goes, synchronizes, edits, history, IsSerial,
  Executes-IsSerial,
}
use flag_bearer.Mutex.Safety.{Reach-Exclusive, Reach-Held, Reach-Cared, Reach-Rests}

abbrev Sleepers : Type 0
Sleepers = ℕ → Bool

abbrev WakesOne : Sleepers → Sleepers → Type 0
WakesOne k k' =
    ((i : ℕ) × (k i ≡ true) × (k' ≡ set i false k)) ⊎ (((j : ℕ) → k j ≡ false) × (k' ≡ k))

set_less : (t j : ℕ) (k k' : Sleepers) → k' ≡ set t false k → k' j ≡ true → k j ≡ true
set_less t j k k' e h = elim (Bool-cases (j == t)) [
  | inl i ↦ ground (arith, ap (λ f. f j) e, h, i)
  | inr i ↦ ground (arith, ap (λ f. f j) e, h, i)
]

less : (k k' : Sleepers) → WakesOne k k' → (j : ℕ) → k' j ≡ true → k j ≡ true
less k k' (inl (i, a, e)) j h = set_less i j k k' e h
less k k' (inr (n, e)) j h = cc (ap (λ f. f j) e, h)

woken :
    (k k' : Sleepers)
    → WakesOne k k'
    → (j : ℕ) → k j ≡ true
    → (i : ℕ) × (k i ≡ true) × (k' i ≡ false)
woken k k' (inl (i, a, e)) j h = (i, a, ap (λ f. f i) e ∙ ground arith)
woken k k' (inr (n, e)) j h = cc (n j, h)

asleep_on : (t w e : ℕ) (k k' : Sleepers) → k' ≡ set t (w == e) k → k' t ≡ true → w ≡ e
asleep_on t w e k k' q h = ground (arith, ap (λ f. f t) q, h)

unmoved : (t w e : ℕ) (k k' : Sleepers) → k' ≡ set t (w == e) k → (j : ℕ) → j ≢ t → k' j ≡ k j
unmoved t w e k k' q j n = elim (Bool-cases (j == t)) [
  | inl i ↦ absurd (n ((==_iff j t).0 i))
  | inr i ↦ ap (λ f. f j) q ∙ rw i refl
]

abbrev sleepers : Futex
sleepers = record {
  Kernel = Sleepers;
  initial = λ t. false;
  sleeping = λ k. k;
  Waits = λ t word expected k k'. k' ≡ set t (word == expected) k;
  Wakes = WakesOne;
  Interrupts = λ t k k'. k' ≡ set t false k;
  sleeping-initial = λ t. refl;
  Waits-word = λ {t} {word} {expected} {k} {k'} e h. asleep_on t word expected k k' e h;
  Waits-others = λ {t} {word} {expected} {k} {k'} e j n. unmoved t word expected k k' e j n;
  Wakes-awake = λ {k} {k'} w. less k k' w;
  Wakes-one = λ {k} {k'} w. woken k k' w;
  Interrupts-awake = λ {t} {k} {k'} e j h. set_less t j k k' e h;
}

-- Thread `t` acts.
abbrev after : ℕ → Entry → Mutex sleepers → Mutex sleepers
after t e m = record m {
  word = (act e (m.threads t) m.word).0;
  threads = set t (act e (m.threads t) m.word).1 m.threads;
}

-- Thread 0 has the mutex.
abbrev taken_by_0 : Mutex sleepers
taken_by_0 = record (init sleepers) { word = 1; threads = set 0 holds (λ t. outside) }

taken_by_0-Reach : Reach sleepers taken_by_0
unfolding act
taken_by_0-Reach = next here (acts 0 (by_lock false) refl refl refl)

Reach-Exclusive_example : (◌≡◌ {A = ℕ} 0 0) × (is_locked 1 ≡ true)
Reach-Exclusive_example = Reach-Exclusive 0 0 taken_by_0-Reach refl refl

Reach-Held_example : (i : ℕ) × (taken_by_0.threads i ≡ holds)
unfolding is_locked
Reach-Held_example = Reach-Held taken_by_0-Reach refl

-- The threads `ts` act in this order; who is outside calls `lock`.
abbrev run : List ℕ → Mutex sleepers → Mutex sleepers
run [] m = m
run (t ∷ ts) m = run ts (after t (by_lock false) m)

run-Reach : (ts : List ℕ) (m : Mutex sleepers) → Reach sleepers m → Reach sleepers (run ts m)
run-Reach [] m r = r
run-Reach (t ∷ ts) m r =
    run-Reach ts (after t (by_lock false) m) (next r (acts t (by_lock false) refl refl refl))

-- Thread 0 takes the mutex; thread 1 spins, marks the word, and is about to wait.
abbrev marked : Mutex sleepers
marked = run (0 ∷ 1 ∷ 1 ∷ 1 ∷ 1 ∷ 1 ∷ 1 ∷ 1 ∷ []) (init sleepers)

abbrev waited : Mutex sleepers
waited = record marked {
  threads = set 1 in_wait marked.threads;
  kernel = set 1 (marked.word == contended) (λ t. false);
}

waited-Reach : Reach sleepers waited
unfolding act
waited-Reach =
    next (run-Reach (0 ∷ 1 ∷ 1 ∷ 1 ∷ 1 ∷ 1 ∷ 1 ∷ 1 ∷ []) (init sleepers) here)
      (begins 1 refl refl refl refl)

Reach-Cared_example :
    (waited.threads 1 ≡ in_wait)
    × ((i : ℕ) × (((waited.threads i ≡ holds) × ((unlock waited.word).1 ≡ wakes))
          ⊎ (moves (waited.threads i) (waited.kernel i) ≡ true)))
unfolding act
Reach-Cared_example = Reach-Cared 1 waited-Reach refl

-- Thread 0 took the mutex and left again.
abbrev rested : Mutex sleepers
rested = run (0 ∷ 0 ∷ []) (init sleepers)

rested-outside : (j : ℕ) → (rested.threads j ≡ outside) ⊎ (rested.kernel j ≡ true)
unfolding act
rested-outside j = elim (Bool-cases (j == 0)) [ inl e ↦ inl (rw e refl) | inr e ↦ inl (rw e refl) ]

Reach-Rests_example : rested.threads 1 ≡ outside
Reach-Rests_example = Reach-Rests (run-Reach (0 ∷ 0 ∷ []) (init sleepers) here) rested-outside 1

abbrev Counting : ℕ → ℕ → ℕ → Type 0
Counting t d d' = d' ≡ d + 1

abbrev at : List ℕ → ℕ → Shared sleepers Counting
at ts d = record { mutex = run ts (init sleepers); value = d }

-- Thread 0 takes the mutex and counts a number up; thread 1 finds the mutex taken, thread 0 gives it
-- up, and thread 1, which spins, takes it and counts up.
counted : Executes sleepers Counting 5 (at (0 ∷ 1 ∷ 0 ∷ 1 ∷ 1 ∷ []) 7)
unfolding act
counted =
    goes {u = at (0 ∷ 1 ∷ 0 ∷ 1 ∷ 1 ∷ []) 6}
      (goes {u = at (0 ∷ 1 ∷ 0 ∷ 1 ∷ []) 6}
        (goes {u = at (0 ∷ 1 ∷ 0 ∷ []) 6}
          (goes {u = at (0 ∷ 1 ∷ []) 6}
            (goes {u = at (0 ∷ []) 6}
              (goes {u = at (0 ∷ []) 5}
                (goes starts (synchronizes (acts 0 (by_lock false) refl refl refl) refl))
                (edits 0 refl refl refl))
              (synchronizes (acts 1 (by_lock false) refl refl refl) refl))
            (synchronizes (acts 0 (by_lock false) refl refl refl) refl))
          (synchronizes (acts 1 (by_lock false) refl refl refl) refl))
        (synchronizes (acts 1 (by_lock false) refl refl refl) refl))
      (edits 1 refl refl refl)

counted_events :
    history sleepers Counting counted ≡ accesses 1 ∷ locks 1 ∷ unlocks 0 ∷ accesses 0 ∷ locks 0 ∷ []
unfolding act counted
counted_events = refl

Executes-IsSerial_example :
    IsSerial sleepers Counting 5 (history sleepers Counting counted) (at (0 ∷ 1 ∷ 0 ∷ 1 ∷ 1 ∷ []) 7)
Executes-IsSerial_example = Executes-IsSerial sleepers Counting counted
