-- ===== src/Mutex/Safety.antt =====
-- flag-bearer-mutex/src/futex.rs: every state that threads reach.
use flag_bearer.Base.{ℕ, ◌≡◌, refl, sym, ap, ◌∙◌, ◌⊎◌, inl, inr, Bool, true, arith}
use flag_bearer.Mutex.Futex.{Futex}
use flag_bearer.Mutex.Raw.{
  Place, outside, spins, retries, marks, waits, in_wait, holds, wakes, unlock, is_locked,
}
use flag_bearer.Mutex.System.{
  Mutex, Step, acts, begins, returns, notifies, interrupts, Reach, here, next,
}
use flag_bearer.Mutex.Effect.{holding, moves, Cares}
use flag_bearer.Mutex.Invariant.{
  Owned, IsSafe, acts-IsSafe, begins-IsSafe, returns-IsSafe, notifies-IsSafe, interrupts-IsSafe,
}

pub holding-holds : (p : Place) → holding p ≡ true → p ≡ holds
holding-holds holds e = refl
holding-holds outside e = cc
holding-holds (spins b n) e = cc
holding-holds retries e = cc
holding-holds (marks s) e = cc
holding-holds waits e = cc
holding-holds in_wait e = cc
holding-holds wakes e = cc

module _ {K : Futex} where
  abbrev Safe : Mutex K → Type 0
  Safe m = IsSafe m.word m.threads (K.sleeping m.kernel)

  Safe-of :
      (m : Mutex K) {w : ℕ} {f : ℕ → Place} {s : ℕ → Bool}
      → m.word ≡ w
      → m.threads ≡ f
      → K.sleeping m.kernel ≡ s
      → IsSafe w f s
      → Safe m
  Safe-of m a b c h = rw (a, b, c) h

  Step-Safe : (m m' : Mutex K) → Step K m m' → Safe m → Safe m'
  Step-Safe m m' (acts t e a b c) h =
      Safe-of m' a b (ap K.sleeping c) (acts-IsSafe m.word m.threads (K.sleeping m.kernel) h t e)
  Step-Safe m m' (begins t i a b k) h = Safe-of m' a b refl (
      begins-IsSafe m.word m.threads (K.sleeping m.kernel) h t (K.sleeping m'.kernel) i
        (K.Waits-word k) (K.Waits-others k))
  Step-Safe m m' (returns t i s a b c) h =
      Safe-of m' a b (ap K.sleeping c)
        (returns-IsSafe m.word m.threads (K.sleeping m.kernel) h t i s)
  Step-Safe m m' (notifies t i a b k) h = Safe-of m' a b refl (
      notifies-IsSafe m.word m.threads (K.sleeping m.kernel) h t (K.sleeping m'.kernel) i
        (K.Wakes-awake k) (K.Wakes-one k))
  Step-Safe m m' (interrupts t a b k) h = Safe-of m' a b refl (
      interrupts-IsSafe m.word m.threads (K.sleeping m.kernel) h t (K.sleeping m'.kernel)
        (K.Interrupts-awake k))

  Reach-Safe : {m : Mutex K} → Reach K m → Safe m
  Reach-Safe here = record {
    owned = inl (refl, λ j. refl);
    asleep = λ j k. cc (k, K.sleeping-initial j);
    cared = λ j k. cc (k, K.sleeping-initial j);
  }
  Reach-Safe (next {m} {m'} r s) = Step-Safe m m' s (Reach-Safe r)

  -- Mutual exclusion. In every state that any threads reach by any interleaving of their atomic
  -- actions and system calls, with weak exchanges that fail and sleeps that end at any time, two
  -- threads that hold the mutex are one, and `is_locked` says that it is held.
  pub Reach-Exclusive :
      {m : Mutex K} (i j : ℕ)
      → Reach K m
      → m.threads i ≡ holds
      → m.threads j ≡ holds
      → (i ≡ j) × (is_locked m.word ≡ true)
  unfolding is_locked
  Reach-Exclusive {m} i j r a b = one (Reach-Safe r).owned
    where
      one : Owned m.word m.threads → (i ≡ j) × (is_locked m.word ≡ true)
      one (inl (z, n)) = cc (ap holding a, n i)
      one (inr (l, (o, h, u))) = (u i (ap holding a) ∙ sym (u j (ap holding b)), ground (arith, l))

  -- In every reachable state in which `is_locked` says that the mutex is held, a thread holds it:
  -- the word never stays locked with nobody to unlock it.
  pub Reach-Held :
      {m : Mutex K} → Reach K m → is_locked m.word ≡ true → (i : ℕ) × (m.threads i ≡ holds)
  unfolding is_locked
  Reach-Held {m} r e = one (Reach-Safe r).owned
    where
      one : Owned m.word m.threads → (i : ℕ) × (m.threads i ≡ holds)
      one (inl (z, n)) = ground (arith, e, z)
      one (inr (l, (o, h, u))) = (o, holding-holds (m.threads o) h)

  -- No wakeup is lost. In every reachable state a thread that sleeps is in the system call of its
  -- wait, and either some thread holds the mutex whose unlock leads to a wake, or some thread is
  -- awake inside the loop of `lock_contended`, behind its first call of `spin`, or before its call of
  -- `wake`.
  pub Reach-Cared :
      {m : Mutex K} (j : ℕ)
      → Reach K m
      → K.sleeping m.kernel j ≡ true
      → (m.threads j ≡ in_wait)
        × ((i : ℕ) × (((m.threads i ≡ holds) × ((unlock m.word).1 ≡ wakes))
              ⊎ (moves (m.threads i) (K.sleeping m.kernel i) ≡ true)))
  unfolding unlock
  Reach-Cared {m} j r s =
      let safe = Reach-Safe r in
      let (i, h) = safe.cared j s in (safe.asleep j s, cared_by i h safe.owned)
    where
      cared_by :
          (i : ℕ)
          → Cares m.word (m.threads i) (K.sleeping m.kernel i)
          → Owned m.word m.threads
          → (i : ℕ) × (((m.threads i ≡ holds) × ((unlock m.word).1 ≡ wakes))
              ⊎ (moves (m.threads i) (K.sleeping m.kernel i) ≡ true))
      cared_by i (inr e) o = (i, inr e)
      cared_by i (inl e) (inl (z, n)) = absurd (omega (arith, e, z))
      cared_by i (inl e) (inr (l, (o, h, u))) = (o, inl (holding-holds (m.threads o) h, rw e refl))

  -- No deadlock. In every reachable state in which each thread is outside or asleep, all are
  -- outside: a state in which threads sleep and nobody runs or holds the mutex is never reached.
  pub Reach-Rests :
      {m : Mutex K}
      → Reach K m
      → ((j : ℕ) → (m.threads j ≡ outside) ⊎ (K.sleeping m.kernel j ≡ true))
      → (j : ℕ) → m.threads j ≡ outside
  Reach-Rests {m} r h j = elim (h j) [
    | inl e ↦ e
    | inr e ↦ let (a, (i, c)) = Reach-Cared j r e in absurd (nobody i (h i) c)
  ]
    where
      nobody :
          (i : ℕ)
          → (m.threads i ≡ outside) ⊎ (K.sleeping m.kernel i ≡ true)
          → ((m.threads i ≡ holds) × ((unlock m.word).1 ≡ wakes))
            ⊎ (moves (m.threads i) (K.sleeping m.kernel i) ≡ true)
          → ⊥
      nobody i (inl e) (inl (a, b)) = cc (e, a)
      nobody i (inl e) (inr b) = cc (ap (λ p. moves p (K.sleeping m.kernel i)) e, b)
      nobody i (inr e) (inl (a, b)) = cc (ap holding ((Reach-Safe r).asleep i e), ap holding a)
      nobody i (inr e) (inr b) =
          cc (ap (λ p. moves p (K.sleeping m.kernel i)) ((Reach-Safe r).asleep i e), e, b)
