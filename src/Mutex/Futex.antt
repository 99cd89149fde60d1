-- ===== src/Mutex/Futex.antt =====
-- What flag-bearer-mutex/src/futex.rs uses of the kernel: the calls FUTEX_WAIT_BITSET with a full
-- mask and no timeout, and FUTEX_WAKE of one thread, on the word of one mutex.
use flag_bearer.Base.{ℕ, ◌≡◌, ◌≢◌, Bool, true, false}

-- `sleeping k t`: the thread `t` is asleep on the word. Each relation is one atomic step of the
-- kernel. `Waits t word expected` begins a wait of `t`. `Interrupts t` ends the sleep of `t` for
-- another reason than a wake, which the kernel may do at any time.
pub record Futex : Type 1 where
  pub Kernel : Type 0
  pub initial : Kernel
  pub sleeping : Kernel → ℕ → Bool
  pub Waits : ℕ → ℕ → ℕ → Kernel → Kernel → Type 0
  pub Wakes : Kernel → Kernel → Type 0
  pub Interrupts : ℕ → Kernel → Kernel → Type 0
  pub sleeping-initial : (t : ℕ) → sleeping initial t ≡ false
  -- A thread falls asleep only if the word has the value that it expects.
  pub Waits-word :
      {t word expected : ℕ} {k k' : Kernel}
      → Waits t word expected k k'
      → sleeping k' t ≡ true
      → word ≡ expected
  pub Waits-others :
      {t word expected : ℕ} {k k' : Kernel}
      → Waits t word expected k k'
      → (j : ℕ) → j ≢ t
      → sleeping k' j ≡ sleeping k j
  -- A wake puts nobody to sleep, and if there was somebody asleep, it woke one.
  pub Wakes-awake :
      {k k' : Kernel} → Wakes k k' → (j : ℕ) → sleeping k' j ≡ true → sleeping k j ≡ true
  pub Wakes-one :
      {k k' : Kernel}
      → Wakes k k'
      → (j : ℕ) → sleeping k j ≡ true
      → (i : ℕ) × (sleeping k i ≡ true) × (sleeping k' i ≡ false)
  pub Interrupts-awake :
      {t : ℕ} {k k' : Kernel}
      → Interrupts t k k'
      → (j : ℕ) → sleeping k' j ≡ true
      → sleeping k j ≡ true
