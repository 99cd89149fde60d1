-- ===== src/Mutex/System.antt =====
-- flag-bearer-mutex/src/futex.rs under any interleaving of the atomic actions of any threads.
use flag_bearer.Base.{ℕ, ◌≡◌, false, ◌==◌, if◌then◌else◌}
use flag_bearer.Mutex.Futex.{Futex}
use flag_bearer.Mutex.Raw.{
  Place, outside, spins, waits, in_wait, wakes, unlocked, contended, Entry, act,
}

abbrev pub set : {A : Type 0} → ℕ → A → (ℕ → A) → ℕ → A
set t a f j = if j == t then a else f j

module _ (K : Futex) where
  pub record Mutex : Type 0 where
    pub word : ℕ
    pub threads : ℕ → Place
    pub kernel : K.Kernel

  -- `INIT`, with every thread outside.
  abbrev pub init : Mutex
  init = record { word = unlocked; threads = λ t. outside; kernel = K.initial }

  -- The thread `t` acts on the word, begins a wait, returns from it and spins again, or wakes; or
  -- the kernel ends a sleep.
  pub data Step (m m' : Mutex) : Type 0 where
    acts :
        (t : ℕ) (e : Entry)
        → m'.word ≡ (act e (m.threads t) m.word).0
        → m'.threads ≡ set t (act e (m.threads t) m.word).1 m.threads
        → m'.kernel ≡ m.kernel
        → Step m m'
    begins :
        (t : ℕ)
        → m.threads t ≡ waits
        → m'.word ≡ m.word
        → m'.threads ≡ set t in_wait m.threads
        → K.Waits t m.word contended m.kernel m'.kernel
        → Step m m'
    returns :
        (t : ℕ)
        → m.threads t ≡ in_wait
        → K.sleeping m.kernel t ≡ false
        → m'.word ≡ m.word
        → m'.threads ≡ set t (spins false 4) m.threads
        → m'.kernel ≡ m.kernel
        → Step m m'
    notifies :
        (t : ℕ)
        → m.threads t ≡ wakes
        → m'.word ≡ m.word
        → m'.threads ≡ set t outside m.threads
        → K.Wakes m.kernel m'.kernel
        → Step m m'
    interrupts :
        (t : ℕ)
        → m'.word ≡ m.word
        → m'.threads ≡ m.threads
        → K.Interrupts t m.kernel m'.kernel
        → Step m m'

  pub data Reach : Mutex → Type 0 where
    here : Reach init
    next : {m m' : Mutex} → Reach m → Step m m' → Reach m'

-- The thread that takes the step, or whose sleep ends.
abbrev pub actor : {K : Futex} {m m' : Mutex K} → Step K m m' → ℕ
actor (acts t e a b c) = t
actor (begins t i a b c) = t
actor (returns t i s a b c) = t
actor (notifies t i a b c) = t
actor (interrupts t a b c) = t
