-- ===== src/Mutex/Raw.antt =====
-- flag-bearer-mutex/src/futex.rs: `RawMutex`. A thread is between two atomic actions on the word;
-- an action gives the new word and where the thread goes on.
use flag_bearer.Base.{ℕ, ◌-◌, Bool, true, false, not, ◌||◌, Result, ok, err, ◌==◌, if◌then◌else◌}

abbrev pub unlocked : ℕ
unlocked = 0

abbrev pub locked : ℕ
locked = 1

abbrev pub contended : ℕ
contended = 2

-- Where a thread is: outside; in the loop of `spin` with `spin` rounds left, in its first call or in
-- a later one; before the second attempt of `lock_contended`; at the head of its loop with `state`;
-- before and in the system call of a wait; with the mutex; before the system call of a wake.
pub data Place : Type 0 where
  outside : Place
  spins : (first : Bool) → ℕ → Place
  retries : Place
  marks : ℕ → Place
  waits : Place
  in_wait : Place
  holds : Place
  wakes : Place

-- `AtomicU32::compare_exchange`
abbrev pub compare_exchange : ℕ → ℕ → ℕ → ℕ × Result ℕ ℕ
compare_exchange current new word = if word == current then (new, ok word) else (word, err word)

-- The mutex is taken if the exchange succeeds.
abbrev pub taken : (ℕ → Place) → ℕ × Result ℕ ℕ → ℕ × Place
taken on_error (word, ok _) = (word, holds)
taken on_error (word, err state) = (word, on_error state)

-- `compare_exchange_weak` may fail without a reason: `fails`.
unfoldable pub lock : Bool → ℕ → ℕ × Place
lock fails word =
    if fails
    then (word, spins true 4)
    else taken (λ state. spins true 4) (compare_exchange unlocked locked word)

unfoldable pub try_lock : ℕ → ℕ × Place
try_lock word = taken (λ state. outside) (compare_exchange unlocked locked word)

unfoldable pub unlock : ℕ → ℕ × Place
unlock word = (unlocked, if word == contended then wakes else outside)

unfoldable pub is_locked : ℕ → Bool
is_locked word = not (word == unlocked)

-- What `lock_contended` does with the answer of `spin`.
abbrev pub spun : Bool → ℕ → Place
spun true state = if state == unlocked then retries else marks state
spun false state = marks state

-- One round of the loop of `spin`.
unfoldable pub spin : Bool → ℕ → ℕ → ℕ × Place
spin first n word =
    (word, if not (word == locked) || (n == 0) then spun first word else spins first (n - 1))

unfoldable pub retry : ℕ → ℕ × Place
retry word = taken marks (compare_exchange unlocked locked word)

-- `state != CONTENDED && self.state.swap(CONTENDED, Acquire) == UNLOCKED`
unfoldable pub mark : ℕ → ℕ → ℕ × Place
mark state word =
    if state == contended
    then (word, waits)
    else (contended, if word == unlocked then holds else waits)

-- What a thread outside calls.
pub data Entry : Type 0 where
  by_lock : (fails : Bool) → Entry
  by_try_lock : Entry

abbrev pub enter : Entry → ℕ → ℕ × Place
enter (by_lock fails) word = lock fails word
enter by_try_lock word = try_lock word

-- The next action of a thread on the word; the system calls are steps of their own.
unfoldable pub act : Entry → Place → ℕ → ℕ × Place
unfolding lock try_lock unlock spin retry mark
act e outside word = enter e word
act e (spins first n) word = spin first n word
act e retries word = retry word
act e (marks state) word = mark state word
act e waits word = (word, waits)
act e in_wait word = (word, in_wait)
act e holds word = unlock word
act e wakes word = (word, wakes)
