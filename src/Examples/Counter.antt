-- ===== src/Examples/Counter.antt =====
-- flag-bearer-tests/src/lib.rs: `SemaphoreCounter`.
use flag_bearer.Base.{
  ℕ, ◌+◌, ◌-◌, ◌<◌, ◌≡◌, false, Option, none, some, Result, ok, err, Call, gives, panics, leb,
  if◌then◌else◌, arith, usize_mod,
}
use flag_bearer.Closeable.{Kind}
use flag_bearer.Traits.{SemaphoreState}
use flag_bearer.External.{Setting}
use flag_bearer.Queue.State.{settled}
use flag_bearer.Queue.Ledger.{Account, stored, total}
use flag_bearer.Queue.Ledger.World.{World, Runs}
use flag_bearer.Queue.Ledger.Outstanding.{RunsWith-Knows}
use flag_bearer.Examples.{with_sem}
use flag_bearer.Examples.Words.{checked_add}

pub record SemaphoreCounter : Type 0 where
  pub count : ℕ

abbrev acquire : SemaphoreCounter → ℕ → Call SemaphoreCounter (Result ℕ ℕ)
acquire self params =
    if leb params self.count
    then gives (record { count = self.count - params }) (ok params)
    else gives self (err params)

-- `unwrap` of the new count
abbrev unwrapped : SemaphoreCounter → Option ℕ → Call SemaphoreCounter (Unit {0})
unwrapped self none = panics self
unwrapped self (some count) = gives (record { count = count }) tt

abbrev release : SemaphoreCounter → ℕ → Call SemaphoreCounter (Unit {0})
release self permit = unwrapped self (checked_add usize_mod self.count permit)

abbrev pub semaphore_counter : SemaphoreState
semaphore_counter = record {
  State = SemaphoreCounter;
  Params = ℕ;
  Permit = ℕ;
  acquire = acquire;
  release = release;
}

acquired :
    (s s' : SemaphoreCounter) (p permit : ℕ)
    → acquire s p ≡ gives s' (ok permit)
    → s'.count + permit ≡ s.count
acquired s s' p permit e = ground arith

refused :
    (s s' : SemaphoreCounter) (p p' : ℕ) → acquire s p ≡ gives s' (err p') → s'.count ≡ s.count
refused s s' p p' e = ground arith

steady : (s s' : SemaphoreCounter) (p : ℕ) → ¬ (acquire s p ≡ panics s')
steady s s' p e = ground arith

released :
    (s s' : SemaphoreCounter) (permit : ℕ)
    → s.count + permit < usize_mod
    → release s permit ≡ gives s' tt
    → s'.count ≡ s.count + permit
released s s' permit h e = ground arith

returned :
    (s s' : SemaphoreCounter) (permit : ℕ)
    → s.count + permit < usize_mod
    → ¬ (release s permit ≡ panics s')
returned s s' permit h e = ground arith

-- Any setting with this user's state.
abbrev pub counter_setting : Setting → Setting
counter_setting g = with_sem semaphore_counter g

module _ (g : Setting) (start : ℕ) (fits : start < usize_mod) where
  abbrev counted : Account (counter_setting g)
  counted = record {
    worth = λ permit. permit;
    Holds = λ s n w. s.count + w ≡ start;
    Tunes = λ f. ⊥;
    acquires = λ s s' n w p permit h e. omega (arith, h, acquired s s' p permit e);
    refuses = λ s s' n w p p' h e. omega (arith, h, refused s s' p p' e);
    steady = λ s s' n w p h e. steady s s' p e;
    releases =
        λ s s' n w permit h e. omega (arith, h, released s s' permit (omega (arith, h, fits)) e);
    returned = λ s s' n w permit h e. returned s s' permit (omega (arith, h, fits)) e;
    tunes = λ s s' n w f t h e. elim t [ ];
    tuned = λ s s' n w f t h e. elim t [ ];
  }

module _ (g : Setting) {c : Kind} where
  -- From a count that fits `usize`: after polls with memory for a node, cancelled futures, tries,
  -- drops of permits, sections of `check`, clearing of poison and closing, in any interleaving of
  -- these locked sections, the semaphore is not poisoned, and the free count, the permits in nodes
  -- and those with tasks add up to the count at the start. So `checked_add` in `release` does not
  -- fail.
  pub Runs-counted :
      (start : ℕ) {o : g.Policy} {v : World (counter_setting g) c}
      → start < usize_mod
      → Runs (record { count = start }) o v
      → (v.queue.poisoned ≡ false)
        × (v.queue.state.count + stored (λ n. n) (settled v.queue) + total (λ n. n) v.held ≡ start)
  Runs-counted start {o} {v} fits r =
      let (a, b) = RunsWith-Knows (counted g start fits) (omega arith) r in (a, omega (arith, b))
