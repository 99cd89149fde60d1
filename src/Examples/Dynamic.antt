-- ===== src/Examples/Dynamic.antt =====
-- flag-bearer-examples/examples/dynamic_limit.rs: `ConcurrencyLimit`.
use flag_bearer.Base.{
  ℕ, ◌+◌, ◌<◌, ◌≤◌, ◌≡◌, ◌∙◌, sym, ap, refl, Bool, false, Option, none, some, Result, ok, err, Call,
  gives, panics, ltb, if◌then◌else◌, arith, usize_mod,
}
use flag_bearer.Closeable.{Kind}
use flag_bearer.Traits.{SemaphoreState}
use flag_bearer.External.{Setting}
use flag_bearer.Queue.State.{settled}
use flag_bearer.Queue.Ledger.{Account, stored, total, one}
use flag_bearer.Queue.Ledger.World.{World, RunsWith}
use flag_bearer.Queue.Ledger.Outstanding.{RunsWith-Knows}
use flag_bearer.Examples.{with_sem}
use flag_bearer.Examples.Words.{plus, plus-fits, minus, minus-fits}

pub record ConcurrencyLimit : Type 0 where
  pub in_flight : ℕ
  pub limit : ℕ

-- `acquire`, with the sum in `in_flight`
abbrev entered : ConcurrencyLimit → Option ℕ → Call ConcurrencyLimit (Result (Unit {0}) (Unit {0}))
entered self none = panics self
entered self (some n) = gives (record self { in_flight = n }) (ok tt)

abbrev acquire :
    Bool → ConcurrencyLimit → Unit {0} → Call ConcurrencyLimit (Result (Unit {0}) (Unit {0}))
acquire checks self _ =
    if ltb self.in_flight self.limit
    then entered self (plus checks usize_mod self.in_flight 1)
    else gives self (err tt)

-- `release`, with the difference in `in_flight`
abbrev exited : ConcurrencyLimit → Option ℕ → Call ConcurrencyLimit (Unit {0})
exited self none = panics self
exited self (some n) = gives (record self { in_flight = n }) tt

abbrev release : Bool → ConcurrencyLimit → Unit {0} → Call ConcurrencyLimit (Unit {0})
release checks self _ = exited self (minus checks usize_mod self.in_flight 1)

-- `checks` tells whether the build has overflow checks.
abbrev pub concurrency_limit : Bool → SemaphoreState
concurrency_limit checks = record {
  State = ConcurrencyLimit;
  Params = Unit {0};
  Permit = Unit {0};
  acquire = acquire checks;
  release = release checks;
}

-- `|s| s.limit = limit`
abbrev pub set_limit : ℕ → ConcurrencyLimit → Call ConcurrencyLimit (Unit {0})
set_limit limit self = gives (record self { limit = limit }) tt

-- A callback that sets the limit, to `ceiling` at most.
abbrev pub IsRetune : ℕ → (ConcurrencyLimit → Call ConcurrencyLimit (Unit {0})) → Type 0
IsRetune ceiling f = (limit : ℕ) × (limit ≤ ceiling) × (f ≡ set_limit limit)

module _ (checks : Bool) (s s' : ConcurrencyLimit) where
  module _ (p : Unit {0}) (fits : s.limit < usize_mod) where
    acquired :
        (permit : Unit {0})
        → acquire checks s p ≡ gives s' (ok permit)
        → (s'.in_flight ≡ s.in_flight + 1) × (s'.limit ≡ s.limit) × (s.in_flight < s.limit)
    acquired permit e = ground (arith, plus-fits checks usize_mod s.in_flight 1)

    refused :
        (p' : Unit {0})
        → acquire checks s p ≡ gives s' (err p')
        → (s'.in_flight ≡ s.in_flight) × (s'.limit ≡ s.limit)
    refused p' e = ground (arith, plus-fits checks usize_mod s.in_flight 1)

    steady : ¬ (acquire checks s p ≡ panics s')
    steady e = ground (arith, plus-fits checks usize_mod s.in_flight 1)

  module _ (permit : Unit {0}) (some_out : 1 ≤ s.in_flight) (fits : s.in_flight < usize_mod) where
    released :
        release checks s permit ≡ gives s' tt
        → (s'.in_flight + 1 ≡ s.in_flight) × (s'.limit ≡ s.limit)
    released e = ground (arith, minus-fits checks usize_mod s.in_flight 1 some_out fits)

    returned : ¬ (release checks s permit ≡ panics s')
    returned e = ground (arith, minus-fits checks usize_mod s.in_flight 1 some_out fits)

  retuned :
      (limit : ℕ)
      → set_limit limit s ≡ gives s' tt
      → (s'.in_flight ≡ s.in_flight) × (s'.limit ≡ limit)
  retuned limit e = ground arith

  gentle : (limit : ℕ) → ¬ (set_limit limit s ≡ panics s')
  gentle limit e = ground arith

-- Any setting with this user's state.
abbrev pub dynamic_setting : Bool → Setting → Setting
dynamic_setting checks g = with_sem (concurrency_limit checks) g

module _ (checks : Bool) (g : Setting) (ceiling : ℕ) (fits : ceiling < usize_mod) where
  abbrev in_use : Account (dynamic_setting checks g)
  in_use = record {
    worth = one;
    Holds = λ s n w. (s.in_flight ≡ n) × (s.in_flight ≤ ceiling) × (s.limit ≤ ceiling);
    Tunes = IsRetune ceiling;
    acquires = λ s s' n w p permit (a, b, d) e.
        let (x, y, z) = acquired checks s s' p (omega (arith, d, fits)) permit e in
        (omega (arith, a, x), omega (arith, d, x, z), omega (arith, d, y));
    refuses = λ s s' n w p p' (a, b, d) e.
        let (x, y) = refused checks s s' p (omega (arith, d, fits)) p' e in
        (omega (arith, a, x), omega (arith, b, x), omega (arith, d, y));
    steady = λ s s' n w p (a, b, d) e. steady checks s s' p (omega (arith, d, fits)) e;
    releases = λ s s' n w permit (a, b, d) e.
        let (x, y) = released checks s s' permit (omega (arith, a)) (omega (arith, b, fits)) e in
        (omega (arith, a, x), omega (arith, b, x), omega (arith, d, y));
    returned = λ s s' n w permit (a, b, d) e.
        returned checks s s' permit (omega (arith, a)) (omega (arith, b, fits)) e;
    tunes = λ s s' n w f (limit, l, t) (a, b, d) e.
        let (x, y) = retuned checks s s' limit (sym (ap (λ k. k s) t) ∙ e) in
        (omega (arith, a, x), omega (arith, b, x), omega (arith, l, y));
    tuned = λ s s' n w f (limit, l, t) h e. gentle checks s s' limit (sym (ap (λ k. k s) t) ∙ e);
  }

module _ (checks : Bool) (g : Setting) {c : Kind} where
  -- A limit that moves. With or without overflow checks, if the limit starts at most at `ceiling`,
  -- which fits its type, and nothing is in flight: after polls with memory for a node, cancelled
  -- futures, tries, drops of permits, callbacks that set the limit to any value up to `ceiling`, also
  -- below the permits in flight, sections of `check`, clearing of poison and closing, in any
  -- interleaving of these locked sections, the semaphore is not poisoned, `in_flight` is the number of
  -- permits that are out, in nodes or with tasks, and it is never above `ceiling`.
  pub RunsWith-in_flight :
      (ceiling limit : ℕ) {o : g.Policy} {v : World (dynamic_setting checks g) c}
      → ceiling < usize_mod
      → limit ≤ ceiling
      → RunsWith (IsRetune ceiling) (record { in_flight = 0; limit = limit }) o v
      → (v.queue.poisoned ≡ false)
        × (v.queue.state.in_flight ≡ stored one (settled v.queue) + total one v.held)
        × (v.queue.state.in_flight ≤ ceiling)
  RunsWith-in_flight ceiling limit fits l r =
      let (h, (a, b, d)) = RunsWith-Knows (in_use checks g ceiling fits) (refl, omega arith, l) r in
      (h, a, b)
