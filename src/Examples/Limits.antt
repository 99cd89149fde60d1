-- ===== src/Examples/Limits.antt =====
-- flag-bearer-examples/examples/multi_dimensional.rs: `Limits` and `Reservation`.
use flag_bearer.Base.{
  ℕ, ◌+◌, ◌-◌, ◌<◌, ◌≡◌, Bool, false, ◌&&◌, Option, none, some, Result, ok, err, Call, gives,
  panics, leb, if◌then◌else◌, arith, usize_mod,
}
use flag_bearer.Closeable.{Kind}
use flag_bearer.Traits.{SemaphoreState}
use flag_bearer.External.{Setting}
use flag_bearer.Queue.State.{settled}
use flag_bearer.Queue.Ledger.{Account, stored, total, one}
use flag_bearer.Queue.Ledger.World.{World, Runs}
use flag_bearer.Queue.Ledger.Outstanding.{RunsWith-Knows}
use flag_bearer.Examples.{with_sem}
use flag_bearer.Examples.Words.{plus, plus-fits, u64_mod}

pub record Limits : Type 0 where
  pub requests : ℕ
  pub bytes : ℕ

pub record Reservation : Type 0 where
  pub bytes : ℕ

abbrev pub reserved : Reservation → ℕ
reserved req = req.bytes

abbrev acquire : Limits → Reservation → Call Limits (Result Reservation Reservation)
acquire self req =
    if leb 1 self.requests && leb req.bytes self.bytes
    then gives (record { requests = self.requests - 1; bytes = self.bytes - req.bytes }) (ok req)
    else gives self (err req)

-- `release`, with the sum in `bytes`
abbrev returned_bytes : Limits → Option ℕ → Call Limits (Unit {0})
returned_bytes self none = panics self
returned_bytes self (some bytes) = gives (record self { bytes = bytes }) tt

-- `release`, with the sum in `requests`
abbrev returned_request : Bool → Limits → Reservation → Option ℕ → Call Limits (Unit {0})
returned_request checks self req none = panics self
returned_request checks self req (some requests) =
    returned_bytes (record self { requests = requests }) (plus checks u64_mod self.bytes req.bytes)

abbrev release : Bool → Limits → Reservation → Call Limits (Unit {0})
release checks self req = returned_request checks self req (plus checks usize_mod self.requests 1)

-- `checks` tells whether the build has overflow checks.
abbrev pub limits : Bool → SemaphoreState
limits checks = record {
  State = Limits;
  Params = Reservation;
  Permit = Reservation;
  acquire = acquire;
  release = release checks;
}

module _ (s s' : Limits) where
  acquired :
      (p permit : Reservation)
      → acquire s p ≡ gives s' (ok permit)
      → (s'.requests + 1 ≡ s.requests) × (s'.bytes + permit.bytes ≡ s.bytes)
  acquired p permit e = ground arith

  refused :
      (p p' : Reservation)
      → acquire s p ≡ gives s' (err p')
      → (s'.requests ≡ s.requests) × (s'.bytes ≡ s.bytes)
  refused p p' e = ground arith

  steady : (p : Reservation) → ¬ (acquire s p ≡ panics s')
  steady p e = ground arith

  module _ (checks : Bool) (permit : Reservation) (a : s.requests + 1 < usize_mod)
      (b : s.bytes + permit.bytes < u64_mod) where
    released :
        release checks s permit ≡ gives s' tt
        → (s'.requests ≡ s.requests + 1) × (s'.bytes ≡ s.bytes + permit.bytes)
    released e = ground (
      arith,
      plus-fits checks usize_mod s.requests 1 a,
      plus-fits checks u64_mod s.bytes permit.bytes b,
    )

    returned : ¬ (release checks s permit ≡ panics s')
    returned e = ground (
      arith,
      plus-fits checks usize_mod s.requests 1 a,
      plus-fits checks u64_mod s.bytes permit.bytes b,
    )

-- Any setting with this user's state.
abbrev pub limits_setting : Bool → Setting → Setting
limits_setting checks g = with_sem (limits checks) g

module _ (checks : Bool) (g : Setting) (start : Limits) (a : start.requests < usize_mod)
    (b : start.bytes < u64_mod) where
  abbrev budget : Account (limits_setting checks g)
  budget = record {
    worth = reserved;
    Holds = λ s n w. (s.requests + n ≡ start.requests) × (s.bytes + w ≡ start.bytes);
    Tunes = λ f. ⊥;
    acquires = λ s s' n w p permit h e.
        let (x, y) = acquired s s' p permit e in (omega (arith, h.0, x), omega (arith, h.1, y));
    refuses = λ s s' n w p p' h e.
        let (x, y) = refused s s' p p' e in (omega (arith, h.0, x), omega (arith, h.1, y));
    steady = λ s s' n w p h e. steady s s' p e;
    releases = λ s s' n w permit h e.
        let (x, y) =
          released s s' checks permit (omega (arith, h.0, a)) (omega (arith, h.1, b)) e in
        (omega (arith, h.0, x), omega (arith, h.1, y));
    returned = λ s s' n w permit h e.
        returned s s' checks permit (omega (arith, h.0, a)) (omega (arith, h.1, b)) e;
    tunes = λ s s' n w f t h e. elim t [ ];
    tuned = λ s s' n w f t h e. elim t [ ];
  }

module _ (checks : Bool) (g : Setting) {c : Kind} where
  -- Two budgets in one semaphore. With or without overflow checks, from limits that fit their types:
  -- after polls with memory for a node, cancelled futures, tries, drops of permits, sections of
  -- `check`, clearing of poison and closing, in any interleaving of these locked sections, the
  -- semaphore is not poisoned, the free requests and the permits that are out, in nodes or with
  -- tasks, add up to the requests at the start, and so do the free bytes and the bytes that these
  -- permits reserve. So no sum overflows and no permit takes from one budget alone.
  pub Runs-budget :
      (start : Limits) {o : g.Policy} {v : World (limits_setting checks g) c}
      → start.requests < usize_mod
      → start.bytes < u64_mod
      → Runs start o v
      → (v.queue.poisoned ≡ false)
        × (v.queue.state.requests + stored one (settled v.queue) + total one v.held
            ≡ start.requests)
        × (v.queue.state.bytes + stored reserved (settled v.queue) + total reserved v.held
            ≡ start.bytes)
  Runs-budget start a b r =
      let (h, (n, w)) = RunsWith-Knows (budget checks g start a b) (omega arith, omega arith) r in
      (h, omega (arith, n), omega (arith, w))
