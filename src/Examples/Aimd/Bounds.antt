-- ===== src/Examples/Aimd/Bounds.antt =====
-- flag-bearer-examples/examples/aimd.rs: `Aimd` as an account, with the bounds of its limit.
use flag_bearer.Base.{
  gives_state, subst, ◌+◌, ◌<◌, ◌≤◌, ◌≡◌, ◌∙◌, Bool-cases, inl, inr, sym, ap, refl, Bool, true,
  false, Result, ok, err, gives, panics, arith,
}
use flag_bearer.Closeable.{Kind}
use flag_bearer.External.{Setting}
use flag_bearer.Queue.State.{settled}
use flag_bearer.Queue.Ledger.{Account, stored, total, one}
use flag_bearer.Queue.Ledger.World.{World, RunsWith}
use flag_bearer.Queue.Ledger.Outstanding.{RunsWith-Knows}
use flag_bearer.Examples.Words.{plus-fits, minus-fits, u32_mod}
use flag_bearer.Examples.Floats.{Float, IsFloat, Le}
use flag_bearer.Examples.Aimd.{
  Aimd, acquire, release, on_success, on_failure, limit, feedback, IsFeedback, aimd_setting,
}

module _ (f : Float) (checks : Bool) (s s' : Aimd f) where
  module _ (p : Unit {0})
      (fits : f.lt (f.from_u32 s.in_flight) s.limit ≡ true → s.in_flight + 1 < u32_mod) where
    acquired :
        (permit : Unit {0})
        → acquire f checks s p ≡ gives s' (ok permit)
        → (s'.in_flight ≡ s.in_flight + 1)
          × (s'.in_flight < u32_mod)
          × (s'.limit ≡ s.limit)
          × (s'.min ≡ s.min)
          × (s'.max ≡ s.max)
    acquired permit e = elim (Bool-cases (f.lt (f.from_u32 s.in_flight) s.limit)) [
      | inl l ↦ ground (arith, l, plus-fits checks u32_mod s.in_flight 1 (fits l))
      | inr l ↦ ground (arith, l)
    ]

    refused :
        (p' : Unit {0})
        → acquire f checks s p ≡ gives s' (err p')
        → (s'.in_flight ≡ s.in_flight) × (s'.limit ≡ s.limit) × (s'.min ≡ s.min) × (s'.max ≡ s.max)
    refused p' e = elim (Bool-cases (f.lt (f.from_u32 s.in_flight) s.limit)) [
      | inl l ↦ ground (arith, l, plus-fits checks u32_mod s.in_flight 1 (fits l))
      | inr l ↦ ground (arith, l)
    ]

    steady : ¬ (acquire f checks s p ≡ panics s')
    steady e = elim (Bool-cases (f.lt (f.from_u32 s.in_flight) s.limit)) [
      | inl l ↦ ground (arith, l, plus-fits checks u32_mod s.in_flight 1 (fits l))
      | inr l ↦ ground (arith, l)
    ]

  module _ (permit : Unit {0}) (some_out : 1 ≤ s.in_flight) (fits : s.in_flight < u32_mod) where
    released :
        release f checks s permit ≡ gives s' tt
        → (s'.in_flight + 1 ≡ s.in_flight)
          × (s'.limit ≡ s.limit)
          × (s'.min ≡ s.min)
          × (s'.max ≡ s.max)
    released e = ground (arith, minus-fits checks u32_mod s.in_flight 1 some_out fits)

    returned : ¬ (release f checks s permit ≡ panics s')
    returned e = ground (arith, minus-fits checks u32_mod s.in_flight 1 some_out fits)

module _ (f : Float) (laws : IsFloat f) where
  -- The limit lies in its bounds.
  pub record IsWithin (min max : f.F) (s : Aimd f) : Type 0 where
    pub mins : s.min ≡ min
    pub maxes : s.max ≡ max
    pub above : Le f min s.limit
    pub below : Le f s.limit max

  moved :
      {min max : f.F} (s s' : Aimd f)
      → (s'.limit ≡ s.limit) × (s'.min ≡ s.min) × (s'.max ≡ s.max)
      → IsWithin min max s
      → IsWithin min max s'
  moved s s' (l, a, b) h = record {
    mins = a ∙ h.mins;
    maxes = b ∙ h.maxes;
    above = rw l h.above;
    below = rw l h.below;
  }

  module _ (min max : f.F) (positive : Le f f.zero min) (bounds : Le f min max) (s : Aimd f)
      (h : IsWithin min max s) where
    limit_nonneg : Le f f.zero s.limit
    limit_nonneg = laws.le_trans f.zero min s.limit positive h.above

    on_success-IsWithin : IsWithin min max (on_success f s)
    on_success-IsWithin =
        let up = laws.le-add-one s.limit limit_nonneg in
        record {
          mins = h.mins;
          maxes = h.maxes;
          above = rw (h.maxes) (laws.le-min _ _ _ (laws.le_trans min s.limit _ h.above up) bounds);
          below =
              rw (h.maxes)
                (laws.min_le _ _ (laws.refl_of_le _ _ up).1 (laws.refl_of_le _ _ bounds).1);
        }

    on_failure-IsWithin : IsWithin min max (on_failure f s)
    on_failure-IsWithin =
        let down = laws.mul-half-le s.limit limit_nonneg in
        record {
          mins = h.mins;
          maxes = h.maxes;
          above =
              rw (h.mins)
                (laws.le_max _ _ (laws.refl_of_le _ _ down).0 (laws.refl_of_le _ _ bounds).0);
          below = rw (h.mins) (laws.max-le _ _ _ (laws.le_trans _ s.limit max down h.below) bounds);
        }

    feedback-IsWithin :
        (r : Result (Unit {0}) (Unit {0})) (s' : Aimd f)
        → feedback f r s ≡ gives s' tt
        → IsWithin min max s' × (s'.in_flight ≡ s.in_flight)
    feedback-IsWithin (ok _) s' e =
        let m = gives_state e in
        (subst (IsWithin min max) m on_success-IsWithin, ap (λ t. t.in_flight) (sym m))
    feedback-IsWithin (err _) s' e =
        let m = gives_state e in
        (subst (IsWithin min max) m on_failure-IsWithin, ap (λ t. t.in_flight) (sym m))

    feedback-gentle :
        (r : Result (Unit {0}) (Unit {0})) (s' : Aimd f) → ¬ (feedback f r s ≡ panics s')
    feedback-gentle (ok _) s' e = ground arith
    feedback-gentle (err _) s' e = ground arith

  module _ (min max : f.F) (positive : Le f f.zero min) (bounds : Le f min max)
      (small : Le f max (f.from_u32 4294967295)) where
    -- A state that lets another task in is far from overflow.
    acquire-fits :
        (s : Aimd f)
        → IsWithin min max s
        → s.in_flight < u32_mod
        → f.lt (f.from_u32 s.in_flight) s.limit ≡ true
        → s.in_flight + 1 < u32_mod
    acquire-fits s h fits l = omega (
      arith,
      laws.lt-from_u32 s.in_flight 4294967295 fits (omega arith)
          (laws.lt-le_trans _ s.limit _ l (laws.le_trans s.limit max _ h.below small)),
    )

    abbrev adaptive : (checks : Bool) (g : Setting) → Account (aimd_setting f checks g)
    adaptive checks g = record {
      worth = one;
      Holds = λ s n w. (s.in_flight ≡ n) × (s.in_flight < u32_mod) × IsWithin min max s;
      Tunes = IsFeedback f;
      acquires = λ s s' n w p permit (a, b, h) e.
          let (x, y, l, u, v) = acquired f checks s s' p (acquire-fits s h b) permit e in
          (omega (arith, a, x), omega (arith, x, y), moved s s' (l, u, v) h);
      refuses = λ s s' n w p p' (a, b, h) e.
          let (x, l, u, v) = refused f checks s s' p (acquire-fits s h b) p' e in
          (omega (arith, a, x), omega (arith, b, x), moved s s' (l, u, v) h);
      steady = λ s s' n w p (a, b, h) e. steady f checks s s' p (acquire-fits s h b) e;
      releases = λ s s' n w permit (a, b, h) e.
          let (x, l, u, v) = released f checks s s' permit (omega (arith, a)) b e in
          (omega (arith, a, x), omega (arith, b, x), moved s s' (l, u, v) h);
      returned =
          λ s s' n w permit (a, b, h) e. returned f checks s s' permit (omega (arith, a)) b e;
      tunes = λ s s' n w k (r, t) (a, b, h) e.
          let (x, y) =
            feedback-IsWithin min max positive bounds s h r s' (sym (ap (λ k. k s) t) ∙ e) in
          (omega (arith, a, y), omega (arith, b, y), x);
      tuned = λ s s' n w k (r, t) (a, b, h) e.
          feedback-gentle min max positive bounds s h r s' (sym (ap (λ k. k s) t) ∙ e);
    }

module _ (f : Float) (laws : IsFloat f) (checks : Bool) (g : Setting) {c : Kind} where
  -- The limiter adapts within its bounds. For `f64` with the laws of `IsFloat`, with or without
  -- overflow checks, if `0.0 <= min`, the limit starts between `min` and `max`, `max` is at most
  -- `u32::MAX` and nothing is in flight: after polls with memory for a node, cancelled futures, tries,
  -- drops of permits, feedback of successes and failures, sections of `check`, clearing of poison and
  -- closing, in any interleaving of these locked sections, the semaphore is not poisoned, `in_flight`
  -- is the number of permits that are out, in nodes or with tasks, and what `limit` reports lies
  -- between `min` and `max`, as `as u32` rounds them.
  pub RunsWith-limit :
      (min max start : f.F) {o : g.Policy} {v : World (aimd_setting f checks g) c}
      → Le f f.zero min
      → Le f min start
      → Le f start max
      → Le f max (f.from_u32 4294967295)
      → RunsWith (IsFeedback f) (record { in_flight = 0; limit = start; min = min; max = max }) o v
      → (v.queue.poisoned ≡ false)
        × (v.queue.state.in_flight ≡ stored one (settled v.queue) + total one v.held)
        × (f.as_u32 min ≤ limit f v.queue.state)
        × (limit f v.queue.state ≤ f.as_u32 max)
  RunsWith-limit min max start positive above below small r =
      let (h, k) =
        RunsWith-Knows
          (adaptive f laws min max positive (laws.le_trans min start max above below) small checks
            g)
          (refl, omega arith, record { mins = refl; maxes = refl; above = above; below = below })
          r in
      (h, k.0, laws.as_u32-le _ _ k.2.above, laws.as_u32-le _ _ k.2.below)
