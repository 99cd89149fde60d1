-- ===== src/Queue/Check.antt =====
-- flag-bearer-queue/src/lib.rs: `QueueState::check`, the loop that hands out permits.
use flag_bearer.Base.{
  ℕ, zero, suc, ◌≡◌, true, false, ◌&&◌, ◌||◌, Option, none, some, Result, ok, err, Call, gives,
  panics, Exec, returns, unwinds, faults, undefined, no_fuel, length, if◌then◌else◌, decr,
}
use flag_bearer.Closeable.{Kind, can_close}
use flag_bearer.External.{Setting}
use flag_bearer.Queue.State.{Protected, pin_queue, QueueState, waiting}
use flag_bearer.Queue.Wake.{WakeBatch, wakers}

abbrev pub Checked : Setting → Kind → Type 0
Checked g c = Exec (QueueState g c × WakeBatch g) (Unit {0})

-- The rest of the loop, from a place of the cursor on.
abbrev pub Rest : Setting → Kind → Type 0
Rest g c = Option ℕ → QueueState g c → WakeBatch g → Checked g c

module _ {g : Setting} {c : Kind} where
  -- After `wakes.push(waker)`, which panics on a full batch.
  unfoldable pub pushed :
      Rest g c → Option ℕ → QueueState g c → WakeBatch g → Option (WakeBatch g) → Checked g c
  pushed again next q ws none = unwinds (q, ws)
  pushed again next q ws (some ws') = elim ((wakers g).is_full ws') [
    | true ↦ returns (q, ws') tt
    | false ↦ again next q ws'
  ]

  -- After `leader.remove_current(Ok(permit))`.
  unfoldable pub taken_out :
      Rest g c
      → QueueState g c
      → WakeBatch g
      → Option (Protected g × Option ℕ × (pin_queue g c).Pins)
      → Checked g c
  unfolding pushed
  taken_out again q ws none = faults undefined
  taken_out again q ws (some (p, next, nodes)) =
      pushed again next (record q { nodes = nodes; len = decr q.len }) ws ((wakers g).push p.1 ws)

  -- The answer of `self.state.acquire(params)` for the node `k`, whose parameters are taken.
  unfoldable pub answered :
      Rest g c
      → ℕ
      → g.Waker
      → QueueState g c
      → WakeBatch g
      → Call g.State (Result g.Permit g.Params)
      → Checked g c
  unfolding taken_out
  answered again k w q ws (panics s) = unwinds (record q { state = s; poisoned = true }, ws)
  answered again k w q ws (gives s (ok permit)) =
      taken_out again (record q { state = s }) ws
        ((pin_queue g c).remove_current k (ok permit) q.nodes)
  answered again k w q ws (gives s (err p)) =
      returns (record q { state = s; nodes = (pin_queue g c).write k (some p, w) q.nodes }, ws) tt

  -- One round, at the node `k` with what `leader.protected_mut()` gives.
  unfoldable pub visit :
      Rest g c → ℕ → QueueState g c → WakeBatch g → Option (Protected g) → Checked g c
  unfolding answered
  visit again k q ws none = returns (q, ws) tt
  visit again k q ws (some (none, w)) = again ((pin_queue g c).move_next k q.nodes) q ws
  visit again k q ws (some (some p, w)) =
      answered again k w (record q { nodes = (pin_queue g c).write k (none, w) q.nodes }) ws
        (g.acquire q.state p)

  unfoldable pub check_loop : ℕ → Rest g c
  unfolding visit
  check_loop zero cursor q ws = faults no_fuel
  check_loop (suc fuel) none q ws = returns (q, ws) tt
  check_loop (suc fuel) (some k) q ws =
      visit (check_loop fuel) k q ws ((pin_queue g c).protected k q.nodes)

  unfoldable pub check : QueueState g c → WakeBatch g → Checked g c
  unfolding check_loop
  check q ws =
      if q.poisoned || (can_close c && q.closed) then returns (q, ws) tt else elim q.queue [
        | ok _ ↦ check_loop (suc (length (waiting q))) ((pin_queue g c).cursor_front q.nodes) q ws
        | err _ ↦ returns (q, ws) tt
      ]

  pub pushed-full :
      (again : Rest g c) (next : Option ℕ) (q : QueueState g c) (ws ws' : WakeBatch g)
      → (wakers g).is_full ws' ≡ true
      → pushed again next q ws (some ws') ≡ returns (q, ws') tt
  unfolding pushed
  pushed-full again next q ws ws' e = rw (e, pushed)

  pub pushed-not-full :
      (again : Rest g c) (next : Option ℕ) (q : QueueState g c) (ws ws' : WakeBatch g)
      → (wakers g).is_full ws' ≡ false
      → pushed again next q ws (some ws') ≡ again next q ws'
  unfolding pushed
  pushed-not-full again next q ws ws' e = rw (e, pushed)
