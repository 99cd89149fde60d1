-- ===== src/Queue/Wake.antt =====
-- flag-bearer-queue/src/lib.rs: `WakeBatch` and `WakeRemaining`.
use flag_bearer.Base.{
  ℕ, ◌+◌, ◌≤◌, ◌<◌, ◌≡◌, refl, ap, ◌∙◌, arith, length, length-append, Bool, true, false, List, [],
  ◌∷◌, ◌++◌, Exec, returns, unwinds, faults, abort, if◌then◌else◌,
}
use flag_bearer.External.{ArrayVec, Setting}

abbrev pub capacity : ℕ
capacity = 32

abbrev pub wakers : (g : Setting) → ArrayVec g.Waker capacity
wakers g = g.array_vec g.Waker capacity

abbrev pub WakeBatch : Setting → Type 0
WakeBatch g = (wakers g).Vec

module _ (g : Setting) where
  -- One run of `for waker in iter { waker.wake() }`: the wakers called, those left when a call
  -- panicked, and whether none did.
  unfoldable pub wake_each : List g.Waker → List g.Waker × List g.Waker × Bool
  wake_each [] = ([], [], true)
  wake_each (w ∷ ws) =
      let rest = wake_each ws in
      if g.wakes w then (w ∷ rest.0, rest.1, rest.2) else (w ∷ [], ws, false)

  -- The drop of `WakeRemaining` while a wake unwinds: a second panic aborts the process.
  unfoldable pub drop_remaining : List g.Waker → List g.Waker → Exec (List g.Waker) (Unit {0})
  unfolding wake_each
  drop_remaining log ws =
      let (called, left, done) = wake_each ws in
      if done then unwinds (log ++ called) else faults abort

  -- `WakeBatch::wake_all`, with the log of the wakers called so far; the batch is drained.
  unfoldable pub wake_all : List g.Waker → List g.Waker → Exec (List g.Waker) (Unit {0})
  unfolding wake_each drop_remaining
  wake_all log ws =
      let (called, left, done) = wake_each ws in
      if done then returns (log ++ called) tt else drop_remaining (log ++ called) left

  -- The drop of a `WakeBatch` while another panic unwinds: any panic of a waker aborts.
  unfoldable pub drop_batch : List g.Waker → List g.Waker → Exec (List g.Waker) (Unit {0})
  unfolding drop_remaining
  drop_batch log ws = drop_remaining log ws

  pub batch_length :
      (ws ws₁ : WakeBatch g) (w : g.Waker)
      → (wakers g).to_list ws₁ ≡ (wakers g).to_list ws ++ w ∷ []
      → length ((wakers g).to_list ws₁) ≡ length ((wakers g).to_list ws) + 1
  batch_length ws ws₁ w e = ap length e ∙ length-append ((wakers g).to_list ws) (w ∷ [])

  pub not-full :
      (ws : WakeBatch g) → length ((wakers g).to_list ws) < capacity → (wakers g).is_full ws ≡ false
  not-full ws h = (wakers g).is_full_lem ws ∙ ground arith

  pub full :
      (ws : WakeBatch g) → length ((wakers g).to_list ws) ≡ capacity → (wakers g).is_full ws ≡ true
  full ws h = (wakers g).is_full_lem ws ∙ ground arith

  pub room_left :
      (ws : WakeBatch g) → (wakers g).is_full ws ≡ false → length ((wakers g).to_list ws) < capacity
  room_left ws h = ground (arith, (wakers g).is_full_lem ws)

  pub length-new : length ((wakers g).to_list (wakers g).new) ≡ 0
  length-new = ap length (wakers g).to_list-new

  pub filled :
      (ws : WakeBatch g) → (wakers g).is_full ws ≡ true → capacity ≤ length ((wakers g).to_list ws)
  filled ws h = ground (arith, (wakers g).is_full_lem ws)

  -- No waker of the runtime panics.
  abbrev pub AllWake : Type 0
  AllWake = (w : g.Waker) → g.wakes w ≡ true

  wake_each-all : AllWake → (ws : List g.Waker) → wake_each ws ≡ (ws, [], true)
  unfolding wake_each
  wake_each-all h [] = refl
  wake_each-all h (w ∷ ws) = rw (wake_each-all h ws, h w) refl

  pub wake_all-AllWake :
      AllWake → (log ws : List g.Waker) → wake_all log ws ≡ returns (log ++ ws) tt
  unfolding wake_all
  wake_all-AllWake h log ws = rw (wake_each-all h ws) refl

  pub drop_batch-AllWake :
      AllWake → (log ws : List g.Waker) → drop_batch log ws ≡ unwinds (log ++ ws)
  unfolding drop_batch
  drop_batch-AllWake h log ws = rw (wake_each-all h ws) refl
