-- ===== src/Queue/Ledger/Leave.antt =====
-- flag-bearer-queue/src/acquire.rs: the account over `release`, a change of the user's state
-- and the drop of an `Acquire`.
use flag_bearer.Base.{
  ℕ, ◌+◌, ◌≡◌, refl, sym, ◌∙◌, ap, true, false, ◌||◌, some, ok, err, Call, gives, panics, Exec,
  returns, unwinds, faults, arith, Bool-cases, inl, inr, Result-intro, has, find, find-has,
  find-none, erase,
}
use flag_bearer.Closeable.{Kind}
use flag_bearer.External.{Setting, removed}
use flag_bearer.Queue.State.{
  Removed, Nodes, pin_queue, QueueState, waiting, settled, update_state, guarded,
}
use flag_bearer.Queue.Acquire.{leave, left, left_closed, give_back, nothing}
use flag_bearer.Queue.Sound.{Inv, discarded-waiting}
use flag_bearer.Queue.Ledger.{Account, value, stored, stored-erase, one, Kept, Kept-moved, Holds-at}

module _ {g : Setting} {c : Kind} (m : Account g) where
  open m use {worth, Tunes}

  -- However the call ends, `n` permits worth `w` are outside of the queue.
  abbrev pub Balanced : ℕ → ℕ → {A : Type 0} → Exec (QueueState g c) A → Type 0
  Balanced n w (returns q _) = Kept m q n w
  Balanced n w (unwinds q) = Kept m q n w
  Balanced n w (faults _) = Unit {0}

  module _ (q : QueueState g c) (n w : ℕ) where
    before :
        (permit : g.Permit)
        → Kept m q (n + 1) (w + worth permit)
        → m.Holds q.state
            (stored one (settled q) + n + 1)
            (stored worth (settled q) + w + worth permit)
    before permit h = Holds-at m q.state _ _ _ _ (omega arith) (omega arith) h.1

    released :
        (permit : g.Permit) (call : Call g.State (Unit {0}))
        → Kept m q (n + 1) (w + worth permit)
        → g.release q.state permit ≡ call
        → Balanced n w (guarded q call)
    unfolding guarded
    released permit (gives s _) h e = (h.0, m.releases q.state s _ _ permit (before permit h) e)
    released permit (panics s) h e = absurd (m.returned q.state s _ _ permit (before permit h) e)

    -- The drop of a held permit.
    pub release-Balanced :
        (permit : g.Permit)
        → Kept m q (n + 1) (w + worth permit)
        → Balanced n w (update_state q (λ s. g.release s permit))
    unfolding update_state
    release-Balanced permit h = released permit (g.release q.state permit) h refl

    retuned :
        (f : g.State → Call g.State (Unit {0})) (call : Call g.State (Unit {0}))
        → Tunes f
        → Kept m q n w
        → f q.state ≡ call
        → Balanced n w (guarded q call)
    unfolding guarded
    retuned f (gives s _) t h e = (h.0, m.tunes q.state s _ _ f t h.1 e)
    retuned f (panics s) t h e = absurd (m.tuned q.state s _ _ f t h.1 e)

    -- A callback that keeps to the account.
    pub tune-Balanced :
        (f : g.State → Call g.State (Unit {0}))
        → Tunes f
        → Kept m q n w
        → Balanced n w (update_state q f)
    unfolding update_state
    tune-Balanced f t h = retuned f (f q.state) t h refl

    give_back-Balanced :
        (permit : g.Permit)
        → Kept m q (n + 1) (w + worth permit)
        → Balanced n w (give_back q permit)
    unfolding give_back
    give_back-Balanced permit h =
        go (update_state q (λ s. g.release s permit)) (release-Balanced permit h)
      where
        go : (r : Exec (QueueState g c) (Unit {0})) → Balanced n w r → Balanced n w (nothing r)
        go (returns q' _) h = h
        go (unwinds q') h = h
        go (faults f) h = h

  module _ (k : ℕ) (q : QueueState g c) (n w : ℕ) where
    left-Balanced :
        (r : Removed g c) (nodes : Nodes g c)
        → Kept m (record q { nodes = nodes }) (n + value one r) (w + value worth r)
        → Balanced n w (left q (some (removed r, nodes)))
    unfolding left
    left-Balanced (ok permit) nodes h = give_back-Balanced (record q { nodes = nodes }) n w permit h
    left-Balanced (err params) nodes h =
        Kept-moved m (record q { nodes = nodes }) (record q { nodes = nodes }) (n + 0) n (w + 0) w
          refl refl (omega arith) (omega arith) h

    left_closed-Balanced :
        (r : Removed g c) (nodes : Nodes g c)
        → Kept m (record q { nodes = nodes }) (n + value one r) (w + value worth r)
        → Balanced n w (left_closed q (some (r, nodes)))
    unfolding left_closed
    left_closed-Balanced (ok permit) nodes h =
        give_back-Balanced (record q { nodes = nodes }) n w permit h
    left_closed-Balanced (err params) nodes h =
        Kept-moved m (record q { nodes = nodes }) (record q { nodes = nodes }) (n + 0) n (w + 0) w
          refl refl (omega arith) (omega arith) h

    module _ (h : Kept m q n w) where
      taken :
          (r : Removed g c) (nodes : Nodes g c)
          → find k (settled q) ≡ some r
          → (pin_queue g c).removed nodes ≡ erase k (settled q)
          → Kept m (record q { nodes = nodes }) (n + value one r) (w + value worth r)
      taken r nodes f e =
          Kept-moved m q (record q { nodes = nodes }) n (n + value one r) w (w + value worth r) refl
            refl (omega (arith, ap (stored one) e, stored-erase one k r (settled q) f))
            (omega (arith, ap (stored worth) e, stored-erase worth k r (settled q) f)) h

      left_linked :
          has k (waiting q) ≡ true → Balanced n w (left q ((pin_queue g c).reset k q.nodes))
      unfolding left
      left_linked l =
          let (p, f) = find-has k (waiting q) l in
          let (nodes, t, links, removes) = (pin_queue g c).reset_linked k p q.nodes f in
          rw (t, left) (h.0, rw removes h.1)

      left_removed :
          has k (waiting q) ≡ false
          → has k (settled q) ≡ true
          → Balanced n w (left q ((pin_queue g c).reset k q.nodes))
      left_removed l e =
          let (r, f) = find-has k (settled q) e in
          let (nodes, t, links, removes) =
            (pin_queue g c).reset_removed k r q.nodes (find-none k (waiting q) l) f in
          rw t (left-Balanced r nodes (taken r nodes f removes))

      left_discarded :
          has k (settled q) ≡ true
          → Balanced n w (left_closed q ((pin_queue g c).take_removed k q.nodes))
      left_discarded e =
          let (r, f) = find-has k (settled q) e in
          let (nodes, t, links, removes) = (pin_queue g c).take_removed_some k r q.nodes f in
          rw t (left_closed-Balanced r nodes (taken r nodes f removes))

      pub leave-Balanced :
          (pin_queue g c).initialized k q.nodes ≡ true → Inv q → Balanced n w (leave k q)
      unfolding leave
      leave-Balanced i inv =
          Result-intro (Balanced n w) q.queue
            (λ u e. elim (Bool-cases (has k (waiting q))) [
              | inl l ↦ left_linked l
              | inr l ↦ left_removed l (ground (arith, known))
            ])
            (λ v e.
              left_discarded (ground (arith, known, ap (has k) (discarded-waiting q v e inv).0)))
        where
          known : (has k (waiting q) || has k (settled q)) ≡ true
          known = sym ((pin_queue g c).initialized_lem k q.nodes) ∙ i
