-- ===== src/Queue/Drain/Fewer/Leave.antt =====
-- flag-bearer-queue/src: who waits, over user calls and the drop of a future.
use flag_bearer.Base.{
  ℕ, ◌≡◌, refl, sym, ap, ◌∙◌, true, ◌||◌, some, ok, err, Call, gives, panics, Exec, returns,
  unwinds, faults, arith, Result-intro, Bool-cases, inl, inr, has, find-has, find-none, erase,
  length,
}
use flag_bearer.Closeable.{Kind}
use flag_bearer.External.{Setting, linked, removed}
use flag_bearer.Queue.State.{
  Protected, Removed, Nodes, pin_queue, QueueState, waiting, settled, guarded, update_state,
}
use flag_bearer.Queue.Acquire.{leave, left, left_closed, give_back, nothing}
use flag_bearer.Queue.Sound.{Inv, discarded-waiting}
use flag_bearer.Queue.Flags.{Where}
use flag_bearer.Queue.Drain.Fewer.{erase-le, Fewer}

module _ {g : Setting} {c : Kind} where
  -- User code leaves the list alone.
  abbrev pub Untouched : QueueState g c → QueueState g c → Type 0
  Untouched q q' = waiting q' ≡ waiting q

  guarded-Untouched :
      {A : Type 0} (q : QueueState g c) (call : Call g.State A)
      → Where (Untouched q) (guarded q call)
  unfolding guarded
  guarded-Untouched q (gives s a) = refl
  guarded-Untouched q (panics s) = refl

  pub update_state-Untouched :
      {A : Type 0} (q : QueueState g c) (f : g.State → Call g.State A)
      → Where (Untouched q) (update_state q f)
  unfolding update_state
  update_state-Untouched q f = guarded-Untouched q (f q.state)

  pub Untouched-Fewer :
      {A : Type 0} (q q' : QueueState g c) (r : Exec (QueueState g c) A)
      → Fewer q q'
      → Where (Untouched q') r
      → Where (Fewer q) r
  Untouched-Fewer q q' (returns q₁ _) l h = omega (arith, l, ap length h)
  Untouched-Fewer q q' (unwinds q₁) l h = omega (arith, l, ap length h)
  Untouched-Fewer q q' (faults _) l h = tt

  give_back-Fewer :
      (q q' : QueueState g c) (permit : g.Permit)
      → Fewer q q'
      → Where (Fewer q) (give_back q' permit)
  unfolding give_back
  give_back-Fewer q q' permit l =
      go _ (Untouched-Fewer q q' _ l (update_state-Untouched q' (λ s. g.release s permit)))
    where
      go : (r : Exec (QueueState g c) (Unit {0})) → Where (Fewer q) r → Where (Fewer q) (nothing r)
      go (returns q₁ u) h = h
      go (unwinds q₁) h = h
      go (faults f) h = h

  module _ (k : ℕ) (q : QueueState g c) where
    left-Fewer :
        (r : Removed g c) (nodes : Nodes g c)
        → (pin_queue g c).linked nodes ≡ waiting q
        → Where (Fewer q) (left q (some (removed r, nodes)))
    unfolding left
    left-Fewer (ok permit) nodes e =
        give_back-Fewer q (record q { nodes = nodes }) permit (omega (arith, ap length e))
    left-Fewer (err params) nodes e = omega (arith, ap length e)

    left_closed-Fewer :
        (r : Removed g c) (nodes : Nodes g c)
        → (pin_queue g c).linked nodes ≡ waiting q
        → Where (Fewer q) (left_closed q (some (r, nodes)))
    unfolding left_closed
    left_closed-Fewer (ok permit) nodes e =
        give_back-Fewer q (record q { nodes = nodes }) permit (omega (arith, ap length e))
    left_closed-Fewer (err params) nodes e = omega (arith, ap length e)

    unlinked-Fewer :
        (p : Protected g) (nodes : Nodes g c)
        → (pin_queue g c).linked nodes ≡ erase k (waiting q)
        → Where (Fewer q) (left q (some (linked p, nodes)))
    unfolding left
    unlinked-Fewer p nodes e = omega (arith, ap length e, erase-le k (waiting q))

    pub leave-Fewer :
        (pin_queue g c).initialized k q.nodes ≡ true → Inv q → Where (Fewer q) (leave k q)
    unfolding leave
    leave-Fewer i inv =
        Result-intro (Where (Fewer q)) q.queue
          (λ u e. elim (Bool-cases (has k (waiting q))) [
            | inl l ↦
                let (p, f) = find-has k (waiting q) l in
                let (nodes, t, links, removes) = (pin_queue g c).reset_linked k p q.nodes f in
                rw t (unlinked-Fewer p nodes links)
            | inr l ↦
                let (r, f) = find-has k (settled q) (ground (arith, l, known)) in
                let (nodes, t, links, removes) =
                  (pin_queue g c).reset_removed k r q.nodes (find-none k (waiting q) l) f in
                rw t (left-Fewer r nodes links)
          ])
          (λ v e.
            let (r, f) =
              find-has k (settled q)
                (ground (arith, known, ap (has k) (discarded-waiting q v e inv).0)) in
            let (nodes, t, links, removes) = (pin_queue g c).take_removed_some k r q.nodes f in
            rw t (left_closed-Fewer r nodes links))
      where
        known : (has k (waiting q) || has k (settled q)) ≡ true
        known = sym ((pin_queue g c).initialized_lem k q.nodes) ∙ i
