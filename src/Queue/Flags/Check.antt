-- ===== src/Queue/Flags/Check.antt =====
-- flag-bearer-queue/src/lib.rs: the flags over `check` and the locked section of `close`.
use flag_bearer.Base.{
  ℕ, zero, suc, refl, true, ◌||◌, ◌&&◌, Option, none, some, Result, ok, err, Call, gives, panics,
  if-intro, Bool-intro, Result-intro, length,
}
use flag_bearer.Closeable.{Kind, closeable, can_close}
use flag_bearer.External.{Setting}
use flag_bearer.Queue.State.{Protected, Nodes, pin_queue, QueueState, waiting}
use flag_bearer.Queue.Wake.{WakeBatch, wakers}
use flag_bearer.Queue.Check.{Checked, Rest, pushed, taken_out, answered, visit, check_loop, check}
use flag_bearer.Queue.Close.{
  Gather, detached, detach, discard, close_one, joined, collected, gather,
}
use flag_bearer.Queue.Flags.{Where, Lasts, same}

module _ {g : Setting} {c : Kind} (q : QueueState g c) where
  abbrev pub LastsCheck : Checked g c → Type 0
  LastsCheck r = Where (λ s. Lasts q s.0) r

  abbrev Again : Rest g c → Type 0
  Again again =
      (next : Option ℕ) (q' : QueueState g c) (ws : WakeBatch g)
      → Lasts q q'
      → LastsCheck (again next q' ws)

  pushed-Lasts :
      (again : Rest g c) (next : Option ℕ) (q' : QueueState g c) (ws : WakeBatch g)
      (r : Option (WakeBatch g))
      → Again again
      → Lasts q q'
      → LastsCheck (pushed again next q' ws r)
  unfolding pushed
  pushed-Lasts again next q' ws none a h = h
  pushed-Lasts again next q' ws (some ws') a h =
      Bool-intro LastsCheck ((wakers g).is_full ws') (λ _. h) (λ _. a next q' ws' h)

  taken_out-Lasts :
      (again : Rest g c) (q' : QueueState g c) (ws : WakeBatch g)
      (r : Option (Protected g × Option ℕ × (pin_queue g c).Pins))
      → Again again
      → Lasts q q'
      → LastsCheck (taken_out again q' ws r)
  unfolding taken_out
  taken_out-Lasts again q' ws none a h = tt
  taken_out-Lasts again q' ws (some (p, next, nodes)) a h =
      pushed-Lasts again next _ ws ((wakers g).push p.1 ws) a
        (record { closes = h.closes; poisons = h.poisons })

  answered-Lasts :
      (again : Rest g c) (k : ℕ) (w : g.Waker) (q' : QueueState g c) (ws : WakeBatch g)
      (call : Call g.State (Result g.Permit g.Params))
      → Again again
      → Lasts q q'
      → LastsCheck (answered again k w q' ws call)
  unfolding answered
  answered-Lasts again k w q' ws (panics s) a h = record { closes = h.closes; poisons = λ _. refl }
  answered-Lasts again k w q' ws (gives s (ok permit)) a h =
      taken_out-Lasts again (record q' { state = s }) ws
        ((pin_queue g c).remove_current k (ok permit) q'.nodes) a
        (record { closes = h.closes; poisons = h.poisons })
  answered-Lasts again k w q' ws (gives s (err p)) a h = record {
    closes = h.closes;
    poisons = h.poisons;
  }

  visit-Lasts :
      (again : Rest g c) (k : ℕ) (q' : QueueState g c) (ws : WakeBatch g) (r : Option (Protected g))
      → Again again
      → Lasts q q'
      → LastsCheck (visit again k q' ws r)
  unfolding visit
  visit-Lasts again k q' ws none a h = h
  visit-Lasts again k q' ws (some (none, w)) a h = a ((pin_queue g c).move_next k q'.nodes) q' ws h
  visit-Lasts again k q' ws (some (some p, w)) a h =
      answered-Lasts again k w (record q' { nodes = (pin_queue g c).write k (none, w) q'.nodes }) ws
        (g.acquire q'.state p) a (record { closes = h.closes; poisons = h.poisons })

  check_loop-Lasts : (fuel : ℕ) → Again (check_loop fuel)
  unfolding check_loop
  check_loop-Lasts zero cursor q' ws h = tt
  check_loop-Lasts (suc fuel) none q' ws h = h
  check_loop-Lasts (suc fuel) (some k) q' ws h =
      visit-Lasts (check_loop fuel) k q' ws ((pin_queue g c).protected k q'.nodes)
        (check_loop-Lasts fuel) h

  pub check-Lasts : (ws : WakeBatch g) → LastsCheck (check q ws)
  unfolding check
  check-Lasts ws =
      if-intro LastsCheck (q.poisoned || (can_close c && q.closed)) (same q q refl refl) (
        Result-intro LastsCheck q.queue
          (λ u e.
            check_loop-Lasts (suc (length (waiting q))) ((pin_queue g c).cursor_front q.nodes) q ws
              (same q q refl refl))
          (λ v e. same q q refl refl))

module _ {g : Setting} (q : QueueState g closeable) where
  detach-Lasts : (q' : QueueState g closeable) (k : Option ℕ) → Lasts q q' → Lasts q (detach q' k).0
  unfolding detach detached
  detach-Lasts q' none h = h
  detach-Lasts q' (some k) h =
      go ((pin_queue g closeable).remove_current_with k (λ p. err p.0) q'.nodes)
    where
      go : (r : Option (Protected g × Nodes g closeable)) → Lasts q (detached q' r).0
      go none = h
      go (some (p, nodes)) = record { closes = h.closes; poisons = h.poisons }

  discard-Lasts :
      (r : QueueState g closeable × Option g.Waker) → Lasts q r.0 → Lasts q (discard r).0
  unfolding discard
  discard-Lasts (q', w) h =
      if-intro (λ (r : QueueState g closeable × Option g.Waker). Lasts q r.0)
        ((pin_queue g closeable).is_empty q'.nodes)
        (record { closes = h.closes; poisons = h.poisons }) h

  close_one-Lasts : (q' : QueueState g closeable) → Lasts q q' → Lasts q (close_one q').0
  unfolding close_one
  close_one-Lasts q' h =
      Result-intro (λ (r : QueueState g closeable × Option g.Waker). Lasts q r.0) q'.queue
        (λ u e. discard-Lasts _ (
          detach-Lasts (record q' { closed = true }) ((pin_queue g closeable).cursor_front q'.nodes)
            (record { closes = λ _. refl; poisons = h.poisons })))
        (λ v e. record { closes = λ _. refl; poisons = h.poisons })

  abbrev Goes : Gather g → Type 0
  Goes again =
      (q' : QueueState g closeable) (ws : WakeBatch g)
      → Lasts q q'
      → Where (λ s. Lasts q s.0) (again q' ws)

  joined-Lasts :
      (again : Gather g) (q' : QueueState g closeable) (ws : WakeBatch g) (r : Option (WakeBatch g))
      → Goes again
      → Lasts q q'
      → Where (λ s. Lasts q s.0) (joined again q' ws r)
  unfolding joined
  joined-Lasts again q' ws none a h = h
  joined-Lasts again q' ws (some ws') a h = a q' ws' h

  collected-Lasts :
      (again : Gather g) (ws : WakeBatch g) (r : QueueState g closeable × Option g.Waker)
      → Goes again
      → Lasts q r.0
      → Where (λ s. Lasts q s.0) (collected again ws r)
  unfolding collected
  collected-Lasts again ws (q', none) a h = h
  collected-Lasts again ws (q', some w) a h = joined-Lasts again q' ws ((wakers g).push w ws) a h

  pub gather-Lasts : (fuel : ℕ) → Goes (gather fuel)
  unfolding gather
  gather-Lasts zero q' ws h = tt
  gather-Lasts (suc fuel) q' ws h =
      Bool-intro (Where (λ s. Lasts q s.0)) ((wakers g).is_full ws) (λ _. h)
        (λ _.
          collected-Lasts (gather fuel) ws (close_one q') (gather-Lasts fuel)
            (close_one-Lasts q' h))
