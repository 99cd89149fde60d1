-- ===== src/Queue/Arrive/Fifo.antt =====
-- flag-bearer-queue/src: the polls of new futures, then a `with_state`.
use flag_bearer.Base.{
  ℕ, ◌+◌, ◌*◌, ◌<◌, ◌≡◌, refl, ◌∙◌, ap, Option, none, some, List, [], ◌∷◌, ◌++◌, true, false, Call,
  gives, returns, unwinds, faults, arith, length, length-append, is_nil,
}
use flag_bearer.Closeable.{Kind}
use flag_bearer.External.{Setting}
use flag_bearer.Queue.State.{Protected, QueueState, waiting, settled}
use flag_bearer.Queue.Wake.{AllWake}
use flag_bearer.Queue.Run.{Logged, with_state}
use flag_bearer.Queue.Serve.All.{serve_all}
use flag_bearer.Queue.Serve.After.{settle}
use flag_bearer.Queue.Serve.Check.{IsServing}
use flag_bearer.Queue.Serve.Fair.{live, keys, IsInOrder, reply-IsInOrder}
use flag_bearer.Queue.Rounds.{quiet, IsDone}
use flag_bearer.Queue.Rounds.Serve.{with_state-serves}
use flag_bearer.Queue.Sound.{Inv}
use flag_bearer.Queue.Arrive.Line.{
  Arrival, entries, length-entries, arrive, IsFifo, AreNew, IsLined, arrive-IsLined,
}

pub serve_all-IsInOrder :
    (g : Setting) (s : g.State) (xs : List (ℕ × Protected g)) → IsInOrder g xs (serve_all s xs)
unfolding serve_all
serve_all-IsInOrder g s [] = λ e. (refl, refl)
serve_all-IsInOrder g s ((k, (none, w)) ∷ rest) = serve_all-IsInOrder g s rest
serve_all-IsInOrder g s ((k, (some p, w)) ∷ rest) =
    reply-IsInOrder g _ k w p rest (λ t. serve_all-IsInOrder g t rest) (g.acquire s p)

live-entries :
    {P W : Type 0} (ys : List (ℕ × (Option P × W))) (xs : List (ℕ × (P × W)))
    → live (ys ++ entries xs) ≡ live ys ++ keys xs
live-entries [] [] = refl
live-entries [] ((k, (p, w)) ∷ xs) = ap (◌∷◌ k) (live-entries [] xs)
live-entries ((k, (none, w)) ∷ ys) xs = live-entries ys xs
live-entries ((k, (some p, w)) ∷ ys) xs = ap (◌∷◌ k) (live-entries ys xs)

module _ {g : Setting} {c : Kind} where
  -- The permits handed out went to the tasks that were there, and then to `xs`, in that order.
  abbrev pub ServedInOrder :
      {T : Type 0} → List (Arrival g) → QueueState g c → Logged g c T → Type 0
  ServedInOrder xs q (returns (q', _) _) =
      (granted : List (ℕ × g.Permit)) × (keys granted ++ live (waiting q')
        ≡ live (waiting q) ++ keys xs)
      × (settled q' ≡ settle granted (settled q))
  ServedInOrder xs q (unwinds (q', _)) = q'.poisoned ≡ true
  ServedInOrder xs q (faults _) = ⊥

  done-ServedInOrder :
      {T : Type 0} (xs : List (Arrival g)) (q q₁ : QueueState g c) (s : g.State) (t : T)
      (r : Logged g c T)
      → IsLined xs q q₁
      → IsDone (serve_all s (waiting q₁)) (record q₁ { state = s }) [] t r
      → ServedInOrder xs q r
  done-ServedInOrder xs q q₁ s t (returns (q₂, _) _) l (e, _, n, _, _) = (
    (serve_all {g = g} s (waiting q₁)).granted,
    rw e.waits (
        (serve_all-IsInOrder g s (waiting q₁) n).0 ∙ ap live l.waits ∙ live-entries (waiting q) xs),
    e.settles ∙ ap (settle (serve_all {g = g} s (waiting q₁)).granted) l.settles,
  )
  done-ServedInOrder xs q q₁ s t (unwinds (q₂, _)) l (_, _, _, p) = p
  done-ServedInOrder xs q q₁ s t (faults _) l h = h

  -- First in, first out. On an open, healthy, well-formed queue that is not empty, with memory for
  -- the new nodes, whose order sends everybody to the back and is not changed by being asked, new
  -- futures that are polled one after the other all wait. When a callback of `with_state` then
  -- returns, while nobody else takes the mutex, no waker panics, and 32 times the fuel is more than
  -- the number of all these tasks, permits go to the tasks that waited before and then to the new
  -- ones, in the order of their first polls: nobody is overtaken. If the user's `acquire` panics on
  -- the way, the queue is poisoned.
  pub arrive-ServedInOrder :
      {T : Type 0} (wake : AllWake g) (xs : List (Arrival g)) (q : QueueState g c) (fuel : ℕ)
      (f : g.State → Call g.State T) (s : g.State) (t : T)
      → is_nil (waiting q) ≡ false
      → IsFifo q
      → AreNew xs q
      → Inv q
      → IsServing q
      → f q.state ≡ gives s t
      → length (waiting q) + length xs < 32 * fuel
      → (q₁ : QueueState g c) × (arrive xs q ≡ some q₁)
        × ServedInOrder xs q (with_state fuel quiet q₁ f)
  arrive-ServedInOrder wake xs q fuel f s t n o a h i e l =
      let (q₁, r, d) = arrive-IsLined xs q n o a h i in
      (
        q₁,
        r,
        done-ServedInOrder xs q q₁ s t (with_state fuel quiet q₁ f) d (
            with_state-serves wake fuel q₁ f s t (ap f d.states ∙ e)
              (omega (
                arith,
                l,
                ap length d.waits,
                length-append (waiting q) (entries xs),
                length-entries xs,
              ))
              d.inv d.serving),
      )
