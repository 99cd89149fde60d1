-- ===== src/Queue/Arrive/Stack.antt =====
-- flag-bearer-queue/src: the polls of new futures under a last-in, first-out order, then a
-- `with_state`.
use flag_bearer.Base.{
  ℕ, ◌+◌, ◌*◌, ◌<◌, ◌≡◌, refl, sym, ◌∙◌, ap, subst, true, Option, some, List, [], ◌∷◌, ◌++◌,
  reverse, ok, err, Call, gives, returns, unwinds, faults, arith, length, has, ==_refl,
}
use mathlib.Core.List.{reverse_aux, reverse_aux-eq}
use flag_bearer.Closeable.{Kind}
use flag_bearer.External.{Setting}
use flag_bearer.Queue.State.{QueueState, waiting, settled}
use flag_bearer.Queue.Wake.{AllWake}
use flag_bearer.Queue.Run.{Logged, with_state}
use flag_bearer.Queue.Acquire.{ready, pending, acquire, Polled, poll}
use flag_bearer.Queue.Serve.Check.{IsServing}
use flag_bearer.Queue.Serve.All.{serve_all}
use flag_bearer.Queue.Serve.After.{settle}
use flag_bearer.Queue.Serve.Fair.{live, keys}
use flag_bearer.Queue.Rounds.{quiet, IsDone}
use flag_bearer.Queue.Rounds.Serve.{with_state-serves}
use flag_bearer.Queue.Sound.{Inv, Keeps}
use flag_bearer.Queue.Sound.Poll.{poll-Inv}
use flag_bearer.Queue.Arrive.{IsJoined, Arrives, poll-Arrives}
use flag_bearer.Queue.Arrive.Line.{
  Arrival, entries, length-entries, then, arrive, AreNew, other_key,
}
use flag_bearer.Queue.Arrive.Fifo.{serve_all-IsInOrder}

length-reverse_aux :
    {A : Type 0} (xs ys : List A) → length (reverse_aux xs ys) ≡ length xs + length ys
length-reverse_aux [] ys = omega arith
length-reverse_aux (x ∷ xs) ys = omega (arith, length-reverse_aux xs (x ∷ ys))

live-entries :
    {P W : Type 0} (xs : List (ℕ × (P × W))) (ys : List (ℕ × (Option P × W)))
    → live (reverse_aux (entries xs) ys) ≡ reverse_aux (keys xs) (live ys)
live-entries [] ys = refl
live-entries ((k, (p, w)) ∷ xs) ys = live-entries xs ((k, (some p, w)) ∷ ys)

-- The user's `acquire` has no permit for any of them, and leaves the state as it was.
abbrev pub AllRefused : (g : Setting) → List (Arrival g) → g.State → Type 0
AllRefused g [] s = Unit {0}
AllRefused g ((k, (p, w)) ∷ xs) s = (g.acquire s p ≡ gives s (err p)) × AllRefused g xs s

module _ {g : Setting} {c : Kind} where
  -- The order sends everybody to the front and stays as it is, as `FairOrder::Lifo` does.
  abbrev pub IsLifo : QueueState g c → Type 0
  IsLifo q = (n : ℕ) → g.enqueue_front q.order n ≡ gives q.order true

  pub record IsStacked (xs : List (Arrival g)) (q q' : QueueState g c) : Type 0 where
    pub waits : waiting q' ≡ reverse_aux (entries xs) (waiting q)
    pub settles : settled q' ≡ settled q
    pub states : q'.state ≡ q.state
    pub inv : Inv q'
    pub serving : IsServing q'

  joined :
      (k : ℕ) (p : g.Params) (w : g.Waker) (q : QueueState g c) (r : Polled g c)
      → Arrives (some (gives q.state (err p))) true q.order p w k q r
      → Keeps (λ s. Inv s.0) r
      → (q' : QueueState g c) × IsJoined true (k, (some p, w)) q.state q.order q q'
        × Inv q'
        × ((next : QueueState g c → Option (QueueState g c)) → then next r ≡ next q')
  joined k p w q (returns (q', f) pending) a h = (q', a, h, λ next. refl)
  joined k p w q (returns (q', f) (ready (ok x))) a h = elim a [ ]
  joined k p w q (returns (q', f) (ready (err x))) a h = elim a [ ]
  joined k p w q (unwinds _) a h = elim a [ ]
  joined k p w q (faults _) a h = elim a [ ]

  arrive_one :
      (k : ℕ) (p : g.Params) (w : g.Waker) (xs : List (Arrival g)) (q : QueueState g c)
      → IsLifo q
      → g.acquire q.state p ≡ gives q.state (err p)
      → AreNew ((k, (p, w)) ∷ xs) q
      → Inv q
      → IsServing q
      → (q' : QueueState g c) × IsJoined true (k, (some p, w)) q.state q.order q q'
        × Inv q'
        × ((next : QueueState g c → Option (QueueState g c))
            → then next (poll q (acquire k p) w) ≡ next q')
  arrive_one k p w xs q o e a h s =
      joined k p w q (poll q (acquire k p) w)
        (subst (λ call. Arrives (some call) true q.order p w k q (poll q (acquire k p) w)) e
          (poll-Arrives q (acquire k p) p w (a.fresh k (ground (arith, ==_refl k)))
            (omega (arith, a.memory)) h s true q.order (o q.len) refl))
        (poll-Inv q (acquire k p) w (omega (arith, a.memory)) h)

  AreNew-tail :
      (k : ℕ) (p : g.Params) (w : g.Waker) (xs : List (Arrival g)) (q q' : QueueState g c)
      → AreNew ((k, (p, w)) ∷ xs) q
      → IsJoined true (k, (some p, w)) q.state q.order q q'
      → AreNew xs q'
  AreNew-tail k p w xs q q' a j = record {
    apart = a.apart.1;
    fresh = λ i e.
        ground (arith, a.fresh i, other_key k i xs, ap (has i) j.waits, ap (has i) j.settles);
    memory = omega (arith, a.memory, ap length j.waits);
  }

  arrive-IsStacked :
      (xs : List (Arrival g)) (q : QueueState g c)
      → IsLifo q
      → AllRefused g xs q.state
      → AreNew xs q
      → Inv q
      → IsServing q
      → (q' : QueueState g c) × (arrive xs q ≡ some q') × IsStacked xs q q'
  unfolding arrive
  arrive-IsStacked [] q o f a h s =
      (q, refl, record { waits = refl; settles = refl; states = refl; inv = h; serving = s })
  arrive-IsStacked ((k, (p, w)) ∷ xs) q o f a h s =
      let (q₁, j, h₁, run) = arrive_one k p w xs q o f.0 a h s in
      let (q₂, e, l) =
        arrive-IsStacked xs q₁
          (λ i. subst (λ r. g.enqueue_front r i ≡ gives r true) (sym j.orders) (o i))
          (subst (AllRefused g xs) (sym j.states) f.1) (AreNew-tail k p w xs q q₁ a j) h₁
          (record {
            healthy = j.poisons ∙ s.healthy;
            admitting = rw j.closes s.admitting;
            opened = j.opens ∙ s.opened;
          }) in
      (
        q₂,
        run (arrive xs) ∙ e,
        record {
          waits = l.waits ∙ ap (reverse_aux (entries xs)) j.waits;
          settles = l.settles ∙ j.settles;
          states = l.states ∙ j.states;
          inv = l.inv;
          serving = l.serving;
        },
      )

  -- The permits handed out went to `xs`, the last one first, and then to the tasks that were there.
  abbrev pub ServedInReverse :
      {T : Type 0} → List (Arrival g) → QueueState g c → Logged g c T → Type 0
  ServedInReverse xs q (returns (q', _) _) =
      (granted : List (ℕ × g.Permit)) × (keys granted ++ live (waiting q')
        ≡ reverse (keys xs) ++ live (waiting q))
      × (settled q' ≡ settle granted (settled q))
  ServedInReverse xs q (unwinds (q', _)) = q'.poisoned ≡ true
  ServedInReverse xs q (faults _) = ⊥

  done-ServedInReverse :
      {T : Type 0} (xs : List (Arrival g)) (q q₁ : QueueState g c) (s : g.State) (t : T)
      (r : Logged g c T)
      → IsStacked xs q q₁
      → IsDone (serve_all s (waiting q₁)) (record q₁ { state = s }) [] t r
      → ServedInReverse xs q r
  done-ServedInReverse xs q q₁ s t (returns (q₂, _) _) l (e, _, n, _, _) = (
    (serve_all {g = g} s (waiting q₁)).granted,
    rw e.waits (
        (serve_all-IsInOrder g s (waiting q₁) n).0
        ∙ ap live l.waits
        ∙ live-entries xs (waiting q)
        ∙ reverse_aux-eq (keys xs) (live (waiting q))),
    e.settles ∙ ap (settle (serve_all {g = g} s (waiting q₁)).granted) l.settles,
  )
  done-ServedInReverse xs q q₁ s t (unwinds (q₂, _)) l (_, _, _, p) = p
  done-ServedInReverse xs q q₁ s t (faults _) l h = h

  -- Last in, first out. On an open, healthy, well-formed queue, with memory for the new nodes,
  -- whose order sends everybody to the front and is not changed by being asked, new futures that
  -- are polled one after the other, each of which the user's `acquire` refuses, leaving its state
  -- as it was, all wait. When a callback of `with_state` then returns, while nobody else takes the
  -- mutex, no waker panics, and 32 times the fuel is more than the number of all these tasks,
  -- permits go to the new tasks, the one that came last first, and then to those that waited
  -- before. If the user's `acquire` panics on the way, the queue is poisoned.
  pub arrive-ServedInReverse :
      {T : Type 0} (wake : AllWake g) (xs : List (Arrival g)) (q : QueueState g c) (fuel : ℕ)
      (f : g.State → Call g.State T) (s : g.State) (t : T)
      → IsLifo q
      → AllRefused g xs q.state
      → AreNew xs q
      → Inv q
      → IsServing q
      → f q.state ≡ gives s t
      → length (waiting q) + length xs < 32 * fuel
      → (q₁ : QueueState g c) × (arrive xs q ≡ some q₁)
        × ServedInReverse xs q (with_state fuel quiet q₁ f)
  arrive-ServedInReverse wake xs q fuel f s t o d a h i e l =
      let (q₁, r, b) = arrive-IsStacked xs q o d a h i in
      (
        q₁,
        r,
        done-ServedInReverse xs q q₁ s t (with_state fuel quiet q₁ f) b (
            with_state-serves wake fuel q₁ f s t (ap f b.states ∙ e)
              (omega (
                arith,
                l,
                ap length b.waits,
                length-reverse_aux (entries xs) (waiting q),
                length-entries xs,
              ))
              b.inv b.serving),
      )
