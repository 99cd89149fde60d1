-- ===== src/Queue/Serve/Leave.antt =====
-- flag-bearer-queue/src/lib.rs: a round of `QueueState::check` at a node whose parameters are
-- taken.
use flag_bearer.Base.{
  ℕ, suc, ◌<◌, ◌≡◌, refl, sym, ap, ◌∙◌, Bool, true, false, none, some, List, ◌∷◌, ◌++◌, append-nil,
  Result, ok, err, Call, gives, panics, arith, length, has, find, erase, put, key_after, first_key,
  decr, find-append, erase-append, put-append, key_after-append, Distinct-front, Distinct-remove,
}
use flag_bearer.Closeable.{Kind}
use flag_bearer.External.{Setting}
use flag_bearer.Queue.State.{Protected, pin_queue, QueueState, waiting, settled}
use flag_bearer.Queue.Wake.{WakeBatch, wakers, not-full}
use flag_bearer.Queue.Check.{Rest, answered, pushed}
use flag_bearer.Queue.Serve.{Served, reply, grant, stop}
use flag_bearer.Queue.Serve.After.{IsAfter, IsServed, IsReady, IsServing}
use flag_bearer.Queue.Serve.Push.{IsGranted, pushed-last, pushed-more}

module _ {g : Setting} {c : Kind} where
  -- The node `k` leaves the list with its permit; what is left to say is the rest of the loop.
  module _ (room : ℕ) (done rest : List (ℕ × Protected g)) (k : ℕ) (w : g.Waker)
      (q : QueueState g c) (ws : WakeBatch g)
      (ready : IsReady room done ((k, (none, w)) ∷ rest) q ws) where
    front : has k done ≡ false
    front = Distinct-front done k (none, w) rest ready.distinct

    at : (u : Protected g) → waiting q ≡ done ++ (k, u) ∷ rest → find k (waiting q) ≡ some u
    at u e = ap (find k) e ∙ find-append k u done rest front

    pub key_after_place : key_after k (waiting q) ≡ first_key rest
    key_after_place = ap (key_after k) ready.place ∙ key_after-append k (none, w) done rest front

    -- The state of the queue and its batch when the user's `acquire` gave `permit`.
    granting :
        (s : g.State) (permit : g.Permit)
        → (q₁ : QueueState g c) × (ws₁ : WakeBatch g) × ((again : Rest g c)
            → answered again k w q ws (gives s (ok permit))
              ≡ pushed again (first_key rest) q₁ ws (some ws₁))
          × IsGranted done rest k permit w s q ws q₁ ws₁
    unfolding answered
    granting s permit =
        let (nodes, taken, links, removes) =
          (pin_queue g c).remove_current_some k (none, w) (ok permit) q.nodes
            (at (none, w) ready.place) in
        let (ws₁, joined, batches) =
          (wakers g).push_some w ws (not-full g ws (omega (arith, ready.space))) in
        (
          record q { nodes = nodes; len = decr q.len; state = s },
          ws₁,
          (λ again. rw (taken, joined, key_after_place)),
          record {
            by = record {
              settles = removes;
              counts = omega (arith, ready.count, ready.fits);
              batches = batches;
              opens = refl;
              closes = refl;
              orders = refl;
              poisons = refl;
            };
            place = links ∙ ap (erase k) ready.place ∙ erase-append k (none, w) done rest front;
            states = refl;
          },
        )

    -- A panic and a refusal end the loop.
    stopped :
        (s : g.State) (u : Protected g) (b : Bool) (q' : QueueState g c)
        → waiting q' ≡ done ++ (k, u) ∷ rest
        → settled q' ≡ settled q
        → q'.len ≡ q.len
        → q'.state ≡ s
        → q'.queue ≡ q.queue
        → q'.closed ≡ q.closed
        → q'.order ≡ q.order
        → IsAfter done (stop b s ((k, u) ∷ rest)) q ws q' ws
    stopped s u b q' a r l e o h i = record {
      waits = a;
      settles = r;
      counts = omega (arith, l);
      states = e;
      batches = sym (append-nil _);
      opens = o;
      closes = h;
      orders = i;
    }

    pub answered-served :
        (walk : g.State → Served g) (again : Rest g c)
        → ((s : g.State) (permit : g.Permit)
            → IsServed done
                (grant k permit w (walk s))
                q
                ws
                (answered again k w q ws (gives s (ok permit))))
        → (call : Call g.State (Result g.Permit g.Params))
        → IsServed done (reply walk k w rest call) q ws (answered again k w q ws call)
    unfolding answered
    answered-served walk again grants (panics s) =
        (stopped s (none, w) true _ ready.place refl refl refl refl refl refl, refl, refl)
    answered-served walk again grants (gives s (err p)) = (
      stopped s (some p, w) false _
          ((pin_queue g c).linked-write k (some p, w) q.nodes
            ∙ ap (put k (some p, w)) ready.place
            ∙ put-append k (none, w) (some p, w) done rest front)
          ((pin_queue g c).removed-write k (some p, w) q.nodes) refl refl refl refl refl,
      refl,
      refl,
    )
    answered-served walk again grants (gives s (ok permit)) = grants s permit

    pub grants-last :
        (again : Rest g c) (s : g.State) (permit : g.Permit)
        → room ≡ 0
        → IsServed done
            (grant k permit w (stop false s rest))
            q
            ws
            (answered again k w q ws (gives s (ok permit)))
    grants-last again s permit e =
        let (q₁, ws₁, run, granted) = granting s permit in
        rw (run again) (
          pushed-last again (first_key rest) done rest k permit w s q q₁ ws ws₁ granted
            (omega (arith, e, ready.space)))

    pub grants-more :
        (fuel room' : ℕ) (walk : g.State → List (ℕ × Protected g) → Served g) (again : Rest g c)
        (s : g.State) (permit : g.Permit)
        → room ≡ suc room'
        → IsServing fuel room' walk again
        → length rest < fuel
        → IsServed done
            (grant k permit w (walk s rest))
            q
            ws
            (answered again k w q ws (gives s (ok permit)))
    grants-more fuel room' walk again s permit e ih b =
        let (q₁, ws₁, run, granted) = granting s permit in
        rw (run again) (
          pushed-more fuel room' walk again (first_key rest) done rest k permit w s q q₁ ws ws₁ ih b
            granted (Distinct-remove done k (none, w) rest ready.distinct)
            (omega (arith, e, ready.space)) ready.count ready.fits refl)
