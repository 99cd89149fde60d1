-- ===== src/Queue/Serve/Loop.antt =====
-- flag-bearer-queue/src/lib.rs: the loop of `QueueState::check`, compared with `serve`.
use flag_bearer.Base.{
  ℕ, zero, suc, ◌<◌, ◌≡◌, refl, sym, ap, ◌∙◌, false, none, some, List, [], ◌∷◌, ◌++◌, append_assoc,
  append-nil, arith, length, find, put, first_key, find-append, put-append, Distinct-front,
  Distinct-replace,
}
use flag_bearer.Closeable.{Kind}
use flag_bearer.External.{Setting}
use flag_bearer.Queue.State.{Protected, pin_queue, QueueState}
use flag_bearer.Queue.Wake.{WakeBatch}
use flag_bearer.Queue.Check.{check_loop}
use flag_bearer.Queue.Serve.{serve, stop}
use flag_bearer.Queue.Serve.After.{IsServed, IsReady, IsServed-skip, IsServed-write}
use flag_bearer.Queue.Serve.Leave.{key_after_place, answered-served, grants-last, grants-more}

module _ {g : Setting} {c : Kind} where
  -- Taking the parameters out of the node `k` leaves all as it was.
  taken :
      (room : ℕ) (done rest : List (ℕ × Protected g)) (k : ℕ) (u v : Protected g)
      (q : QueueState g c) (ws : WakeBatch g)
      → IsReady room done ((k, u) ∷ rest) q ws
      → IsReady room done
          ((k, v) ∷ rest)
          (record q { nodes = (pin_queue g c).write k v q.nodes })
          ws
  taken room done rest k u v q ws h = record {
    place =
        (pin_queue g c).linked-write k v q.nodes
        ∙ ap (put k v) h.place
        ∙ put-append k u v done rest (Distinct-front done k u rest h.distinct);
    distinct = Distinct-replace done k u v rest h.distinct;
    space = h.space;
    count = h.count;
    fits = h.fits;
  }

  find-place :
      (room : ℕ) (done rest : List (ℕ × Protected g)) (k : ℕ) (u : Protected g) (q : QueueState g c)
      (ws : WakeBatch g)
      → IsReady room done ((k, u) ∷ rest) q ws
      → (pin_queue g c).protected k q.nodes ≡ some u
  find-place room done rest k u q ws h =
      (pin_queue g c).protected_lem k q.nodes
      ∙ ap (find k) h.place
      ∙ find-append k u done rest (Distinct-front done k u rest h.distinct)

  pub check_loop-serve :
      (fuel room : ℕ) (done rest : List (ℕ × Protected g)) (q : QueueState g c) (ws : WakeBatch g)
      → length rest < fuel
      → IsReady room done rest q ws
      → IsServed done (serve room q.state rest) q ws (check_loop fuel (first_key rest) q ws)
  unfolding serve check_loop
  check_loop-serve zero room done rest q ws h r = absurd (omega arith)
  check_loop-serve (suc fuel) room done [] q ws h r = (
    record {
      waits = r.place;
      settles = refl;
      counts = omega arith;
      states = refl;
      batches = sym (append-nil _);
      opens = refl;
      closes = refl;
      orders = refl;
    },
    refl,
    refl,
  )
  check_loop-serve (suc fuel) room done ((k, (none, w)) ∷ rest) q ws h r =
      rw
        (
          find-place room done rest k (none, w) q ws r,
          (pin_queue g c).move_next_lem k q.nodes ∙ key_after_place room done rest k w q ws r,
        )
        (IsServed-skip done (k, (none, w)) (serve room q.state rest) q ws _
          (check_loop-serve fuel room (done ++ (k, (none, w)) ∷ []) rest q ws (omega arith)
            (record {
              place = r.place ∙ sym (append_assoc done ((k, (none, w)) ∷ []) rest);
              distinct = rw (append_assoc done ((k, (none, w)) ∷ []) rest) r.distinct;
              space = r.space;
              count = omega (arith, r.count);
              fits = r.fits;
            })))
  check_loop-serve (suc fuel) zero done ((k, (some p, w)) ∷ rest) q ws h r =
      rw (find-place zero done rest k (some p, w) q ws r) (
        IsServed-write done _ k (none, w) q ws _
          (answered-served zero done rest k w _ ws
            (taken zero done rest k (some p, w) (none, w) q ws r) (λ t. stop false t rest)
            (check_loop fuel)
            (λ s permit.
              grants-last zero done rest k w _ ws
                (taken zero done rest k (some p, w) (none, w) q ws r) (check_loop fuel) s permit
                refl)
            (g.acquire q.state p)))
  check_loop-serve (suc fuel) (suc room) done ((k, (some p, w)) ∷ rest) q ws h r =
      rw (find-place (suc room) done rest k (some p, w) q ws r) (
        IsServed-write done _ k (none, w) q ws _
          (answered-served (suc room) done rest k w _ ws
            (taken (suc room) done rest k (some p, w) (none, w) q ws r) (λ t. serve room t rest)
            (check_loop fuel)
            (λ s permit.
              grants-more (suc room) done rest k w _ ws
                (taken (suc room) done rest k (some p, w) (none, w) q ws r) fuel room (serve room)
                (check_loop fuel) s permit refl
                (λ d r' q' ws' h' e. check_loop-serve fuel room d r' q' ws' h' e) (omega arith))
            (g.acquire q.state p)))
