-- ===== src/Queue/Sound/Close.antt =====
-- flag-bearer-queue/src/lib.rs: `close_one`, a locked section of `close`, and the well-formedness
-- of the queue.
use flag_bearer.Base.{
  ℕ, zero, suc, ◌+◌, ◌≤◌, ◌<◌, ◌≡◌, refl, sym, ◌∙◌, ap, true, false, Option, none, some, List, [],
  ◌∷◌, err, arith, Bool-cases, inl, inr, Result-intro, Bool-intro, is_nil, first_key, find, length,
  ==_refl,
}
use flag_bearer.Closeable.{closeable}
use flag_bearer.External.{Setting}
use flag_bearer.Queue.State.{Protected, pin_queue, QueueState, waiting}
use flag_bearer.Queue.Wake.{WakeBatch, wakers, capacity, room_left, batch_length}
use flag_bearer.Queue.Close.{
  close_one, detach, detached, discard, Gather, Gathered, gather, collected, joined,
}
use flag_bearer.Queue.Sound.{Inv, Keeps, IsSound-remove, IsSound-set_closed}

module _ {g : Setting} where
  abbrev KeepsOne : QueueState g closeable × Option g.Waker → Type 0
  KeepsOne r = Inv r.0 × (r.0.closed ≡ true)

  discard-Keeps : (r : QueueState g closeable × Option g.Waker) → KeepsOne r → KeepsOne (discard r)
  unfolding discard
  discard-Keeps (q, w) (h, e) = elim (Bool-cases ((pin_queue g closeable).is_empty q.nodes)) [
    | inl nil ↦ rw nil (
      record {
        counted = h.counted;
        fits = h.fits;
        single = h.single;
        discarded =
            (nil_of (waiting q) (sym ((pin_queue g closeable).is_empty_lem q.nodes) ∙ nil), e);
        allowed = h.allowed;
      },
      e,
    )
    | inr more ↦ rw more (h, e)
  ]
    where
      nil_of : {A : Type 0} (xs : List A) → is_nil xs ≡ true → xs ≡ []
      nil_of [] n = refl
      nil_of (x ∷ xs) n = cc

  detach-Keeps :
      (q : QueueState g closeable) (xs : List (ℕ × Protected g))
      → waiting q ≡ xs
      → KeepsOne (q, none)
      → KeepsOne (detach q ((pin_queue g closeable).cursor_front q.nodes))
  unfolding detach detached
  detach-Keeps q [] e h = rw ((pin_queue g closeable).cursor_front_lem q.nodes ∙ ap first_key e) h
  detach-Keeps q ((k, p) ∷ rest) e h =
      let f = ap (find k) e ∙ found k p rest in
      let (nodes, t, links, removes) =
        (pin_queue g closeable).remove_current_with_some k p (λ p. err p.0) q.nodes f in
      rw ((pin_queue g closeable).cursor_front_lem q.nodes ∙ ap first_key e, t)
        (rw (links, removes) (IsSound-remove k p (err p.0) f h.0), h.1)
    where
      found : {A : Type 0} (k : ℕ) (p : A) (rest : List (ℕ × A)) → find k ((k, p) ∷ rest) ≡ some p
      found k p rest = ground (arith, ==_refl k)

  -- `close_one` closes the queue and keeps it well-formed: the list is discarded only once it is
  -- empty.
  pub close_one-Inv : (q : QueueState g closeable) → Inv q → KeepsOne (close_one q)
  unfolding close_one
  close_one-Inv q h =
      Result-intro KeepsOne q.queue
        (λ u e. discard-Keeps _ (detach-Keeps (record q { closed = true }) (waiting q) refl closed))
        (λ v e. closed)
    where
      closed : KeepsOne (record q { closed = true }, none)
      closed = (IsSound-set_closed refl h, refl)

  abbrev KeepsAll : Gathered g → Type 0
  KeepsAll = Keeps (λ s. Inv s.0 × (s.0.closed ≡ true))

  collected-Keeps :
      (again : Gather g) (ws : WakeBatch g) (r : QueueState g closeable × Option g.Waker)
      → (wakers g).is_full ws ≡ false
      → KeepsOne r
      → ((ws' : WakeBatch g)
          → length ((wakers g).to_list ws') ≡ length ((wakers g).to_list ws) + 1
          → KeepsAll (again r.0 ws'))
      → KeepsAll (collected again ws r)
  unfolding collected joined
  collected-Keeps again ws (q, none) n h next = h
  collected-Keeps again ws (q, some w) n h next =
      let (ws', t, l) = (wakers g).push_some w ws n in rw t (next ws' (batch_length g ws ws' w l))

  -- A locked section of `close` that starts with room in the batch ends, with no panic of a full
  -- batch, and keeps the queue well-formed; afterwards it is closed.
  pub gather-Inv :
      (fuel : ℕ) (q : QueueState g closeable) (ws : WakeBatch g)
      → capacity < fuel + length ((wakers g).to_list ws)
      → length ((wakers g).to_list ws) ≤ capacity
      → ((wakers g).is_full ws ≡ true → q.closed ≡ true)
      → Inv q
      → Keeps (λ s. Inv s.0 × (s.0.closed ≡ true)) (gather fuel q ws)
  unfolding gather
  gather-Inv zero q ws f r e h = absurd (omega arith)
  gather-Inv (suc fuel) q ws f r e h =
      Bool-intro KeepsAll ((wakers g).is_full ws) (λ full. (h, e full))
        (λ room. collected-Keeps (gather fuel) ws (close_one q) room (close_one-Inv q h) (λ ws' l.
          gather-Inv fuel (close_one q).0 ws' (omega (arith, l))
            (omega (arith, l, room_left g ws room)) (λ _. (close_one-Inv q h).1)
            (close_one-Inv q h).0))
