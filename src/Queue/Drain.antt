-- ===== src/Queue/Drain.antt =====
-- flag-bearer-queue/src/lib.rs: `close_one`, in terms of the list of waiting tasks.
pub mod Gather
pub mod Close
pub mod Fewer
pub mod Busy
use flag_bearer.Base.{
  ℕ, ◌≡◌, refl, sym, ◌∙◌, ap, true, not, Option, none, some, List, [], ◌∷◌, Result, ok, err, arith,
  Bool-cases, inl, inr, Result-intro, is_nil, first_key, find, erase, ==_refl, map,
}
use flag_bearer.Closeable.{closeable}
use flag_bearer.External.{Setting}
use flag_bearer.Queue.State.{Protected, Removed, pin_queue, QueueState, waiting, settled}
use flag_bearer.Queue.Close.{close_one, detach, detached, discard, still_open, is_ok}
use flag_bearer.Queue.Sound.{Inv, discarded-waiting}

-- The tasks `xs` are turned away, the last one on top.
abbrev pub cancel :
    {P W R : Type 0}
    → List (ℕ × (Option P × W))
    → List (ℕ × Result R (Option P))
    → List (ℕ × Result R (Option P))
cancel [] ys = ys
cancel ((k, p) ∷ xs) ys = cancel xs ((k, err p.0) ∷ ys)

abbrev pub wakers_of : {P W : Type 0} → List (ℕ × (P × W)) → List W
wakers_of = map (λ x. x.1.1)

module _ {g : Setting} where
  -- The list is there as long as somebody waits.
  pub record IsClosing (q : QueueState g closeable) : Type 0 where
    pub closes : q.closed ≡ true
    pub opens : still_open q ≡ not (is_nil (waiting q))

  -- Nothing but the waiting tasks, `len`, and the two signs of closing changed.
  pub record IsKept (q q' : QueueState g closeable) : Type 0 where
    pub states : q'.state ≡ q.state
    pub orders : q'.order ≡ q.order
    pub poisons : q'.poisoned ≡ q.poisoned

  -- The answer `r` of `close_one` for the waiting tasks `xs`, over the settled ones `ys`.
  abbrev First :
      List (ℕ × Removed g closeable)
      → List (ℕ × Protected g)
      → QueueState g closeable × Option g.Waker
      → Type 0
  First ys [] r = (r.1 ≡ none) × (waiting r.0 ≡ []) × (settled r.0 ≡ ys)
  First ys ((k, p) ∷ rest) r =
      (r.1 ≡ some p.1) × (waiting r.0 ≡ rest) × (settled r.0 ≡ (k, err p.0) ∷ ys)

  abbrev IsOne :
      QueueState g closeable
      → List (ℕ × Protected g)
      → QueueState g closeable × Option g.Waker
      → Type 0
  IsOne q xs r = First (settled q) xs r × IsClosing r.0 × IsKept q r.0

  First-of :
      (ys : List (ℕ × Removed g closeable)) (xs : List (ℕ × Protected g))
      (r r' : QueueState g closeable × Option g.Waker)
      → r'.1 ≡ r.1
      → waiting r'.0 ≡ waiting r.0
      → settled r'.0 ≡ settled r.0
      → First ys xs r
      → First ys xs r'
  First-of ys [] r r' w l s h = (w ∙ h.0, l ∙ h.1, s ∙ h.2)
  First-of ys ((k, p) ∷ rest) r r' w l s h = (w ∙ h.0, l ∙ h.1, s ∙ h.2)

  discard-IsOne :
      (q : QueueState g closeable) (xs : List (ℕ × Protected g))
      (r : QueueState g closeable × Option g.Waker)
      → First (settled q) xs r
      → r.0.queue ≡ ok tt
      → r.0.closed ≡ true
      → IsKept q r.0
      → IsOne q xs (discard r)
  unfolding discard
  discard-IsOne q xs (r, w) f o e k = elim (Bool-cases ((pin_queue g closeable).is_empty r.nodes)) [
    | inl nil ↦ rw nil (
      First-of (settled q) xs (r, w) (record r { queue = err tt }, w) refl refl refl f,
      record {
        closes = e;
        opens = sym (ap not (sym ((pin_queue g closeable).is_empty_lem r.nodes) ∙ nil));
      },
      record { states = k.states; orders = k.orders; poisons = k.poisons },
    )
    | inr more ↦ rw more (
      f,
      record {
        closes = e;
        opens =
            ap is_ok o ∙ sym (ap not (sym ((pin_queue g closeable).is_empty_lem r.nodes) ∙ more));
      },
      k,
    )
  ]

  detach-First :
      (q : QueueState g closeable) (xs : List (ℕ × Protected g))
      → waiting q ≡ xs
      → First (settled q) xs (detach q ((pin_queue g closeable).cursor_front q.nodes))
        × ((detach q ((pin_queue g closeable).cursor_front q.nodes)).0.queue ≡ q.queue)
        × ((detach q ((pin_queue g closeable).cursor_front q.nodes)).0.closed ≡ q.closed)
        × IsKept q (detach q ((pin_queue g closeable).cursor_front q.nodes)).0
  unfolding detach detached
  detach-First q [] e =
      rw ((pin_queue g closeable).cursor_front_lem q.nodes ∙ ap first_key e)
        ((refl, e, refl), refl, refl, record { states = refl; orders = refl; poisons = refl })
  detach-First q ((k, p) ∷ rest) e =
      let f = ap (find k) e ∙ found k p rest in
      let (nodes, t, links, removes) =
        (pin_queue g closeable).remove_current_with_some k p (λ p. err p.0) q.nodes f in
      rw ((pin_queue g closeable).cursor_front_lem q.nodes ∙ ap first_key e, t)
        (
          (refl, links ∙ ap (erase k) e ∙ erased k p rest, removes),
          refl,
          refl,
          record { states = refl; orders = refl; poisons = refl },
        )
    where
      found : {A : Type 0} (k : ℕ) (p : A) (rest : List (ℕ × A)) → find k ((k, p) ∷ rest) ≡ some p
      found k p rest = ground (arith, ==_refl k)

      erased : {A : Type 0} (k : ℕ) (p : A) (rest : List (ℕ × A)) → erase k ((k, p) ∷ rest) ≡ rest
      erased k p rest = ground (arith, ==_refl k)

  nobody :
      (q : QueueState g closeable) (xs : List (ℕ × Protected g))
      → waiting q ≡ xs
      → xs ≡ []
      → First (settled q) xs (record q { closed = true }, none)
  nobody q [] e n = (refl, e, refl)
  nobody q (x ∷ xs) e n = cc

  -- `close_one` takes the first task out, with its parameters; behind the last one it discards the
  -- list.
  pub close_one-IsOne :
      (q : QueueState g closeable) (xs : List (ℕ × Protected g))
      → waiting q ≡ xs
      → Inv q
      → IsOne q xs (close_one q)
  unfolding close_one
  close_one-IsOne q xs e h =
      Result-intro (IsOne q xs) q.queue
        (λ u o.
          let (f, a, b, k) = detach-First (record q { closed = true }) xs e in
          discard-IsOne q xs _ f (a ∙ o) b
            (record { states = k.states; orders = k.orders; poisons = k.poisons }))
        (λ v d. (
          nobody q xs e (sym e ∙ (discarded-waiting q v d h).0),
          record {
            closes = refl;
            opens = ap is_ok d ∙ sym (ap (λ ys. not (is_nil ys)) (discarded-waiting q v d h).0);
          },
          record { states = refl; orders = refl; poisons = refl },
        ))
