-- ===== src/Queue/Drain/Gather.antt =====
-- flag-bearer-queue/src/lib.rs: a locked section of `close`, in terms of the list of waiting
-- tasks.
use flag_bearer.Base.{
  ℕ, zero, suc, ◌+◌, ◌<◌, ◌≡◌, refl, sym, ◌∙◌, ap, false, none, some, Option, List, [], ◌∷◌, ◌++◌,
  Bool-intro, append_assoc, append-nil, returns, unwinds, faults, arith, length, take, drop,
}
use flag_bearer.Closeable.{closeable}
use flag_bearer.External.{Setting}
use flag_bearer.Queue.State.{Protected, QueueState, waiting, settled}
use flag_bearer.Queue.Wake.{WakeBatch, wakers, capacity, full, not-full, batch_length}
use flag_bearer.Queue.Close.{close_one, Gather, Gathered, gather, collected, joined}
use flag_bearer.Queue.Sound.{Inv}
use flag_bearer.Queue.Sound.Close.{close_one-Inv}
use flag_bearer.Queue.Drain.{cancel, wakers_of, IsClosing, IsKept, IsOne, close_one-IsOne}

module _ {g : Setting} where
  -- Of the tasks `xs` the first `room` left the queue `q` for good; the batch `ws` grew to `ws'`.
  pub record IsGathered (room : ℕ) (xs : List (ℕ × Protected g)) (q : QueueState g closeable)
      (ws : WakeBatch g) (q' : QueueState g closeable) (ws' : WakeBatch g) : Type 0 where
    pub waits : waiting q' ≡ drop room xs
    pub settles : settled q' ≡ cancel (take room xs) (settled q)
    pub batches : (wakers g).to_list ws' ≡ (wakers g).to_list ws ++ wakers_of (take room xs)
    pub closing : IsClosing q'
    pub keeps : IsKept q q'
    pub inv : Inv q'

  abbrev pub Gathers :
      ℕ → List (ℕ × Protected g) → QueueState g closeable → WakeBatch g → Gathered g → Type 0
  Gathers room xs q ws (returns (q', ws') _) = IsGathered room xs q ws q' ws'
  Gathers room xs q ws (unwinds _) = ⊥
  Gathers room xs q ws (faults _) = ⊥

  pub IsKept-trans : (q q₁ q₂ : QueueState g closeable) → IsKept q q₁ → IsKept q₁ q₂ → IsKept q q₂
  IsKept-trans q q₁ q₂ a b = record {
    states = b.states ∙ a.states;
    orders = b.orders ∙ a.orders;
    poisons = b.poisons ∙ a.poisons;
  }

  Gathers-cons :
      (room k : ℕ) (p : Protected g) (rest : List (ℕ × Protected g)) (q q₁ : QueueState g closeable)
      (ws ws₁ : WakeBatch g) (r : Gathered g)
      → IsOne q ((k, p) ∷ rest) (q₁, some p.1)
      → (wakers g).to_list ws₁ ≡ (wakers g).to_list ws ++ p.1 ∷ []
      → Gathers room rest q₁ ws₁ r
      → Gathers (suc room) ((k, p) ∷ rest) q ws r
  Gathers-cons room k p rest q q₁ ws ws₁ (returns (q₂, ws₂) _) ((_, _, s), _, keep) b h = record {
    waits = h.waits;
    settles = h.settles ∙ ap (cancel (take room rest)) s;
    batches =
        h.batches
        ∙ ap (λ xs. xs ++ wakers_of (take room rest)) b
        ∙ append_assoc ((wakers g).to_list ws) (p.1 ∷ []) (wakers_of (take room rest));
    closing = h.closing;
    keeps = IsKept-trans q q₁ q₂ keep h.keeps;
    inv = h.inv;
  }
  Gathers-cons room k p rest q q₁ ws ws₁ (unwinds _) a b h = h
  Gathers-cons room k p rest q q₁ ws ws₁ (faults _) a b h = h

  collected-Gathers :
      (room : ℕ) (again : Gather g) (xs : List (ℕ × Protected g)) (q : QueueState g closeable)
      (ws : WakeBatch g) (r : QueueState g closeable × Option g.Waker)
      → (wakers g).is_full ws ≡ false
      → IsOne q xs r
      → Inv r.0
      → ((rest : List (ℕ × Protected g)) (ws₁ : WakeBatch g)
          → waiting r.0 ≡ rest
          → length ((wakers g).to_list ws₁) ≡ length ((wakers g).to_list ws) + 1
          → Gathers room rest r.0 ws₁ (again r.0 ws₁))
      → Gathers (suc room) xs q ws (collected again ws r)
  unfolding collected joined
  collected-Gathers room again [] q ws (q₁, none) n ((_, w, s), c, keep) inv next = record {
    waits = w;
    settles = s;
    batches = sym (append-nil ((wakers g).to_list ws));
    closing = c;
    keeps = keep;
    inv = inv;
  }
  collected-Gathers room again [] q ws (q₁, some w) n ((e, _, _), _, _) inv next = cc
  collected-Gathers room again ((k, p) ∷ rest) q ws (q₁, none) n ((e, _, _), _, _) inv next = cc
  collected-Gathers room again ((k, p) ∷ rest) q ws (q₁, some w) n ((e, l, s), c, keep) inv next =
      let (ws₁, t, b) = (wakers g).push_some w ws n in
      rw t (
        Gathers-cons room k p rest q q₁ ws ws₁ _ ((refl, l, s), c, keep)
          (b ∙ ap (λ x. (wakers g).to_list ws ++ x ∷ []) (some-eq e))
          (next rest ws₁ l (batch_length g ws ws₁ w b)))
    where
      some-eq : some w ≡ some p.1 → w ≡ p.1
      some-eq i = cc

  -- A locked section of `close` on a well-formed queue whose batch has `room` free slots (if none,
  -- the queue is closing already), with fuel above `room`, turns the first `room` tasks away, in
  -- order: each gets its parameters back, and its waker joins the batch. It cannot panic, whatever
  -- user code does, and changes neither the user's state nor the order nor the poison. It discards
  -- the list exactly if nobody is left.
  pub gather-Gathers :
      (fuel room : ℕ) (xs : List (ℕ × Protected g)) (q : QueueState g closeable) (ws : WakeBatch g)
      → room < fuel
      → length ((wakers g).to_list ws) + room ≡ capacity
      → (room ≡ 0 → IsClosing q)
      → waiting q ≡ xs
      → Inv q
      → Gathers room xs q ws (gather fuel q ws)
  unfolding gather
  gather-Gathers zero room xs q ws f l c e h = absurd (omega arith)
  gather-Gathers (suc fuel) zero xs q ws f l c e h =
      Bool-intro (Gathers 0 xs q ws) ((wakers g).is_full ws)
        (λ _. record {
          waits = e;
          settles = refl;
          batches = sym (append-nil ((wakers g).to_list ws));
          closing = c refl;
          keeps = record { states = refl; orders = refl; poisons = refl };
          inv = h;
        })
        (λ n. cc (n, full g ws (omega arith)))
  gather-Gathers (suc fuel) (suc room) xs q ws f l c e h =
      Bool-intro (Gathers (suc room) xs q ws) ((wakers g).is_full ws)
        (λ b. cc (b, not-full g ws (omega arith)))
        (λ n.
          collected-Gathers room (gather fuel) xs q ws (close_one q) n (close_one-IsOne q xs e h)
            (close_one-Inv q h).0
            (λ rest ws₁ w b.
              gather-Gathers fuel room rest (close_one q).0 ws₁ (omega arith) (omega (arith, b))
                (λ _. (close_one-IsOne q xs e h).1) w (close_one-Inv q h).0))
