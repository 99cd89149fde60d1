-- ===== src/Queue/Serve/After.antt =====
-- flag-bearer-queue/src/lib.rs: the effect of `QueueState::check` in terms of `serve`, and how it
-- is put together from its rounds.
use flag_bearer.Base.{
  ℕ, suc, ◌+◌, ◌≤◌, ◌<◌, ◌≡◌, ap, ◌∙◌, true, false, List, [], ◌∷◌, ◌++◌, append_assoc, Result, ok,
  returns, unwinds, faults, arith, length, first_key, Distinct, usize_mod,
}
use flag_bearer.Closeable.{Kind}
use flag_bearer.External.{Setting}
use flag_bearer.Queue.State.{Protected, pin_queue, Nodes, QueueState, waiting, settled}
use flag_bearer.Queue.Wake.{WakeBatch, wakers, capacity}
use flag_bearer.Queue.Check.{Checked, Rest}
use flag_bearer.Queue.Serve.{Served, skip, grant}

-- The permits of `granted` lie in their nodes, the last one on top.
abbrev pub settle {ℓ κ} :
    {P : Type ℓ} {E : Type κ} → List (ℕ × P) → List (ℕ × Result P E) → List (ℕ × Result P E)
settle [] xs = xs
settle ((k, permit) ∷ gs) xs = settle gs ((k, ok permit) ∷ xs)

module _ {g : Setting} {c : Kind} where
  -- `q` with its batch `ws` became `q'` with `ws'` as `v` says; `done` is in front of the cursor.
  pub record IsAfter (done : List (ℕ × Protected g)) (v : Served g) (q : QueueState g c)
      (ws : WakeBatch g) (q' : QueueState g c) (ws' : WakeBatch g) : Type 0 where
    pub waits : waiting q' ≡ done ++ v.kept
    pub settles : settled q' ≡ settle v.granted (settled q)
    pub counts : q'.len + length v.granted ≡ q.len
    pub states : q'.state ≡ v.state
    pub batches : (wakers g).to_list ws' ≡ (wakers g).to_list ws ++ v.woken
    pub opens : q'.queue ≡ q.queue
    pub closes : q'.closed ≡ q.closed
    pub orders : q'.order ≡ q.order

  abbrev pub IsServed :
      List (ℕ × Protected g) → Served g → QueueState g c → WakeBatch g → Checked g c → Type 0
  IsServed done v q ws (returns (q', ws') _) =
      IsAfter done v q ws q' ws' × (v.panicked ≡ false) × (q'.poisoned ≡ q.poisoned)
  IsServed done v q ws (unwinds (q', ws')) =
      IsAfter done v q ws q' ws' × (v.panicked ≡ true) × (q'.poisoned ≡ true)
  IsServed done v q ws (faults f) = ⊥

  pub record IsReady (room : ℕ) (done rest : List (ℕ × Protected g)) (q : QueueState g c)
      (ws : WakeBatch g) : Type 0 where
    pub place : waiting q ≡ done ++ rest
    pub distinct : Distinct (done ++ rest)
    pub space : length ((wakers g).to_list ws) + suc room ≡ capacity
    pub count : length rest ≤ q.len
    pub fits : q.len < usize_mod

  -- The rest of the loop does its part, whatever stands in front of the cursor.
  abbrev pub IsServing : ℕ → ℕ → (g.State → List (ℕ × Protected g) → Served g) → Rest g c → Type 0
  IsServing fuel room walk again =
      (done rest : List (ℕ × Protected g)) (q : QueueState g c) (ws : WakeBatch g)
      → length rest < fuel
      → IsReady room done rest q ws
      → IsServed done (walk q.state rest) q ws (again (first_key rest) q ws)

  module _ {done : List (ℕ × Protected g)} {q q' : QueueState g c} {ws ws' : WakeBatch g} where
    pub IsAfter-skip :
        (x : ℕ × Protected g) (v : Served g)
        → IsAfter (done ++ x ∷ []) v q ws q' ws'
        → IsAfter done (skip x v) q ws q' ws'
    IsAfter-skip x v h = record {
      waits = h.waits ∙ append_assoc done (x ∷ []) v.kept;
      settles = h.settles;
      counts = h.counts;
      states = h.states;
      batches = h.batches;
      opens = h.opens;
      closes = h.closes;
      orders = h.orders;
    }

  -- One grant: the node `k` was taken out with `permit`, and its waker `w` joined the batch.
  pub record IsGrant (k : ℕ) (permit : g.Permit) (w : g.Waker) (q : QueueState g c)
      (ws : WakeBatch g) (q₁ : QueueState g c) (ws₁ : WakeBatch g) : Type 0 where
    pub settles : settled q₁ ≡ (k, ok permit) ∷ settled q
    pub counts : q₁.len + 1 ≡ q.len
    pub batches : (wakers g).to_list ws₁ ≡ (wakers g).to_list ws ++ w ∷ []
    pub opens : q₁.queue ≡ q.queue
    pub closes : q₁.closed ≡ q.closed
    pub orders : q₁.order ≡ q.order
    pub poisons : q₁.poisoned ≡ q.poisoned

  module _ {done : List (ℕ × Protected g)} {k : ℕ} {permit : g.Permit} {w : g.Waker}
      {q q₁ q' : QueueState g c} {ws ws₁ ws' : WakeBatch g} where
    pub IsAfter-grant :
        (v : Served g)
        → IsGrant k permit w q ws q₁ ws₁
        → IsAfter done v q₁ ws₁ q' ws'
        → IsAfter done (grant k permit w v) q ws q' ws'
    IsAfter-grant v e h = record {
      waits = h.waits;
      settles = h.settles ∙ ap (settle v.granted) e.settles;
      counts = omega (arith, h.counts, e.counts);
      states = h.states;
      batches =
          h.batches
          ∙ ap (λ t. t ++ v.woken) e.batches
          ∙ append_assoc ((wakers g).to_list ws) (w ∷ []) v.woken;
      opens = h.opens ∙ e.opens;
      closes = h.closes ∙ e.closes;
      orders = h.orders ∙ e.orders;
    }

  pub IsServed-skip :
      (done : List (ℕ × Protected g)) (x : ℕ × Protected g) (v : Served g) (q : QueueState g c)
      (ws : WakeBatch g) (r : Checked g c)
      → IsServed (done ++ x ∷ []) v q ws r
      → IsServed done (skip x v) q ws r
  IsServed-skip done x v q ws (returns (q', ws') _) h = (IsAfter-skip x v h.0, h.1, h.2)
  IsServed-skip done x v q ws (unwinds (q', ws')) h = (IsAfter-skip x v h.0, h.1, h.2)
  IsServed-skip done x v q ws (faults _) h = elim h [ ]

  pub IsServed-grant :
      (done : List (ℕ × Protected g)) (k : ℕ) (permit : g.Permit) (w : g.Waker) (v : Served g)
      (q q₁ : QueueState g c) (ws ws₁ : WakeBatch g) (r : Checked g c)
      → IsGrant k permit w q ws q₁ ws₁
      → IsServed done v q₁ ws₁ r
      → IsServed done (grant k permit w v) q ws r
  IsServed-grant done k permit w v q q₁ ws ws₁ (returns (q', ws') _) e h =
      (IsAfter-grant v e h.0, h.1, h.2 ∙ e.poisons)
  IsServed-grant done k permit w v q q₁ ws ws₁ (unwinds (q', ws')) e h =
      (IsAfter-grant v e h.0, h.1, h.2)
  IsServed-grant done k permit w v q q₁ ws ws₁ (faults _) e h = elim h [ ]

  module _ {done : List (ℕ × Protected g)} {v : Served g} {q q' : QueueState g c}
      {ws ws' : WakeBatch g} {nodes : Nodes g c} where
    pub IsAfter-write :
        (pin_queue g c).removed nodes ≡ settled q
        → IsAfter done v (record q { nodes = nodes }) ws q' ws'
        → IsAfter done v q ws q' ws'
    IsAfter-write e h = record {
      waits = h.waits;
      settles = h.settles ∙ ap (settle v.granted) e;
      counts = h.counts;
      states = h.states;
      batches = h.batches;
      opens = h.opens;
      closes = h.closes;
      orders = h.orders;
    }

  pub IsServed-write :
      (done : List (ℕ × Protected g)) (v : Served g) (k : ℕ) (u : Protected g) (q : QueueState g c)
      (ws : WakeBatch g) (r : Checked g c)
      → IsServed done v (record q { nodes = (pin_queue g c).write k u q.nodes }) ws r
      → IsServed done v q ws r
  IsServed-write done v k u q ws (returns (q', ws') _) h =
      (IsAfter-write ((pin_queue g c).removed-write k u q.nodes) h.0, h.1, h.2)
  IsServed-write done v k u q ws (unwinds (q', ws')) h =
      (IsAfter-write ((pin_queue g c).removed-write k u q.nodes) h.0, h.1, h.2)
  IsServed-write done v k u q ws (faults _) h = elim h [ ]
