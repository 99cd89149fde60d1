-- ===== src/Queue/Rounds.antt =====
-- flag-bearer-queue/src/lib.rs: the loop of `with_queue`, compared with one walk along the waiting
-- tasks.
pub mod Batch
pub mod Serve
pub mod Handoff
pub mod Sound
use flag_bearer.Base.{
  ℕ, zero, suc, ◌+◌, ◌*◌, ◌≤◌, ◌<◌, ◌≡◌, refl, sym, ap, ◌∙◌, subst, true, false, ◌&&◌, not, inl,
  inr, List, [], ◌∷◌, ◌++◌, append_assoc, append-nil, returns, unwinds, faults, arith, length,
  length-append, ◌==◌, Bool-cases, Bool-intro,
}
use flag_bearer.Closeable.{Kind}
use flag_bearer.External.{Setting}
use flag_bearer.Queue.State.{QueueState, waiting, settled}
use flag_bearer.Queue.Wake.{
  WakeBatch, wakers, AllWake, wake_all-AllWake, drop_batch-AllWake, filled, room_left,
}
use flag_bearer.Queue.Check.{Checked, check}
use flag_bearer.Queue.Close.{Others}
use flag_bearer.Queue.Run.{Logged, checked, check_rounds}
use flag_bearer.Queue.Serve.{Served, serve}
use flag_bearer.Queue.Serve.After.{IsAfter, IsServed, settle}
use flag_bearer.Queue.Serve.Check.{IsServing, check-serve}
use flag_bearer.Queue.Serve.Parts.{serve-IsSplit}
use flag_bearer.Queue.Serve.All.{serve_all, joined, Part, serve-Part, settle-append}
use flag_bearer.Queue.Sound.{Inv}
use flag_bearer.Queue.Sound.Check.{after-Inv}

-- Nobody else takes the mutex.
abbrev pub quiet : {g : Setting} {c : Kind} → Others g c
quiet log q = q

module _ {g : Setting} {c : Kind} where
  -- `q` became `q'` as the walk `v` says.
  pub record IsEnd (v : Served g) (q q' : QueueState g c) : Type 0 where
    pub waits : waiting q' ≡ v.kept
    pub settles : settled q' ≡ settle v.granted (settled q)
    pub counts : q'.len + length v.granted ≡ q.len
    pub states : q'.state ≡ v.state
    pub opens : q'.queue ≡ q.queue
    pub closes : q'.closed ≡ q.closed
    pub orders : q'.order ≡ q.order

  -- The call ended as the walk `v` did, its wakers were called once each, in order, behind those
  -- of `log`; it gives `t`, or unwinds and leaves the queue poisoned.
  abbrev pub IsDone :
      {T : Type 0} → Served g → QueueState g c → List g.Waker → T → Logged g c T → Type 0
  IsDone v q log t (returns (q', log') t') =
      IsEnd v q q'
      × (log' ≡ log ++ v.woken)
      × (v.panicked ≡ false)
      × (q'.poisoned ≡ q.poisoned)
      × (t' ≡ t)
  IsDone v q log t (unwinds (q', log')) =
      IsEnd v q q' × (log' ≡ log ++ v.woken) × (v.panicked ≡ true) × (q'.poisoned ≡ true)
  IsDone v q log t (faults f) = ⊥

  pub IsAfter-IsEnd :
      (v : Served g) (q q' : QueueState g c) (ws ws' : WakeBatch g)
      → IsAfter [] v q ws q' ws'
      → IsEnd v q q'
  IsAfter-IsEnd v q q' ws ws' a = record {
    waits = a.waits;
    settles = a.settles;
    counts = a.counts;
    states = a.states;
    opens = a.opens;
    closes = a.closes;
    orders = a.orders;
  }

  pub joined-IsEnd :
      (v u : Served g) (q q₁ q₂ : QueueState g c)
      → IsEnd v q q₁
      → IsEnd u q₁ q₂
      → IsEnd (joined v u) q q₂
  joined-IsEnd v u q q₁ q₂ a b = record {
    waits = b.waits;
    settles =
        b.settles
        ∙ ap (settle u.granted) a.settles
        ∙ sym (settle-append v.granted u.granted (settled q));
    counts = omega (arith, a.counts, b.counts, length-append v.granted u.granted);
    states = b.states;
    opens = b.opens ∙ a.opens;
    closes = b.closes ∙ a.closes;
    orders = b.orders ∙ a.orders;
  }

  pub joined-IsDone :
      {T : Type 0} (v u : Served g) (q q₁ : QueueState g c) (log : List g.Waker) (t : T)
      (r : Logged g c T)
      → IsEnd v q q₁
      → q₁.poisoned ≡ q.poisoned
      → IsDone u q₁ (log ++ v.woken) t r
      → IsDone (joined v u) q log t r
  joined-IsDone v u q q₁ log t (returns (q₂, log') t') a p (b, l, n, k, e) =
      (joined-IsEnd v u q q₁ q₂ a b, l ∙ append_assoc log v.woken u.woken, n, k ∙ p, e)
  joined-IsDone v u q q₁ log t (unwinds (q₂, log')) a p (b, l, n, k) =
      (joined-IsEnd v u q q₁ q₂ a b, l ∙ append_assoc log v.woken u.woken, n, k)
  joined-IsDone v u q q₁ log t (faults f) a p b = b

  -- With nobody left the walk is over.
  pub empty-IsDone :
      {T : Type 0} (q : QueueState g c) (log : List g.Waker) (t : T)
      → waiting q ≡ []
      → IsDone (serve_all q.state (waiting q)) q log t (returns (q, log) t)
  unfolding serve_all
  empty-IsDone q log t e = rw e (
    record {
      waits = e;
      settles = refl;
      counts = omega arith;
      states = refl;
      opens = refl;
      closes = refl;
      orders = refl;
    },
    sym (append-nil log),
    refl,
    refl,
    refl,
  )

  -- What is left to do behind a full batch.
  pub rest-IsDone :
      {T : Type 0} (v : Served g) (q q₁ : QueueState g c) (ws ws₁ : WakeBatch g)
      (log : List g.Waker) (t : T) (r : Logged g c T)
      → serve_all q.state (waiting q) ≡ joined v (serve_all v.state v.kept)
      → IsAfter [] v q ws q₁ ws₁
      → q₁.poisoned ≡ q.poisoned
      → IsDone (serve_all q₁.state (waiting q₁)) q₁ (log ++ v.woken) t r
      → IsDone (serve_all q.state (waiting q)) q log t r
  rest-IsDone v q q₁ ws ws₁ log t r e a p h = rw e (
      joined-IsDone v (serve_all v.state v.kept) q q₁ log t r (IsAfter-IsEnd v q q₁ ws ws₁ a) p (
        subst (λ s. IsDone (serve_all s v.kept) q₁ (log ++ v.woken) t r) a.states
          (subst (λ xs. IsDone (serve_all q₁.state xs) q₁ (log ++ v.woken) t r) a.waits h)))
