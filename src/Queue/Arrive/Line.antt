-- ===== src/Queue/Arrive/Line.antt =====
-- flag-bearer-queue/src/acquire.rs: the first polls of several futures, one after the other.
use flag_bearer.Base.{
  ℕ, suc, ◌+◌, ◌<◌, ◌≡◌, refl, sym, ◌∙◌, ap, subst, true, false, ◌||◌, Option, none, some, List, [],
  ◌∷◌, ◌++◌, map, append_assoc, append-nil, ok, err, gives, returns, unwinds, faults, arith, length,
  length-append, has, has-append, Distinct, usize_mod, is_nil, ==_refl, ==_iff, ◌==◌, Bool-cases,
  inl, inr,
}
use flag_bearer.Closeable.{Kind}
use flag_bearer.External.{Setting}
use flag_bearer.Queue.State.{QueueState, waiting, settled}
use flag_bearer.Queue.Acquire.{ready, pending, acquire, Polled, poll}
use flag_bearer.Queue.Serve.Check.{IsServing}
use flag_bearer.Queue.Sound.{Inv, Keeps}
use flag_bearer.Queue.Sound.Poll.{poll-Inv}
use flag_bearer.Queue.Arrive.{IsJoined, Arrives, poll-Arrives}

-- A new task: the address of its node, its parameters and its waker.
abbrev pub Arrival : Setting → Type 0
Arrival g = ℕ × (g.Params × g.Waker)

abbrev pub entry : {P W : Type 0} → ℕ × (P × W) → ℕ × (Option P × W)
entry (k, (p, w)) = (k, (some p, w))

abbrev pub entries : {P W : Type 0} → List (ℕ × (P × W)) → List (ℕ × (Option P × W))
entries = map entry

pub length-entries : {P W : Type 0} (xs : List (ℕ × (P × W))) → length (entries xs) ≡ length xs
length-entries [] = refl
length-entries (x ∷ xs) = ap suc (length-entries xs)

is_nil-append : {A : Type 0} (ys : List A) (x : A) → is_nil (ys ++ x ∷ []) ≡ false
is_nil-append [] x = refl
is_nil-append (y ∷ ys) x = refl

-- A key of `xs` is not one that `xs` lacks.
pub other_key :
    {A : Type 0} (k j : ℕ) (xs : List (ℕ × A))
    → has k xs ≡ false
    → has j xs ≡ true
    → (k == j) ≡ false
other_key k j xs a b = elim (Bool-cases (k == j)) [
  | inl e ↦ cc (subst (λ i. has i xs ≡ true) (sym ((==_iff k j).0 e)) b, a)
  | inr e ↦ e
]

module _ {g : Setting} {c : Kind} where
  abbrev pub then :
      (QueueState g c → Option (QueueState g c)) → Polled g c → Option (QueueState g c)
  then next (returns (q, _) _) = next q
  then next (unwinds _) = none
  then next (faults _) = none

  -- The first polls of new futures, one after the other.
  unfoldable pub arrive : List (Arrival g) → QueueState g c → Option (QueueState g c)
  arrive [] q = some q
  arrive ((k, (p, w)) ∷ xs) q = then (arrive xs) (poll q (acquire k p) w)

  -- The order sends everybody to the back and stays as it is, as `FairOrder::Fifo` does.
  abbrev pub IsFifo : QueueState g c → Type 0
  IsFifo q = (n : ℕ) → g.enqueue_front q.order n ≡ gives q.order false

  -- The nodes of the arrivals are in none of the lists, and there is memory for them.
  pub record AreNew (xs : List (Arrival g)) (q : QueueState g c) : Type 0 where
    pub apart : Distinct xs
    pub fresh : (k : ℕ) → has k xs ≡ true → (has k (waiting q) || has k (settled q)) ≡ false
    pub memory : length (waiting q) + length xs < usize_mod

  pub record IsLined (xs : List (Arrival g)) (q q' : QueueState g c) : Type 0 where
    pub waits : waiting q' ≡ waiting q ++ entries xs
    pub settles : settled q' ≡ settled q
    pub states : q'.state ≡ q.state
    pub inv : Inv q'
    pub serving : IsServing q'

  joined :
      (k : ℕ) (p : g.Params) (w : g.Waker) (q : QueueState g c) (r : Polled g c)
      → Arrives none false q.order p w k q r
      → Keeps (λ s. Inv s.0) r
      → (q' : QueueState g c) × IsJoined false (k, (some p, w)) q.state q.order q q'
        × Inv q'
        × ((next : QueueState g c → Option (QueueState g c)) → then next r ≡ next q')
  joined k p w q (returns (q', f) pending) a h = (q', a, h, λ next. refl)
  joined k p w q (returns (q', f) (ready (ok x))) a h = elim a [ ]
  joined k p w q (returns (q', f) (ready (err x))) a h = elim a [ ]
  joined k p w q (unwinds _) a h = elim a [ ]
  joined k p w q (faults _) a h = elim a [ ]

  arrive_one :
      (k : ℕ) (p : g.Params) (w : g.Waker) (xs : List (Arrival g)) (q : QueueState g c)
      → is_nil (waiting q) ≡ false
      → IsFifo q
      → AreNew ((k, (p, w)) ∷ xs) q
      → Inv q
      → IsServing q
      → (q' : QueueState g c) × IsJoined false (k, (some p, w)) q.state q.order q q'
        × Inv q'
        × ((next : QueueState g c → Option (QueueState g c))
            → then next (poll q (acquire k p) w) ≡ next q')
  arrive_one k p w xs q n o a h s =
      joined k p w q (poll q (acquire k p) w)
        (rw n at (
          poll-Arrives q (acquire k p) p w (a.fresh k (ground (arith, ==_refl k)))
            (omega (arith, a.memory)) h s false q.order (o q.len) refl))
        (poll-Inv q (acquire k p) w (omega (arith, a.memory)) h)

  AreNew-tail :
      (k : ℕ) (p : g.Params) (w : g.Waker) (xs : List (Arrival g)) (q q' : QueueState g c)
      → AreNew ((k, (p, w)) ∷ xs) q
      → IsJoined false (k, (some p, w)) q.state q.order q q'
      → AreNew xs q'
  AreNew-tail k p w xs q q' a j = record {
    apart = a.apart.1;
    fresh = λ i e. ground (
      arith,
      a.fresh i,
      other_key k i xs,
      ap (has i) j.waits,
      ap (has i) j.settles,
      has-append i (waiting q) ((k, (some p, w)) ∷ []),
    );
    memory =
        omega
          (arith, a.memory, ap length j.waits, length-append (waiting q) ((k, (some p, w)) ∷ []));
  }

  pub arrive-IsLined :
      (xs : List (Arrival g)) (q : QueueState g c)
      → is_nil (waiting q) ≡ false
      → IsFifo q
      → AreNew xs q
      → Inv q
      → IsServing q
      → (q' : QueueState g c) × (arrive xs q ≡ some q') × IsLined xs q q'
  unfolding arrive
  arrive-IsLined [] q n o a h s = (
    q,
    refl,
    record {
      waits = sym (append-nil (waiting q));
      settles = refl;
      states = refl;
      inv = h;
      serving = s;
    },
  )
  arrive-IsLined ((k, (p, w)) ∷ xs) q n o a h s =
      let (q₁, j, h₁, run) = arrive_one k p w xs q n o a h s in
      let (q₂, e, l) =
        arrive-IsLined xs q₁ (ap is_nil j.waits ∙ is_nil-append (waiting q) (k, (some p, w)))
          (λ i. subst (λ r. g.enqueue_front r i ≡ gives r false) (sym j.orders) (o i))
          (AreNew-tail k p w xs q q₁ a j) h₁
          (record {
            healthy = j.poisons ∙ s.healthy;
            admitting = rw j.closes s.admitting;
            opened = j.opens ∙ s.opened;
          }) in
      (
        q₂,
        run (arrive xs) ∙ e,
        record {
          waits =
              l.waits
              ∙ ap (λ ys. ys ++ entries xs) j.waits
              ∙ append_assoc (waiting q) ((k, (some p, w)) ∷ []) (entries xs);
          settles = l.settles ∙ j.settles;
          states = l.states ∙ j.states;
          inv = l.inv;
          serving = l.serving;
        },
      )
