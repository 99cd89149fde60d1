-- ===== src/Queue/Sound/Admit.antt =====
-- flag-bearer-queue/src/acquire.rs: `acquire_or_enqueue` and the well-formedness of the queue.
use flag_bearer.Base.{
  ◌≡◌, refl, Bool, true, ◌||◌, ◌&&◌, none, some, Option, Result, ok, err, Call, gives, panics, Exec,
  returns, unwinds, faults, if-intro, Result-intro,
}
use flag_bearer.Closeable.{Kind, can_close, new_err, ErrorOf}
use flag_bearer.External.{Setting}
use flag_bearer.Queue.State.{pin_queue, QueueState}
use flag_bearer.Queue.Admit.{
  Outcome, enqueue, acquire_or_enqueue, attempted, lead, ordered, turn_away,
}
use flag_bearer.Queue.Sound.{Inv}

module _ {g : Setting} {c : Kind} where
  abbrev pub IsSame : QueueState g c → QueueState g c → Type 0
  IsSame q q' =
      (q'.queue ≡ q.queue) × (q'.closed ≡ q.closed) × (q'.len ≡ q.len) × (q'.nodes ≡ q.nodes)

  pub Inv-same : (q q' : QueueState g c) → IsSame q q' → Inv q → Inv q'
  Inv-same q q' e h = rw (e.0, e.1, e.2, e.3) h

  abbrev pub IsOpen : QueueState g c → Outcome g c → Type 0
  IsOpen q (enqueue _ _) = (u : Unit {0}) × (q.queue ≡ ok u)
  IsOpen q _ = Unit {0}

  abbrev pub Admits : QueueState g c → Exec (QueueState g c) (Outcome g c) → Type 0
  Admits q (returns q' o) = IsSame q q' × IsOpen q' o
  Admits q (unwinds q') = IsSame q q'
  Admits q (faults f) = ⊥

  unchanged : (q : QueueState g c) → IsSame q q
  unchanged q = (refl, refl, refl, refl)

  turn_away-Admits :
      (q : QueueState g c) (e : Option (ErrorOf c g.Params)) → Admits q (turn_away q e)
  unfolding turn_away
  turn_away-Admits q none = unchanged q
  turn_away-Admits q (some e) = (unchanged q, tt)

  module _ (q : QueueState g c) (u : Unit {0}) (e : q.queue ≡ ok u) where
    attempted-Admits :
        (front : Bool) (o : g.Policy) (call : Call g.State (Result g.Permit g.Params))
        → Admits q (attempted front (record q { order = o }) call)
    unfolding attempted
    attempted-Admits front o (panics s) = unchanged q
    attempted-Admits front o (gives s (ok permit)) = (unchanged q, tt)
    attempted-Admits front o (gives s (err params)) = (unchanged q, (u, e))

    lead-Admits :
        (front empty : Bool) (o : g.Policy) (params : g.Params)
        → Admits q (lead front empty (record q { order = o }) params)
    unfolding lead
    lead-Admits front empty o params =
        if-intro (Admits q) (front || empty) (attempted-Admits front o (g.acquire q.state params))
          (unchanged q, (u, e))

    ordered-Admits :
        (empty : Bool) (params : g.Params) (call : Call g.Policy Bool)
        → Admits q (ordered empty q params call)
    unfolding ordered
    ordered-Admits empty params (panics o) = unchanged q
    ordered-Admits empty params (gives o front) = lead-Admits front empty o params

  pub acquire_or_enqueue-Admits :
      (q : QueueState g c) (params : g.Params) (fair : Bool)
      → Admits q (acquire_or_enqueue q params fair)
  unfolding acquire_or_enqueue
  acquire_or_enqueue-Admits q params fair =
      if-intro (Admits q) q.poisoned (unchanged q, tt)
        (if-intro (Admits q) (can_close c && q.closed) (turn_away-Admits q (new_err c params)) (
          Result-intro (Admits q) q.queue
            (λ u e.
              if-intro (Admits q) fair
                (ordered-Admits q u e ((pin_queue g c).is_empty q.nodes) params
                  (g.enqueue_front q.order q.len))
                (lead-Admits q u e true ((pin_queue g c).is_empty q.nodes) q.order params))
            (λ v e. turn_away-Admits q (new_err c params))))
