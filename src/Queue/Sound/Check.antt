-- ===== src/Queue/Sound/Check.antt =====
-- flag-bearer-queue/src/lib.rs: `QueueState::check` and the well-formedness of the queue.
use flag_bearer.Base.{
  ◌≡◌, ◌∙◌, sym, ap, ◌||◌, ◌&&◌, [], ok, returns, unwinds, faults, arith, Bool-cases, inl, inr,
  Result-cases, length, count,
}
use flag_bearer.Closeable.{Kind, can_close}
use flag_bearer.External.{Setting}
use flag_bearer.Queue.State.{QueueState, waiting, settled}
use flag_bearer.Queue.Wake.{WakeBatch, wakers}
use flag_bearer.Queue.Check.{Checked, check}
use flag_bearer.Queue.Serve.{Served, serve}
use flag_bearer.Queue.Serve.After.{IsAfter, IsServed}
use flag_bearer.Queue.Serve.Parts.{IsSplit, serve-IsSplit, count-settle}
use flag_bearer.Queue.Serve.Check.{check-serve, check_idle, check_discarded}
use flag_bearer.Queue.Sound.{Inv, Keeps}

module _ {g : Setting} {c : Kind} where
  pub after-Inv :
      (v : Served g) (q q' : QueueState g c) (ws ws' : WakeBatch g)
      → Inv q
      → q.queue ≡ ok tt
      → IsSplit (waiting q) v
      → IsAfter [] v q ws q' ws'
      → Inv q'
  after-Inv v q q' ws ws' h o s a = record {
    counted = omega (arith, a.counts, h.counted, s.0, ap length a.waits);
    fits = omega (arith, h.fits, s.0, ap length a.waits);
    single = λ k. omega (
      arith,
      h.single k,
      s.1 k,
      ap (count k) a.waits,
      ap (count k) a.settles,
      count-settle k v.granted (settled q),
    );
    discarded = rw (a.opens ∙ o) tt;
    allowed = λ e. h.allowed (sym a.closes ∙ e);
  }

  served-Inv :
      (v : Served g) (q : QueueState g c) (ws : WakeBatch g) (r : Checked g c)
      → Inv q
      → q.queue ≡ ok tt
      → IsSplit (waiting q) v
      → IsServed [] v q ws r
      → Keeps (λ s. Inv s.0) r
  served-Inv v q ws (returns (q', ws') _) h o s a = after-Inv v q q' ws ws' h o s a.0
  served-Inv v q ws (unwinds (q', ws')) h o s a = after-Inv v q q' ws ws' h o s a.0
  served-Inv v q ws (faults _) h o s a = a

  -- `check` with an empty batch, on any well-formed queue, ends and keeps it well-formed, also if the
  -- user's `acquire` panics, and reaches no undefined behaviour.
  pub check-Inv :
      (q : QueueState g c) (ws : WakeBatch g)
      → (wakers g).to_list ws ≡ []
      → Inv q
      → Keeps (λ s. Inv s.0) (check q ws)
  check-Inv q ws e h = elim (Bool-cases (q.poisoned || (can_close c && q.closed))) [
    | inl idle ↦ rw (check_idle q ws idle) h
    | inr busy ↦ elim (Result-cases q.queue) [
      | inl (u, o) ↦
          served-Inv (serve 31 q.state (waiting q)) q ws (check q ws) h o
            (serve-IsSplit g 31 q.state (waiting q))
            (check-serve q ws h
              (record { healthy = ground arith; admitting = ground arith; opened = o }) e)
      | inr (v, o) ↦ rw (check_discarded q ws v o) h
    ]
  ]
