-- ===== src/Queue/Ledger/Check.antt =====
-- flag-bearer-queue/src/lib.rs: the account over `check` and the locked section of `close`.
use flag_bearer.Base.{
  ℕ, zero, suc, ◌+◌, ◌≡◌, refl, false, ◌∙◌, ap, ◌||◌, ◌&&◌, none, some, Option, List, [], ◌∷◌,
  Result, ok, err, Call, gives, panics, returns, unwinds, faults, arith, Bool-cases, inl, inr,
  Result-cases, take,
}
use flag_bearer.Closeable.{Kind, closeable, can_close}
use flag_bearer.External.{Setting}
use flag_bearer.Queue.State.{Protected, QueueState, waiting, settled}
use flag_bearer.Queue.Wake.{WakeBatch, wakers, length-new}
use flag_bearer.Queue.Check.{Checked, check}
use flag_bearer.Queue.Close.{Gathered, gather}
use flag_bearer.Queue.Serve.{Served, serve, reply}
use flag_bearer.Queue.Serve.After.{IsServed, settle}
use flag_bearer.Queue.Serve.Check.{check-serve, check_idle, check_discarded}
use flag_bearer.Queue.Drain.{cancel}
use flag_bearer.Queue.Drain.Gather.{Gathers, gather-Gathers}
use flag_bearer.Queue.Sound.{Inv}
use flag_bearer.Queue.Ledger.{Account, stored, one, Kept, Kept-moved, Holds-at, Holds-moved}

abbrev worths : {P : Type 0} → (P → ℕ) → List (ℕ × P) → ℕ
worths w [] = 0
worths w ((k, permit) ∷ xs) = w permit + worths w xs

stored-settle :
    {P E : Type 0} (w : P → ℕ) (gs : List (ℕ × P)) (ys : List (ℕ × Result P E))
    → stored w (settle gs ys) ≡ worths w gs + stored w ys
stored-settle w [] ys = omega arith
stored-settle w ((k, permit) ∷ gs) ys = omega (arith, stored-settle w gs ((k, ok permit) ∷ ys))

stored-cancel :
    {P W R : Type 0} (w : R → ℕ) (xs : List (ℕ × (Option P × W)))
    (ys : List (ℕ × Result R (Option P)))
    → stored w (cancel xs ys) ≡ stored w ys
stored-cancel w [] ys = refl
stored-cancel w ((k, p) ∷ xs) ys = stored-cancel w xs ((k, err p.0) ∷ ys) ∙ omega arith

module _ {g : Setting} (m : Account g) where
  open m use {worth, Holds}

  -- A walk from a state that `n` permits worth `w` are out of.
  abbrev IsPaid : ℕ → ℕ → Served g → Type 0
  IsPaid n w v =
      (v.panicked ≡ false) × Holds v.state (n + worths one v.granted) (w + worths worth v.granted)

  reply-IsPaid :
      (walk : g.State → Served g) (k : ℕ) (waker : g.Waker) (s : g.State) (p : g.Params)
      (rest : List (ℕ × Protected g)) (n w : ℕ)
      → ((t : g.State) (n w : ℕ) → Holds t n w → IsPaid n w (walk t))
      → Holds s n w
      → (call : Call g.State (Result g.Permit g.Params)) → g.acquire s p ≡ call
      → IsPaid n w (reply walk k waker rest call)
  reply-IsPaid walk k waker s p rest n w h a (panics t) e = absurd (m.steady s t n w p a e)
  reply-IsPaid walk k waker s p rest n w h a (gives t (err p')) e =
      (refl, Holds-at m t _ _ _ _ (omega arith) (omega arith) (m.refuses s t n w p p' a e))
  reply-IsPaid walk k waker s p rest n w h a (gives t (ok permit)) e =
      let (b, d) = h t (n + 1) (w + worth permit) (m.acquires s t n w p permit a e) in
      (b, Holds-at m _ _ _ _ _ (omega arith) (omega arith) d)

  serve-IsPaid :
      (room : ℕ) (s : g.State) (xs : List (ℕ × Protected g)) (n w : ℕ)
      → Holds s n w
      → IsPaid n w (serve room s xs)
  unfolding serve
  serve-IsPaid room s [] n w h = (refl, Holds-at m s _ _ _ _ (omega arith) (omega arith) h)
  serve-IsPaid room s ((k, (none, waker)) ∷ rest) n w h = serve-IsPaid room s rest n w h
  serve-IsPaid zero s ((k, (some p, waker)) ∷ rest) n w h =
      reply-IsPaid _ k waker s p rest n w
        (λ t n w a. (refl, Holds-at m t _ _ _ _ (omega arith) (omega arith) a)) h (g.acquire s p)
        refl
  serve-IsPaid (suc room) s ((k, (some p, waker)) ∷ rest) n w h =
      reply-IsPaid _ k waker s p rest n w (λ t n w a. serve-IsPaid room t rest n w a) h
        (g.acquire s p) refl

  module _ {c : Kind} where
    abbrev pub BalancedCheck : ℕ → ℕ → Checked g c → Type 0
    BalancedCheck n w (returns (q, _) _) = Kept m q n w
    BalancedCheck n w (unwinds (q, _)) = Kept m q n w
    BalancedCheck n w (faults _) = Unit {0}

    module _ (q : QueueState g c) (ws : WakeBatch g) (n w : ℕ) (h : Kept m q n w) where
      served :
          (v : Served g) (r : Checked g c)
          → IsPaid (stored one (settled q) + n) (stored worth (settled q) + w) v
          → IsServed [] v q ws r
          → BalancedCheck n w r
      served v (returns (q', _) _) p (a, _, b) = (
        b ∙ h.0,
        Holds-moved m v.state q'.state _ _ _ _ a.states
            (omega (arith, ap (stored one) a.settles, stored-settle one v.granted (settled q)))
            (omega (arith, ap (stored worth) a.settles, stored-settle worth v.granted (settled q)))
            p.1,
      )
      served v (unwinds (q', _)) p (_, b, _) = absurd (ground (arith, b, p.0))
      served v (faults _) p a = tt

      pub check-BalancedCheck : (wakers g).to_list ws ≡ [] → Inv q → BalancedCheck n w (check q ws)
      check-BalancedCheck e i = elim (Bool-cases (q.poisoned || (can_close c && q.closed))) [
        | inl idle ↦ rw (check_idle q ws idle) h
        | inr busy ↦ elim (Result-cases q.queue) [
          | inl (u, o) ↦
              served (serve 31 q.state (waiting q)) (check q ws)
                (serve-IsPaid 31 q.state (waiting q) _ _ h.1)
                (check-serve q ws i
                  (record { healthy = ground arith; admitting = ground arith; opened = o }) e)
          | inr (v, o) ↦ rw (check_discarded q ws v o) h
        ]
      ]

  gathered :
      (q : QueueState g closeable) (ws : WakeBatch g) (n w : ℕ) (r : Gathered g)
      → Kept m q n w
      → Gathers 32 (waiting q) q ws r
      → BalancedCheck n w r
  gathered q ws n w (returns (q', _) _) k h =
      Kept-moved m q q' n n w w h.keeps.poisons h.keeps.states
        (omega
          (arith, ap (stored one) h.settles, stored-cancel one (take 32 (waiting q)) (settled q)))
        (omega (
          arith,
          ap (stored worth) h.settles,
          stored-cancel worth (take 32 (waiting q)) (settled q),
        ))
        k
  gathered q ws n w (unwinds _) k h = elim h [ ]
  gathered q ws n w (faults _) k h = elim h [ ]

  pub gather-BalancedCheck :
      (q : QueueState g closeable) (n w : ℕ)
      → Inv q
      → Kept m q n w
      → BalancedCheck n w (gather 33 q (wakers g).new)
  gather-BalancedCheck q n w h k = gathered q (wakers g).new n w _ k (
      gather-Gathers 33 32 (waiting q) q (wakers g).new (omega arith) (omega (arith, length-new g))
        (λ z. absurd (omega arith)) refl h)
