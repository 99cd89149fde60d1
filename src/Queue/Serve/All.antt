-- ===== src/Queue/Serve/All.antt =====
-- flag-bearer-queue/src/lib.rs: a reference for `with_queue`, as a walk with no bound on the
-- permits.
use flag_bearer.Base.{
  ℕ, zero, suc, ◌≤◌, ◌≡◌, refl, ap, false, none, some, List, [], ◌∷◌, ◌++◌, Result, ok, err, Call,
  gives, panics, arith, length,
}
use flag_bearer.External.{Setting}
use flag_bearer.Queue.State.{Protected}
use flag_bearer.Queue.Serve.{Served, serve, reply, stop, skip, grant}
use flag_bearer.Queue.Serve.After.{settle}

module _ {g : Setting} where
  unfoldable pub serve_all : g.State → List (ℕ × Protected g) → Served g
  serve_all s [] = stop false s []
  serve_all s ((k, (none, w)) ∷ rest) = skip (k, (none, w)) (serve_all s rest)
  serve_all s ((k, (some p, w)) ∷ rest) = reply (λ t. serve_all t rest) k w rest (g.acquire s p)

  -- `u` goes on where `v` stopped.
  abbrev pub joined : Served g → Served g → Served g
  joined v u = record {
    state = u.state;
    kept = u.kept;
    granted = v.granted ++ u.granted;
    woken = v.woken ++ u.woken;
    panicked = u.panicked;
  }

  -- `v` is `serve` with `n` permits: it was the whole walk, or used up its permits and goes on.
  abbrev pub Part : ℕ → Served g → Served g → Type 0
  Part n v all =
      (length v.granted ≤ n → all ≡ v)
      × (length v.granted ≡ suc n → all ≡ joined v (serve_all v.state v.kept))
      × (length v.granted ≤ suc n)
      × (length v.woken ≡ length v.granted)
      × (length v.granted ≡ suc n → v.panicked ≡ false)

  skip-Part :
      (n k : ℕ) (w : g.Waker) (v all : Served g)
      → Part n v all
      → Part n (skip (k, (none, w)) v) (skip (k, (none, w)) all)
  unfolding serve_all
  skip-Part n k w v all h =
      (λ l. ap (skip (k, (none, w))) (h.0 l), λ l. ap (skip (k, (none, w))) (h.1 l), h.2, h.3, h.4)

  grant-Part :
      (n k : ℕ) (permit : g.Permit) (w : g.Waker) (v all : Served g)
      → Part n v all
      → Part (suc n) (grant k permit w v) (grant k permit w all)
  grant-Part n k permit w v all h = (
    λ l. ap (grant k permit w) (h.0 (omega arith)),
    λ l. ap (grant k permit w) (h.1 (omega arith)),
    omega (arith, h.2),
    ap suc h.3,
    λ l. h.4 (omega arith),
  )

  last-Part :
      (k : ℕ) (permit : g.Permit) (w : g.Waker) (s : g.State) (rest : List (ℕ × Protected g))
      → Part 0 (grant k permit w (stop false s rest)) (grant k permit w (serve_all s rest))
  last-Part k permit w s rest = (λ l. absurd (omega arith), λ l. refl, omega arith, refl, λ l. refl)

  reply-Part :
      (n : ℕ) (walk all : g.State → Served g) (k : ℕ) (w : g.Waker) (rest : List (ℕ × Protected g))
      → ((s : g.State) (permit : g.Permit)
          → Part n (grant k permit w (walk s)) (grant k permit w (all s)))
      → (call : Call g.State (Result g.Permit g.Params))
      → Part n (reply walk k w rest call) (reply all k w rest call)
  reply-Part n walk all k w rest h (panics s) =
      (λ l. refl, λ l. absurd (omega arith), omega arith, refl, λ l. absurd (omega arith))
  reply-Part n walk all k w rest h (gives s (err p)) =
      (λ l. refl, λ l. absurd (omega arith), omega arith, refl, λ l. refl)
  reply-Part n walk all k w rest h (gives s (ok permit)) = h s permit

  pub serve-Part :
      (n : ℕ) (s : g.State) (xs : List (ℕ × Protected g)) → Part n (serve n s xs) (serve_all s xs)
  unfolding serve serve_all
  serve-Part n s [] = (λ l. refl, λ l. absurd (omega arith), omega arith, refl, λ l. refl)
  serve-Part n s ((k, (none, w)) ∷ rest) =
      skip-Part n k w (serve n s rest) (serve_all s rest) (serve-Part n s rest)
  serve-Part zero s ((k, (some p, w)) ∷ rest) =
      reply-Part 0 _ _ k w rest (λ t permit. last-Part k permit w t rest) (g.acquire s p)
  serve-Part (suc n) s ((k, (some p, w)) ∷ rest) =
      reply-Part (suc n) _ _ k w rest
        (λ t permit.
          grant-Part n k permit w (serve n t rest) (serve_all t rest) (serve-Part n t rest))
        (g.acquire s p)

pub settle-append :
    {P E : Type 0} (xs ys : List (ℕ × P)) (zs : List (ℕ × Result P E))
    → settle (xs ++ ys) zs ≡ settle ys (settle xs zs)
settle-append [] ys zs = refl
settle-append ((k, p) ∷ xs) ys zs = settle-append xs ys ((k, ok p) ∷ zs)
