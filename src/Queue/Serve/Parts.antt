-- ===== src/Queue/Serve/Parts.antt =====
-- flag-bearer-queue/src/lib.rs: the tasks that the reference of `check` keeps and grants.
use flag_bearer.Base.{
  ℕ, zero, suc, ◌+◌, ◌≡◌, List, [], ◌∷◌, Result, ok, err, Call, gives, panics, none, some, arith,
  length, count,
}
use flag_bearer.External.{Setting}
use flag_bearer.Queue.State.{Protected}
use flag_bearer.Queue.Serve.{Served, serve, reply}
use flag_bearer.Queue.Serve.After.{settle}

pub count-settle :
    {P E : Type 0} (k : ℕ) (gs : List (ℕ × P)) (xs : List (ℕ × Result P E))
    → count k (settle gs xs) ≡ count k gs + count k xs
count-settle k [] xs = omega arith
count-settle k ((j, permit) ∷ gs) xs = omega (arith, count-settle k gs ((j, ok permit) ∷ xs))

module _ {g : Setting} where
  abbrev pub IsSplit : List (ℕ × Protected g) → Served g → Type 0
  IsSplit xs v =
      (length v.kept + length v.granted ≡ length xs)
      × ((k : ℕ) → count k v.kept + count k v.granted ≡ count k xs)

  pub reply-IsSplit :
      (walk : g.State → Served g) (k : ℕ) (w : g.Waker) (p : g.Params)
      (rest : List (ℕ × Protected g))
      → ((s : g.State) → IsSplit rest (walk s))
      → (call : Call g.State (Result g.Permit g.Params))
      → IsSplit ((k, (some p, w)) ∷ rest) (reply walk k w rest call)
  reply-IsSplit walk k w p rest h (panics s) = (omega arith, λ j. omega arith)
  reply-IsSplit walk k w p rest h (gives s (err p')) = (omega arith, λ j. omega arith)
  reply-IsSplit walk k w p rest h (gives s (ok permit)) =
      (omega (arith, (h s).0), λ j. omega (arith, (h s).1 j))

pub serve-IsSplit :
    (g : Setting) (room : ℕ) (s : g.State) (xs : List (ℕ × Protected g))
    → IsSplit xs (serve {g = g} room s xs)
unfolding serve
serve-IsSplit g room s [] = (omega arith, λ j. omega arith)
serve-IsSplit g room s ((k, (none, w)) ∷ rest) =
    let h = serve-IsSplit g room s rest in (omega (arith, h.0), λ j. omega (arith, h.1 j))
serve-IsSplit g zero s ((k, (some p, w)) ∷ rest) =
    reply-IsSplit _ k w p rest (λ t. (omega arith, λ j. omega arith)) (g.acquire s p)
serve-IsSplit g (suc room) s ((k, (some p, w)) ∷ rest) =
    reply-IsSplit _ k w p rest (λ t. serve-IsSplit g room t rest) (g.acquire s p)
