-- ===== src/Queue/Serve/Fair.antt =====
-- flag-bearer-queue/src/lib.rs: the order in which the reference of `check` serves, and where it
-- stops.
use flag_bearer.Base.{
  ℕ, zero, suc, ◌≡◌, refl, ap, false, ◌⊎◌, inl, inr, List, [], ◌∷◌, ◌++◌, map, Option, none, some,
  Result, ok, err, Call, gives, panics, length,
}
use flag_bearer.External.{Setting}
use flag_bearer.Queue.State.{Protected}
use flag_bearer.Queue.Serve.{Served, serve, reply, skip, grant}

module _ {P W : Type 0} where
  -- The tasks whose parameters are there: those that a panic did not leave dead.
  abbrev pub live : List (ℕ × (Option P × W)) → List ℕ
  live [] = []
  live ((k, (none, w)) ∷ xs) = live xs
  live ((k, (some p, w)) ∷ xs) = k ∷ live xs

  abbrev pub live_wakers : List (ℕ × (Option P × W)) → List W
  live_wakers [] = []
  live_wakers ((k, (none, w)) ∷ xs) = live_wakers xs
  live_wakers ((k, (some p, w)) ∷ xs) = w ∷ live_wakers xs

abbrev pub keys : {A : Type 0} → List (ℕ × A) → List ℕ
keys = map (λ x. x.0)

abbrev pub IsInOrder : (g : Setting) → List (ℕ × Protected g) → Served g → Type 0
IsInOrder g xs v =
    v.panicked ≡ false
    → (keys v.granted ++ live v.kept ≡ live xs) × (v.woken ++ live_wakers v.kept ≡ live_wakers xs)

pub reply-IsInOrder :
    (g : Setting) (walk : g.State → Served g) (k : ℕ) (w : g.Waker) (p : g.Params)
    (rest : List (ℕ × Protected g))
    → ((s : g.State) → IsInOrder g rest (walk s))
    → (call : Call g.State (Result g.Permit g.Params))
    → IsInOrder g ((k, (some p, w)) ∷ rest) (reply walk k w rest call)
reply-IsInOrder g walk k w p rest h (panics s) e = cc
reply-IsInOrder g walk k w p rest h (gives s (err p')) e = (refl, refl)
reply-IsInOrder g walk k w p rest h (gives s (ok permit)) e =
    (ap (◌∷◌ k) (h s e).0, ap (◌∷◌ w) (h s e).1)

pub serve-IsInOrder :
    (g : Setting) (room : ℕ) (s : g.State) (xs : List (ℕ × Protected g))
    → IsInOrder g xs (serve room s xs)
unfolding serve
serve-IsInOrder g room s [] = λ e. (refl, refl)
serve-IsInOrder g room s ((k, (none, w)) ∷ rest) = serve-IsInOrder g room s rest
serve-IsInOrder g zero s ((k, (some p, w)) ∷ rest) =
    reply-IsInOrder g _ k w p rest (λ t _. (refl, refl)) (g.acquire s p)
serve-IsInOrder g (suc room) s ((k, (some p, w)) ∷ rest) =
    reply-IsInOrder g _ k w p rest (λ t. serve-IsInOrder g room t rest) (g.acquire s p)

-- The first live task was tried last, and refused: the user's `acquire` left the state that is there.
pub data IsRefused (g : Setting) (t : g.State) : List (ℕ × Protected g) → Type 0 where
  at :
      {k : ℕ} {w : g.Waker} {rest : List (ℕ × Protected g)} (s : g.State) (p : g.Params)
      {p' : g.Params}
      → g.acquire s p ≡ gives t (err p')
      → IsRefused g t ((k, (some p', w)) ∷ rest)
  behind :
      {k : ℕ} {w : g.Waker} {rest : List (ℕ × Protected g)}
      → IsRefused g t rest
      → IsRefused g t ((k, (none, w)) ∷ rest)

abbrev pub Stops : (g : Setting) → ℕ → Served g → Type 0
Stops g room v =
    v.panicked ≡ false
    → (length v.granted ≡ room) ⊎ ((live v.kept ≡ []) ⊎ IsRefused g v.state v.kept)

skip-Stops :
    (g : Setting) (room k : ℕ) (w : g.Waker) (v : Served g)
    → Stops g room v
    → Stops g room (skip (k, (none, w)) v)
skip-Stops g room k w v h e = go (h e)
  where
    go :
        (length v.granted ≡ room) ⊎ ((live v.kept ≡ []) ⊎ IsRefused g v.state v.kept)
        → (length v.granted ≡ room)
          ⊎ ((live v.kept ≡ []) ⊎ IsRefused g v.state ((k, (none, w)) ∷ v.kept))
    go (inl l) = inl l
    go (inr (inl l)) = inr (inl l)
    go (inr (inr r)) = inr (inr (behind r))

grant-Stops :
    (g : Setting) (room k : ℕ) (permit : g.Permit) (w : g.Waker) (v : Served g)
    → Stops g room v
    → Stops g (suc room) (grant k permit w v)
grant-Stops g room k permit w v h e = go (h e)
  where
    go :
        (length v.granted ≡ room) ⊎ ((live v.kept ≡ []) ⊎ IsRefused g v.state v.kept)
        → (suc (length v.granted) ≡ suc room) ⊎ ((live v.kept ≡ []) ⊎ IsRefused g v.state v.kept)
    go (inl l) = inl (ap suc l)
    go (inr r) = inr r

reply-Stops :
    (g : Setting) (room : ℕ) (walk : g.State → Served g) (k : ℕ) (w : g.Waker) (s : g.State)
    (p : g.Params) (rest : List (ℕ × Protected g))
    → ((t : g.State) → Stops g room (walk t))
    → (call : Call g.State (Result g.Permit g.Params)) → g.acquire s p ≡ call
    → Stops g (suc room) (reply walk k w rest call)
reply-Stops g room walk k w s p rest h (panics t) a e = cc
reply-Stops g room walk k w s p rest h (gives t (err p')) a e = inr (inr (at s p a))
reply-Stops g room walk k w s p rest h (gives t (ok permit)) a e =
    grant-Stops g room k permit w (walk t) (h t) e

pub serve-Stops :
    (g : Setting) (room : ℕ) (s : g.State) (xs : List (ℕ × Protected g))
    → Stops g (suc room) (serve room s xs)
unfolding serve
serve-Stops g room s [] = λ e. inr (inl refl)
serve-Stops g room s ((k, (none, w)) ∷ rest) =
    skip-Stops g (suc room) k w (serve room s rest) (serve-Stops g room s rest)
serve-Stops g zero s ((k, (some p, w)) ∷ rest) =
    reply-Stops g zero _ k w s p rest (λ t _. inl refl) (g.acquire s p) refl
serve-Stops g (suc room) s ((k, (some p, w)) ∷ rest) =
    reply-Stops g (suc room) _ k w s p rest (λ t. serve-Stops g room t rest) (g.acquire s p) refl
