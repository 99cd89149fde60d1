-- ===== src/Queue/Rounds/Handoff.antt =====
-- flag-bearer-queue/src/lib.rs: the nodes and wakers of the tasks that `with_queue` serves.
use flag_bearer.Base.{
  ℕ, ◌≤◌, ◌≡◌, refl, sym, ap, ◌∙◌, true, false, Option, none, some, List, [], ◌∷◌, ◌++◌, Result, ok,
  err, Call, gives, panics, arith, length, count, find, find-none, has, has-count, ◌==◌, Bool-cases,
  inl, inr,
}
use flag_bearer.Closeable.{Kind}
use flag_bearer.External.{Setting}
use flag_bearer.Queue.State.{Protected, QueueState, waiting, settled}
use flag_bearer.Queue.Serve.{Served, reply}
use flag_bearer.Queue.Serve.After.{settle}
use flag_bearer.Queue.Serve.Parts.{IsSplit, reply-IsSplit, count-settle}
use flag_bearer.Queue.Serve.All.{serve_all}
use flag_bearer.Queue.Sound.{Inv}
use flag_bearer.Queue.Rounds.{IsEnd}

module _ {P E : Type 0} (k : ℕ) where
  find-settle_other :
      (gs : List (ℕ × P)) (xs : List (ℕ × Result P E))
      → count k gs ≡ 0
      → find k (settle gs xs) ≡ find k xs
  find-settle_other [] xs e = refl
  find-settle_other ((j, permit) ∷ gs) xs e =
      find-settle_other gs ((j, ok permit) ∷ xs) (omega (arith, e)) ∙ ground (arith, e)

  -- A permit in its node.
  pub find-settle :
      (permit : P) (gs : List (ℕ × P)) (xs : List (ℕ × Result P E))
      → find k gs ≡ some permit
      → count k (settle gs xs) ≤ 1
      → find k (settle gs xs) ≡ some (ok permit)
  find-settle permit [] xs f l = ground arith
  find-settle permit ((j, a) ∷ gs) xs f l = elim (Bool-cases (j == k)) [
    | inl e ↦
        find-settle_other gs ((j, ok a) ∷ xs)
          (ground (arith, e, l, count-settle k gs ((j, ok a) ∷ xs)))
        ∙ ground (arith, e, f)
    | inr e ↦ find-settle permit gs ((j, ok a) ∷ xs) (ground (arith, e, f)) l
  ]

-- `w` stands in the list.
abbrev pub Among : {A : Type 0} → A → List A → Type 0
Among {A} w ws = (xs ys : List A) × (ws ≡ xs ++ w ∷ ys)

Among-cons : {A : Type 0} (w v : A) (ws : List A) → Among w ws → Among w (v ∷ ws)
Among-cons w v ws (xs, ys, e) = (v ∷ xs, ys, ap (◌∷◌ v) e)

find-count : {A : Type 0} (k : ℕ) (a : A) (xs : List (ℕ × A)) → find k xs ≡ some a → 1 ≤ count k xs
find-count k a [] e = ground arith
find-count k a ((j, b) ∷ xs) e = ground (arith, find-count k a xs)

module _ (g : Setting) where
  serve_all-IsSplit :
      (s : g.State) (xs : List (ℕ × Protected g)) → IsSplit xs (serve_all {g = g} s xs)
  unfolding serve_all
  serve_all-IsSplit s [] = (omega arith, λ j. omega arith)
  serve_all-IsSplit s ((k, (none, w)) ∷ rest) =
      let h = serve_all-IsSplit s rest in (omega (arith, h.0), λ j. omega (arith, h.1 j))
  serve_all-IsSplit s ((k, (some p, w)) ∷ rest) =
      reply-IsSplit _ k w p rest (λ t. serve_all-IsSplit t rest) (g.acquire s p)

  module _ (k : ℕ) (permit : g.Permit) (w : g.Waker) where
    -- The waker of a task that was served is called.
    abbrev Wakes : List (ℕ × Protected g) → Served g → Type 0
    Wakes xs v =
        (o : Option g.Params)
        → find k xs ≡ some (o, w)
        → find k v.granted ≡ some permit
        → count k xs ≤ 1
        → Among w v.woken

    same :
        (j : ℕ) (u : g.Waker) (p : g.Params) (rest : List (ℕ × Protected g)) (o : Option g.Params)
        → (j == k) ≡ true
        → find k ((j, (some p, u)) ∷ rest) ≡ some (o, w)
        → u ≡ w
    same j u p rest o i e = cc (i, e)

    reply-Wakes :
        (walk : g.State → Served g) (j : ℕ) (u : g.Waker) (p : g.Params)
        (rest : List (ℕ × Protected g))
        → ((s : g.State) → Wakes rest (walk s))
        → (call : Call g.State (Result g.Permit g.Params))
        → Wakes ((j, (some p, u)) ∷ rest) (reply walk j u rest call)
    reply-Wakes walk j u p rest h (panics s) o e f l = ground arith
    reply-Wakes walk j u p rest h (gives s (err p')) o e f l = ground arith
    reply-Wakes walk j u p rest h (gives s (ok a)) o e f l = elim (Bool-cases (j == k)) [
      | inl i ↦ ([], (walk s).woken, ap (λ v. v ∷ (walk s).woken) (same j u p rest o i e))
      | inr i ↦
          Among-cons w u _
            (h s o (ground (arith, i, e)) (ground (arith, i, f)) (ground (arith, i, l)))
    ]

    pub serve_all-Wakes : (s : g.State) (xs : List (ℕ × Protected g)) → Wakes xs (serve_all s xs)
    unfolding serve_all
    serve_all-Wakes s [] o e f l = ground arith
    serve_all-Wakes s ((j, (none, u)) ∷ rest) o e f l = elim (Bool-cases (j == k)) [
      | inl i ↦
          absurd (ground (arith, i, l, find-count k permit _ f, (serve_all-IsSplit s rest).1 k))
      | inr i ↦ serve_all-Wakes s rest o (ground (arith, i, e)) f (ground (arith, i, l))
    ]
    serve_all-Wakes s ((j, (some p, u)) ∷ rest) o e f l =
        reply-Wakes _ j u p rest (λ t. serve_all-Wakes t rest) (g.acquire s p) o e f l

module _ (g : Setting) {c : Kind} where
  -- The end of `with_queue` is well-formed, and a task that was served finds its permit.
  IsEnd-Inv :
      (s : g.State) (q q' : QueueState g c)
      → Inv q
      → q.queue ≡ ok tt
      → IsEnd (serve_all s (waiting q)) q q'
      → Inv q'
  IsEnd-Inv s q q' h o e =
      let split = serve_all-IsSplit g s (waiting q) in
      record {
        counted = omega (arith, e.counts, h.counted, split.0, ap length e.waits);
        fits = omega (arith, h.fits, split.0, ap length e.waits);
        single = λ k. omega (
          arith,
          h.single k,
          split.1 k,
          ap (count k) e.waits,
          ap (count k) e.settles,
          count-settle k (serve_all s (waiting q)).granted (settled q),
        );
        discarded = rw (e.opens ∙ o) tt;
        allowed = λ f. h.allowed (sym e.closes ∙ f);
      }

  -- Where a task that was served finds its permit.
  abbrev pub Finds : ℕ → g.Permit → QueueState g c → Type 0
  Finds k permit q = Inv q × (find k (waiting q) ≡ none) × (find k (settled q) ≡ some (ok permit))

  pub IsEnd-Finds :
      (s : g.State) (q q' : QueueState g c) (k : ℕ) (permit : g.Permit)
      → Inv q
      → q.queue ≡ ok tt
      → find k (serve_all {g = g} s (waiting q)).granted ≡ some permit
      → IsEnd (serve_all s (waiting q)) q q'
      → Finds k permit q'
  IsEnd-Finds s q q' k permit h o f e = (inv, find-none k (waiting q') nowhere, there)
    where
      inv : Inv q'
      inv = IsEnd-Inv s q q' h o e

      there : find k (settled q') ≡ some (ok permit)
      there =
          ap (find k) e.settles
          ∙ find-settle k permit (serve_all s (waiting q)).granted (settled q) f
              (omega (arith, inv.single k, ap (count k) e.settles))

      nowhere : has k (waiting q') ≡ false
      nowhere =
          has-count k (waiting q')
            (omega (arith, inv.single k, find-count k (ok permit) (settled q') there))
