-- ===== src/Examples/Pool/Checkout.antt =====
-- flag-bearer-examples/examples/connection_pool.rs: what `checkout` gives, and the drop of a connection.
use flag_bearer.Base.{
  ℕ, ◌+◌, ◌%◌, ◌≡◌, refl, ap, subst, true, Option, none, some, List, [], ◌∷◌, ◌++◌, ok, err, Exec,
  returns, unwinds, faults, arith, length, Bool-cases, inl, inr, ◌==◌,
}
use flag_bearer.Closeable.{Kind, no_permits}
use flag_bearer.Order.{lifo, is_lifo}
use flag_bearer.External.{Setting}
use flag_bearer.Queue.State.{QueueState, waiting}
use flag_bearer.Queue.Run as Run
use flag_bearer.Queue.Rounds.{quiet}
use flag_bearer.Queue.Arrive.{attempt}
use flag_bearer.Queue.Sound.{Inv}
use flag_bearer.Queue.Serve.Check.{IsServing}
use flag_bearer.Semaphore.{Permit, Tried, try_acquire, drop_permit}
use flag_bearer.Semaphore.Tried.{Answers, try_acquire-Answers}
use flag_bearer.Examples.Words.{u32_mod}
use flag_bearer.Examples.Pool.{
  Connection, pop, popped, with_first, pool_setting, checked_out, checkout,
}

pub pop-append {ℓ} : {A : Type ℓ} (xs : List A) (x : A) → pop (xs ++ x ∷ []) ≡ some (x, xs)
pop-append [] x = refl
pop-append (y ∷ xs) x = ap (with_first y) (pop-append xs x)

module _ (g : Setting) {c : Kind} where
  -- What a checkout gives, from what `pop` finds: the last idle connection, or a new one.
  abbrev pub ChecksOut :
      Option (Connection × List Connection)
      → QueueState (pool_setting g) c
      → ℕ
      → Exec (QueueState (pool_setting g) c × ℕ) (Permit (pool_setting g))
      → Type 0
  ChecksOut none q next (returns (q', next') conn) =
      (q' ≡ q) × (next' ≡ (next + 1) % u32_mod) × (conn.inner.t.id ≡ next)
  ChecksOut (some (conn', idle)) q next (returns (q', next') conn) =
      (q' ≡ record q { state = record { idle = idle } }) × (next' ≡ next) × (conn.inner.t ≡ conn')
  ChecksOut _ q next (unwinds _) = ⊥
  ChecksOut _ q next (faults _) = ⊥

  answered :
      (q : QueueState (pool_setting g) c) (next : ℕ) (o : Option (Connection × List Connection))
      (r : Tried (pool_setting g) c)
      → Answers {g = pool_setting g} (some (popped q.state o)) q.order tt q r
      → ChecksOut o q next (checked_out g next r)
  answered q next none (returns q' (err (no_permits _))) h = (h.1, refl, refl)
  answered q next none (returns q' (err _)) h = elim h [ ]
  answered q next none (returns q' (ok _)) h = elim h [ ]
  answered q next none (unwinds _) h = elim h [ ]
  answered q next none (faults _) h = elim h [ ]
  answered q next (some (conn, idle)) (returns q' (ok _)) h = (h.1, refl, h.0)
  answered q next (some (conn, idle)) (returns q' (err _)) h = elim h [ ]
  answered q next (some (conn, idle)) (unwinds _) h = elim h [ ]
  answered q next (some (conn, idle)) (faults _) h = elim h [ ]

  -- A checkout from an open, healthy pool with the order `lifo`, also if tasks wait, gives the last of
  -- the idle connections, and takes only it from the pool. If none is idle it changes nothing in the
  -- pool and gives a new connection, whose id is the next one; ids wrap around at 2 ^ 32.
  pub checkout-ChecksOut :
      (q : QueueState (pool_setting g) c) (next : ℕ)
      → IsServing q
      → q.order ≡ lifo
      → ChecksOut (pop q.state.idle) q next (checkout g q next)
  checkout-ChecksOut q next s e =
      answered q next (pop q.state.idle) (try_acquire q tt)
        (try_acquire-Answers {g = pool_setting g} q tt true q.order s (rw e refl)).0

  ChecksOut-returns :
      (q q₁ : QueueState (pool_setting g) c) (next : ℕ) (conn : Permit (pool_setting g))
      (idle : List Connection)
      (r : Exec (QueueState (pool_setting g) c × ℕ) (Permit (pool_setting g)))
      → record q₁ { state = record { idle = idle } } ≡ q
      → ChecksOut (some (conn.inner.t, idle)) q₁ next r
      → r ≡ returns (q, next) conn
  ChecksOut-returns q q₁ next conn idle (returns (q', next') conn') e (a, b, d) = cc
  ChecksOut-returns q q₁ next conn idle (unwinds _) e h = elim h [ ]
  ChecksOut-returns q q₁ next conn idle (faults _) e h = elim h [ ]

  abbrev given_back :
      QueueState (pool_setting g) c → Permit (pool_setting g) → QueueState (pool_setting g) c
  given_back q conn = record q { state = record { idle = q.state.idle ++ conn.inner.t ∷ [] } }

  asked :
      (q : QueueState (pool_setting g) c) (conn : Permit (pool_setting g))
      → waiting q ≡ []
      → attempt {g = pool_setting g} (is_lifo q.order) (given_back q conn) tt
        ≡ some (popped (given_back q conn).state (some (conn.inner.t, q.state.idle)))
  asked q conn n = elim (Bool-cases (is_lifo q.order)) [
    | inl f ↦ rw (f, pop-append q.state.idle conn.inner.t) refl
    | inr f ↦ rw (f, n, pop-append q.state.idle conn.inner.t) refl
  ]

  given_back-checkout :
      (q : QueueState (pool_setting g) c) (next : ℕ) (conn : Permit (pool_setting g))
      → IsServing q
      → waiting q ≡ []
      → checkout g (given_back q conn) next ≡ returns (q, next) conn
  given_back-checkout q next conn s n =
      ChecksOut-returns q (given_back q conn) next conn q.state.idle _ refl (
        answered (given_back q conn) next (some (conn.inner.t, q.state.idle)) _ (
          subst
            (λ a.
              Answers {g = pool_setting g} a q.order tt (given_back q conn)
                (try_acquire (given_back q conn) tt))
            (asked q conn n)
            (try_acquire-Answers {g = pool_setting g} (given_back q conn) tt (is_lifo q.order)
              q.order (record { healthy = s.healthy; admitting = s.admitting; opened = s.opened })
              refl).0))

  -- A round trip. In an open, healthy, well-formed pool where nobody waits, the drop of a connection
  -- needs no fuel and wakes nobody, and the next checkout gives that very connection and leaves the
  -- pool and the next id as they were before the drop.
  pub drop_permit-checkout :
      (q : QueueState (pool_setting g) c) (next : ℕ) (conn : Permit (pool_setting g))
      → Inv q
      → IsServing q
      → waiting q ≡ []
      → (q₁ : QueueState (pool_setting g) c) × (drop_permit 0 quiet q conn ≡ returns (q₁, []) tt)
        × (checkout g q₁ next ≡ returns (q, next) conn)
  unfolding Run.with_state
  drop_permit-checkout q next conn h s n =
      (given_back q conn, rw empty refl, given_back-checkout q next conn s n)
    where
      empty : (q.len == 0) ≡ true
      empty = ground (arith, h.counted, ap length n)
