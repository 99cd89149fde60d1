-- ===== src/Examples/Pool/Main.antt =====
-- flag-bearer-examples/examples/connection_pool.rs: `main`, with what it prints as its result.
use flag_bearer.Base.{
  ℕ, ◌+◌, ◌%◌, ◌≡◌, refl, [], ◌∷◌, gives, Exec, returns, unwinds, faults, length,
}
use flag_bearer.Closeable.{uncloseable}
use flag_bearer.Order.{FairOrder}
use flag_bearer.External.{Setting}
use flag_bearer.Queue.State.{QueueState}
use flag_bearer.Queue.State as State
use flag_bearer.Queue.Admit as Admit
use flag_bearer.Queue.Run as Run
use flag_bearer.Queue.Rounds.{quiet}
use flag_bearer.Semaphore.{Semaphore, lifo, build, with_state, drop_permit, deref}
use flag_bearer.Examples.Words.{u32_mod}
use flag_bearer.Examples.Pool.{release, pool_setting, open_connection, checkout}

-- The ids of the first two connections and of the reused one, and how many are idle in the end.
pub record Printed : Type 0 where
  pub first : ℕ
  pub second : ℕ
  pub reused : ℕ
  pub idle : ℕ

-- The rest of the program, if the call returns; `f` is what a panic leaves.
abbrev and_then : {S T A B : Type 0} → Exec S A → (S → T) → (S → A → Exec T B) → Exec T B
and_then (returns s a) f rest = rest s a
and_then (unwinds s) f rest = unwinds (f s)
and_then (faults x) f rest = faults x

module _ (g : Setting) where
  -- The rest of `main`, from the third checkout. `Permit::take(c)` leaves the pool alone.
  abbrev reuse :
      ℕ
      → ℕ
      → Semaphore (pool_setting g) uncloseable
      → ℕ
      → Exec (Semaphore (pool_setting g) uncloseable × ℕ) Printed
  reuse first second q next =
      and_then (checkout g q next) (λ s. s)
        (λ (q₁, n) c.
          and_then (with_state 0 quiet q₁ (λ p. gives p (length p.idle))) (λ s. (s.0, n))
            (λ (q₂, _) idle.
              returns (q₂, n)
                (record { first = first; second = second; reused = (deref c).id; idle = idle })))

  -- One task; `NEXT_ID` is `next`. No loop of the semaphore runs, so no fuel is needed.
  abbrev pub main : ℕ → Exec (Semaphore (pool_setting g) uncloseable × ℕ) Printed
  main next =
      let (conn, n) = open_connection next in
      and_then (with_state 0 quiet (build lifo (record { idle = [] })) (λ p. release p conn))
        (λ s. (s.0, n))
        (λ (q, _) _.
          and_then (checkout g q n) (λ s. s)
            (λ (q₁, n₁) a.
              and_then (checkout g q₁ n₁) (λ s. s)
                (λ (q₂, n₂) b.
                  and_then (drop_permit 0 quiet q₂ a) (λ s. (s.0, n₂))
                    (λ (q₃, _) _.
                      and_then (drop_permit 0 quiet q₃ b) (λ s. (s.0, n₂))
                        (λ (q₄, _) _. reuse (deref a).id (deref b).id q₄ n₂)))))

  -- The run for any first id. The second checkout is minted, and the connection that came back last
  -- is the one that is reused.
  main_lem :
      (next : ℕ)
      → main next
        ≡ returns
            (
              State.new
                  (pool_setting g)
                  uncloseable
                  (record { idle = record { id = next } ∷ [] })
                  FairOrder.lifo,
              ((next + 1) % u32_mod + 1) % u32_mod,
            )
            (record {
              first = next;
              second = (next + 1) % u32_mod;
              reused = (next + 1) % u32_mod;
              idle = 1;
            })
  unfolding State.new Run.with_state Admit.try_acquire Admit.lead Admit.attempted
  main_lem next = refl
