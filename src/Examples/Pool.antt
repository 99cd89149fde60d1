-- ===== src/Examples/Pool.antt =====
-- flag-bearer-examples/examples/connection_pool.rs: `Connection`, `Pool` and `checkout`.
pub mod Checkout
pub mod Unshared
pub mod Main
use flag_bearer.Base.{
  ℕ, ◌+◌, ◌%◌, ◌≡◌, refl, Option, none, some, List, [], ◌∷◌, ◌++◌, Result, ok, err, Call, gives,
  panics, Exec, returns, unwinds, faults, arith, if◌then◌else◌, ◌==◌,
}
use flag_bearer.Closeable.{Kind}
use flag_bearer.Traits.{SemaphoreState}
use flag_bearer.Order.{fair_order}
use flag_bearer.External.{Setting}
use flag_bearer.Queue.State.{QueueState}
use flag_bearer.Semaphore.{Permit, Tried, try_acquire, out_of_thin_air}
use flag_bearer.Examples.Words.{u32_mod}

pub record Connection : Type 0 where
  pub id : ℕ

-- `Connection::open`: `NEXT_ID` is `next`, and `fetch_add` wraps around.
abbrev pub open_connection : ℕ → Connection × ℕ
open_connection next = (record { id = next }, (next + 1) % u32_mod)

-- `idle`, as the `Vec` has it: the connection that came back last is the last one.
pub record Pool : Type 0 where
  pub idle : List Connection

abbrev with_first {ℓ} : {A : Type ℓ} → A → Option (A × List A) → Option (A × List A)
with_first x none = some (x, [])
with_first x (some (y, ys)) = some (y, x ∷ ys)

-- `Vec::pop`: the last item, and the others.
abbrev pub pop {ℓ} : {A : Type ℓ} → List A → Option (A × List A)
pop [] = none
pop (x ∷ xs) = with_first x (pop xs)

-- `ok_or(())` of what `pop` gives
abbrev popped :
    Pool → Option (Connection × List Connection) → Call Pool (Result Connection (Unit {0}))
popped self none = gives self (err tt)
popped self (some (conn, idle)) = gives (record { idle = idle }) (ok conn)

abbrev pub acquire : Pool → Unit {0} → Call Pool (Result Connection (Unit {0}))
acquire self _ = popped self (pop self.idle)

abbrev pub release : Pool → Connection → Call Pool (Unit {0})
release self conn = gives (record { idle = self.idle ++ conn ∷ [] }) tt

abbrev pub pool : SemaphoreState
pool = record {
  State = Pool;
  Params = Unit {0};
  Permit = Connection;
  acquire = acquire;
  release = release;
}

-- Any setting with this user's state and the order of `Builder::lifo`.
abbrev pub pool_setting : Setting → Setting
pool_setting g = record g { sem = pool; ord = fair_order }

module _ (g : Setting) {c : Kind} where
  abbrev checked_out :
      ℕ
      → Tried (pool_setting g) c
      → Exec (QueueState (pool_setting g) c × ℕ) (Permit (pool_setting g))
  checked_out next (returns q (ok conn)) = returns (q, next) conn
  checked_out next (returns q (err _)) =
      let (conn, next') = open_connection next in
      returns (q, next') (out_of_thin_air {g = pool_setting g} conn)
  checked_out next (unwinds q) = unwinds (q, next)
  checked_out next (faults f) = faults f

  -- `NEXT_ID` is `next`.
  abbrev pub checkout :
      QueueState (pool_setting g) c
      → ℕ
      → Exec (QueueState (pool_setting g) c × ℕ) (Permit (pool_setting g))
  checkout q next = checked_out next (try_acquire q tt)
