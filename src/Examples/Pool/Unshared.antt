-- ===== src/Examples/Pool/Unshared.antt =====
-- flag-bearer-examples/examples/connection_pool.rs: where each connection is.
use flag_bearer.Base.{
  ℕ, ◌+◌, ◌≡◌, sym, ap, refl, false, none, some, Option, List, [], ◌∷◌, ok, err, gives, panics,
  ◌==◌, if◌then◌else◌, arith, gives_state,
}
use flag_bearer.Closeable.{Kind}
use flag_bearer.Order.{FairOrder}
use flag_bearer.External.{Setting}
use flag_bearer.Queue.State.{settled}
use flag_bearer.Queue.Ledger.{Account, stored, total}
use flag_bearer.Queue.Ledger.World.{World, Runs}
use flag_bearer.Queue.Ledger.Outstanding.{RunsWith-Knows, total-append}
use flag_bearer.Examples.Pool.{Connection, Pool, pop, popped, with_first, release, pool_setting}

-- One, for connections with the id `k`.
abbrev pub with_id : ℕ → Connection → ℕ
with_id k conn = if k == conn.id then 1 else 0

module _ (w : Connection → ℕ) where
  -- What `pop` takes from the list.
  abbrev Pops : List Connection → Option (Connection × List Connection) → Type 0
  Pops xs none = total w xs ≡ 0
  Pops xs (some (conn, ys)) = total w ys + w conn ≡ total w xs

  with_first-Pops :
      (x : Connection) (xs : List Connection) (o : Option (Connection × List Connection))
      → Pops xs o
      → Pops (x ∷ xs) (with_first x o)
  with_first-Pops x xs none h = omega (arith, h)
  with_first-Pops x xs (some (conn, ys)) h = omega (arith, h)

  pop-Pops : (xs : List Connection) → Pops xs (pop xs)
  pop-Pops [] = refl
  pop-Pops (x ∷ xs) = with_first-Pops x xs (pop xs) (pop-Pops xs)

  module _ (s s' : Pool) where
    popped-ok :
        (permit : Connection) (o : Option (Connection × List Connection))
        → Pops s.idle o
        → popped s o ≡ gives s' (ok permit)
        → total w s'.idle + w permit ≡ total w s.idle
    popped-ok permit none h e = ground arith
    popped-ok permit (some (conn, ys)) h e = ground (arith, h)

    popped-err :
        (p : Unit {0}) (o : Option (Connection × List Connection))
        → popped s o ≡ gives s' (err p)
        → total w s'.idle ≡ total w s.idle
    popped-err p none e = ap (λ t. total w t.idle) (sym (gives_state e))
    popped-err p (some (conn, ys)) e = ground arith

    popped-steady : (o : Option (Connection × List Connection)) → ¬ (popped s o ≡ panics s')
    popped-steady none e = ground arith
    popped-steady (some (conn, ys)) e = ground arith

  released :
      (s s' : Pool) (permit : Connection)
      → release s permit ≡ gives s' tt
      → total w s'.idle ≡ total w s.idle + w permit
  released s s' permit e =
      omega (arith, ap (λ t. total w t.idle) (gives_state e), total-append w s.idle (permit ∷ []))

returned : (s s' : Pool) (permit : Connection) → ¬ (release s permit ≡ panics s')
returned s s' permit e = ground arith

module _ (k : ℕ) (g : Setting) (start : Pool) where
  abbrev whereabouts : Account (pool_setting g)
  whereabouts = record {
    worth = with_id k;
    Holds = λ s n w. total (with_id k) s.idle + w ≡ total (with_id k) start.idle;
    Tunes = λ f. ⊥;
    acquires = λ s s' n w p permit h e.
        omega (
          arith,
          h,
          popped-ok (with_id k) s s' permit (pop s.idle) (pop-Pops (with_id k) s.idle) e,
        );
    refuses = λ s s' n w p p' h e. omega (arith, h, popped-err (with_id k) s s' p' (pop s.idle) e);
    steady = λ s s' n w p h e. popped-steady (with_id k) s s' (pop s.idle) e;
    releases = λ s s' n w permit h e. omega (arith, h, released (with_id k) s s' permit e);
    returned = λ s s' n w permit h e. returned s s' permit e;
    tunes = λ s s' n w f t h e. elim t [ ];
    tuned = λ s s' n w f t h e. elim t [ ];
  }

module _ (g : Setting) {c : Kind} where
  -- No connection is lost or doubled, as long as none is made out of thin air or taken for good:
  -- after polls with memory for a node, cancelled futures, tries, drops of connections, sections of
  -- `check`, clearing of poison and closing, in any interleaving of these locked sections, the pool is
  -- not poisoned, and for every id, the connections with that id that are idle, lie in nodes of tasks
  -- that were served, or are held by tasks, are as many as were idle at the start.
  pub Runs-unshared :
      (k : ℕ) (start : Pool) {o : FairOrder} {v : World (pool_setting g) c}
      → Runs start o v
      → (v.queue.poisoned ≡ false)
        × (total (with_id k) v.queue.state.idle
              + stored (with_id k) (settled v.queue)
              + total (with_id k) v.held
            ≡ total (with_id k) start.idle)
  Runs-unshared k start r =
      let (h, w) = RunsWith-Knows (whereabouts k g start) (omega arith) r in (h, omega (arith, w))
