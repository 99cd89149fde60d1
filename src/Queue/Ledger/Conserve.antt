-- ===== src/Queue/Ledger/Conserve.antt =====
-- flag-bearer-queue: a user's state whose funds pay for the permits, over steps of the queue and of
-- the tasks that use it.
use flag_bearer.Base.{ℕ, ◌+◌, ◌≡◌, arith, ok, err, gives, panics}
use flag_bearer.Closeable.{Kind}
use flag_bearer.External.{Setting}
use flag_bearer.Queue.State.{settled}
use flag_bearer.Queue.Ledger.{Account, stored, total}
use flag_bearer.Queue.Ledger.World.{World, Runs}
use flag_bearer.Queue.Ledger.Outstanding.{RunsWith-Knows}

-- A user's state whose calls keep an account: `acquire` takes from `funds` what its permit is
-- worth, a refusal takes nothing, `release` puts it back, and `acquire` does not panic.
pub record Counting (g : Setting) : Type 0 where
  pub funds : g.State → ℕ
  pub worth : g.Permit → ℕ
  pub acquires :
      (s s' : g.State) (p : g.Params) (permit : g.Permit)
      → g.acquire s p ≡ gives s' (ok permit)
      → funds s' + worth permit ≡ funds s
  pub refuses :
      (s s' : g.State) (p p' : g.Params) → g.acquire s p ≡ gives s' (err p') → funds s' ≡ funds s
  pub steady : (s s' : g.State) (p : g.Params) → ¬ (g.acquire s p ≡ panics s')
  pub releases :
      (s s' : g.State) (permit : g.Permit)
      → g.release s permit ≡ gives s' tt
      → funds s' ≡ funds s + worth permit
  pub returned : (s s' : g.State) (permit : g.Permit) → ¬ (g.release s permit ≡ panics s')

module _ {g : Setting} (m : Counting g) where
  open m use {funds, worth}

  -- What is out was paid from `start`.
  abbrev paid : ℕ → Account g
  paid start = record {
    worth = worth;
    Holds = λ s n w. funds s + w ≡ start;
    Tunes = λ f. ⊥;
    acquires = λ s s' n w p permit h e. omega (arith, h, m.acquires s s' p permit e);
    refuses = λ s s' n w p p' h e. omega (arith, h, m.refuses s s' p p' e);
    steady = λ s s' n w p h e. m.steady s s' p e;
    releases = λ s s' n w permit h e. omega (arith, h, m.releases s s' permit e);
    returned = λ s s' n w permit h e. m.returned s s' permit e;
    tunes = λ s s' n w f t h e. elim t [ ];
    tuned = λ s s' n w f t h e. elim t [ ];
  }

module _ {g : Setting} {c : Kind} (m : Counting g) where
  open m use {funds, worth}

  -- No permit is lost or made up. If the user's `acquire` and `release` keep an account and do not
  -- panic, then in every state that tasks reach by polls with memory for a node, cancelled futures,
  -- tries, drops of permits, sections of `check`, clearing of poison and closing, in any interleaving
  -- of these locked sections, the funds of the user's state, the permits that lie in nodes and the
  -- permits that tasks hold add up to the funds at the start.
  pub Runs-conserve :
      {s : g.State} {o : g.Policy} {v : World g c}
      → Runs s o v
      → funds v.queue.state + stored worth (settled v.queue) + total worth v.held ≡ funds s
  Runs-conserve {s} r = omega (arith, (RunsWith-Knows (paid m (funds s)) (omega arith) r).1)
