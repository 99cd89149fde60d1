-- ===== src/Queue/State.antt =====
-- flag-bearer-queue/src/lib.rs: `QueueState` and what its methods share.
use flag_bearer.Base.{
  ℕ, Bool, true, false, ◌&&◌, Option, List, Result, ok, Call, gives, panics, Exec, returns, unwinds,
}
use flag_bearer.Closeable.{Kind, Closed, can_close}
use flag_bearer.External.{PinList, Setting}

-- `PinQueue`: the parameters, taken out while they are tried, and the waker of a linked node; the
-- permit, or the parameters of a waiter of a closed queue, of a removed one.
abbrev pub Protected : Setting → Type 0
Protected g = Option g.Params × g.Waker

abbrev pub Removed : Setting → Kind → Type 0
Removed g c = Result g.Permit (Closed c (Option g.Params))

abbrev pub pin_queue : (g : Setting) (c : Kind) → PinList (Protected g) (Removed g c)
pin_queue g c = g.pin_list (Protected g) (Removed g c)

abbrev pub Nodes : Setting → Kind → Type 0
Nodes g c = (pin_queue g c).Pins

-- `queue` is `Ok` while the list is there. The memory of the list and of the nodes, which the
-- futures own and which outlive a discarded list, is `nodes`.
pub record QueueState (g : Setting) (c : Kind) : Type 0 where
  pub queue : Result (Unit {0}) (Closed c (Unit {0}))
  pub poisoned : Bool
  pub closed : Bool
  pub len : ℕ
  pub order : g.Policy
  pub state : g.State
  pub nodes : Nodes g c

module _ {g : Setting} {c : Kind} where
  abbrev pub waiting : QueueState g c → List (ℕ × Protected g)
  waiting q = (pin_queue g c).linked q.nodes

  abbrev pub settled : QueueState g c → List (ℕ × Removed g c)
  settled q = (pin_queue g c).removed q.nodes

  -- The end of a user call that `PoisonOnUnwind` guards: the state is kept, a panic poisons.
  unfoldable pub guarded {ℓ} :
      {A : Type ℓ} → QueueState g c → Call g.State A → Exec (QueueState g c) A
  guarded q (gives s a) = returns (record q { state = s }) a
  guarded q (panics s) = unwinds (record q { state = s; poisoned = true })

  unfoldable pub update_state {ℓ} :
      {A : Type ℓ} → QueueState g c → (g.State → Call g.State A) → Exec (QueueState g c) A
  unfolding guarded
  update_state q f = guarded q (f q.state)

  unfoldable pub clear_poison : QueueState g c → QueueState g c
  clear_poison q = record q { poisoned = false }

  -- `SemaphoreQueue::is_closed` and `SemaphoreQueue::is_poisoned`
  abbrev pub is_closed : QueueState g c → Bool
  is_closed q = can_close c && q.closed

  abbrev pub is_poisoned : QueueState g c → Bool
  is_poisoned q = q.poisoned

-- `SemaphoreQueue::new`
unfoldable pub new : (g : Setting) (c : Kind) → g.State → g.Policy → QueueState g c
new g c state order = record {
  queue = ok tt;
  poisoned = false;
  closed = false;
  len = 0;
  order = order;
  state = state;
  nodes = (pin_queue g c).new;
}

-- `SemaphoreQueue`: its mutex makes each locked section one step on this state.
abbrev pub SemaphoreQueue : Setting → Kind → Type 0
SemaphoreQueue g c = QueueState g c
