-- ===== src/Lib.antt =====
-- Verification of the flag-bearer semaphores.
--
-- A flag-bearer semaphore is a queue of waiting futures around a user's `SemaphoreState`. The user's
-- state decides by `acquire` whether a request is granted, an `Order` decides which end a new waiter
-- joins, and a mutex makes every operation a short locked section. Tasks that were served are woken
-- after the mutex was released, in batches of at most 32 wakers.
--
-- Which file models what:
--   Base, Base/*: lists of nodes by address, machine words, ends of calls (return, panic, fault).
--   Traits: flag-bearer-core/src/lib.rs, `SemaphoreState`.
--   Order: flag-bearer-queue/src/order.rs. Closeable: flag-bearer-queue/src/closeable.rs.
--   External: the interfaces of the crates pin-list and arrayvec, with the laws that their
--     documentation promises, and `Setting`, all that a queue is instantiated at.
--   Sample: instances of these interfaces.
--   Queue/State: `QueueState`, `PoisonOnUnwind`, `update_state`, `clear_poison`, `is_closed`,
--     `is_poisoned`, `new`.
--   Queue/Wake: `WakeBatch`, `WakeRemaining`. Queue/Check: `QueueState::check`.
--   Queue/Admit: `acquire_or_enqueue`, `try_acquire`. Queue/Acquire: `Acquire`, its `poll`, and the
--     locked section of its drop (`leave`).
--   Queue/Close: `close_one`, `SemaphoreQueue::close`. Queue/Run: `with_queue`, `with_state`, and the
--     whole drop of an `Acquire`.
--   Queue/System: the locked sections as one step relation, under any interleaving.
-- These are files of flag-bearer-queue/src: lib.rs and acquire.rs. The remaining files of Queue
-- hold specifications and proofs about them: Sound (the invariant), Serve (what a section of
-- `check` hands out), Rounds (the loop of `with_queue`, and the whole drop of a future), Drain (closing, alone and with other tasks
-- at work), Arrive (first polls), Claim (later polls), Flags (`closed` and `poisoned`), Ledger (what
-- the user's state says of the permits that are out).
--   Guard: flag-bearer/src/drop_wrapper.rs.
--   Semaphore: flag-bearer/src/lib.rs and permit.rs: `Builder`, `Semaphore`, `Permit`. A semaphore
--     is its queue; the future of `acquire` is a state machine around the future of the queue.
--     Semaphore/Tried, Policies and Fairness are about requests, Handoff is
--     about the way of a permit from one task to the next.
--   Examples: the users' states and orders of the repository, as instances that the queue is used
--     with. Examples/Limits, Dynamic, Aimd and Pool are multi_dimensional.rs, dynamic_limit.rs,
--     aimd.rs and connection_pool.rs of flag-bearer-examples/examples. Examples/Counter, Random and
--     Wrapper are flag-bearer-tests/src/lib.rs. Examples/Words has Rust's arithmetic on unsigned
--     words, with or without overflow checks, and Examples/Floats what is used of `f64`.
--   Mutex: flag-bearer-mutex/src/futex.rs. Mutex/Raw has the actions on the word, Mutex/Futex the
--     interface of the two system calls, Mutex/System the interleavings; Effect, Invariant, Safety
--     and Change are about them. Mutex/Shared is a value behind the mutex, which threads access
--     while they hold it, with the history of who came to hold the mutex, accessed the value and
--     gave the mutex up. The queue does not use this model: there each locked section is a step,
--     which is what a serial history allows.
--   Tests: the theorems at concrete inputs, and runs of the code.
--
-- How the state corresponds: a node of the intrusive list is named by its address. The list, and the
-- nodes that futures own, are one memory `nodes`, viewed as the list `waiting` of linked nodes and
-- the list `settled` of removed ones; so a discarded list (`queue` is `Err`) leaves the nodes behind.
-- User code (`acquire`, `release`, `enqueue_front`, callbacks of `with_state`, wakers) returns or
-- panics. A call of the crate ends in a return, an unwinding, or a fault: undefined behaviour (the
-- `unreachable_unchecked` and `take_removed_unchecked` of the code), an abort by a panic while
-- unwinding, or a loop that used up its fuel. `len` wraps around as a usize does.
--
-- Fuel: `check` runs its loop with one unit more than there are waiting tasks, and a section of
-- `close` with one more than the batch has slots, which are enough in every state of the invariant.
-- The loops of `with_queue` and `close` take their fuel as an argument, and the theorems about them
-- say how much is enough if other tasks do nothing between the batches. With other tasks at work,
-- `close` needs no more, since a closed queue only shrinks; the loop of `with_queue` needs no more if
-- the others let no more tasks wait than before, and has no bound otherwise, since others may bring
-- tasks and permits for ever; the step relation covers these runs.
--
-- Not modelled: `Debug` and `Display` output, the loom wrapper, tests and benches; the main
-- functions of the examples, which spawn tasks, sleep and print, but for their callbacks and for
-- the one of the connection pool;
-- the memory orderings of the mutex, whose actions on the word are taken one after the other; the
-- parking_lot mutex of other systems; the clone and the drop of wakers, and the destructors of
-- parameters, which are user code; memory is bounded only where a theorem says so.

pub mod Base
pub mod Traits
pub mod Order
pub mod Closeable
pub mod External
pub mod Queue
pub mod Mutex
pub mod Guard
pub mod Semaphore
pub mod Examples
pub mod Sample
mod Tests
