-- ===== src/Queue.antt =====
-- flag-bearer-queue/src: the queue of waiting tasks.
pub mod State
pub mod Wake
pub mod Check
pub mod Serve
pub mod Admit
pub mod Acquire
pub mod Close
pub mod Run
pub mod Sound
pub mod Rounds
pub mod Drain
pub mod Arrive
pub mod Claim
pub mod Flags
pub mod Ledger
pub mod System
