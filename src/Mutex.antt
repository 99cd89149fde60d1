-- ===== src/Mutex.antt =====
-- flag-bearer-mutex/src: the mutex of the queue.
pub mod Futex
pub mod Raw
pub mod System
pub mod Effect
pub mod Invariant
pub mod Safety
pub mod Change
pub mod Shared
