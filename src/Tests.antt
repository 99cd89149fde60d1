-- ===== src/Tests.antt =====
-- The theorems at concrete inputs, and runs of the modelled code.
mod Inputs
mod Sound
mod Serve
mod Drain
mod Arrive
mod Ledger
mod Examples
mod Pool
mod Thirdparty
mod Mutex
mod Semaphore
mod Claim
mod Flags
