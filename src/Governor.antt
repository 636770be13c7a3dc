-- ===== src/Governor.antt =====
-- workflow/governor.py: the process-local concurrency governor. `Slots` and `Throttle` are its two
-- ledgers, `State` the object, `Grant` the hand-out of slots to waiters, `Acquire` and `Lease` what a
-- thread does between two waits. The proofs are in the modules named for what they prove.
pub mod Slots
pub mod Throttle
pub mod State
pub mod Grant
pub mod Acquire
pub mod Lease
pub mod Selection
pub mod Invariants
pub mod Capacity
pub mod Ceiling
pub mod Queues
pub mod Numbering
pub mod Settling
pub mod Work
pub mod Closing
pub mod Backoff
pub mod Nesting
pub mod Tests
