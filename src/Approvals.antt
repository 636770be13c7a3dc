-- ===== src/Approvals.antt =====
-- `approvals/gate.py`: what an approval comes to, and who may vote.
pub mod Gate
pub mod Quorum
pub mod Expiry
mod Tests
