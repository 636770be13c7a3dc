-- ===== src/Delegation.antt =====
-- approvals/delegate.py: who may approve in place of whom.
pub mod Store
pub mod Finding
mod Tests
