-- ===== src/Cost.antt =====
-- cost/meter.py and the quotes of cost/prices.py: what a run may spend.
pub mod Prices
pub mod Shared
pub mod Meter
pub mod Ledger
pub mod Reservations
pub mod Failures
mod Tests
