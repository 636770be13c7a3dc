-- ===== src/Budgets.antt =====
-- routing/budgets.py: spend and token ceilings of the routes.
pub mod Tracker
pub mod Charges
pub mod Ceilings
mod Tests
