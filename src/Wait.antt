-- ===== src/Wait.antt =====
-- `wait/record.py` and `wait/evaluate.py`: the record of a run that waits, and whether it is to go on.
pub mod Json
pub mod Record
pub mod Evaluation
pub mod Reading
pub mod Readiness
mod Tests
