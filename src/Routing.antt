-- ===== src/Routing.antt =====
-- `routing/select.py` with the capability matrix of `llm/capabilities.py`: which model a node's call goes to.
pub mod Capabilities
pub mod Rules
pub mod Ranking
pub mod Choice
pub mod Route
pub mod Taint
pub mod Clear
pub mod Screening
pub mod Matching
pub mod Residency
pub mod Cheapest
mod Tests
