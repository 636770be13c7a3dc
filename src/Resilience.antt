-- ===== src/Resilience.antt =====
-- llm/resilience.py: the circuit breaker, the choice among fallback models and the budget check.
pub mod Breaker
pub mod Models
pub mod Outage
pub mod Fallback
pub mod Tests
