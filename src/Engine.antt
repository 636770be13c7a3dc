-- ===== src/Engine.antt =====
-- workflow/engine.py: a workflow graph is executed node by node, paused, resumed and cancelled.
pub mod Graph
pub mod State
pub mod Resume
pub mod Run
pub mod Seen
pub mod Rules
pub mod Termination
pub mod Once
pub mod Conclusion
pub mod Stuck
pub mod Cancelled
mod Tests
