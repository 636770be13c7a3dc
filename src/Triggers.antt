-- ===== src/Triggers.antt =====
-- triggers/caps.py: what an event must pass before it is parsed.
pub mod Caps
pub mod Document
pub mod Depth
pub mod Window
pub mod Gate
pub mod Tests
