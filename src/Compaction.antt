-- ===== src/Compaction.antt =====
-- `memory/compaction.py`: the text of a memory is cut to the budget of its node.
pub mod Text
pub mod Compact
pub mod Items
pub mod Rewriting
mod Tests
