-- ===== src/RunStore.antt =====
-- run_store/json_store.py: the records of runs, a file for each, with revisions.
pub mod Files
pub mod Listing
pub mod Abstract
pub mod Revisions
pub mod Pages
pub mod Collecting
mod Tests
