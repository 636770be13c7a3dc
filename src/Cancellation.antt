-- ===== src/Cancellation.antt =====
-- workflow/cancellation.py: the token by which a run is cancelled.
pub mod Token
pub mod Sleep
pub mod Listeners
pub mod Naps
mod Tests
