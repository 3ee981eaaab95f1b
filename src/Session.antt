-- ===== src/Session.antt =====
-- The command lease of src/vlai_l1_runtime/session.py.
mod State
mod Checks
mod Commands
mod Methods
pub use State.*
unfoldable pub use Checks.*
unfoldable pub use Commands.*
unfoldable pub use Methods.*
mod Snapshots
mod Hold
mod Acceptable
mod Invariant
mod Events
mod Acceptance
mod History
mod Complete
mod Timeouts
mod Config
mod Blocked
mod Tests
