-- ===== src/Contracts.antt =====
-- The public robot contracts (src/vlai_l1_runtime/contracts.py): joint vectors and commands.
mod Types
mod Features
mod Values
mod Command
pub mod Laws
pub mod Entries
mod Tests
pub use Types.*
unfoldable pub use Features.*
unfoldable pub use Values.*
unfoldable pub use Command.*
