-- ===== src/Collection.antt =====
-- The collection of samples (src/vlai_l1_runtime/collection): schema.py, orchestration.py and scale.py.
pub mod Images
pub mod Contract
pub mod Sample
pub mod Checks
pub mod Assembler
pub mod Prepared
pub mod Accepted
pub mod Sizes
pub mod Conformance
pub mod Events
pub mod Episode
pub mod Recorded
pub mod Scale
pub mod Readings
mod Example
mod ScaleTests
mod Tests
