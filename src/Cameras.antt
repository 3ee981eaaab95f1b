-- ===== src/Cameras.antt =====
-- The cameras' configuration (src/vlai_l1_runtime/configuration.py) and the continuity of their frames
-- (src/vlai_l1_runtime/cameras.py).
pub mod Config
pub mod Frames
pub mod Validator
pub mod Skew
pub mod Accepted
pub mod Known
pub mod Invariant
pub mod Events
pub mod Ascending
pub mod Configured
pub mod Example
mod Tests
