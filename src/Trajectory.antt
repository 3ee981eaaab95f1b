-- ===== src/Trajectory.antt =====
-- The wrist sweep and its rehearsal (src/vlai_l1_runtime/trajectory.py).
mod Sweep
mod Rehearsal
mod Bounds
mod Laws
mod Phases
mod Plan
mod Begin
mod Tests
