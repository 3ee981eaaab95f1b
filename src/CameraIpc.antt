-- ===== src/CameraIpc.antt =====
-- The transport of camera frames (src/vlai_l1_runtime/camera_ipc.py).
pub mod Json
pub mod Stream
pub mod Received
pub mod Frames
pub mod RoundTrip
pub mod Client
pub mod Delivered
pub mod Server
pub mod Answered
mod Tests
