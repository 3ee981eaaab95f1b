-- ===== src/Wire.antt =====
-- Raw follower telemetry (src/vlai_l1_runtime/feedback_wire.py): packets and the session.
mod Packet
mod Session
mod Accept
mod Laws
mod Fresh
mod Layout
mod Motors
mod Meaning
mod RoundTrip
unfoldable pub use Packet.*
unfoldable pub use Session.*
unfoldable pub use Accept.*
mod Tests
