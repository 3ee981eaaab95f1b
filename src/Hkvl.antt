-- ===== src/Hkvl.antt =====
-- The HKVL frame decoder of src/vlai_l1_runtime/hkvl_serial.py.
mod Decoder
mod Resync
mod Total
mod Chunks
mod Frames
unfoldable pub use Decoder.*
mod Tests
