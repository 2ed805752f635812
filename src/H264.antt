-- ===== src/H264.antt =====
-- cedrus-v4l2/cedrus_enc_h264.c: the H.264 encoder.
pub mod Enums
pub mod Bits
pub mod Job
pub mod Headers
pub mod Buffers
pub mod Configure
pub mod Finish
pub mod Tests
