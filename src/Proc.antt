-- ===== src/Proc.antt =====
-- cedrus-v4l2/cedrus_proc.c, cedrus_enc.c and cedrus_dec.c: what a processor, the decoder or the encoder,
-- offers, and how user space negotiates formats, selections and intervals with it.
pub mod Tables
pub mod Formats
pub mod Ioctls
pub mod Configure
pub mod Tests
