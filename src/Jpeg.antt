-- ===== src/Jpeg.antt =====
-- cedrus-v4l2/cedrus_enc_jpeg.c: the H618 JPEG encoder.
pub mod Tables
pub mod Header
pub mod Quant
pub mod Finish
pub mod Stream
pub mod Job
pub mod Tests
