-- ===== src/Vp9Dec.antt =====
-- cedrus-v4l2/cedrus_dec_vp9.c: the VP9 decoder. What it does to the probabilities is in Vp9.
pub mod Pack
pub mod Scale
pub mod Tiles
pub mod Frame
pub mod Sram
pub mod Tests
