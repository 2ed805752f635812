-- ===== src/Vp9.antt =====
-- cedrus-v4l2/cedrus_vp9_helper.c: the probabilities of the VP9 decoder.
pub mod Prob
pub mod Variants
pub mod Context
pub mod Update
pub mod Adapt
pub mod Tests
