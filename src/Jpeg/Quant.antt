-- ===== src/Jpeg/Quant.antt =====
-- cedrus-v4l2/cedrus_enc_jpeg.c: the quality control, the quantisation tables of a job, and the words
-- that load a table into the encoder's SRAM.
pub mod Range
pub mod Words
use h618_vpu_port.Base.{
  ℕ, ◌+◌, ◌*◌, ◌/◌, ◌<◌, List, map, Bool, Option, none, some, if◌then◌else◌, ltb, clamp, ◌^◌, u8,
  u32, sub_u32, bit_or,
}
use h618_vpu_port.Jpeg.Tables.{luma_quant_base, chroma_quant_base}

-- struct cedrus_enc_jpeg_context; `quality` as the bits of an unsigned int.
pub record JpegContext : Type 0 where
  pub quality : ℕ

-- struct cedrus_enc_jpeg_job
pub record JpegJob : Type 0 where
  pub quality : ℕ
  pub quant0 : List ℕ
  pub quant1 : List ℕ
  pub header_size : ℕ

-- The controls that reach cedrus_enc_jpeg_ctrl_prepare: the quality with ctrl->cur.val, or another. While a
-- control is set that is the value from before the change; in v4l2_ctrl_handler_setup it is the control's.
pub data JpegCtrl : Type 0 where
  compression_quality : ℕ → JpegCtrl
  other_ctrl : JpegCtrl

-- `none` is the context that does not exist yet.
pub ctrl_prepare : JpegCtrl → Option JpegContext → Option JpegContext
ctrl_prepare c none = none
ctrl_prepare (compression_quality v) (some ctx) = some (record ctx { quality = v })
ctrl_prepare other_ctrl (some ctx) = some ctx

pub quant_scale : ℕ → ℕ
quant_scale quality = if ltb quality 50 then 5000 / quality else sub_u32 200 (u32 (2 * quality))

pub quant_entry : ℕ → ℕ → ℕ
quant_entry scale base = u8 (clamp (u32 (base * scale + 50) / 100) 1 255)

pub job_prepare : JpegContext → JpegJob → JpegJob
job_prepare ctx job =
    let quality = clamp ctx.quality 1 100 in
    let scale = quant_scale quality in
    record job {
      quality = quality;
      quant0 = map (quant_entry scale) luma_quant_base;
      quant1 = map (quant_entry scale) chroma_quant_base;
    }

pub quant_word : ℕ → ℕ
quant_word quant =
    let full = 65536 / quant in
    let reciprocal = if ltb full 65535 then full + 1 else 65535 in
    bit_or (quant / 2 * 2 ^ 16) reciprocal
