-- ===== src/Proc/Configure.antt =====
-- cedrus-v4l2/cedrus_enc.c and cedrus_dec.c: the registers that a job of a context is configured with. A
-- register that is read and written back is an argument.
pub mod Accepts
use h618_vpu_port.Base.{
  ℕ, ◌+◌, ◌-◌, ◌*◌, ◌/◌, ◌%◌, ◌^◌, Bool, not, Ret, ok, err, einval, ◌||◌, if◌then◌else◌, ltb, ◌==◌,
  u32, align, div_round_up, bit_and, bit_or, List, [], ◌∷◌, ◌++◌,
}
use h618_vpu_port.Device.Dma.{Device, dma_addr}
use h618_vpu_port.Device.Regs.{Write}
use h618_vpu_port.Proc.Tables.{Role, decoder, encoder}
use h618_vpu_port.Proc.Formats.{PixFormat, Ctx, nv12, nv12_32l32}

-- SHIFT_AND_MASK_BITS(v, h, l)
abbrev pub field_bits : ℕ → ℕ → ℕ → ℕ
field_bits v h l = v % 2 ^ (h - l + 1) * 2 ^ l

abbrev pub mode_reg : ℕ
mode_reg = 0x0

abbrev pub reset_reg : ℕ
reset_reg = 0x4

abbrev isp_base : ℕ
isp_base = 0xa00

abbrev pub isp_pic_info_reg : ℕ
isp_pic_info_reg = isp_base + 0x0

abbrev pub isp_pic_stride0_reg : ℕ
isp_pic_stride0_reg = isp_base + 0x4

abbrev pub isp_ctrl_reg : ℕ
isp_ctrl_reg = isp_base + 0x8

abbrev pub isp_scaler_size_reg : ℕ
isp_scaler_size_reg = isp_base + 0x2c

abbrev pub isp_input_luma_addr_reg : ℕ
isp_input_luma_addr_reg = isp_base + 0x78

abbrev pub isp_input_chroma0_addr_reg : ℕ
isp_input_chroma0_addr_reg = isp_base + 0x7c

abbrev pub isp_h618_ctrl_reg : ℕ
isp_h618_ctrl_reg = isp_base + 0xe4

abbrev pub primary_chroma_buf_len : ℕ
primary_chroma_buf_len = 0xc4

abbrev pub primary_fb_line_stride : ℕ
primary_fb_line_stride = 0xc8

abbrev pub chroma_buf_len : ℕ
chroma_buf_len = 0xe8

abbrev pub primary_out_fmt : ℕ
primary_out_fmt = 0xec

-- VE_MODE_DEC_DISABLED, VE_MODE_ENC_ENABLE and VE_MODE_ENC_ISP_ENABLE
abbrev dec_disabled : ℕ
dec_disabled = 7

abbrev enc_enable : ℕ
enc_enable = 0x80

abbrev enc_isp_enable : ℕ
enc_isp_enable = 0x40

abbrev encoder_reset : ℕ
encoder_reset = 0x1000000

-- Whether the device is an H618 decides on the last mode. `mode` and `mode'` are the mode register at its
-- two reads, `reset` and `reset'` the reset register.
pub enc_coded_configure : Device → (mode reset reset' mode' : ℕ) → List Write
enc_coded_configure dev mode reset reset' mode' =
    (mode_reg, bit_or (bit_and mode (0xffffffff - enc_enable - enc_isp_enable)) dec_disabled)
    ∷ (reset_reg, bit_or reset encoder_reset)
    ∷ (reset_reg, bit_and reset' (0xffffffff - encoder_reset))
    ∷ (
      mode_reg,
      if dev.enc_addr_shift == 0
          then bit_or (bit_or (bit_or mode' enc_enable) enc_isp_enable) dec_disabled
          else 0x80000000 + 0x40000000 + 0x20000 + enc_enable + enc_isp_enable + dec_disabled,
    )
    ∷ []

-- The dimensions: in blocks of 8 by 8 on an H618, in macroblocks else.
pub enc_size_writes : Device → PixFormat → List Write
enc_size_writes dev f =
    let w8 = div_round_up f.width 8 in
    let h8 = div_round_up f.height 8 in
    let w16 = div_round_up f.width 16 in
    let h16 = div_round_up f.height 16 in
    if dev.enc_addr_shift == 0
    then (isp_pic_info_reg, bit_or (field_bits w16 31 16) (field_bits h16 15 0))
      ∷ (isp_scaler_size_reg, bit_or (field_bits h16 26 16) (field_bits w16 10 0))
      ∷ []
    else (isp_pic_info_reg, bit_or (u32 (w8 * 2 ^ 16)) h8)
      ∷ (isp_scaler_size_reg, bit_or (u32 (h8 * 2 ^ 16)) w8)
      ∷ []

-- With the addresses of the two planes of the picture buffer.
pub enc_picture_configure : Device → (luma_addr chroma_addr : ℕ) → Ctx → Ret × List Write
enc_picture_configure dev luma_addr chroma_addr ctx =
    let f = ctx.format_picture in
    if not (f.bytesperline % 16 == 0) then (err einval, enc_size_writes dev f) else (
      ok,
      enc_size_writes dev f
          ++ ((isp_pic_stride0_reg, field_bits (f.bytesperline / 16) 26 16)
              ∷ (isp_ctrl_reg, 0)
              ∷ ((if dev.enc_addr_shift == 0 then [] else (isp_h618_ctrl_reg, 0x42) ∷ [])
                  ++ ((isp_input_luma_addr_reg, dma_addr dev luma_addr)
                      ∷ (isp_input_chroma0_addr_reg, dma_addr dev chroma_addr)
                      ∷ []))),
    )

abbrev pub mpeg2_slice : ℕ
mpeg2_slice = 0x5332474d

abbrev pub h264_slice : ℕ
h264_slice = 0x34363253

abbrev pub hevc_slice : ℕ
hevc_slice = 0x35363253

abbrev pub vp8_frame : ℕ
vp8_frame = 0x46385056

abbrev pub vp9_frame : ℕ
vp9_frame = 0x46395056

-- The mode of the decoder's block; `err` for a format that has none.
pub dec_mode : ℕ → Ret × ℕ
dec_mode pixelformat =
    if pixelformat == mpeg2_slice
    then (ok, 0)
    else if pixelformat == h264_slice || pixelformat == vp8_frame
    then (ok, 1)
    else if pixelformat == hevc_slice
    then (ok, 4)
    else if pixelformat == vp9_frame
    then (ok, 4)
    else (err einval, 0)

dec_mode_writes : Ret × ℕ → ℕ → Ret × List Write
dec_mode_writes (err e, mode) width = (err e, [])
dec_mode_writes (ok, mode) width = (
  ok,
  (
    mode_reg,
    0x100000
        + 0x30000
        + mode
        + (if width == 4096 then 0x400000 else 0)
        + (if ltb 2048 width then 0x200000 else 0),
  )
      ∷ [],
)

pub dec_coded_configure : Ctx → Ret × List Write
dec_coded_configure ctx =
    dec_mode_writes (dec_mode ctx.format_coded.pixelformat) ctx.format_picture.width

pub dec_picture_configure : Ctx → Ret × List Write
dec_picture_configure ctx =
    let f = ctx.format_picture in
    let stride = align f.width 16 in
    if f.pixelformat == nv12
    then (
      ok,
      (primary_out_fmt, 0x40)
          ∷ (primary_chroma_buf_len, u32 (stride * align f.height 16) / 2 / 2)
          ∷ (
            primary_fb_line_stride,
            bit_or (field_bits stride 15 0) (field_bits (stride / 2) 31 16),
          )
          ∷ [],
    )
    else if f.pixelformat == nv12_32l32
    then (ok, (primary_out_fmt, 0) ∷ (chroma_buf_len, 0) ∷ [])
    else (err einval, [])

-- The configuration of the picture format, by the role.
pub role_configure : Role → Device → (luma_addr chroma_addr : ℕ) → Ctx → Ret × List Write
role_configure encoder dev luma chroma ctx = enc_picture_configure dev luma chroma ctx
role_configure decoder dev luma chroma ctx = dec_picture_configure ctx
