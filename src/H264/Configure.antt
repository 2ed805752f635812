-- ===== src/H264/Configure.antt =====
-- cedrus-v4l2/cedrus_enc_h264.c: the registers of a job, and the buffers that it keeps for the next.
pub mod Values
pub mod References
use h618_vpu_port.Base.{
  ℕ, ◌+◌, ◌-◌, ◌*◌, ◌/◌, ◌%◌, ◌^◌, List, [], ◌∷◌, ◌++◌, Bool, true, false, not, ◌&&◌, if◌then◌else◌,
  ◌==◌, bit_or, u32, div_round_up, ℤ, pos, negsuc, Option, none, some,
}
use h618_vpu_port.Device.Dma.{Device, enc_dma_addr}
use h618_vpu_port.Device.Regs.{
  Write, pic_info_reg, para0_reg, para1_reg, starttrig_reg, residual_bits_reg, header_bits_reg,
  stm_start_addr_reg, stm_end_addr_reg, stm_bit_offset_reg, stm_bit_max_reg, stm_bit_len_reg,
  para2_reg, me_para_reg, overtime_mb_reg, cyclic_intra_refresh_reg, rc_init_reg, rc_mad_th0_reg,
  rc_mad_th1_reg, rc_mad_th2_reg, rc_mad_th3_reg, dynamic_me_par0_reg, dynamic_me_par1_reg, mad_reg,
  me_info_reg, mv_buf_addr_reg, ref0_addr_y_reg, ref0_addr_c_reg, rec_addr_y_reg, rec_addr_c_reg,
  subpix_addr_last_reg, subpix_addr_new_reg, mb_info_addr_reg, deblk_addr_reg, h618_ctrl_reg,
}
use h618_vpu_port.H264.Enums.{FrameType, frame_idr, frame_i, frame_p, frame_b, is_p}
use h618_vpu_port.H264.Bits.{Put, Coded}
use h618_vpu_port.H264.Job.{Context, State, Job}
use h618_vpu_port.H264.Headers.{Format, job_configure_headers}
use h618_vpu_port.H264.Buffers.{Buffer}

-- What the job reads besides the controls: the picture format, the coded memory, and the context's
-- macroblock information.
pub record JobInput : Type 0 where
  pub width : ℕ
  pub height : ℕ
  pub bytesperline : ℕ
  pub addr : ℕ
  pub size : ℕ
  pub mb_info_dma : ℕ

-- The fields of struct cedrus_enc_h264_context that a job leaves for the next one.
pub record Last : Type 0 where
  pub rec_last_dma : ℕ
  pub rec_last_luma_size : ℕ
  pub subpix_last_dma : ℕ

-- The part of cedrus_enc_h264_setup: no picture has sub-pixel samples.
pub setup_last : Last → Last
setup_last last = record last { subpix_last_dma = 0 }

-- SHIFT_AND_MASK_BITS on an int, for `width` bits from `low`.
pub field_bits : ℤ → ℕ → ℕ → ℕ
field_bits (pos n) width low = n % 2 ^ width * 2 ^ low
field_bits (negsuc n) width low = (2 ^ width - 1 - n % 2 ^ width) * 2 ^ low

-- The registers before the headers. `h618` is enc_addr_shift != 0.
pub stream_writes : Device → Bool → JobInput → List Write
stream_writes dev h618 i =
    (starttrig_reg, 0)
    ∷ ((if h618
          then (
            pic_info_reg,
            bit_or (u32 (div_round_up i.width 8 * 2 ^ 16)) (div_round_up i.height 8),
          )
            ∷ []
          else [])
        ++ ((stm_bit_offset_reg, 0)
            ∷ (stm_start_addr_reg, enc_dma_addr dev i.addr)
            ∷ (stm_end_addr_reg, enc_dma_addr dev (i.addr + i.size - 1))
            ∷ (stm_bit_max_reg, u32 (i.size * 8))
            ∷ (stm_bit_len_reg, 0)
            ∷ (header_bits_reg, 0)
            ∷ (residual_bits_reg, 0)
            ∷ []))

-- The picture that a P picture refers to is the one before; another picture gets its own buffer.
pub ref_addr : FrameType → Buffer → Last → ℕ
ref_addr t b last = if is_p t then last.rec_last_dma else b.rec_dma

pub ref_luma_size : FrameType → Buffer → Last → ℕ
ref_luma_size t b last = if is_p t then last.rec_last_luma_size else b.rec_luma_size

-- With the sub-pixel buffer of the first picture standing in for that of the one before.
pub subpix_last : Buffer → Last → ℕ
subpix_last b last = if last.subpix_last_dma == 0 then b.subpix_dma else last.subpix_last_dma

pub picture_writes : Device → JobInput → FrameType → Buffer → Last → List Write
picture_writes dev i t b last =
    (mb_info_addr_reg, enc_dma_addr dev i.mb_info_dma)
    ∷ (mv_buf_addr_reg, 0)
    ∷ (rec_addr_y_reg, enc_dma_addr dev b.rec_dma)
    ∷ (rec_addr_c_reg, enc_dma_addr dev (b.rec_dma + b.rec_luma_size))
    ∷ (ref0_addr_y_reg, enc_dma_addr dev (ref_addr t b last))
    ∷ (ref0_addr_c_reg, enc_dma_addr dev (ref_addr t b last + ref_luma_size t b last))
    ∷ (subpix_addr_new_reg, enc_dma_addr dev b.subpix_dma)
    ∷ (subpix_addr_last_reg, enc_dma_addr dev (subpix_last b last))
    ∷ (deblk_addr_reg, 0)
    ∷ (cyclic_intra_refresh_reg, 0)
    ∷ []

pub slice_type_bits : FrameType → ℕ
slice_type_bits frame_idr = 0
slice_type_bits frame_i = 0
slice_type_bits frame_p = 0x10
slice_type_bits frame_b = 0

pub para0 : Job → ℕ
para0 job =
    bit_or
      (bit_or
        (bit_or
          (bit_or (field_bits job.slice_beta_offset_div2 4 20)
            (field_bits job.slice_alpha_c0_offset_div2 4 16))
          (field_bits (pos job.cabac_init_idc) 2 10))
        (if job.entropy_coding_mode_flag then 0x100 else 0))
      (slice_type_bits job.frame_type)

pub para1 : Bool → JobInput → Job → ℕ
para1 h618 i job =
    let value =
      bit_or
        (bit_or (field_bits job.chroma_qp_index_offset 3 16)
          (field_bits (pos (div_round_up (i.bytesperline / 16) 48)) 4 10))
        (field_bits (pos job.qp) 6 0) in
    if h618 then bit_or value 0x8000100 else value

-- The constants that both encoders take in the same registers.
pub tuning_writes : Bool → List Write
tuning_writes true =
    (dynamic_me_par0_reg, 0x00090001)
    ∷ (dynamic_me_par1_reg, 0x00300027)
    ∷ (rc_init_reg, 0x80001900)
    ∷ (rc_mad_th0_reg, 0x120f0c09)
    ∷ (rc_mad_th1_reg, 0x261e1814)
    ∷ (rc_mad_th2_reg, 0xffff3630)
    ∷ (rc_mad_th3_reg, 0x00001c20)
    ∷ (me_para_reg, 0x1200)
    ∷ (h618_ctrl_reg, 0x12222)
    ∷ []
tuning_writes false =
    (dynamic_me_par0_reg, 0)
    ∷ (dynamic_me_par1_reg, 0)
    ∷ (rc_init_reg, 0)
    ∷ (rc_mad_th0_reg, 0)
    ∷ (rc_mad_th1_reg, 0)
    ∷ (rc_mad_th2_reg, 0)
    ∷ (rc_mad_th3_reg, 0)
    ∷ (me_para_reg, 0x10004)
    ∷ []

pub parameter_writes : Bool → JobInput → Job → List Write
parameter_writes h618 i job =
    (para0_reg, para0 job)
    ∷ (para1_reg, para1 h618 i job)
    ∷ (para2_reg, 0)
    ∷ (tuning_writes h618 ++ ((mad_reg, 0) ∷ (overtime_mb_reg, 0) ∷ (me_info_reg, 0) ∷ []))

-- The registers before the headers, the headers with the register that switches escaping, the registers
-- behind them, and what is kept. The job returns 0; `none` is that the headers took more than `fuel`
-- turns.
pub record Configured : Type 0 where
  pub before : List Write
  pub headers : Coded
  pub after : List Write
  pub state : State
  pub last : Last

-- With what the headers left.
pub configure_with :
    Bool → Device → JobInput → Job → Buffer → Last → Option (State × Coded) → Option Configured
configure_with h618 dev i job b last none = none
configure_with h618 dev i job b last (some (st, coded)) = some (record {
  before = stream_writes dev h618 i;
  headers = coded;
  after = picture_writes dev i job.frame_type b last ++ parameter_writes h618 i job;
  state = st;
  last = record {
    rec_last_dma = b.rec_dma;
    rec_last_luma_size = b.rec_luma_size;
    subpix_last_dma = b.subpix_dma;
  };
})

-- `para0_value` is what VE_ENC_AVC_PARA0_REG holds before the job.
pub job_configure :
    ℕ
    → (List Put → ℕ)
    → Device
    → JobInput
    → Context
    → Job
    → Format
    → Buffer
    → ℕ
    → State × Last
    → Option Configured
job_configure fuel len dev i c job f b para0_value (st, last) =
    configure_with (not (dev.enc_addr_shift == 0)) dev i job b last
      (job_configure_headers fuel len c job f (st, record { puts = []; para0 = para0_value }))
