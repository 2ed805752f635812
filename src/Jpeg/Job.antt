-- ===== src/Jpeg/Job.antt =====
-- cedrus-v4l2/cedrus_enc_jpeg.c: the registers of a job, its trigger, and its interrupt.
pub mod Configure
use h618_vpu_port.Base.{
  ℕ, ◌+◌, ◌-◌, ◌*◌, ◌/◌, ◌^◌, List, [], ◌∷◌, ◌++◌, map, Bool, true, false, ◌||◌, Ret, ok, err,
  einval, eopnotsupp, if◌then◌else◌, ltb, ◌==◌, bit_and, bit_or, get_or, u32, sub_u32, div_round_up,
}
use h618_vpu_port.Device.Dma.{Device, enc_dma_addr}
use h618_vpu_port.Device.Regs.{
  Write, pic_info_reg, para0_reg, para1_reg, int_en_reg, starttrig_reg, status_reg,
  residual_bits_reg, header_bits_reg, stm_start_addr_reg, stm_end_addr_reg, stm_bit_offset_reg,
  stm_bit_max_reg, stm_bit_len_reg, sram_offset_reg, sram_data_reg, encode_mode_jpeg,
  type_enc_start, IrqStatus, error, success,
}
use h618_vpu_port.Jpeg.Quant.{JpegJob, quant_word}
use h618_vpu_port.Jpeg.Finish.{header_size}

-- The picture format and the coded buffer, as the job sees them. `addr` and `size` are those of
-- cedrus_job_buffer_coded_dma.
pub record JobInput : Type 0 where
  pub width : ℕ
  pub height : ℕ
  pub addr : ℕ
  pub size : ℕ

-- (DIV_ROUND_UP(width, 8) << 16) | DIV_ROUND_UP(height, 8)
pub pic_info : ℕ → ℕ → ℕ
pic_info width height = bit_or (u32 (div_round_up width 8 * 2 ^ 16)) (div_round_up height 8)

-- The writes of one table to the SRAM's data port.
pub sram_writes : List ℕ → List Write
sram_writes [] = []
sram_writes (q ∷ qs) = (sram_data_reg, quant_word q) ∷ sram_writes qs

-- The reciprocal scales of the two DC quantisers.
pub para0 : JpegJob → ℕ
para0 job =
    bit_or (bit_or 0xc0000000 (1024 / get_or job.quant1 0 0 * 2 ^ 16))
      (1024 / get_or job.quant0 0 0)

stream_writes : Device → JobInput → List Write
stream_writes dev i =
    (stm_start_addr_reg, enc_dma_addr dev i.addr)
    ∷ (stm_end_addr_reg, enc_dma_addr dev (i.addr + i.size - 1))
    ∷ (stm_bit_offset_reg, 0)
    ∷ (stm_bit_max_reg, u32 (i.size * 8))
    ∷ (stm_bit_len_reg, 0)
    ∷ (header_bits_reg, 0)
    ∷ (residual_bits_reg, 0)
    ∷ (para1_reg, 0xc0000000)
    ∷ (int_en_reg, 0xf)
    ∷ (status_reg, 0x7)
    ∷ []

-- The result, the register writes made before it returned, and the job.
pub job_configure : Device → JobInput → JpegJob → Ret × List Write × JpegJob
job_configure dev i job =
    let first : List Write =
      (starttrig_reg, encode_mode_jpeg) ∷ (pic_info_reg, pic_info i.width i.height) ∷ [] in
    if dev.enc_addr_shift == 0
    then (err eopnotsupp, [], job)
    else if ltb i.size (header_size + 1024) || ltb (0xffffffff / 8) i.size
    then (err einval, first, job)
    else (
      ok,
      first
          ++ (stream_writes dev i
              ++ ((para0_reg, para0 job)
                  ∷ (sram_offset_reg, 0)
                  ∷ (sram_writes job.quant0 ++ sram_writes job.quant1))),
      record job { header_size = header_size },
    )

-- BIT(25) | (DIV_ROUND_UP(height, 16) << 16) | VE_ENC_AVC_INT_EN_VALUE, then the start.
pub job_trigger : ℕ → List Write
job_trigger height =
    (int_en_reg, bit_or (bit_or 0x2000000 (u32 (div_round_up height 16 * 2 ^ 16))) 0xf)
    ∷ (starttrig_reg, bit_or encode_mode_jpeg type_enc_start)
    ∷ []

abbrev status_mask : ℕ
status_mask = 0xf

-- On the value read from the status register.
pub irq_status : ℕ → IrqStatus
irq_status status =
    if bit_and status status_mask == 0
    then IrqStatus.none
    else if bit_and status 1 == 0
    then error
    else success

pub irq_clear : List Write
irq_clear = (status_reg, status_mask) ∷ []

pub irq_disable : List Write
irq_disable = (int_en_reg, 0) ∷ []
