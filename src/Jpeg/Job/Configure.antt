-- ===== src/Jpeg/Job/Configure.antt =====
-- What a configured job leaves in the encoder: the bounds of its stream, and the image of the
-- quantisation SRAM.
use h618_vpu_port.Base.{
  inl, inr, ◌⊎◌, ℕ, ◌+◌, ◌-◌, ◌*◌, ◌/◌, ◌≤◌, ◌≡◌, ◌<◌, ◌≢◌, ◌⊎◌, inl, inr, List, [], ◌∷◌, ◌++◌, map,
  ok, err, einval, eopnotsupp, ◌==◌, if◌then◌else◌, Option, none, some,
}
use h618_vpu_port.Device.Dma.{Device, enc_dma_addr}
use h618_vpu_port.Device.Regs.{
  Write, starttrig_reg, pic_info_reg, para0_reg, encode_mode_jpeg, sram_offset_reg, sram_data_reg,
  stm_bit_max_reg, stm_start_addr_reg, stm_end_addr_reg,
}
use h618_vpu_port.Jpeg.Quant.{JpegJob}
use h618_vpu_port.Jpeg.Quant.Words.{sram_word}
use h618_vpu_port.Jpeg.Finish.{header_size}
use h618_vpu_port.Jpeg.Job.{JobInput, job_configure, sram_writes, stream_writes, pic_info, para0}

-- The SRAM port of the encoder: a write of the offset register empties the image that is built at
-- offset 0, each write of the data register stores the next word.
pub sram_image : List ℕ → List Write → List ℕ
sram_image image [] = image
sram_image image ((reg, val) ∷ ws) =
    let image' =
      if reg == sram_offset_reg
      then []
      else if reg == sram_data_reg
      then image ++ (val ∷ [])
      else image in
    sram_image image' ws

-- The last value written to a register.
pub last_write : ℕ → Option ℕ → List Write → Option ℕ
last_write reg v [] = v
last_write reg v ((r, val) ∷ ws) = last_write reg (if r == reg then some val else v) ws

-- The writes of a job that is configured.
all_writes : Device → JobInput → JpegJob → List Write
all_writes dev i job =
    ((starttrig_reg, encode_mode_jpeg) ∷ (pic_info_reg, pic_info i.width i.height) ∷ [])
    ++ (stream_writes dev i
        ++ ((para0_reg, para0 job)
            ∷ (sram_offset_reg, 0)
            ∷ (sram_writes job.quant0 ++ sram_writes job.quant1)))

-- What a device with the encoder's addressing does with a buffer of a size that it accepts.
abbrev pub SizeFits : ℕ → Type 0
SizeFits size = (header_size + 1024 ≤ size) × (size ≤ 0xffffffff / 8)

-- A configured job.
pub record IsConfigured (dev : Device) (i : JobInput) (job : JpegJob) (ws : List Write)
    (done : JpegJob) : Type 0 where
  pub sram : sram_image [] ws ≡ map sram_word job.quant0 ++ map sram_word job.quant1
  pub bits : last_write stm_bit_max_reg none ws ≡ some (i.size * 8)
  pub first : last_write stm_start_addr_reg none ws ≡ some (enc_dma_addr dev i.addr)
  pub last : last_write stm_end_addr_reg none ws ≡ some (enc_dma_addr dev (i.addr + i.size - 1))
  pub header : done.header_size ≡ 623
  pub tables : (done.quant0 ≡ job.quant0) × (done.quant1 ≡ job.quant1)

-- The two refusals and the configuration, each with its condition.
abbrev pub Outcome : Device → JobInput → JpegJob → Type 0
Outcome dev i job =
    ((dev.enc_addr_shift ≡ 0) × (job_configure dev i job ≡ (err eopnotsupp, [], job)))
    ⊎ ((dev.enc_addr_shift ≢ 0)
        × ((i.size < 1647) ⊎ (0x1fffffff < i.size))
        × (job_configure dev i job ≡ (
          err einval,
          (starttrig_reg, encode_mode_jpeg) ∷ (pic_info_reg, pic_info i.width i.height) ∷ [],
          job,
        )))
    ⊎ ((dev.enc_addr_shift ≢ 0)
        × (1647 ≤ i.size)
        × (i.size ≤ 0x1fffffff)
        × ((ws : List Write) × (done : JpegJob) × (job_configure dev i job ≡ (ok, ws, done))
            × IsConfigured dev i job ws done))
