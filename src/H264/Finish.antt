-- ===== src/H264/Finish.antt =====
-- cedrus-v4l2/cedrus_enc_h264.c: the start and the end of a job, and its interrupt.
pub mod Bounds
use h618_vpu_port.Base.{
  ℕ, ◌+◌, ◌-◌, ◌*◌, ◌/◌, ◌^◌, List, [], ◌∷◌, Bool, true, false, if◌then◌else◌, ltb, ◌==◌, bit_and,
  bit_or, u32, div_round_up,
}
use h618_vpu_port.Device.Dma.{Device}
use h618_vpu_port.Device.Regs.{
  Write, int_en_reg, starttrig_reg, status_reg, type_enc_start, IrqStatus, error, success,
}
use h618_vpu_port.H264.Enums.{FrameType, frame_idr, frame_i, frame_p, frame_b}

-- The coded buffer: the size of its plane, and the fields of vb2 that the encoder writes.
pub record Plane : Type 0 where
  pub size : ℕ
  pub payload : ℕ
  pub flag_error : Bool
  pub flag_keyframe : Bool
  pub flag_pframe : Bool

-- VE_ENC_AVC_INT_EN_STALL | VE_ENC_AVC_INT_EN_FINISH, and the deadlines of the newer encoder.
pub int_value : Device → ℕ → ℕ
int_value dev width =
    if dev.enc_addr_shift == 0
    then 3
    else bit_or (bit_or 3 (bit_or 4 (u32 (div_round_up width 80 * 2 ^ 24))))
        (u32 (div_round_up width 16 * 2 ^ 16))

pub job_trigger : Device → ℕ → List Write
job_trigger dev width = (int_en_reg, int_value dev width) ∷ (starttrig_reg, type_enc_start) ∷ []

pub flag_frame : FrameType → Plane → Plane
flag_frame frame_idr b = record b { flag_keyframe = true }
flag_frame frame_i b = record b { flag_keyframe = true }
flag_frame frame_p b = record b { flag_pframe = true }
flag_frame frame_b b = b

-- `state_done`: the job ended in VB2_BUF_STATE_DONE. The length register counts bits.
pub job_finish : Bool → ℕ → FrameType → Plane → Plane
job_finish false bits t b = record b { payload = 0 }
job_finish true bits t b =
    if ltb b.size (bits / 8)
    then record b { payload = 0; flag_error = true }
    else flag_frame t (record b { payload = bits / 8 })

abbrev status_mask : ℕ
status_mask = 0xf

-- On the value read from the status register.
pub irq_status : ℕ → IrqStatus
irq_status status =
    if bit_and status status_mask == 0
    then IrqStatus.none
    else if bit_and status 1 == 0
    then error
    else success

pub irq_clear : List Write
irq_clear = (status_reg, status_mask) ∷ []

pub irq_disable : List Write
irq_disable = (int_en_reg, 0) ∷ []
