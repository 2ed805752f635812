-- ===== src/H264/Configure/Values.antt =====
-- What the picture registers hold after the writes of a job.
use h618_vpu_port.Base.{
  ℕ, ◌+◌, ◌≡◌, refl, ◌∙◌, Bool, true, false, List, [], ◌∷◌, ◌++◌, Option, none, some, if◌then◌else◌,
  ◌==◌,
}
use h618_vpu_port.Device.Dma.{Device, enc_dma_addr}
use h618_vpu_port.Device.Regs.{
  Write, rec_addr_y_reg, rec_addr_c_reg, ref0_addr_y_reg, ref0_addr_c_reg, subpix_addr_new_reg,
  subpix_addr_last_reg,
}
use h618_vpu_port.H264.Enums.{FrameType}
use h618_vpu_port.H264.Job.{Job}
use h618_vpu_port.H264.Buffers.{Buffer}
use h618_vpu_port.H264.Configure.{
  JobInput, Last, ref_addr, ref_luma_size, subpix_last, picture_writes, tuning_writes,
  parameter_writes,
}

-- What a register holds after the writes, where one of them was to it.
pub last_value : ℕ → List Write → Option ℕ
last_value reg [] = none
last_value reg ((r, v) ∷ ws) =
    let rest = last_value reg ws in
    elim rest [ none ↦ (if r == reg then some v else none) | some x ↦ some x ]

last_value-append :
    (reg : ℕ) (xs ys : List Write)
    → last_value reg ys ≡ none
    → last_value reg (xs ++ ys) ≡ last_value reg xs
unfolding last_value
last_value-append reg [] ys h = h
last_value-append reg ((r, v) ∷ xs) ys h = rw (last_value-append reg xs ys h) refl

-- The registers that hold pictures.
pub data PictureReg : ℕ → Type 0 where
  rec_y : PictureReg rec_addr_y_reg
  rec_c : PictureReg rec_addr_c_reg
  ref0_y : PictureReg ref0_addr_y_reg
  ref0_c : PictureReg ref0_addr_c_reg
  subpix_new : PictureReg subpix_addr_new_reg
  subpix_old : PictureReg subpix_addr_last_reg

parameter_writes_silent :
    {reg : ℕ} (p : PictureReg reg) (h618 : Bool) (i : JobInput) (job : Job)
    → last_value reg (parameter_writes h618 i job) ≡ none
unfolding last_value parameter_writes tuning_writes
parameter_writes_silent rec_y true i job = refl
parameter_writes_silent rec_y false i job = refl
parameter_writes_silent rec_c true i job = refl
parameter_writes_silent rec_c false i job = refl
parameter_writes_silent ref0_y true i job = refl
parameter_writes_silent ref0_y false i job = refl
parameter_writes_silent ref0_c true i job = refl
parameter_writes_silent ref0_c false i job = refl
parameter_writes_silent subpix_new true i job = refl
parameter_writes_silent subpix_new false i job = refl
parameter_writes_silent subpix_old true i job = refl
parameter_writes_silent subpix_old false i job = refl

after_value :
    {reg : ℕ} (p : PictureReg reg) (h618 : Bool) (i : JobInput) (job : Job) (xs : List Write)
    (a : ℕ)
    → last_value reg xs ≡ some a
    → last_value reg (xs ++ parameter_writes h618 i job) ≡ some a
after_value p h618 i job xs a h =
    last_value-append _ xs _ (parameter_writes_silent p h618 i job) ∙ h

pub ref_values :
    (h618 : Bool) (dev : Device) (i : JobInput) (job : Job) (t : FrameType) (b : Buffer)
    (last : Last)
    → let ws = picture_writes dev i t b last ++ parameter_writes h618 i job in
      (last_value ref0_addr_y_reg ws ≡ some (enc_dma_addr dev (ref_addr t b last)))
      × (last_value ref0_addr_c_reg ws
          ≡ some (enc_dma_addr dev (ref_addr t b last + ref_luma_size t b last)))
      × (last_value subpix_addr_last_reg ws ≡ some (enc_dma_addr dev (subpix_last b last)))
unfolding last_value picture_writes
ref_values h618 dev i job t b last =
    let ws = picture_writes dev i t b last in
    (
      after_value ref0_y h618 i job ws _ refl,
      after_value ref0_c h618 i job ws _ refl,
      after_value subpix_old h618 i job ws _ refl,
    )

pub own_values :
    (h618 : Bool) (dev : Device) (i : JobInput) (job : Job) (t : FrameType) (b : Buffer)
    (last : Last)
    → let ws = picture_writes dev i t b last ++ parameter_writes h618 i job in
      (last_value rec_addr_y_reg ws ≡ some (enc_dma_addr dev b.rec_dma))
      × (last_value rec_addr_c_reg ws ≡ some (enc_dma_addr dev (b.rec_dma + b.rec_luma_size)))
      × (last_value subpix_addr_new_reg ws ≡ some (enc_dma_addr dev b.subpix_dma))
unfolding last_value picture_writes
own_values h618 dev i job t b last =
    let ws = picture_writes dev i t b last in
    (
      after_value rec_y h618 i job ws _ refl,
      after_value rec_c h618 i job ws _ refl,
      after_value subpix_new h618 i job ws _ refl,
    )
