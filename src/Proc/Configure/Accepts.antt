-- ===== src/Proc/Configure/Accepts.antt =====
-- The configuration of a context that user space negotiated.
use h618_vpu_port.Base.{
  ℕ, ◌*◌, ◌/◌, ◌%◌, ◌^◌, ◌≤◌, ◌<◌, ◌≡◌, ◌⊎◌, inl, inr, refl, Bool-cases, ok, if◌then◌else◌, ◌==◌,
  ≡→==, List, [], ◌∷◌, ◌++◌, arith,
}
use h618_vpu_port.Device.Dma.{Device}
use h618_vpu_port.Device.Regs.{Write}
use h618_vpu_port.Proc.Tables.{FrmSize, Proc, Role, decoder, encoder}
use h618_vpu_port.Proc.Formats.{PixFormat, Ctx}
use h618_vpu_port.Proc.Formats.Constrain.{Constrains}
use h618_vpu_port.Proc.Ioctls.Invariant.{IsNegotiated, IsTable}
use h618_vpu_port.Proc.Ioctls.Reach.{Reach, Reach-IsNegotiated}
use h618_vpu_port.Proc.Configure.{
  enc_size_writes, enc_picture_configure, dec_picture_configure, role_configure,
  isp_pic_stride0_reg,
}

-- The value that a list of writes leaves in a register.
pub last_write : ℕ → List Write → ℕ → ℕ
last_write r [] v = v
last_write r ((a, x) ∷ ws) v = last_write r ws (if a == r then x else v)

role_configure-ok :
    (role : Role) (dev : Device) (luma chroma : ℕ) (ctx : Ctx)
    → IsNegotiated role ctx
    → (role_configure role dev luma chroma ctx).0 ≡ ok
unfolding role_configure enc_picture_configure dec_picture_configure
role_configure-ok encoder dev luma chroma ctx n =
    let k = ≡→== (ctx.format_picture.bytesperline % 16) 0 n.2.1 in rw k refl
role_configure-ok decoder dev luma chroma ctx n = ground arith

-- On a context that any ioctls reach from a negotiated one the configuration of the picture format succeeds:
-- that of the encoder, which refuses a stride of no whole macroblocks, and that of the decoder, which
-- refuses a pixel format that it does not know.
pub Reach-configure :
    (apply : FrmSize → ℕ × ℕ → ℕ × ℕ) (c : Constrains apply) (p : Proc) (t : IsTable p)
    (start ctx : Ctx) (dev : Device) (luma chroma : ℕ)
    → IsNegotiated p.role start
    → Reach apply c p t start ctx
    → (role_configure p.role dev luma chroma ctx).0 ≡ ok
Reach-configure apply c p t start ctx dev luma chroma n r =
    role_configure-ok p.role dev luma chroma ctx (Reach-IsNegotiated apply c p t start ctx n r)

size_stride :
    (dev : Device) (f : PixFormat) (rest : List Write) (v : ℕ)
    → last_write isp_pic_stride0_reg (enc_size_writes dev f ++ rest) v
      ≡ last_write isp_pic_stride0_reg rest v
unfolding last_write enc_size_writes
size_stride dev f rest v = elim (Bool-cases (dev.enc_addr_shift == 0)) [
  | inl e ↦ rw e refl
  | inr e ↦ rw e refl
]

-- The stride that the encoder's input stage gets is the stride of the picture in macroblocks, modulo 2048:
-- exact for a stride below 32768 bytes, and wrong for any longer one, although VIDIOC_S_FMT takes strides
-- up to 32 times the width.
pub enc_picture_configure_stride :
    (dev : Device) (luma chroma : ℕ) (ctx : Ctx) (v : ℕ)
    → IsNegotiated encoder ctx
    → let stride =
        last_write isp_pic_stride0_reg (enc_picture_configure dev luma chroma ctx).1 v / 2 ^ 16 in
      ((ctx.format_picture.bytesperline < 32768) × (stride * 16 ≡ ctx.format_picture.bytesperline))
      ⊎ ((32768 ≤ ctx.format_picture.bytesperline)
          × (stride * 16 < ctx.format_picture.bytesperline))
unfolding enc_picture_configure last_write
enc_picture_configure_stride dev luma chroma ctx v n =
    let k = ≡→== (ctx.format_picture.bytesperline % 16) 0 n.2.1 in
    let b = ctx.format_picture.bytesperline in
    let s : b / 16 % 2 ^ 11 * 2 ^ 16 / 2 ^ 16 ≡ b / 16 % 2048 = omega arith in
    elim (Bool-cases (dev.enc_addr_shift == 0)) [
      | inl e ↦ rw (k, size_stride, e) (ground arith)
      | inr e ↦ rw (k, size_stride, e) (ground arith)
    ]
