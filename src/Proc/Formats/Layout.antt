-- ===== src/Proc/Formats/Layout.antt =====
-- The planes of a prepared picture fit its size, and nothing wraps.
use h618_vpu_port.Base.{
  ℕ, ◌+◌, ◌*◌, ◌/◌, ◌%◌, ◌≤◌, ◌≡◌, ◌⊎◌, false, ok, err, einval, ◌==◌, refl, ≡→==, Bool-cases, inl,
  inr, mul_le, align, arith,
}
use h618_vpu_port.Proc.Tables.{FrmSize}
use h618_vpu_port.Proc.Formats.{
  PixFormat, Ctx, nv12, nv12_32l32, copy_colour, enc_stride, nv12_sizeimage, tiled_layout,
  enc_picture_layout, dec_picture_prepare, constrain, enc_picture_prepare,
}
use h618_vpu_port.Proc.Formats.Constrain.{Constrains, IsEngine, Bounded, constrain-Bounded}

nv12_sizeimage_lem : (b h : ℕ) → b ≤ 131072 → h ≤ 4096 → nv12_sizeimage b h ≡ b * h + b * h / 2
unfolding nv12_sizeimage
nv12_sizeimage_lem b h l m =
    let k : b * h ≤ 131072 * 4096 = mul_le b h 131072 4096 l m in omega arith

-- A picture of NV12: the rows of both planes, in whole macroblocks, fill the image exactly.
abbrev pub IsNv12 : PixFormat → Type 0
IsNv12 f =
    (f.width ≤ f.bytesperline)
    × (f.bytesperline % 16 ≡ 0)
    × (f.sizeimage ≡ f.bytesperline * f.height + f.bytesperline * f.height / 2)

enc_stride_bounds :
    (w b : ℕ)
    → w ≤ 4096
    → (w ≤ enc_stride w b) × (enc_stride w b ≤ 131072) × (enc_stride w b % 16 ≡ 0)
unfolding enc_stride
enc_stride_bounds w b h = ground arith

-- An encoder's picture is refused, or it has the constrained size.
pub enc_picture_prepare-IsNv12 :
    (apply : FrmSize → ℕ × ℕ → ℕ × ℕ) (ctx : Ctx) (f : PixFormat)
    → Constrains apply
    → IsEngine 4096 4096 ctx.engine.frmsize
    → let r = enc_picture_prepare apply ctx f in
      (r.0 ≡ err einval)
      ⊎ ((r.0 ≡ ok)
          × IsNv12 r.1
          × (◌≡◌ {A = ℕ × ℕ}
              (r.1.width, r.1.height)
              (constrain apply ctx.engine.frmsize (f.width, f.height))))
unfolding enc_picture_prepare enc_picture_layout
enc_picture_prepare-IsNv12 apply ctx f c e =
    let size = constrain apply ctx.engine.frmsize (f.width, f.height) in
    let d : Bounded 4096 4096 size =
      constrain-Bounded apply 4096 4096 ctx.engine.frmsize (f.width, f.height) c e in
    let b = enc_stride_bounds size.0 f.bytesperline d.1 in
    elim (Bool-cases (f.pixelformat == nv12)) [
      | inr k ↦ rw k (inl refl)
      | inl k ↦ rw k (
          inr (
            refl,
            (b.0, b.2, nv12_sizeimage_lem (enc_stride size.0 f.bytesperline) size.1 b.1 d.3),
            refl,
          ))
    ]

-- A decoder's picture holds the coded picture: it is NV12 of the coded size, or tiles of 32 by 32 round it.
abbrev pub IsDecoded : PixFormat → PixFormat → Type 0
IsDecoded c f =
    (f.bytesperline % 16 ≡ 0)
    × (f.width ≤ f.bytesperline)
    × (c.width ≤ f.width)
    × (c.height ≤ f.height)
    × (f.bytesperline * f.height + f.bytesperline * f.height / 2 ≤ f.sizeimage)

tiled_layout_lem :
    (w h : ℕ)
    → w ≤ 4096
    → h ≤ 4096
    → let r = tiled_layout w h in
      (w ≤ r.0)
      × (h ≤ r.1)
      × (align r.0 32 % 16 ≡ 0)
      × (r.0 ≤ align r.0 32)
      × (align r.0 32 * r.1 + align r.0 32 * r.1 / 2 ≤ r.2)
unfolding tiled_layout
tiled_layout_lem w h l m =
    let a = align (align w 32) 32 in
    let b = align h 32 in
    let d = align b 64 in
    let a1 : (w ≤ align w 32) × (align w 32 ≤ a) × (a ≤ 4096) × (a % 16 ≡ 0) =
      (omega arith, omega arith, omega arith, omega arith) in
    let b1 : (h ≤ b) × (b ≤ d) × (d ≤ 4096) = (omega arith, omega arith, omega arith) in
    let pq = mul_le a b a d (omega arith) b1.1 in
    let q = mul_le a d 4096 4096 a1.2 b1.2 in (a1.0, b1.0, a1.3, a1.1, omega arith)

abbrev pub IsDecoderFormat : ℕ → Type 0
IsDecoderFormat pixelformat = (pixelformat ≡ nv12) ⊎ (pixelformat ≡ nv12_32l32)

-- A decoder's picture of one of the two formats is prepared, and holds the coded picture.
pub dec_picture_prepare-IsDecoded :
    (ctx : Ctx) (f : PixFormat)
    → IsDecoderFormat f.pixelformat
    → Bounded 4096 4096 (ctx.format_coded.width, ctx.format_coded.height)
    → let r = dec_picture_prepare ctx f in (r.0 ≡ ok) × IsDecoded ctx.format_coded r.1
unfolding dec_picture_prepare copy_colour
dec_picture_prepare-IsDecoded ctx f (inl p) d =
    let w = ctx.format_coded.width in
    let h = ctx.format_coded.height in
    let k = ≡→== f.pixelformat nv12 p in
    let a : (w ≤ align w 16) × (align w 16 ≤ 4096) × (align w 16 % 16 ≡ 0) =
      (omega arith, omega arith, omega arith) in
    let s = nv12_sizeimage_lem (align w 16) h (omega arith) d.3 in
    rw k (refl, (a.2, a.0, omega arith, omega arith, omega arith))
dec_picture_prepare-IsDecoded ctx f (inr p) d =
    let w = ctx.format_coded.width in
    let h = ctx.format_coded.height in
    let n : (f.pixelformat == nv12) ≡ false = ground arith in
    let k = ≡→== f.pixelformat nv12_32l32 p in
    let t = tiled_layout_lem w h d.1 d.3 in rw (n, k) (refl, (t.2, t.3, t.0, t.1, t.4))
