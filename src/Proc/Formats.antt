-- ===== src/Proc/Formats.antt =====
-- cedrus-v4l2/cedrus_enc.c and cedrus_dec.c, with the calls of cedrus_proc.c to them: the preparation and
-- the propagation of formats. `apply` stands for v4l2_apply_frmsize_constraints of the kernel.
pub mod Constrain
pub mod Idempotent
pub mod Layout
use h618_vpu_port.Base.{
  ℕ, ◌+◌, ◌*◌, ◌/◌, ◌%◌, Bool, true, false, not, ◌&&◌, ◌||◌, Option, none, some, Ret, ok, err,
  einval, enodev, if◌then◌else◌, ltb, ◌==◌, u32, align, max, List, [], ◌∷◌,
}
use h618_vpu_port.Proc.Tables.{
  FrmSize, Engine, FormatType, coded, picture, Role, decoder, encoder, Proc, format_find_first,
  format_check, engine_find_format, proc_buffer_type,
}

abbrev pub nv12 : ℕ
nv12 = 0x3231564e

abbrev pub nv12_32l32 : ℕ
nv12_32l32 = 0x32315453

-- V4L2_FIELD_NONE
abbrev pub field_none : ℕ
field_none = 1

-- struct v4l2_pix_format
pub record PixFormat : Type 0 where
  pub pixelformat : ℕ
  pub width : ℕ
  pub height : ℕ
  pub bytesperline : ℕ
  pub sizeimage : ℕ
  pub field : ℕ
  pub colorspace : ℕ
  pub xfer_func : ℕ
  pub ycbcr_enc : ℕ
  pub quantization : ℕ

-- struct v4l2_rect
pub record Rect : Type 0 where
  pub left : ℕ
  pub top : ℕ
  pub width : ℕ
  pub height : ℕ

-- The negotiated part of struct cedrus_context. `hold_capture` is the flag of the source queue.
pub record Ctx : Type 0 where
  pub engine : Engine
  pub hold_capture : Bool
  pub format_coded : PixFormat
  pub format_picture : PixFormat
  pub selection : Rect
  pub timeperframe_coded : ℕ × ℕ
  pub timeperframe_picture : ℕ × ℕ

-- What vb2 tells of the two queues.
pub record Queues : Type 0 where
  pub output_busy : Bool
  pub output_streaming : Bool
  pub capture_busy : Bool
  pub capture_streaming : Bool

abbrev pub busy_check : Queues → Bool → Bool
busy_check q output = if output then q.output_busy else q.capture_busy

abbrev pub streaming_check : Queues → Bool → Bool
streaming_check q output = if output then q.output_streaming else q.capture_streaming

unfoldable pub copy_colour : PixFormat → PixFormat → PixFormat
copy_colour from f = record f {
  colorspace = from.colorspace;
  xfer_func = from.xfer_func;
  ycbcr_enc = from.ycbcr_enc;
  quantization = from.quantization;
}

unfoldable pub enc_coded_prepare : Ctx → PixFormat → Ret × PixFormat
enc_coded_prepare ctx f = (
  ok,
  copy_colour ctx.format_picture (record f {
    width = ctx.format_picture.width;
    height = ctx.format_picture.height;
    bytesperline = 0;
    sizeimage = max 1024 f.sizeimage;
    field = field_none;
  }),
)

-- The stride asked for, if it is sensible, in macroblocks.
pub enc_stride : ℕ → ℕ → ℕ
enc_stride width bytesperline =
    align
      (if ltb bytesperline width || ltb (u32 (32 * width)) bytesperline
        then width
        else bytesperline)
      16

pub nv12_sizeimage : ℕ → ℕ → ℕ
nv12_sizeimage bytesperline height = let luma = u32 (bytesperline * height) in u32 (luma + luma / 2)

-- With the constrained size and the stride.
pub enc_picture_layout : ℕ → ℕ → ℕ → PixFormat → Ret × PixFormat
enc_picture_layout width height bytesperline f =
    if f.pixelformat == nv12
    then (
      ok,
      record f {
        width = width;
        height = height;
        bytesperline = bytesperline;
        sizeimage = nv12_sizeimage bytesperline height;
        field = field_none;
      },
    )
    else (err einval, f)

-- The sizes of NV12_32L32: width, height and sizeimage.
pub tiled_layout : ℕ → ℕ → ℕ × ℕ × ℕ
tiled_layout width height =
    let width = align width 32 in
    let height = align height 32 in
    let bytesperline = align width 32 in
    (width, height, u32 (u32 (bytesperline * height) + u32 (bytesperline * align height 64) / 2))

pub dec_picture_prepare : Ctx → PixFormat → Ret × PixFormat
dec_picture_prepare ctx f =
    let width = ctx.format_coded.width in
    let height = ctx.format_coded.height in
    let tiled = tiled_layout width height in
    if f.pixelformat == nv12
    then (
      ok,
      copy_colour ctx.format_coded (record f {
        width = width;
        height = height;
        bytesperline = align width 16;
        sizeimage = nv12_sizeimage (align width 16) height;
        field = field_none;
      }),
    )
    else if f.pixelformat == nv12_32l32
    then (
      ok,
      copy_colour ctx.format_coded (record f {
        width = tiled.0;
        height = tiled.1;
        bytesperline = align tiled.0 32;
        sizeimage = tiled.2;
        field = field_none;
      }),
    )
    else (err einval, f)

unfoldable pub select_format : Proc → FormatType → PixFormat → PixFormat
select_format p t f =
    if format_check p.formats f.pixelformat t
    then f
    else record f { pixelformat = format_find_first p.formats t }

unfoldable pub selection_reset : Ctx → Ctx
selection_reset ctx = record ctx {
  selection = record {
    left = 0;
    top = 0;
    width = ctx.format_picture.width;
    height = ctx.format_picture.height;
  };
}

unfoldable pub enc_dynamic_check : Queues → Bool → Ctx → PixFormat → Bool
enc_dynamic_check q output ctx f =
    if not output
    then false
    else if not (busy_check q output)
    then false
    else if streaming_check q output
    then false
    else if busy_check q (proc_buffer_type encoder picture)
    then false
    else f.pixelformat == ctx.format_coded.pixelformat

unfoldable pub dec_dynamic_check : Queues → Bool → Ctx → PixFormat → Bool
dec_dynamic_check q output ctx f =
    if not output
    then false
    else if not (busy_check q output)
    then false
    else if streaming_check q output
    then false
    else if busy_check q (proc_buffer_type decoder picture)
    then false
    else f.pixelformat == ctx.format_coded.pixelformat

unfoldable pub dynamic_check : Role → Queues → Bool → Ctx → PixFormat → Bool
unfolding enc_dynamic_check dec_dynamic_check
dynamic_check encoder q output ctx f = enc_dynamic_check q output ctx f
dynamic_check decoder q output ctx f = dec_dynamic_check q output ctx f

module _ (apply : FrmSize → ℕ × ℕ → ℕ × ℕ) where
  -- With the sizes of the engine; every engine of a processor has them.
  abbrev pub constrain : Option FrmSize → ℕ × ℕ → ℕ × ℕ
  constrain none size = size
  constrain (some s) size = apply s size

  unfoldable pub dec_coded_prepare : Ctx → PixFormat → Ret × PixFormat
  dec_coded_prepare ctx f =
      let size = constrain ctx.engine.frmsize (f.width, f.height) in
      (
        ok,
        record f {
          width = size.0;
          height = size.1;
          bytesperline = 0;
          sizeimage = max 1024 f.sizeimage;
          field = field_none;
        },
      )

  pub enc_picture_prepare : Ctx → PixFormat → Ret × PixFormat
  enc_picture_prepare ctx f =
      let size = constrain ctx.engine.frmsize (f.width, f.height) in
      enc_picture_layout size.0 size.1 (enc_stride size.0 f.bytesperline) f

  -- The format_prepare of every engine of the role, and the format_picture_prepare of the role.
  unfoldable pub role_prepare : Role → FormatType → Ctx → PixFormat → Ret × PixFormat
  role_prepare encoder coded ctx f = enc_coded_prepare ctx f
  role_prepare encoder picture ctx f = enc_picture_prepare ctx f
  role_prepare decoder coded ctx f = dec_coded_prepare ctx f
  role_prepare decoder picture ctx f = dec_picture_prepare ctx f

  -- cedrus_proc_format_coded_prepare and cedrus_proc_format_picture_prepare
  unfoldable pub format_prepare : Proc → FormatType → Ctx → PixFormat → Ret × PixFormat
  format_prepare p t ctx f = role_prepare p.role t ctx (select_format p t f)

  unfoldable pub enc_propagate : Proc → FormatType → Ctx → Ret × Ctx
  enc_propagate p coded ctx = (ok, ctx)
  enc_propagate p picture ctx =
      let ctx = selection_reset ctx in
      let (ret, f) = format_prepare p coded ctx ctx.format_coded in
      (ret, record ctx { format_coded = f })

  unfoldable pub dec_propagate : Proc → FormatType → Ctx → Ret × Ctx
  dec_propagate p coded ctx =
      let (ret, f) = format_prepare p picture ctx ctx.format_picture in
      (ret, record ctx { format_picture = f })
  dec_propagate p picture ctx = (ok, ctx)

  unfoldable pub role_propagate : Role → Proc → FormatType → Ctx → Ret × Ctx
  role_propagate encoder p t ctx = enc_propagate p t ctx
  role_propagate decoder p t ctx = dec_propagate p t ctx
