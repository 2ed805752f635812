-- ===== src/Proc/Ioctls.antt =====
-- cedrus-v4l2/cedrus_proc.c and cedrus_context.c: the ioctls that negotiate, on the context of a file.
-- `apply` stands for v4l2_apply_frmsize_constraints of the kernel.
pub mod Dynamic
pub mod Agree
pub mod Invariant
pub mod Reach
use h618_vpu_port.Base.{
  ℕ, ◌+◌, ◌*◌, ◌/◌, Bool, true, false, not, ◌&&◌, ◌||◌, Option, none, some, Ret, ok, err, einval,
  enodev, if◌then◌else◌, ltb, leb, ◌==◌, u32, sub_u32, align, clamp,
}
use h618_vpu_port.Proc.Tables.{
  FrmSize, Engine, FormatType, coded, picture, Role, decoder, encoder, Proc, format_find_first,
  format_check, engine_find_format, proc_format_type,
}
use h618_vpu_port.Proc.Formats.{
  PixFormat, Rect, Ctx, Queues, busy_check, dynamic_check, format_prepare, role_propagate,
  nv12_32l32,
}

abbrev pub get_format : FormatType → Ctx → PixFormat
get_format coded ctx = ctx.format_coded
get_format picture ctx = ctx.format_picture

abbrev pub set_format : FormatType → PixFormat → Ctx → Ctx
set_format coded f ctx = record ctx { format_coded = f }
set_format picture f ctx = record ctx { format_picture = f }

set_engine : Option Engine → Ctx → Ret × Ctx
set_engine none ctx = (err enodev, ctx)
set_engine (some e) ctx = (ok, record ctx { engine = e; hold_capture = e.slice_based })

-- cedrus_context_engine_update
pub engine_update : Proc → Ctx → Ret × Ctx
engine_update p ctx = set_engine (engine_find_format p.engines ctx.format_coded.pixelformat) ctx

update_after : Proc → FormatType → Ret × Ctx → Ret × Ctx
update_after p t (err e, ctx) = (err e, ctx)
update_after p coded (ok, ctx) = engine_update p ctx
update_after p picture (ok, ctx) = (ok, ctx)

-- struct v4l2_frmsizeenum: the index, the pixel format, and the sizes that are filled in.
pub enum_picture : Role → ℕ → Option FrmSize → Option FrmSize
enum_picture role pixelformat none = none
enum_picture encoder pixelformat (some s) = some s
enum_picture decoder pixelformat (some s) =
    if pixelformat == nv12_32l32
    then some (record s { min_width = 32; min_height = 32; step_width = 32; step_height = 32 })
    else some s

-- `none` is -EINVAL; an engine always has sizes.
pub enum_framesizes : Proc → Ctx → ℕ → ℕ → Option FrmSize
enum_framesizes p ctx index pixelformat =
    if ltb 0 index then none else elim (engine_find_format p.engines pixelformat) [
      | some e ↦ e.frmsize
      | none ↦
          if format_check p.formats pixelformat picture
          then enum_picture p.role pixelformat ctx.engine.frmsize
          else none
    ]

-- Whether any interval is offered for the format and the size.
pub enum_frameintervals : Proc → Ctx → ℕ → ℕ → ℕ → ℕ → Ret
enum_frameintervals p ctx index pixelformat width height =
    if ltb 0 index then err einval else elim (enum_framesizes p ctx 0 pixelformat) [
      | none ↦ err einval
      | some s ↦
          if ltb width s.min_width
            || ltb s.max_width width
            || ltb height s.min_height
            || ltb s.max_height height
          then err einval
          else ok
    ]

pub data Target : Type 0 where
  crop crop_default crop_bounds other : Target

crop_target : Target → Ctx → Option Rect
crop_target crop ctx = some ctx.selection
crop_target other ctx = none
crop_target t ctx = some (record {
  left = 0;
  top = 0;
  width = ctx.format_picture.width;
  height = ctx.format_picture.height;
})

-- `none` is -EINVAL.
pub g_selection : Proc → Bool → Target → Ctx → Option Rect
g_selection p output target ctx = elim (proc_format_type p.role output) [
  | coded ↦ none
  | picture ↦ crop_target target ctx
]

-- round_up(x, 2) on an int, as the word that holds it.
abbrev pub round_up_2 : ℕ → ℕ
round_up_2 x = align x 2

-- What is stored, and returned to user space.
pub crop_rect : PixFormat → Rect → Rect
crop_rect f r =
    let left = round_up_2 r.left in
    let top = round_up_2 r.top in
    record {
      left = left;
      top = top;
      width = clamp r.width 2 (sub_u32 f.width left);
      height = clamp r.height 2 (sub_u32 f.height top);
    }

set_crop : FormatType → Target → Rect → Ctx → Ret × Ctx
set_crop picture crop r ctx = (ok, record ctx { selection = crop_rect ctx.format_picture r })
set_crop t target r ctx = (err einval, ctx)

pub s_selection : Proc → Bool → Target → Rect → Ctx → Ret × Ctx
s_selection p output target r ctx = set_crop (proc_format_type p.role output) target r ctx

pub g_parm : Proc → Bool → Ctx → ℕ × ℕ
g_parm p output ctx = elim (proc_format_type p.role output) [
  | coded ↦ ctx.timeperframe_coded
  | picture ↦ ctx.timeperframe_picture
]

pub set_parm : FormatType → ℕ × ℕ → Ctx → Ctx
set_parm coded t ctx = record ctx { timeperframe_coded = t }
set_parm picture t ctx = record ctx { timeperframe_picture = t; timeperframe_coded = t }

-- The interval that is returned, and the context.
pub s_parm : Proc → Bool → ℕ × ℕ → Ctx → (ℕ × ℕ) × Ctx
s_parm p output (numerator, denominator) ctx =
    if numerator == 0 || denominator == 0 then (g_parm p output ctx, ctx) else (
      (numerator, denominator),
      set_parm (proc_format_type p.role output) (numerator, denominator) ctx,
    )

pub g_fmt : Proc → Bool → Ctx → PixFormat
g_fmt p output ctx = get_format (proc_format_type p.role output) ctx

module _ (apply : FrmSize → ℕ × ℕ → ℕ × ℕ) where
  -- With the prepared format.
  pub store_format : Proc → FormatType → Ret × PixFormat → Ctx → Ret × Ctx
  store_format p t (err e, f) ctx = (err e, ctx)
  store_format p t (ok, f) ctx =
      update_after p t (role_propagate apply p.role p t (set_format t f ctx))

  pub s_fmt : Proc → Queues → Bool → PixFormat → Ctx → Ret × Ctx
  s_fmt p q output f ctx =
      let t = proc_format_type p.role output in
      if not (dynamic_check p.role q output ctx f) && busy_check q output
      then (err einval, ctx)
      else store_format p t (format_prepare apply p t ctx f) ctx

  pub try_fmt : Proc → Bool → PixFormat → Ctx → Ret × PixFormat
  try_fmt p output f ctx = format_prepare apply p (proc_format_type p.role output) ctx f

  -- The end of the set-up of an encoder, with the prepared picture format.
  enc_setup_with : Proc → Ret × PixFormat → Ctx → Ret × Ctx
  enc_setup_with p (err e, f) ctx = (err e, record ctx { format_picture = f })
  enc_setup_with p (ok, f) ctx =
      let (ret, ctx) = role_propagate apply encoder p picture (record ctx { format_picture = f }) in
      elim ret [
        | err e ↦ (err e, ctx)
        | ok ↦ (ok, record ctx { timeperframe_coded = ctx.timeperframe_picture })
      ]

  dec_setup_with : Proc → Ret × PixFormat → Ctx → Ret × Ctx
  dec_setup_with p (err e, f) ctx = (err e, record ctx { format_coded = f })
  dec_setup_with p (ok, f) ctx =
      role_propagate apply decoder p coded (record ctx { format_coded = f })

  -- On a context that cedrus_context_setup has given an engine.
  pub format_setup : Role → Proc → Ctx → Ret × Ctx
  format_setup encoder p ctx =
      let f = record ctx.format_picture {
        pixelformat = format_find_first p.formats picture;
        width = 1280;
        height = 720;
      } in
      enc_setup_with p (format_prepare apply p picture ctx f)
        (record ctx { timeperframe_picture = (1, 25) })
  format_setup decoder p ctx =
      let f = record ctx.format_coded {
        pixelformat = ctx.engine.pixelformat;
        width = 1280;
        height = 720;
      } in
      dec_setup_with p (format_prepare apply p coded ctx f) ctx
