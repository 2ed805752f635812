-- ===== src/Proc/Tests.antt =====
-- The two processors with an engine each, and a function in the place of v4l2_apply_frmsize_constraints.
use h618_vpu_port.Base.{
  ℕ, ◌*◌, ◌/◌, ◌^◌, ◌<◌, ◌≤◌, ◌≡◌, ◌⊎◌, true, false, some, ok, err, einval, List, [], ◌∷◌, enodev,
  enomem, if◌then◌else◌, ◌==◌, not, map, length, min, max, refl, ap₂, inl, arith,
}
use h618_vpu_port.Device.Dma.{Device}
use h618_vpu_port.Proc.Tables.{
  FrmSize, Engine, coded, picture, Proc, encoder, engines_setup, format_find_first, same_type,
  engine_usable,
}
use h618_vpu_port.Proc.Tables.Setup.{kept, engines_setup-eq-kept}
use h618_vpu_port.Proc.Formats.{PixFormat, Rect, Ctx, Queues, nv12, format_prepare}
use h618_vpu_port.Proc.Formats.Constrain.{Constrains, IsEngine, IsFrmSize, InRange}
use h618_vpu_port.Proc.Formats.Idempotent.{format_prepare_again}
use h618_vpu_port.Proc.Ioctls.{s_fmt, s_selection, crop}
use h618_vpu_port.Proc.Ioctls.Dynamic.{IsDynamic, s_fmt_busy}
use h618_vpu_port.Proc.Ioctls.Invariant.{IsNegotiated, IsTable}
use h618_vpu_port.Proc.Ioctls.Reach.{here, after, selection}
use h618_vpu_port.Proc.Configure.{enc_picture_configure, role_configure, isp_pic_stride0_reg}
use h618_vpu_port.Proc.Configure.Accepts.{last_write, Reach-configure, enc_picture_configure_stride}

-- Into the range of the sizes, without their steps.
abbrev clamp_size : FrmSize → ℕ × ℕ → ℕ × ℕ
clamp_size s (w, h) = (min s.max_width (max s.min_width w), min s.max_height (max s.min_height h))

clamp_range : (s : FrmSize) (size : ℕ × ℕ) → IsFrmSize s → InRange s (clamp_size s size)
clamp_range s (w, h) i = (omega arith, omega arith, omega arith, omega arith)

clamp_again :
    (s : FrmSize) (size : ℕ × ℕ)
    → IsFrmSize s
    → clamp_size s (clamp_size s size) ≡ clamp_size s size
clamp_again s (w, h) i = ap₂ (λ (a b : ℕ). (a, b)) (omega arith) (omega arith)

clamp-Constrains : Constrains clamp_size
clamp-Constrains = record { in_range = clamp_range; idempotent = clamp_again }

abbrev h264_sizes : FrmSize
h264_sizes = record {
  min_width = 16;
  max_width = 3840;
  step_width = 2;
  min_height = 16;
  max_height = 2160;
  step_height = 2;
}

abbrev h264_engine : Engine
h264_engine = record {
  capabilities = 0;
  pixelformat = 0x34363248;
  slice_based = true;
  frmsize = some h264_sizes;
}

abbrev h264_encoder : Proc
h264_encoder = record {
  role = encoder;
  engines = h264_engine ∷ [];
  formats =
      record { pixelformat = 0x34363248; capabilities = 0; format_type = coded }
      ∷ record { pixelformat = nv12; capabilities = 0; format_type = picture }
      ∷ [];
}

abbrev blank : PixFormat
blank = record {
  pixelformat = 0;
  width = 0;
  height = 0;
  bytesperline = 0;
  sizeimage = 0;
  field = 0;
  colorspace = 0;
  xfer_func = 0;
  ycbcr_enc = 0;
  quantization = 0;
}

abbrev full_hd : PixFormat
full_hd = record blank {
  pixelformat = nv12;
  width = 1920;
  height = 1080;
  bytesperline = 1920;
  sizeimage = 3110400;
  field = 1;
}

abbrev encoding : Ctx
encoding = record {
  engine = h264_engine;
  hold_capture = true;
  format_coded = record full_hd { pixelformat = 0x34363248; bytesperline = 0 };
  format_picture = full_hd;
  selection = record { left = 0; top = 0; width = 1920; height = 1080 };
  timeperframe_coded = (1, 25);
  timeperframe_picture = (1, 25);
}

encoding-IsEngine : IsEngine 4096 4096 h264_engine.frmsize
encoding-IsEngine = omega arith

format_prepare_again_example :
    let f = record blank { width = 4000; height = 1080 } in
    format_prepare clamp_size h264_encoder picture encoding
      (format_prepare clamp_size h264_encoder picture encoding f).1
    ≡ format_prepare clamp_size h264_encoder picture encoding f
format_prepare_again_example =
    format_prepare_again clamp_size clamp-Constrains 4096 4096 (omega arith) h264_encoder picture
      encoding (record blank { width = 4000; height = 1080 }) encoding-IsEngine

abbrev idle_queues : Queues
idle_queues = record {
  output_busy = false;
  output_streaming = false;
  capture_busy = false;
  capture_streaming = false;
}

s_fmt_busy_example :
    let q = record idle_queues { output_busy = true } in
    (s_fmt clamp_size h264_encoder q true blank encoding ≡ (err einval, encoding))
    ⊎ IsDynamic encoder q true encoding blank
s_fmt_busy_example =
    s_fmt_busy clamp_size h264_encoder (record idle_queues { output_busy = true }) true blank
      encoding refl

h264_encoder-IsTable : IsTable h264_encoder
unfolding format_find_first same_type
h264_encoder-IsTable = record {
  engines = (encoding-IsEngine, tt);
  formats = (λ h. elim (h refl) [ ], (λ h. inl refl, tt));
  first = inl refl;
}

encoding-IsNegotiated : IsNegotiated encoder encoding
encoding-IsNegotiated = (
  encoding-IsEngine,
  omega arith,
  (omega arith, omega arith, omega arith),
  refl,
  (inl (omega arith), inl (omega arith)),
)

abbrev halved : Rect
halved = record { left = 960; top = 540; width = 960; height = 540 }

abbrev cropped : Ctx
cropped = (s_selection h264_encoder true crop halved encoding).1

abbrev device : Device
device = record { capabilities = 0; dma_offset = 0x40000000; enc_addr_shift = 8 }

-- One without a pixel format, which is skipped.
abbrev offered : List Engine
offered = record h264_engine { pixelformat = 0 } ∷ h264_engine ∷ []

engines_setup-eq-kept_example :
    let es = kept (engine_usable device) offered in
    engines_setup device true offered ≡ (
      if length es == 0
      then (err enodev, [])
      else if not true
      then (err enomem, [])
      else (ok, map some es))
engines_setup-eq-kept_example = engines_setup-eq-kept device true offered

Reach-configure_example : (role_configure encoder device 0x50000000 0x50200000 cropped).0 ≡ ok
Reach-configure_example =
    Reach-configure clamp_size clamp-Constrains h264_encoder h264_encoder-IsTable encoding cropped
      device 0x50000000 0x50200000 encoding-IsNegotiated (after here (selection true crop halved))

enc_picture_configure_stride_example :
    let stride =
      last_write isp_pic_stride0_reg
        (enc_picture_configure device 0x50000000 0x50200000 encoding).1
        0
      / 2 ^ 16 in
    ((1920 < 32768) × (stride * 16 ≡ 1920)) ⊎ ((32768 ≤ 1920) × (stride * 16 < 1920))
enc_picture_configure_stride_example =
    enc_picture_configure_stride device 0x50000000 0x50200000 encoding 0 encoding-IsNegotiated
