-- ===== src/Vp9Dec/Scale.antt =====
-- cedrus-v4l2/cedrus_dec_vp9.c: which references a frame may have, and the scale registers for them.
pub mod Fields
use h618_vpu_port.Base.{
  ℕ, ◌+◌, ◌-◌, ◌*◌, ◌/◌, ◌%◌, ◌^◌, Bool, ◌&&◌, leb, u32, sub_u32, bit_or, bit_and,
}

unfoldable pub valid_reference_size : (ref_width ref_height width height : ℕ) → Bool
valid_reference_size ref_width ref_height width height =
    leb ref_width (u32 (2 * width))
    && (leb ref_height (u32 (2 * height))
        && (leb width (u32 (16 * ref_width)) && leb height (u32 (16 * ref_height))))

-- The factor and the step of both functions; `>> 10` is a division.
abbrev pub scale_of : ℕ → ℕ → ℕ
scale_of reference current_size = u32 (reference * 2 ^ 14) / current_size

abbrev pub step_of : ℕ → ℕ → ℕ
step_of reference current_size = scale_of reference current_size / 2 ^ 10

-- (step - 1) & 0x1f
abbrev pub low_step : ℕ → ℕ
low_step step = sub_u32 step 1 % 2 ^ 5

unfoldable pub scale : (reference current_size reference_id : ℕ) → ℕ
scale reference current_size reference_id =
    bit_or (bit_or (u32 (reference_id * 2 ^ 28)) (u32 (scale_of reference current_size * 2 ^ 5)))
      (low_step (step_of reference current_size))

unfoldable pub golden_scale1 : (reference current_size : ℕ) → ℕ
golden_scale1 reference current_size =
    bit_or (u32 (scale_of reference current_size * 2 ^ 16))
      (low_step (step_of reference current_size))
