-- ===== src/Vp9Dec/Scale/Fields.antt =====
-- The fields of the scale registers.
use h618_vpu_port.Base.{
  ℕ, ◌+◌, ◌-◌, ◌*◌, ◌/◌, ◌%◌, ◌^◌, ◌≤◌, ◌<◌, ◌≡◌, ap, ap₂, ◌∙◌, true, u32, bit_or, arith,
}
use h618_vpu_port.Base.Bits.{bit_or-shift}
use h618_vpu_port.Vp9Dec.Scale.{valid_reference_size, scale_of, low_step, scale, golden_scale1}
use native.Mathlib.Nat.{le-div_iff_mul-le, div-le_of_le-mul}

-- One axis of two sizes of which `valid_reference_size` is true.
pub scale_of_bounds :
    (reference size : ℕ)
    → 0 < size
    → reference ≤ 2 * size
    → size ≤ 16 * reference
    → reference ≤ 2 ^ 16
    → (scale_of reference size ≡ reference * 2 ^ 14 / size)
      × (2 ^ 10 ≤ scale_of reference size)
      × (scale_of reference size ≤ 2 ^ 15)
scale_of_bounds reference size p h k b =
    let e : u32 (reference * 2 ^ 14) ≡ reference * 2 ^ 14 = omega arith in
    let eq : scale_of reference size ≡ reference * 2 ^ 14 / size = ap (λ z. z / size) e in
    let lo : 2 ^ 10 ≤ reference * 2 ^ 14 / size = (le-div_iff_mul-le p).1 (omega arith) in
    let hi : reference * 2 ^ 14 / size ≤ 2 ^ 15 = div-le_of_le-mul size (omega arith) in
    (eq, omega arith, omega arith)

low_step_lem : (s : ℕ) → 2 ^ 10 ≤ s → s ≤ 2 ^ 15 → low_step (s / 2 ^ 10) ≡ s / 2 ^ 10 - 1
low_step_lem s a b = omega arith

-- The words as sums.
scale_sum :
    (id s : ℕ)
    → id < 16
    → 2 ^ 10 ≤ s
    → s ≤ 2 ^ 15
    → bit_or (bit_or (u32 (id * 2 ^ 28)) (u32 (s * 2 ^ 5))) (low_step (s / 2 ^ 10))
      ≡ id * 2 ^ 28 + s * 2 ^ 5 + (s / 2 ^ 10 - 1)
scale_sum id s h a b =
    let i : u32 (id * 2 ^ 28) ≡ id * 2 ^ 28 = omega arith in
    let j : u32 (s * 2 ^ 5) ≡ s * 2 ^ 5 = omega arith in
    let one : bit_or (u32 (id * 2 ^ 28)) (u32 (s * 2 ^ 5)) ≡ (id * 2 ^ 23 + s) * 2 ^ 5 =
      ap₂ bit_or i j ∙ bit_or-shift 28 id (s * 2 ^ 5) (omega arith) ∙ omega arith in
    ap₂ bit_or one (low_step_lem s a b)
    ∙ bit_or-shift 5 (id * 2 ^ 23 + s) (s / 2 ^ 10 - 1) (omega arith)
    ∙ omega arith

golden_sum :
    (s : ℕ)
    → 2 ^ 10 ≤ s
    → s ≤ 2 ^ 15
    → bit_or (u32 (s * 2 ^ 16)) (low_step (s / 2 ^ 10)) ≡ s * 2 ^ 16 + (s / 2 ^ 10 - 1)
golden_sum s a b =
    let i : u32 (s * 2 ^ 16) ≡ s * 2 ^ 16 = omega arith in
    ap₂ bit_or i (low_step_lem s a b) ∙ bit_or-shift 16 s (s / 2 ^ 10 - 1) (omega arith)

-- Both sizes are in the range that the code accepts, on both axes.
accepted :
    (ref_width ref_height width height : ℕ)
    → valid_reference_size ref_width ref_height width height ≡ true
    → width ≤ 2 ^ 16
    → height ≤ 2 ^ 16
    → ref_width ≤ 2 ^ 16
    → ref_height ≤ 2 ^ 16
    → (ref_width ≤ 2 * width)
      × (ref_height ≤ 2 * height)
      × (width ≤ 16 * ref_width)
      × (height ≤ 16 * ref_height)
unfolding valid_reference_size
accepted ref_width ref_height width height v a b c d = ground arith

-- For sizes of at most 2 ^ 16 of which `valid_reference_size` is true, and a reference below 16, the word
-- of `scale` has three fields that do not overlap: the reference from bit 28, the factor reference / current
-- in fourteen bits of fraction from bit 5, and below it the factor in four bits of fraction, less one. The
-- factor is from 1/16 to 2. The word of `golden_scale1` has the factor from bit 16 and the same step.
pub scale_fields :
    (ref_width ref_height width height id : ℕ)
    → valid_reference_size ref_width ref_height width height ≡ true
    → 0 < width
    → width ≤ 2 ^ 16
    → 0 < height
    → height ≤ 2 ^ 16
    → ref_width ≤ 2 ^ 16
    → ref_height ≤ 2 ^ 16
    → id < 16
    → (scale ref_width width id / 2 ^ 28 ≡ id)
      × (scale ref_width width id / 2 ^ 5 % 2 ^ 23 ≡ ref_width * 2 ^ 14 / width)
      × (scale ref_width width id % 2 ^ 5 + 1 ≡ ref_width * 2 ^ 14 / width / 2 ^ 10)
      × (2 ^ 10 ≤ ref_width * 2 ^ 14 / width)
      × (ref_width * 2 ^ 14 / width ≤ 2 ^ 15)
      × (golden_scale1 ref_height height / 2 ^ 16 ≡ ref_height * 2 ^ 14 / height)
      × (golden_scale1 ref_height height % 2 ^ 16 + 1 ≡ ref_height * 2 ^ 14 / height / 2 ^ 10)
unfolding scale golden_scale1
scale_fields ref_width ref_height width height id v w wb h hb rb sb i =
    let (a, b, c, d) = accepted ref_width ref_height width height v wb hb rb sb in
    let x = scale_of_bounds ref_width width w a c rb in
    let y = scale_of_bounds ref_height height h b d sb in
    let e = scale_sum id (scale_of ref_width width) i x.1 x.2 in
    let g = golden_sum (scale_of ref_height height) y.1 y.2 in
    (
      omega (arith, e, x.0, x.1, x.2),
      omega (arith, e, x.0, x.1, x.2),
      omega (arith, e, x.0, x.1, x.2),
      omega (arith, x.0, x.1, x.2),
      omega (arith, x.0, x.1, x.2),
      omega (arith, g, y.0, y.1, y.2),
      omega (arith, g, y.0, y.1, y.2),
    )
