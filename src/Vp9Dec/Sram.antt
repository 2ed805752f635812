-- ===== src/Vp9Dec/Sram.antt =====
-- cedrus-v4l2/cedrus_dec_vp9.c: the tables that a job writes into the memory of the engine, the quantisers and
-- the levels of the loop filter of every segment. Int away from its bounds is an integer.
pub mod Lookup
pub mod Reads
pub mod Quantisers
use h618_vpu_port.Base.{
  ℕ, ◌+◌, ◌-◌, ◌*◌, ◌/◌, ◌^◌, min, Bool, true, false, not, ◌&&◌, ◌||◌, if◌then◌else◌, ◌==◌, ltb,
  u32, bit_and, bit_or, List, [], ◌∷◌, ◌++◌, map, get_or, ℤ, pos, negsuc, diff,
}
use h618_vpu_port.Device.Regs.{Write}
use h618_vpu_port.Vp9Dec.Sram.Lookup.{dc_qlookup, ac_qlookup, dc_qlookup_10, ac_qlookup_10}

infixl 60 ◌+ℤ◌
abbrev pub ◌+ℤ◌ : ℤ → ℤ → ℤ
pos a +ℤ pos b = pos (a + b)
pos a +ℤ negsuc b = diff a (b + 1)
negsuc a +ℤ pos b = diff b (a + 1)
negsuc a +ℤ negsuc b = negsuc (a + b + 1)

-- A product with a positive number.
abbrev pub times : ℤ → ℕ → ℤ
times (pos a) n = pos (a * n)
times (negsuc a) n = negsuc ((a + 1) * n - 1)

-- clamp_t(int, x, 0, hi)
abbrev pub clamp_int : ℤ → ℕ → ℕ
clamp_int (pos a) hi = min a hi
clamp_int (negsuc a) hi = 0

-- struct v4l2_vp9_segmentation; feature_enabled has a mask of each segment.
pub record Segmentation : Type 0 where
  pub enabled : Bool
  pub abs_or_delta_update : Bool
  pub feature_enabled : List ℕ
  pub feature_data : List (List ℤ)

pub record Quantization : Type 0 where
  pub base_q_idx : ℕ
  pub delta_q_y_dc : ℤ
  pub delta_q_uv_dc : ℤ
  pub delta_q_uv_ac : ℤ

pub record LoopFilter : Type 0 where
  pub level : ℕ
  pub delta_enabled : Bool
  pub ref_deltas : List ℤ
  pub mode_deltas : List ℤ

abbrev pub seg_lvl_alt_q : ℕ
seg_lvl_alt_q = 0

abbrev pub seg_lvl_alt_l : ℕ
seg_lvl_alt_l = 1

abbrev pub feature_active : Segmentation → (segment feature : ℕ) → Bool
feature_active seg segment feature =
    seg.enabled && not (bit_and (get_or seg.feature_enabled segment 0) (2 ^ feature) == 0)

-- cedrus_vp9_segment_value
unfoldable pub segment_value : Segmentation → (segment feature : ℕ) → (base : ℤ) → ℤ
segment_value seg segment feature base =
    let value = get_or (get_or seg.feature_data segment []) feature (pos 0) in
    if not seg.enabled || bit_and (get_or seg.feature_enabled segment 0) (2 ^ feature) == 0
    then base
    else if not seg.abs_or_delta_update
    then value +ℤ base
    else value

abbrev pub clamp_q : ℤ → ℕ
clamp_q q = clamp_int q 255

abbrev pub segments : List ℕ
segments = 0 ∷ 1 ∷ 2 ∷ 3 ∷ 4 ∷ 5 ∷ 6 ∷ 7 ∷ []

-- The body of the loop of cedrus_vp9_dequant_write, y[segment] and uv[segment].
unfoldable pub dequant_entry : (bit_depth : ℕ) → Segmentation → Quantization → (segment : ℕ) → ℕ × ℕ
dequant_entry bit_depth seg quant segment =
    let dc = if bit_depth == 10 then dc_qlookup_10 else dc_qlookup in
    let ac = if bit_depth == 10 then ac_qlookup_10 else ac_qlookup in
    let q = segment_value seg segment seg_lvl_alt_q (pos quant.base_q_idx) in
    let y_dc_q = clamp_q (q +ℤ quant.delta_q_y_dc) in
    let uv_dc_q = clamp_q (q +ℤ quant.delta_q_uv_dc) in
    let uv_ac_q = clamp_q (q +ℤ quant.delta_q_uv_ac) in
    let q = clamp_q q in
    (
      bit_or (get_or dc y_dc_q 0) (u32 (get_or ac q 0 * 2 ^ 16)),
      bit_or (get_or dc uv_dc_q 0) (u32 (get_or ac uv_ac_q 0 * 2 ^ 16)),
    )

-- The arrays are zero where the loop does not come.
unfoldable pub dequant_tables : (bit_depth : ℕ) → Segmentation → Quantization → List (ℕ × ℕ)
dequant_tables bit_depth seg quant =
    map
      (λ segment.
        if ltb segment (if seg.enabled then 8 else 1)
        then dequant_entry bit_depth seg quant segment
        else (0, 0))
      segments

abbrev pub filter_level : ℤ → ℕ
filter_level level = clamp_int level 63

-- intra, and the levels of a reference and a mode, from the level of the segment.
unfoldable pub intra_level : LoopFilter → (level : ℕ) → ℕ
intra_level lf level =
    let scale = 2 ^ (level / 2 ^ 5) in
    if lf.delta_enabled
    then filter_level (pos level +ℤ times (get_or lf.ref_deltas 0 (pos 0)) scale)
    else level

unfoldable pub inter_level : LoopFilter → (level reference mode : ℕ) → ℕ
inter_level lf level reference mode =
    let scale = 2 ^ (level / 2 ^ 5) in
    if lf.delta_enabled
    then filter_level (
        pos level
        +ℤ times (get_or lf.ref_deltas reference (pos 0)) scale
        +ℤ times (get_or lf.mode_deltas mode (pos 0)) scale)
    else level

-- The body of the loop of cedrus_vp9_loop_filter_write, values[2 * segment] and the next.
unfoldable pub loop_filter_entry : Segmentation → LoopFilter → (segment : ℕ) → ℕ × ℕ
loop_filter_entry seg lf segment =
    let level = filter_level (segment_value seg segment seg_lvl_alt_l (pos lf.level)) in
    let intra = intra_level lf level in
    let last0 = inter_level lf level 1 0 in
    let last1 = inter_level lf level 1 1 in
    let golden0 = inter_level lf level 2 0 in
    let golden1 = inter_level lf level 2 1 in
    let alt0 = inter_level lf level 3 0 in
    let alt1 = inter_level lf level 3 1 in
    (
      bit_or (bit_or intra (u32 (last0 * 2 ^ 16))) (u32 (last1 * 2 ^ 24)),
      bit_or (bit_or (bit_or golden0 (u32 (golden1 * 2 ^ 8))) (u32 (alt0 * 2 ^ 16)))
          (u32 (alt1 * 2 ^ 24)),
    )

abbrev pub sram_offset_reg : ℕ
sram_offset_reg = 0x500 + 0xe0

abbrev pub sram_data_reg : ℕ
sram_data_reg = 0x500 + 0xe4

-- cedrus_vp9_sram_write: the data port moves on by itself.
unfoldable pub sram_write : (offset : ℕ) → List ℕ → List Write
sram_write offset values = (sram_offset_reg, offset) ∷ map (λ v. (sram_data_reg, v)) values

-- cedrus_vp9_dequant_write; the second table stands behind the 32 bytes of the first.
unfoldable pub dequant_write : (bit_depth : ℕ) → Segmentation → Quantization → List Write
unfolding sram_write
dequant_write bit_depth seg quant =
    let tables = dequant_tables bit_depth seg quant in
    sram_write 0 (map (λ e. e.0) tables) ++ sram_write 32 (map (λ e. e.1) tables)

abbrev pub flatten : List (ℕ × ℕ) → List ℕ
flatten [] = []
flatten ((a, b) ∷ es) = a ∷ b ∷ flatten es

-- cedrus_vp9_loop_filter_write
unfoldable pub loop_filter_write : Segmentation → LoopFilter → List Write
unfolding sram_write
loop_filter_write seg lf = sram_write 0x100 (flatten (map (loop_filter_entry seg lf) segments))
