-- ===== src/Vp9Dec/Sram/Quantisers.antt =====
-- The quantisers of a segment read back.
use h618_vpu_port.Base.{
  ℕ, zero, suc, ◌*◌, ◌/◌, ◌%◌, ◌^◌, ◌≤◌, ◌<◌, ◌≡◌, refl, sym, ap, ◌∙◌, Bool, true, if◌then◌else◌,
  ◌==◌, ◌&&◌, ltb, Bool-cases, inl, inr, u32, bit_or, List, [], ◌∷◌, get_or, ℤ, pos, arith,
}
use h618_vpu_port.Base.Bits.{bit_or-shift_low}
use h618_vpu_port.Vp9Dec.Sram.Lookup.{dc_qlookup, ac_qlookup, dc_qlookup_10, ac_qlookup_10}
use h618_vpu_port.Vp9Dec.Sram.{
  ◌+ℤ◌, clamp_int, Segmentation, Quantization, seg_lvl_alt_q, segment_value, dequant_entry,
}
use h618_vpu_port.Vp9Dec.Sram.Reads.{value_of, segment_value_lem}

abbrev below : List ℕ → Bool
below [] = true
below (x ∷ xs) = ltb x (2 ^ 16) && below xs

get_or-below : (xs : List ℕ) (i : ℕ) → below xs ≡ true → get_or xs i 0 < 2 ^ 16
get_or-below [] i h = omega arith
get_or-below (x ∷ xs) zero h = ground arith
get_or-below (x ∷ xs) (suc i) h = get_or-below xs i (ground arith)

-- dc_q and ac_q of the VP9 specification.
abbrev pub dc_q : (bit_depth : ℕ) → ℤ → ℕ
dc_q bit_depth b =
    get_or (if bit_depth == 10 then dc_qlookup_10 else dc_qlookup) (clamp_int b 255) 0

abbrev pub ac_q : (bit_depth : ℕ) → ℤ → ℕ
ac_q bit_depth b =
    get_or (if bit_depth == 10 then ac_qlookup_10 else ac_qlookup) (clamp_int b 255) 0

-- get_qindex of the specification.
abbrev pub qindex : Segmentation → (segment base : ℕ) → ℕ
qindex seg segment base = clamp_int (value_of seg segment seg_lvl_alt_q base) 255

dc_q-lt : (bit_depth : ℕ) (b : ℤ) → dc_q bit_depth b < 2 ^ 16
dc_q-lt bit_depth b = elim (Bool-cases (bit_depth == 10)) [
  | inl e ↦ rw e (get_or-below dc_qlookup_10 (clamp_int b 255) refl)
  | inr e ↦ rw e (get_or-below dc_qlookup (clamp_int b 255) refl)
]

ac_q-lt : (bit_depth : ℕ) (b : ℤ) → ac_q bit_depth b < 2 ^ 16
ac_q-lt bit_depth b = elim (Bool-cases (bit_depth == 10)) [
  | inl e ↦ rw e (get_or-below ac_qlookup_10 (clamp_int b 255) refl)
  | inr e ↦ rw e (get_or-below ac_qlookup (clamp_int b 255) refl)
]

halves :
    (lo hi : ℕ)
    → lo < 2 ^ 16
    → hi < 2 ^ 16
    → (bit_or lo (u32 (hi * 2 ^ 16)) % 2 ^ 16 ≡ lo) × (bit_or lo (u32 (hi * 2 ^ 16)) / 2 ^ 16 ≡ hi)
halves lo hi h k =
    let e : u32 (hi * 2 ^ 16) ≡ hi * 2 ^ 16 = omega arith in
    let s = ap (bit_or lo) e ∙ bit_or-shift_low 16 lo hi h in (omega (arith, s), omega (arith, s))

-- If the index of a segment is from 0 to 255 before any delta of the frame, the words of the segment hold the
-- quantisers of the VP9 specification: DC below and AC above, with luma's in the first word and chroma's in
-- the second, each delta added to the segment's index.
pub dequant_entry_quantisers :
    (bit_depth : ℕ) (seg : Segmentation) (quant : Quantization) (segment v : ℕ)
    → value_of seg segment seg_lvl_alt_q quant.base_q_idx ≡ pos v
    → v ≤ 255
    → let q : ℤ = pos (qindex seg segment quant.base_q_idx) in
      let (y, uv) = dequant_entry bit_depth seg quant segment in
      (y % 2 ^ 16 ≡ dc_q bit_depth (q +ℤ quant.delta_q_y_dc))
      × (y / 2 ^ 16 ≡ ac_q bit_depth q)
      × (uv % 2 ^ 16 ≡ dc_q bit_depth (q +ℤ quant.delta_q_uv_dc))
      × (uv / 2 ^ 16 ≡ ac_q bit_depth (q +ℤ quant.delta_q_uv_ac))
unfolding dequant_entry
dequant_entry_quantisers bit_depth seg quant segment v e h =
    let s = segment_value seg segment seg_lvl_alt_q (pos quant.base_q_idx) in
    let l = segment_value_lem seg segment seg_lvl_alt_q quant.base_q_idx in
    let w : qindex seg segment quant.base_q_idx ≡ v = ap (λ z. clamp_int z 255) e ∙ omega arith in
    let q : s ≡ pos (qindex seg segment quant.base_q_idx) = l ∙ e ∙ ap pos (sym w) in
    let dy = quant.delta_q_y_dc in
    let du = quant.delta_q_uv_dc in
    let da = quant.delta_q_uv_ac in
    let y =
      halves (dc_q bit_depth (s +ℤ dy)) (ac_q bit_depth s) (dc_q-lt bit_depth (s +ℤ dy))
        (ac_q-lt bit_depth s) in
    let uv =
      halves (dc_q bit_depth (s +ℤ du)) (ac_q bit_depth (s +ℤ da)) (dc_q-lt bit_depth (s +ℤ du))
        (ac_q-lt bit_depth (s +ℤ da)) in
    (
      y.0 ∙ ap (λ z. dc_q bit_depth (z +ℤ dy)) q,
      y.1 ∙ ap (ac_q bit_depth) q,
      uv.0 ∙ ap (λ z. dc_q bit_depth (z +ℤ du)) q,
      uv.1 ∙ ap (λ z. ac_q bit_depth (z +ℤ da)) q,
    )
